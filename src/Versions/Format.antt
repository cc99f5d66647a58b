-- ===== src/Versions/Format.antt =====
-- ParseVersion and Version.String of pkg/versions/versions.go.
use wazuh_operator.Common.{
  ℕ, ◌<◌, ◌≡◌, [], ◌∷◌, ◌++◌, arith, pos, Bytes, codes, All, IsDigit, show_ℕ, show_ℤ, show_ℕ-All,
  show_ℕ-StartsWithDigit, StartsWithDigit, atoi-show_ℕ, Lacks, split_first, split-Lacks,
  trim_prefix, strip_prefix, split,
}
use wazuh_operator.Kube.{ok}
use wazuh_operator.Versions.{Version, parse_parts, parse_version, show_version}

Lacks-of_digits : (sep : ℕ) (s : Bytes) → sep < b'0' → All IsDigit s → Lacks sep s
Lacks-of_digits sep [] h d = tt
Lacks-of_digits sep (c ∷ s) h ((d, d'), ds) =
    (λ e. absurd (omega (arith, e)), Lacks-of_digits sep s h ds)

trim_digit : (s t : Bytes) → StartsWithDigit s → trim_prefix (codes "v") (s ++ t) ≡ s ++ t
unfolding trim_prefix strip_prefix
trim_digit [] t d = absurd d
trim_digit (c ∷ s) t d = ground arith

abbrev pub numbers : ℕ → ℕ → ℕ → Version
numbers a b c = record { major = pos a; minor = pos b; patch = pos c }

split_three :
    (a b c : ℕ) → split b'.' (show_version (numbers a b c)) ≡ show_ℕ a ∷ show_ℕ b ∷ show_ℕ c ∷ []
unfolding show_version show_ℤ
split_three a b c =
    let dot = λ (n : ℕ). Lacks-of_digits b'.' (show_ℕ n) (omega arith) (show_ℕ-All n) in
    rw (split_first b'.' (show_ℕ a) (show_ℕ b ++ (codes "." ++ show_ℕ c)) (dot a)) (
      rw (split_first b'.' (show_ℕ b) (show_ℕ c) (dot b))
        (rw (split-Lacks b'.' (show_ℕ c) (dot c))))

-- A version of three numbers that are not negative and that an int64 holds is read back from the text
-- that String prints.
pub parse-show_version :
    (a b c : ℕ)
    → a < 9223372036854775808
    → b < 9223372036854775808
    → c < 9223372036854775808
    → parse_version (show_version (numbers a b c)) ≡ ok (numbers a b c)
unfolding parse_version parse_parts
parse-show_version a b c ha hb hc =
    let dash =
      split-Lacks b'-' (show_ℕ c) (Lacks-of_digits b'-' (show_ℕ c) (omega arith) (show_ℕ-All c)) in
    let rest = codes "." ++ (show_ℕ b ++ (codes "." ++ show_ℕ c)) in
    let trimmed : trim_prefix (codes "v") (show_version (numbers a b c))
        ≡ show_version (numbers a b c) =
      unfold show_version show_ℤ in trim_digit (show_ℕ a) rest (show_ℕ-StartsWithDigit a) in
    ground (
      arith,
      trimmed,
      split_three a b c,
      dash,
      atoi-show_ℕ a ha,
      atoi-show_ℕ b hb,
      atoi-show_ℕ c hc,
    )
