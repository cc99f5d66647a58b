-- ===== src/Common/Text.antt =====
-- Go strings as lists of bytes; printing and reading of decimal numbers (fmt's %d, strconv.Atoi).
use Prim.Native.Char.{code}
use Prim.Native.String.{String}
use Prim.Native.Nat.{ℕ, zero, suc, ◌+◌, ◌-◌, ◌*◌, ◌/◌, ◌%◌, ◌^◌, ◌≤◌, ◌<◌}
use mathlib.Core.Path.{◌≡◌, refl, sym, ap, ◌∙◌}
use mathlib.Core.Logic.{◌↔◌}
use mathlib.Core.Bool.{Bool, true, false, ◌&&◌, ◌||◌}
use mathlib.Core.List.{List, [], ◌∷◌, ◌++◌}
use mathlib.Core.Option.{Option, none, some}
use native.Mathlib.Omega.{arith}
use wazuh_operator.Common.Tests.{ltb, leb, ◌==◌, if◌then◌else◌}
use wazuh_operator.Common.Lists.{All}
use wazuh_operator.Common.Int.{ℤ, pos, negsuc}

abbrev pub Bytes : Type 0
Bytes = List ℕ

-- The code points of a literal: its bytes, as it is ASCII.
abbrev pub codes : String → Bytes
codes String.[] = []
codes (String.◌∷◌ c s) = code c ∷ codes s

unfoldable pub bytes_eq : Bytes → Bytes → Bool
bytes_eq [] [] = true
bytes_eq (a ∷ s) (b ∷ t) = a == b && bytes_eq s t
bytes_eq _ _ = false

pub bytes_eq→eq : (s t : Bytes) → bytes_eq s t ≡ true → s ≡ t
unfolding bytes_eq
bytes_eq→eq [] [] h = refl
bytes_eq→eq (a ∷ s) (b ∷ t) h = ground (arith, bytes_eq→eq s t)
bytes_eq→eq [] (b ∷ t) h = ground arith
bytes_eq→eq (a ∷ s) [] h = ground arith

pub bytes_eq_refl : (s : Bytes) → bytes_eq s s ≡ true
unfolding bytes_eq
bytes_eq_refl [] = refl
bytes_eq_refl (a ∷ s) = ground (arith, bytes_eq_refl s)

pub bytes_eq_iff : (s t : Bytes) → (bytes_eq s t ≡ true) ↔ (s ≡ t)
bytes_eq_iff s t = (bytes_eq→eq s t, λ e. rw e (bytes_eq_refl t))

-- The digits of n in front of `out`; the last digit is written first. Fuel above n is enough.
unfoldable pub digits : ℕ → ℕ → Bytes → Bytes
digits zero n out = out
digits (suc f) n out =
    let rest = digits f (n / 10) ((b'0' + n % 10) ∷ out) in
    if ltb n 10 then (b'0' + n) ∷ out else rest

unfoldable pub show_ℕ : ℕ → Bytes
unfolding digits
show_ℕ n = digits (suc n) n []

-- `%d` of a signed integer.
unfoldable pub show_ℤ : ℤ → Bytes
unfolding show_ℕ
show_ℤ (pos n) = show_ℕ n
show_ℤ (negsuc n) = b'-' ∷ show_ℕ (suc n)

abbrev pub is_digit : ℕ → Bool
is_digit c = leb b'0' c && leb c b'9'

abbrev pub IsDigit : ℕ → Type 0
IsDigit c = (b'0' ≤ c) × (c ≤ b'9')

-- A reading of digits as far as they go: the value read behind `n`, and what follows.
unfoldable pub scan_digits : ℕ → Bytes → ℕ × Bytes
scan_digits n [] = (n, [])
scan_digits n (c ∷ s) =
    let rest = scan_digits (n * 10 + (c - b'0')) s in if is_digit c then rest else (n, c ∷ s)

-- The same value after the digits of `n` and then `out`, for any `out`.
scan_digits-digits :
    (f n : ℕ) (out : Bytes) → n < f → scan_digits 0 (digits f n out) ≡ scan_digits n out
unfolding digits scan_digits
scan_digits-digits zero n out h = elim h [ ]
scan_digits-digits (suc f) n out h =
    ground (arith, scan_digits-digits f (n / 10) ((b'0' + n % 10) ∷ out))

-- The reading of "%d": an optional sign, then one digit or more; what follows is handed back.
abbrev pub signed : Bool → ℕ → ℤ
signed false n = pos n
signed true zero = pos 0
signed true (suc n) = negsuc n

unfoldable pub read_number : Bool → Bytes → Option (ℤ × Bytes)
unfolding scan_digits
read_number minus [] = none
read_number minus (c ∷ s) =
    let (n, rest) = scan_digits 0 (c ∷ s) in
    if is_digit c then some (signed minus n, rest) else none

unfoldable pub read_int : Bytes → Option (ℤ × Bytes)
unfolding read_number
read_int [] = none
read_int (c ∷ s) =
    if c == b'-'
    then read_number true s
    else if c == b'+'
    then read_number false s
    else read_number false (c ∷ s)

-- Does a value fit into a signed word of w + 1 bits?
abbrev pub fits : ℕ → ℤ → Bool
fits w (pos n) = ltb n (2 ^ w)
fits w (negsuc n) = ltb n (2 ^ w)

-- `strconv.Atoi`: the whole text, in the range of int64; `none` is its error.
unfoldable pub atoi : Bytes → Option ℤ
unfolding read_int
atoi s = elim (read_int s) [
  | none ↦ none
  | some (z, rest) ↦ elim rest [ [] ↦ if fits 63 z then some z else none | c ∷ t ↦ none ]
]

-- What stands behind a prefix.
unfoldable pub strip_prefix : Bytes → Bytes → Option Bytes
strip_prefix [] s = some s
strip_prefix (a ∷ p) [] = none
strip_prefix (a ∷ p) (b ∷ s) = if a == b then strip_prefix p s else none

pub strip_prefix-append : (p s : Bytes) → strip_prefix p (p ++ s) ≡ some s
unfolding strip_prefix
strip_prefix-append [] s = refl
strip_prefix-append (a ∷ p) s = ground (arith, strip_prefix-append p s)

abbrev pub is_blank : ℕ → Bool
is_blank c = c == b' ' || c == 9

unfoldable pub skip_blanks : Bytes → Bytes
skip_blanks [] = []
skip_blanks (c ∷ s) = if is_blank c then skip_blanks s else c ∷ s

-- The first byte of a printed number is a digit, and a digit is neither a sign nor a blank.
abbrev pub StartsWithDigit : Bytes → Type 0
StartsWithDigit [] = ⊥
StartsWithDigit (c ∷ s) = IsDigit c

digits-StartsWithDigit : (f n : ℕ) (out : Bytes) → n < f → StartsWithDigit (digits f n out)
unfolding digits
digits-StartsWithDigit zero n out h = elim h [ ]
digits-StartsWithDigit (suc f) n out h =
    ground (arith, digits-StartsWithDigit f (n / 10) ((b'0' + n % 10) ∷ out))

read_int_of_digits :
    (n : ℕ) (t : Bytes)
    → StartsWithDigit t
    → scan_digits 0 t ≡ (n, [])
    → (read_int t ≡ some (pos n, [])) × (skip_blanks t ≡ t)
unfolding read_int skip_blanks
read_int_of_digits n [] d e = absurd d
read_int_of_digits n (c ∷ s) d e = (ground arith, ground arith)

-- A printed number is read back whole.
pub read_int-show_ℕ :
    (n : ℕ) → (read_int (show_ℕ n) ≡ some (pos n, [])) × (skip_blanks (show_ℕ n) ≡ show_ℕ n)
unfolding show_ℕ scan_digits
read_int-show_ℕ n =
    read_int_of_digits n (digits (suc n) n []) (digits-StartsWithDigit (suc n) n [] (omega arith))
      (scan_digits-digits (suc n) n [] (omega arith))

pub show_ℕ-StartsWithDigit : (n : ℕ) → StartsWithDigit (show_ℕ n)
unfolding show_ℕ
show_ℕ-StartsWithDigit n = digits-StartsWithDigit (suc n) n [] (omega arith)

digits-All : (f n : ℕ) (out : Bytes) → All IsDigit out → All IsDigit (digits f n out)
unfolding digits
digits-All zero n out h = h
digits-All (suc f) n out h = ground (arith, digits-All f (n / 10) ((b'0' + n % 10) ∷ out))

pub show_ℕ-All : (n : ℕ) → All IsDigit (show_ℕ n)
unfolding show_ℕ
show_ℕ-All n = digits-All (suc n) n [] tt

-- A printed number in the range of int64 is read back by Atoi.
pub atoi-show_ℕ : (n : ℕ) → n < 9223372036854775808 → atoi (show_ℕ n) ≡ some (pos n)
unfolding atoi
atoi-show_ℕ n h =
    let (read, _) = read_int-show_ℕ n in
    let small : fits 63 (pos n) ≡ true = ground arith in ground arith

pub show_ℕ_injective : (m n : ℕ) → show_ℕ m ≡ show_ℕ n → m ≡ n
show_ℕ_injective m n e =
    let (a, _) = read_int-show_ℕ m in
    let (b, _) = read_int-show_ℕ n in
    let c : ◌≡◌ {A = Option (ℤ × Bytes)} (some (pos m, [])) (some (pos n, [])) =
      sym a ∙ (ap read_int e ∙ b) in
    ground arith
