-- ===== src/Drain/Detection/Ordinals.antt =====
-- Pod names and their ordinals (internal/shared/drain/detection.go).
use wazuh_operator.Common.{
  sym, StartsWithDigit, show_ℕ-StartsWithDigit, ◌≡◌, ◌++◌, ◌∷◌, ◌<◌, ℕ, [], some, arith, pos, Bytes,
  codes, length, length-append, show_ℕ, strip_prefix-append, read_int-show_ℕ, fits, leb, true,
  false, show_ℤ,
}
use mathlib.Core.List.{append_assoc}
use wazuh_operator.Drain.Detection.{pod_name, scan_ordinal, get_pod_ordinal_from_name}

length_of_digit : (t : Bytes) → StartsWithDigit t → 0 < length t
length_of_digit [] d = absurd d
length_of_digit (c ∷ t) d = omega arith

scan_ordinal-append :
    (p : Bytes) (n : ℕ) → n < 2147483648 → scan_ordinal p (p ++ show_ℕ n) ≡ some (pos n)
unfolding scan_ordinal
scan_ordinal-append p n h =
    let (read, same) = read_int-show_ℕ n in
    let small : fits 31 (pos n) ≡ true = ground arith in
    ground (arith, strip_prefix-append p (show_ℕ n))

longer_than_prefix : (p t : Bytes) → StartsWithDigit t → leb (length (p ++ t)) (length p) ≡ false
longer_than_prefix p t d = ground (arith, length-append p t, length_of_digit t d)

-- The ordinal of a pod is read back from its name, for every StatefulSet name and every int32
-- ordinal that is not negative.
pub ordinal-pod_name :
    (sts : Bytes) (n : ℕ)
    → n < 2147483648
    → get_pod_ordinal_from_name (pod_name sts (pos n)) sts ≡ some (pos n)
unfolding get_pod_ordinal_from_name pod_name show_ℤ
ordinal-pod_name sts n h =
    let p = sts ++ codes "-" in
    let split : pod_name sts (pos n) ≡ p ++ show_ℕ n =
      sym (append_assoc sts (codes "-") (show_ℕ n)) in
    rw split
      (rw (longer_than_prefix p (show_ℕ n) (show_ℕ-StartsWithDigit n)) (scan_ordinal-append p n h))
