-- ===== src/Certificates/Durations.antt =====
-- The durations of certificates (internal/certificates/common/duration.go). TrimSpace is a
-- parameter; the texts of errors are cut off at their first variable part.
pub mod Printed
use wazuh_operator.Common.{
  ℕ, List, [], ◌∷◌, ◌++◌, Option, none, some, ◌||◌, if◌then◌else◌, ℤ, pos, leb_ℤ, eqb_ℤ, ltb_ℤ,
  negsuc, Bytes, codes, bytes_eq, atoi, show_ℕ, ltb, ◌/◌, ◌%◌, Duration, hour, minute, mul64, div64,
  ◌==◌, ◌&&◌,
}
use wazuh_operator.Kube.{Result, ok, err}

abbrev pub duration_day : Duration
duration_day = pos 86400000000000

-- The text without its last byte, and that byte.
unfoldable pub split_unit : Bytes → Option (Bytes × ℕ)
split_unit [] = none
split_unit (c ∷ []) = some ([], c)
split_unit (c ∷ d ∷ s) = elim (split_unit (d ∷ s)) [
  | none ↦ none
  | some (value, unit) ↦ some (c ∷ value, unit)
]

-- The length of a unit in either case: days, hours or minutes.
unfoldable pub unit_length : ℕ → Option Duration
unit_length c =
    if c == b'd' || c == b'D'
    then some duration_day
    else if c == b'h' || c == b'H'
    then some hour
    else if c == b'm' || c == b'M'
    then some minute
    else none

-- The product of the value and its unit; `time.Duration(value) * 24 * time.Hour` wraps around like
-- the product with the length of a day.
unfoldable pub duration_of : ℕ → ℤ → Result Duration
duration_of unit value = elim (unit_length unit) [
  | none ↦ err (codes "invalid duration unit")
  | some length ↦ ok (mul64 value length)
]

unfoldable pub parse_cert_duration : (trim_space : Bytes → Bytes) → Bytes → Result Duration
parse_cert_duration trim_space text = elim (split_unit (trim_space text)) [
  | none ↦ err (codes "empty duration string")
  | some (digits, unit) ↦ elim (atoi digits) [
    | none ↦ err (codes "invalid duration value")
    | some value ↦
        if ltb_ℤ value (pos 0)
        then err (codes "duration value must be positive")
        else duration_of unit value
  ]
]

-- FormatCertDuration. For a positive duration Go's division and remainder are those of ℕ.
unfoldable pub format_cert_duration : Duration → Bytes
format_cert_duration (negsuc n) = codes "0m"
format_cert_duration (pos n) =
    if n == 0
    then codes "0m"
    else if ltb 0 (n / 86400000000000) && n % 86400000000000 == 0
    then show_ℕ (n / 86400000000000) ++ codes "d"
    else if ltb 0 (n / 3600000000000) && n % 3600000000000 == 0
    then show_ℕ (n / 3600000000000) ++ codes "h"
    else show_ℕ (n / 60000000000) ++ codes "m"
