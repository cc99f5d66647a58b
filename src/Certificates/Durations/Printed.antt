-- ===== src/Certificates/Durations/Printed.antt =====
-- A duration that FormatCertDuration prints (internal/certificates/common/duration.go) is read back.
use native.Mathlib.Nat.{div-add-mod'}
use wazuh_operator.Common.{
  ℕ, ◌*◌, ◌/◌, ◌%◌, ◌<◌, ◌≡◌, refl, ap, ◌∙◌, inl, inr, Bool-cases, [], ◌∷◌, ◌++◌, some, arith, pos,
  suc, ◌≤◌, digits, mul64_pos, Bytes, show_ℕ, atoi-show_ℕ, ltb, ◌==◌, ◌&&◌,
}
use wazuh_operator.Kube.{ok}
use wazuh_operator.Certificates.Durations.{
  split_unit, unit_length, duration_of, parse_cert_duration, format_cert_duration,
}

split_unit_lem : (s : Bytes) (c : ℕ) → split_unit (s ++ c ∷ []) ≡ some (s, c)
unfolding split_unit
split_unit_lem [] c = refl
split_unit_lem (a ∷ []) c = refl
split_unit_lem (a ∷ b ∷ s) c = rw (split_unit_lem (b ∷ s) c) refl

-- A number and its unit.
parse_unit :
    (trim_space : Bytes → Bytes) (k unit length : ℕ)
    → trim_space (show_ℕ k ++ unit ∷ []) ≡ show_ℕ k ++ unit ∷ []
    → unit_length unit ≡ some (pos length)
    → k < 9223372036854775808
    → k * length < 9223372036854775808
    → parse_cert_duration trim_space (show_ℕ k ++ unit ∷ []) ≡ ok (pos (k * length))
unfolding parse_cert_duration duration_of
parse_unit trim_space k unit length trimmed known small fits =
    rw
      (
        parse_cert_duration,
        trimmed,
        split_unit_lem (show_ℕ k) unit,
        atoi-show_ℕ k small,
        known,
        duration_of,
        mul64_pos k length fits,
      )
      (ground arith)

read_back :
    (trim_space : Bytes → Bytes) (n k unit length : ℕ)
    → format_cert_duration (pos n) ≡ show_ℕ k ++ unit ∷ []
    → trim_space (format_cert_duration (pos n)) ≡ format_cert_duration (pos n)
    → unit_length unit ≡ some (pos (suc length))
    → k * suc length ≡ n
    → n < 9223372036854775808
    → parse_cert_duration trim_space (format_cert_duration (pos n)) ≡ ok (pos n)
read_back trim_space n k unit length printed trimmed known product small =
    let trimmed' = rw printed at trimmed in
    let k_small : k ≤ k * suc length = grind arith in
    ap (parse_cert_duration trim_space) printed
    ∙ (parse_unit trim_space k unit (suc length) trimmed' known (omega arith) (omega arith)
        ∙ ap (λ m. ok (pos m)) product)

-- A duration that is not negative, that an int64 holds and that is a multiple of a minute is read
-- back from its print, when TrimSpace leaves the print as it is.
pub parse-format_cert_duration :
    (trim_space : Bytes → Bytes) (n : ℕ)
    → n < 9223372036854775808
    → n % 60000000000 ≡ 0
    → trim_space (format_cert_duration (pos n)) ≡ format_cert_duration (pos n)
    → parse_cert_duration trim_space (format_cert_duration (pos n)) ≡ ok (pos n)
unfolding format_cert_duration unit_length show_ℕ digits
parse-format_cert_duration trim_space n small whole trimmed = elim (Bool-cases (n == 0)) [
  | inl empty ↦
      read_back trim_space n 0 b'm' 59999999999 (rw (format_cert_duration, empty) refl) trimmed refl
        (ground arith) small
  | inr some_time ↦ elim (Bool-cases (ltb 0 (n / 86400000000000) && n % 86400000000000 == 0)) [
    | inl days ↦
        let parts = div-add-mod' n 86400000000000 in
        read_back trim_space n (n / 86400000000000) b'd' 86399999999999
          (rw (format_cert_duration, some_time, days) refl) trimmed refl (ground arith) small
    | inr no_days ↦ elim (Bool-cases (ltb 0 (n / 3600000000000) && n % 3600000000000 == 0)) [
      | inl hours ↦
          let parts = div-add-mod' n 3600000000000 in
          read_back trim_space n (n / 3600000000000) b'h' 3599999999999
            (rw (format_cert_duration, some_time, no_days, hours) refl) trimmed refl (ground arith)
            small
      | inr no_hours ↦
          let parts = div-add-mod' n 60000000000 in
          read_back trim_space n (n / 60000000000) b'm' 59999999999
            (rw (format_cert_duration, some_time, no_days, no_hours) refl) trimmed refl
            (ground arith) small
    ]
  ]
]
