-- ===== src/Certificates/Examples.antt =====
-- The certificates' theorems at work: a calendar with one schedule that starts every twelve hours
-- and one that never comes (internal/utils/maintenance_window.go and
-- internal/certificates/reconciler/certificate_maintenance.go).
use native.Mathlib.Nat.{div-add-mod'}
use wazuh_operator.Common.{
  ℕ, ◌+◌, ◌*◌, ◌/◌, ◌<◌, ◌≡◌, refl, subst, ◌↔◌, [], ◌∷◌, none, some, Bool, true, false,
  if◌then◌else◌, arith, pos, negsuc, ◌<ℤ◌, ◌≤◌, ◌≤ℤ◌, Bytes, bytes_eq, codes, add_time, ◌+ℤ◌, sub64,
  wrap64, wrap, ◌-ℤ◌, sub_time, mul64, ◌*ℤ◌, atoi, read_int, read_number, scan_digits, Time,
  zero_time,
}
use wazuh_operator.Kube.{ok, err}
use wazuh_operator.Certificates.Windows.{
  Calendar, WindowChecker, new_window_checker, location_of, within, last_scheduled, check_start,
  in_window, is_within_window, next_window_start,
}
use wazuh_operator.Certificates.LastStart.{NextIsFirst}
use wazuh_operator.Certificates.InWindow.{InsideWindow, is_within_window-InsideWindow}
use wazuh_operator.Certificates.Hangs.{check_ca_never_returns}
use wazuh_operator.Certificates.Durations.{
  duration_of, split_unit, unit_length, parse_cert_duration, format_cert_duration,
}
use wazuh_operator.Certificates.Durations.Printed.{parse-format_cert_duration}
use wazuh_operator.Certificates.Maintenance.{
  MaintenanceWindow, CaMaintenanceConfig, CaMaintenanceCheckResult, Texts, checker_of, waiting,
  decide_windows, search_windows, duration_or, earlier, force_or_wait, max_wait_of,
  check_ca_maintenance_window,
}
use wazuh_operator.Certificates.Broken.{IsBroken, check_ca_broken}
use wazuh_operator.Certificates.Closed.{StartsLater, ok_unique}
use wazuh_operator.Certificates.Refused.{WaitsFor, check_ca_refuses}

abbrev half_day : ℕ
half_day = 43200000000000

abbrev every_half_day : Time → Time
every_half_day (pos n) = pos ((n / half_day + 1) * half_day)
every_half_day (negsuc n) = pos 0

abbrev HalfDay : Time → Type 0
HalfDay t = (k : ℕ) × (t ≡ pos (k * half_day))

next_half_day : (n k : ℕ) → n < k * half_day → (n / half_day + 1) * half_day ≤ k * half_day
next_half_day n k h = let parts = div-add-mod' n half_day in ground arith

every_half_day-NextIsFirst : NextIsFirst HalfDay every_half_day
every_half_day-NextIsFirst = record { active = active; later = later; first = first }
  where
    active : (t : Time) → HalfDay (every_half_day t)
    active (pos n) = (n / half_day + 1, refl)
    active (negsuc n) = (0, refl)

    later : (t : Time) → t <ℤ every_half_day t
    later (pos n) = omega arith
    later (negsuc n) = omega arith

    first : (t b : Time) → HalfDay b → t <ℤ b → every_half_day t ≤ℤ b
    first (pos n) b (k, e) h =
        rw e (let h' = rw e at h in omega (arith, next_half_day n k (omega arith)))
    first (negsuc n) b (k, e) h = rw e (omega arith)

-- "0 */12 * * *" and "0 0 30 2 *".
abbrev calendar : Calendar
calendar = record {
  Location = Bytes;
  utc = codes "UTC";
  load_location = λ name. ok name;
  parse_cron = λ text.
      if bytes_eq text (codes "0 */12 * * *")
      then ok (λ loc. every_half_day)
      else if bytes_eq text (codes "0 0 30 2 *")
      then ok (λ loc t. zero_time)
      else err (codes "bad schedule");
}

abbrev texts : Texts
texts = record { trim_space = λ s. s; show_hours = λ d. codes "h"; show_time = λ t. codes "t" }

abbrev window : Bytes → MaintenanceWindow
window schedule = record { schedule = schedule; duration = codes "4h"; timezone = codes "UTC" }

abbrev checker : Bytes → WindowChecker calendar
checker schedule = record {
  schedule = schedule;
  duration = pos 14400000000000;
  timezone = codes "UTC";
}

abbrev config : Bytes → CaMaintenanceConfig
config schedule = record {
  auto_restart = true;
  maintenance_windows = window schedule ∷ [];
  max_wait_duration = codes "7d";
}

-- 30 hours, and 1000 hours.
abbrev now : Time
now = pos 108000000000000

abbrev expiry : Time
expiry = pos 3600000000000000

is_within_window-InsideWindow_example :
    (b : Bool) × (is_within_window 100800000000002 calendar (checker (codes "0 */12 * * *")) now
      ≡ some (ok b))
    × ((b ≡ true) ↔ InsideWindow HalfDay (pos 14400000000000) now)
unfolding bytes_eq
is_within_window-InsideWindow_example =
    is_within_window-InsideWindow calendar (checker (codes "0 */12 * * *")) (λ loc. every_half_day)
      HalfDay refl every_half_day-NextIsFirst 100800000000001 14400000000000 now refl (omega arith)
      (omega arith)

check_ca_never_returns_example :
    check_ca_maintenance_window 1000 calendar texts (some (config (codes "0 0 30 2 *"))) now expiry
    ≡ none
unfolding checker_of new_window_checker location_of bytes_eq duration_or parse_cert_duration
    split_unit atoi duration_of unit_length mul64 wrap64 ◌*ℤ◌
check_ca_never_returns_example =
    check_ca_never_returns calendar texts (config (codes "0 0 30 2 *"))
      (window (codes "0 0 30 2 *")) [] (checker (codes "0 0 30 2 *")) (λ loc t. zero_time) refl refl
      refl refl (λ t. refl) 1000 now expiry (omega arith)

broken : IsBroken calendar texts (window (codes "often"))
unfolding checker_of new_window_checker location_of bytes_eq
broken m built =
    subst (λ k. (e : Bytes) × (calendar.parse_cron k.schedule ≡ err e))
      (ok_unique {r = checker_of calendar texts (window (codes "often"))} refl built)
      (codes "bad schedule", refl)

check_ca_broken_example :
    (r : CaMaintenanceCheckResult) × (check_ca_maintenance_window 7 calendar texts
        (some (config (codes "often")))
        now
        expiry
      ≡ some r)
    × (r.allow_renewal ≡ false)
    × (r.force_renewal ≡ false)
    × (r.next_window_start ≡ zero_time)
check_ca_broken_example =
    check_ca_broken 7 calendar texts (config (codes "often")) (window (codes "often")) [] refl refl
      (broken, tt) now expiry

starts_later : StartsLater calendar texts now (window (codes "0 */12 * * *"))
unfolding checker_of new_window_checker location_of bytes_eq next_window_start
starts_later m t built starts =
    let same =
      ok_unique {r = checker_of calendar texts (window (codes "0 */12 * * *"))} refl built in
    let there : next_window_start calendar m now ≡ ok (pos 129600000000000) =
      subst (λ k. next_window_start calendar k now ≡ ok (pos 129600000000000)) same refl in
    subst (λ s. zero_time <ℤ s) (ok_unique there starts) (omega arith)

-- The search needs three rounds.
refused_run :
    check_ca_maintenance_window 3 calendar texts (some (config (codes "0 */12 * * *"))) now expiry
    ≡ some (waiting texts (pos 129600000000000))
unfolding check_ca_maintenance_window decide_windows search_windows checker_of new_window_checker
    location_of bytes_eq is_within_window within last_scheduled check_start add_time ◌+ℤ◌ sub64
    wrap64 wrap ◌-ℤ◌ duration_or duration_of parse_cert_duration split_unit unit_length earlier
    force_or_wait max_wait_of in_window next_window_start sub_time mul64 ◌*ℤ◌ atoi read_int
    read_number scan_digits
refused_run = refl

check_ca_refuses_example :
    WaitsFor 3 calendar texts
      (config (codes "0 */12 * * *"))
      now
      expiry
      (window (codes "0 */12 * * *") ∷ [])
      (pos 129600000000000)
check_ca_refuses_example =
    check_ca_refuses 3 calendar texts (config (codes "0 */12 * * *"))
      (window (codes "0 */12 * * *")) [] now expiry (waiting texts (pos 129600000000000)) refl refl
      (starts_later, tt) refused_run refl

parse-format_cert_duration_example :
    parse_cert_duration (λ s. s) (format_cert_duration (pos 5400000000000)) ≡ ok (pos 5400000000000)
parse-format_cert_duration_example =
    parse-format_cert_duration (λ s. s) 5400000000000 (omega arith) refl refl
