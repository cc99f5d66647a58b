-- ===== src/Certificates/Hangs.antt =====
-- The loop of IsWithinWindow (internal/utils/maintenance_window.go) for a schedule that never comes.
use wazuh_operator.Common.{
  ℕ, zero, suc, ◌≡◌, refl, List, ◌∷◌, none, some, true, arith, ◌≤ℤ◌, Time, zero_time,
}
use wazuh_operator.Kube.{ok}
use wazuh_operator.Certificates.Windows.{
  Calendar, WindowChecker, is_within_window, last_scheduled, within, check_start,
}
use wazuh_operator.Certificates.Maintenance.{
  MaintenanceWindow, CaMaintenanceConfig, Texts, checker_of, search_windows, decide_windows,
  check_ca_maintenance_window,
}

-- What the cron library documents of Next when no time satisfies the schedule: the zero instant.
abbrev pub NeverComes : (Time → Time) → Type 0
NeverComes next = (t : Time) → next t ≡ zero_time

last_scheduled-none :
    (next : Time → Time)
    → NeverComes next
    → (fuel : ℕ) (now last : Time) → zero_time ≤ℤ now
    → last_scheduled fuel next now last ≡ none
unfolding last_scheduled
last_scheduled-none next h zero now last past = refl
last_scheduled-none next h (suc fuel) now last past =
    let step = h last in ground (arith, last_scheduled-none next h fuel now (next last) past)

within_none :
    (fuel : ℕ) (cal : Calendar) (m : WindowChecker cal) (next : cal.Location → Time → Time)
    (now : Time)
    → cal.parse_cron m.schedule ≡ ok next
    → NeverComes (next m.timezone)
    → zero_time ≤ℤ now
    → is_within_window fuel cal m now ≡ none
unfolding is_within_window within
within_none fuel cal m next now parsed h past =
    rw
      (
        parsed,
        is_within_window,
        within,
        last_scheduled-none (next m.timezone) h fuel now (check_start m.duration now) past,
      )
      refl

search_none :
    (fuel : ℕ) (cal : Calendar) (tx : Texts) (now : Time) (w : MaintenanceWindow)
    (ws : List MaintenanceWindow) (best : Time) (m : WindowChecker cal)
    → checker_of cal tx w ≡ ok m
    → is_within_window fuel cal m now ≡ none
    → search_windows fuel cal tx now (w ∷ ws) best ≡ none
unfolding search_windows
search_none fuel cal tx now w ws best m built none_yet = rw (built, none_yet, search_windows) refl

-- When restarts are automatic and the schedule of the first window parses but never comes,
-- checkCAMaintenanceWindow does not return: no number of rounds of the loop in IsWithinWindow is
-- enough.
pub check_ca_never_returns :
    (cal : Calendar) (tx : Texts) (c : CaMaintenanceConfig) (w : MaintenanceWindow)
    (ws : List MaintenanceWindow) (m : WindowChecker cal) (next : cal.Location → Time → Time)
    → c.auto_restart ≡ true
    → c.maintenance_windows ≡ w ∷ ws
    → checker_of cal tx w ≡ ok m
    → cal.parse_cron m.schedule ≡ ok next
    → NeverComes (next m.timezone)
    → (fuel : ℕ) (now ca_expiry : Time) → zero_time ≤ℤ now
    → check_ca_maintenance_window fuel cal tx (some c) now ca_expiry ≡ none
unfolding check_ca_maintenance_window decide_windows
check_ca_never_returns cal tx c w ws m next auto listed built parsed h fuel now ca_expiry past =
    let hangs = within_none fuel cal m next now parsed h past in
    let none_found = search_none fuel cal tx now w ws zero_time m built hangs in
    rw (auto, listed, none_found, check_ca_maintenance_window, decide_windows) refl
