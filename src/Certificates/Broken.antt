-- ===== src/Certificates/Broken.antt =====
-- checkCAMaintenanceWindow (internal/certificates/reconciler/certificate_maintenance.go)
-- when no window is understood.
use wazuh_operator.Common.{
  ℕ, ◌≡◌, refl, inl, inr, List, [], ◌∷◌, some, true, false, arith, Time, Duration, Bytes, ap, All,
  zero_time,
}
use wazuh_operator.Kube.{ok, err, Result-cases}
use wazuh_operator.Certificates.Windows.{Calendar, WindowChecker, is_within_window}
use wazuh_operator.Certificates.Maintenance.{
  MaintenanceWindow, CaMaintenanceConfig, CaMaintenanceCheckResult, Texts, outside, checker_of,
  search_windows, decide_windows, force_or_wait, check_ca_maintenance_window, waiting, max_wait_of,
}

-- The checker of the window cannot be built, or its schedule does not parse.
abbrev pub IsBroken : (cal : Calendar) → Texts → MaintenanceWindow → Type 0
IsBroken cal tx w =
    (m : WindowChecker cal)
    → checker_of cal tx w ≡ ok m
    → (e : Bytes) × (cal.parse_cron m.schedule ≡ err e)

broken_within :
    (fuel : ℕ) (cal : Calendar) (m : WindowChecker cal) (now : Time) (e : Bytes)
    → cal.parse_cron m.schedule ≡ err e
    → is_within_window fuel cal m now ≡ some (err e)
unfolding is_within_window
broken_within fuel cal m now e h = rw (h, is_within_window) refl

search_windows-IsBroken :
    (fuel : ℕ) (cal : Calendar) (tx : Texts) (now : Time) (ws : List MaintenanceWindow)
    (best : Time)
    → All (IsBroken cal tx) ws
    → search_windows fuel cal tx now ws best ≡ some (outside best)
unfolding search_windows
search_windows-IsBroken fuel cal tx now [] best h = refl
search_windows-IsBroken fuel cal tx now (w ∷ ws) best (h, hs) =
    let rest = search_windows-IsBroken fuel cal tx now ws best hs in
    elim (Result-cases (checker_of cal tx w)) [
      | inl (m, built) ↦
          let (e, bad) = h m built in
          let failed = broken_within fuel cal m now e bad in rw (built, failed, search_windows) rest
      | inr (e, bad) ↦ rw (bad, search_windows) rest
    ]

force_or_wait_zero :
    (tx : Texts) (max_wait : Duration) (now ca_expiry : Time)
    → force_or_wait tx max_wait now ca_expiry zero_time ≡ waiting tx zero_time
unfolding force_or_wait
force_or_wait_zero tx max_wait now ca_expiry = ground arith

-- When restarts are automatic, a window is listed, and no listed window has both a time zone and a
-- schedule that are understood, checkCAMaintenanceWindow refuses the renewal and names the zero
-- instant as the next window, whatever the time is, also when the CA has expired.
pub check_ca_broken :
    (fuel : ℕ) (cal : Calendar) (tx : Texts) (c : CaMaintenanceConfig) (w : MaintenanceWindow)
    (ws : List MaintenanceWindow)
    → c.auto_restart ≡ true
    → c.maintenance_windows ≡ w ∷ ws
    → All (IsBroken cal tx) (w ∷ ws)
    → (now ca_expiry : Time)
    → (r : CaMaintenanceCheckResult) × (check_ca_maintenance_window fuel cal tx
          (some c)
          now
          ca_expiry
        ≡ some r)
      × (r.allow_renewal ≡ false)
      × (r.force_renewal ≡ false)
      × (r.next_window_start ≡ zero_time)
unfolding check_ca_maintenance_window decide_windows
check_ca_broken fuel cal tx c w ws auto listed h now ca_expiry =
    let found = search_windows-IsBroken fuel cal tx now (w ∷ ws) zero_time h in
    let decided = force_or_wait_zero tx (max_wait_of tx c) now ca_expiry in
    (
      waiting tx zero_time,
      rw (auto, listed, found, check_ca_maintenance_window, decide_windows) (ap some decided),
      refl,
      refl,
      refl,
    )
