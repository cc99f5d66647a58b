-- ===== src/Certificates/Refused.antt =====
-- What it means that checkCAMaintenanceWindow
-- (internal/certificates/reconciler/certificate_maintenance.go) refuses a renewal.
use wazuh_operator.Common.{
  ℕ, ◌≡◌, sym, ◌∙◌, subst, ◌⊎◌, inl, inr, Bool-cases, Option-cases, List, ◌∷◌, Option, none, some,
  true, false, arith, ◌≤ℤ◌, ltb_ℤ, eqb_ℤ, eq_of_parts, Time, Duration, ap, All, zero_time, sub_time,
  after,
}
use wazuh_operator.Certificates.Windows.{Calendar}
use wazuh_operator.Certificates.Maintenance.{
  MaintenanceWindow, CaMaintenanceConfig, CaMaintenanceCheckResult, Texts, inside, outside,
  search_windows, decide_windows, force_or_wait, check_ca_maintenance_window, max_wait_of,
}
use wazuh_operator.Certificates.Closed.{StartsLater, ClosedUntil, search_closed}

abbrev some_or {ℓ} : {A : Type ℓ} → A → Option A → A
some_or a (some b) = b
some_or a none = a

some_unique {ℓ} : {A : Type ℓ} {a b : A} → some a ≡ some b → a ≡ b
some_unique {a = a} e = ap (some_or a) e

force_or_wait_refuses :
    (tx : Texts) (max_wait : Duration) (now ca_expiry next : Time)
    → (force_or_wait tx max_wait now ca_expiry next).allow_renewal ≡ false
    → ((force_or_wait tx max_wait now ca_expiry next).next_window_start ≡ next)
      × ((max_wait ≤ℤ sub_time ca_expiry now) ⊎ ((next ≡ zero_time) ⊎ (next ≤ℤ ca_expiry)))
unfolding force_or_wait
force_or_wait_refuses tx max_wait now ca_expiry next e =
    elim (Bool-cases (ltb_ℤ (sub_time ca_expiry now) max_wait)) [
      | inr long ↦ (ground arith, inl (ground arith))
      | inl short ↦ elim (Bool-cases (eqb_ℤ next zero_time)) [
        | inl unset ↦ (ground arith, inr (inl (eq_of_parts next zero_time (ground arith))))
        | inr set ↦ elim (Bool-cases (after next ca_expiry)) [
          | inl late ↦ absurd (ground arith)
          | inr soon ↦ (ground arith, inr (inr (ground arith)))
        ]
      ]
    ]

-- The listed windows are closed until the instant, and it is not too late for the CA.
abbrev pub WaitsFor :
    ℕ
    → (cal : Calendar) → Texts
    → CaMaintenanceConfig
    → (now ca_expiry : Time) → List MaintenanceWindow
    → Time
    → Type 0
WaitsFor fuel cal tx c now ca_expiry ws next =
    All (ClosedUntil fuel cal tx now next) ws
    × ((max_wait_of tx c ≤ℤ sub_time ca_expiry now) ⊎ ((next ≡ zero_time) ⊎ (next ≤ℤ ca_expiry)))

-- When restarts are automatic, a window is listed, the windows' next starts lie behind the zero
-- instant, and checkCAMaintenanceWindow refuses the renewal, then every listed window whose time
-- zone and schedule are understood is closed, and the start that the refusal names is not behind
-- its next one; either the CA stays valid for the longest wait at least, or that start is not
-- behind the end of its validity, or that start is the zero instant.
pub check_ca_refuses :
    (fuel : ℕ) (cal : Calendar) (tx : Texts) (c : CaMaintenanceConfig) (w : MaintenanceWindow)
    (ws : List MaintenanceWindow) (now ca_expiry : Time) (r : CaMaintenanceCheckResult)
    → c.auto_restart ≡ true
    → c.maintenance_windows ≡ w ∷ ws
    → All (StartsLater cal tx now) (w ∷ ws)
    → check_ca_maintenance_window fuel cal tx (some c) now ca_expiry ≡ some r
    → r.allow_renewal ≡ false
    → WaitsFor fuel cal tx c now ca_expiry (w ∷ ws) r.next_window_start
unfolding check_ca_maintenance_window decide_windows
check_ca_refuses fuel cal tx c w ws now ca_expiry r auto listed h e refused =
    let found = rw (auto, listed, check_ca_maintenance_window) at e in
    elim (Option-cases (search_windows fuel cal tx now (w ∷ ws) zero_time)) [
      | inl lost ↦ let off = rw (lost, decide_windows) at found in absurd (ground arith)
      | inr (inside, is_open) ↦
          let same = some_unique (rw (is_open, decide_windows) at found) in
          let yes : true ≡ false = ap (λ x. x.allow_renewal) same ∙ refused in absurd (ground arith)
      | inr (outside next, shut) ↦
          let same = some_unique (rw (shut, decide_windows) at found) in
          let (named, why) =
            force_or_wait_refuses tx (max_wait_of tx c) now ca_expiry next
              (ap (λ x. x.allow_renewal) same ∙ refused) in
          let (closed, _) =
            search_closed fuel cal tx now (w ∷ ws) zero_time next h (omega arith) shut in
          let here : r.next_window_start ≡ next =
            sym (ap (λ x. x.next_window_start) same) ∙ named in
          subst (WaitsFor fuel cal tx c now ca_expiry (w ∷ ws)) (sym here) (closed, why)
    ]
