-- ===== src/Certificates/Maintenance.antt =====
-- checkCAMaintenanceWindow of internal/certificates/reconciler/certificate_maintenance.go: may the
-- certificate authority be renewed now?
use wazuh_operator.Common.{
  ℕ, List, [], ◌∷◌, ◌++◌, Option, none, some, Bool, true, false, not, ◌&&◌, ◌||◌, if◌then◌else◌,
  pos, eqb_ℤ, ltb_ℤ, Bytes, codes, Time, Duration, zero_time, sub_time, after,
}
use wazuh_operator.Kube.{Result, ok, err}
use wazuh_operator.Certificates.Windows.{
  Calendar, WindowChecker, new_window_checker, is_within_window, next_window_start,
}
use wazuh_operator.Certificates.Durations.{parse_cert_duration}

pub record MaintenanceWindow : Type 0 where
  pub schedule : Bytes
  pub duration : Bytes
  pub timezone : Bytes

pub record CaMaintenanceConfig : Type 0 where
  pub auto_restart : Bool
  pub maintenance_windows : List MaintenanceWindow
  pub max_wait_duration : Bytes

pub record CaMaintenanceCheckResult : Type 0 where
  pub allow_renewal : Bool
  pub reason : Bytes
  pub next_window_start : Time
  pub force_renewal : Bool

-- strings.TrimSpace, a duration rounded to hours as "%v" prints it, and an instant in RFC 3339.
pub record Texts : Type 0 where
  pub trim_space : Bytes → Bytes
  pub show_hours : Duration → Bytes
  pub show_time : Time → Bytes

-- A duration of the spec, or the default when it is empty or wrong.
unfoldable pub duration_or : Texts → Duration → Bytes → Duration
duration_or tx default [] = default
duration_or tx default (c ∷ s) = elim (parse_cert_duration tx.trim_space (c ∷ s)) [
  | err e ↦ default
  | ok d ↦ d
]

-- What the loop over the windows ends with: it is within one of them, or the start of the next.
pub data WindowSearch : Type 0 where
  inside : WindowSearch
  outside : Time → WindowSearch

-- `nextWindow` behind one more start.
unfoldable pub earlier : Time → Result Time → Time
earlier best (err e) = best
earlier best (ok next) = if eqb_ℤ best zero_time || ltb_ℤ next best then next else best

unfoldable pub checker_of :
    (cal : Calendar) → Texts → MaintenanceWindow → Result (WindowChecker cal)
checker_of cal tx w =
    new_window_checker cal w.schedule (duration_or tx (pos 14400000000000) w.duration) w.timezone

-- The loop, in which `best` is nextWindow; `none` is a loop of IsWithinWindow out of fuel.
unfoldable pub search_windows :
    ℕ → (cal : Calendar) → Texts → Time → List MaintenanceWindow → Time → Option WindowSearch
search_windows fuel cal tx now [] best = some (outside best)
search_windows fuel cal tx now (w ∷ ws) best =
    let skipped = search_windows fuel cal tx now ws best in
    elim (checker_of cal tx w) [
      | err e ↦ skipped
      | ok m ↦
          let rest =
            search_windows fuel cal tx now ws (earlier best (next_window_start cal m now)) in
          elim (is_within_window fuel cal m now) [
            | none ↦ none
            | some (err e) ↦ skipped
            | some (ok is_open) ↦ if is_open then some inside else rest
          ]
    ]

abbrev pub allowed : Bytes → CaMaintenanceCheckResult
allowed reason = record {
  allow_renewal = true;
  reason = reason;
  next_window_start = zero_time;
  force_renewal = false;
}

abbrev pub waiting : Texts → Time → CaMaintenanceCheckResult
waiting tx next = record {
  allow_renewal = false;
  reason = codes "Waiting for maintenance window starting at " ++ tx.show_time next;
  next_window_start = next;
  force_renewal = false;
}

-- Outside all windows: force the renewal, or wait for the next window.
unfoldable pub force_or_wait :
    Texts → (max_wait : Duration) → (now ca_expiry next : Time) → CaMaintenanceCheckResult
force_or_wait tx max_wait now ca_expiry next =
    let left = sub_time ca_expiry now in
    if ltb_ℤ left max_wait && (not (eqb_ℤ next zero_time) && after next ca_expiry)
    then record {
      allow_renewal = true;
      reason =
          codes "Forcing renewal: CA expires in "
          ++ (tx.show_hours left ++ codes ", before next maintenance window");
      next_window_start = zero_time;
      force_renewal = true;
    }
    else waiting tx next

unfoldable pub max_wait_of : Texts → CaMaintenanceConfig → Duration
max_wait_of tx c = duration_or tx (pos 604800000000000) c.max_wait_duration

unfoldable pub decide_windows :
    Texts
    → CaMaintenanceConfig
    → (now ca_expiry : Time) → Option WindowSearch
    → Option CaMaintenanceCheckResult
decide_windows tx c now ca_expiry none = none
decide_windows tx c now ca_expiry (some inside) =
    some (allowed (codes "Currently within maintenance window"))
decide_windows tx c now ca_expiry (some (outside next)) =
    some (force_or_wait tx (max_wait_of tx c) now ca_expiry next)

-- `none` for the configuration is a cluster without CAMaintenance.
unfoldable pub check_ca_maintenance_window :
    ℕ
    → (cal : Calendar) → Texts
    → Option CaMaintenanceConfig
    → (now ca_expiry : Time) → Option CaMaintenanceCheckResult
check_ca_maintenance_window fuel cal tx none now ca_expiry =
    some (allowed (codes "No maintenance windows configured"))
check_ca_maintenance_window fuel cal tx (some c) now ca_expiry =
    if not c.auto_restart
    then some (record {
      allow_renewal = false;
      reason = codes "AutoRestart is disabled, waiting for manual intervention";
      next_window_start = zero_time;
      force_renewal = false;
    })
    else elim c.maintenance_windows [
      | [] ↦ some (allowed (codes "No maintenance windows configured"))
      | w ∷ ws ↦
          decide_windows tx c now ca_expiry (search_windows fuel cal tx now (w ∷ ws) zero_time)
    ]
