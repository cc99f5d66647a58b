-- ===== src/Drain/Worker.antt =====
-- The drain of manager workers before a scale-down: CheckScaleDownDrain and its helpers of
-- internal/wazuh/reconciler/worker_reconciler.go, and what the cluster controller does with the
-- answer. Metrics, events and logs are left out.
pub mod Gate
pub mod Stuck
pub mod Refilled
pub mod Liveness
pub mod Rounds
pub mod Retried
use wazuh_operator.Common.{
  List, [], ◌∷◌, ◌++◌, Option, none, some, Bool, true, false, not, if◌then◌else◌, ℤ, Bytes, codes,
  Time, Duration,
}
use wazuh_operator.Kube.{StatefulSet, Result, ok, err}
use wazuh_operator.Drain.Status.{
  DrainPhase, unset, idle, pending, draining, verifying, complete, failed, rolling_back, GoError,
  ComponentDrainStatus, empty_status,
}
use wazuh_operator.Drain.State.{
  transition, start_drain, mark_failed, mark_complete, update_progress, update_queue_depth, reset,
}
use wazuh_operator.Drain.Detection.{ScaleDownInfo, detect_scale_down}
use wazuh_operator.Drain.Manager.{
  ManagerDrainConfig, ManagerDrainer, ManagerDrainProgress, new_manager_drainer, start_queue_drain,
  monitor_queue_depth, verify_queue_empty, cancel_drain,
}

-- The reconciler's own field `drainer`, and the drain status of the manager in the cluster's status;
-- its two pointers are one option.
pub record WorkerState : Type 0 where
  pub drainer : Option ManagerDrainer
  pub status : Option ComponentDrainStatus

pub data StsLookup : Type 0 where
  not_found : StsLookup
  failure : Bytes → StsLookup
  found : StatefulSet → StsLookup

-- What one reconciliation sees: the clock, the StatefulSet, the replicas wanted, the drain
-- configuration of the manager (with its two pointers as one option), an error of
-- ensureWazuhClient, and the answer of the Wazuh API.
pub record Env : Type 0 where
  pub now : Time
  pub lookup : StsLookup
  pub desired : ℤ
  pub config : Option ManagerDrainConfig
  pub client_error : Option GoError
  pub queue : Result ℤ

pub record CheckResult : Type 0 where
  pub needs_drain : Bool
  pub drain_in_progress : Bool
  pub drain_complete : Bool
  pub target_pod : Bytes
  pub progress : Option ManagerDrainProgress
  pub error : Option GoError

abbrev pub no_result : CheckResult
no_result = record {
  needs_drain = false;
  drain_in_progress = false;
  drain_complete = false;
  target_pod = codes "";
  progress = none;
  error = none;
}

-- The pair (result, err) that CheckScaleDownDrain returns; the result is nil on one path.
pub record Answer : Type 0 where
  pub result : Option CheckResult
  pub err : Option GoError

abbrev pub drain_enabled : Option ManagerDrainConfig → Bool
drain_enabled none = false
drain_enabled (some c) = elim c.enabled [ none ↦ false | some b ↦ b ]

abbrev pub get_or_init_drain_status : Option ComponentDrainStatus → ComponentDrainStatus
get_or_init_drain_status none = empty_status idle
get_or_init_drain_status (some s) = s

-- `if r.drainer == nil { r.drainer = NewManagerDrainer(…) }`
abbrev pub get_or_new_drainer : Option ManagerDrainConfig → Option ManagerDrainer → ManagerDrainer
get_or_new_drainer config none = new_manager_drainer config
get_or_new_drainer config (some d) = d

-- startDrain of the reconciler, at the current drain status.
unfoldable pub start_worker_drain :
    Env
    → ScaleDownInfo
    → Option ManagerDrainer
    → ComponentDrainStatus
    → WorkerState × Option GoError
unfolding start_drain start_queue_drain mark_failed transition new_manager_drainer
start_worker_drain env info drainer s = elim env.client_error [
  | some e ↦ (
    record { drainer = drainer; status = some s },
    some (codes "failed to create Wazuh client: " ++ e),
  )
  | none ↦
      let d = get_or_new_drainer env.config drainer in
      let (s1, e1) =
        start_drain env.now info.target_pod_name info.current_replicas info.target_replicas s in
      let (d2, e2) = start_queue_drain env.queue d in
      elim e1 [
        | some e ↦ (
          record { drainer = some d; status = some s },
          some (codes "failed to transition drain state: " ++ e),
        )
        | none ↦ elim e2 [
          | some e ↦ (
            record {
              drainer = some d2;
              status = some (mark_failed env.now (codes "Failed to start drain: " ++ e) s1).0;
            },
            some e,
          )
          | none ↦ (
            record {
              drainer = some d2;
              status =
                  some (transition env.now draining (codes "Draining event queue on worker") s1).0;
            },
            none,
          )
        ]
      ]
]

-- The three cases of the switch that call a helper, at what the helper returned.
unfoldable pub start_case : WorkerState × Option GoError → CheckResult → WorkerState × Answer
start_case (st, some e) r =
    (st, record { result = some (record r { error = some e }); err = some e })
start_case (st, none) r =
    (st, record { result = some (record r { drain_in_progress = true }); err = none })

unfoldable pub monitor_case :
    WorkerState × Result ManagerDrainProgress → CheckResult → WorkerState × Answer
monitor_case (st, err e) r = (
  st,
  record { result = some (record r { drain_in_progress = true; error = some e }); err = none },
)
monitor_case (st, ok p) r = (
  st,
  record { result = some (record r { drain_in_progress = true; progress = some p }); err = none },
)

unfoldable pub verify_case : WorkerState × Result Bool → CheckResult → WorkerState × Answer
verify_case (st, err e) r = (st, record { result = some (record r { error = some e }); err = none })
verify_case (st, ok true) r = (
  st,
  record {
    result = some (record r { drain_complete = true; drain_in_progress = false });
    err = none;
  },
)
verify_case (st, ok false) r =
    (st, record { result = some (record r { drain_in_progress = true }); err = none })

module _ (show_remaining : Duration → Bytes) where
  -- monitorDrainProgress.
  unfoldable pub monitor_drain_progress :
      Env → Option ManagerDrainer → ComponentDrainStatus → WorkerState × Result ManagerDrainProgress
  unfolding monitor_queue_depth update_progress update_queue_depth transition
  monitor_drain_progress env none s =
      (record { drainer = none; status = some s }, err (codes "drainer not initialized"))
  monitor_drain_progress env (some d) s =
      let (d', p) = monitor_queue_depth show_remaining env.now env.queue d in
      let s' = update_queue_depth p.queue_depth (update_progress p.percent p.message s) in
      let moved = (transition env.now verifying (codes "Verifying queue drain completion") s').0 in
      elim p.error [
        | some e ↦ (record { drainer = some d'; status = some s }, err e)
        | none ↦ (
          record { drainer = some d'; status = some (if p.is_complete then moved else s') },
          ok p,
        )
      ]

  -- verifyDrainComplete.
  unfoldable pub verify_drain_complete :
      Env → Option ManagerDrainer → ComponentDrainStatus → WorkerState × Result Bool
  unfolding verify_queue_empty mark_complete cancel_drain
  verify_drain_complete env none s =
      (record { drainer = none; status = some s }, err (codes "drainer not initialized"))
  verify_drain_complete env (some d) s =
      let (d', r) = verify_queue_empty env.now env.queue d in
      elim r [
        | err e ↦ (record { drainer = some d'; status = some s }, err e)
        | ok false ↦ (record { drainer = some d'; status = some s }, ok false)
        | ok true ↦ (
          record { drainer = some (cancel_drain d'); status = some (mark_complete env.now s).0 },
          ok true,
        )
      ]

  -- The switch over the phase, at a scale-down that was detected and with draining enabled.
  unfoldable pub check_phase :
      DrainPhase
      → Env
      → ScaleDownInfo
      → Option ManagerDrainer
      → ComponentDrainStatus
      → CheckResult
      → WorkerState × Answer
  unfolding start_worker_drain monitor_drain_progress verify_drain_complete start_case monitor_case
      verify_case
  check_phase idle env info drainer s r = start_case (start_worker_drain env info drainer s) r
  check_phase unset env info drainer s r = start_case (start_worker_drain env info drainer s) r
  check_phase pending env info drainer s r = monitor_case (monitor_drain_progress env drainer s) r
  check_phase draining env info drainer s r = monitor_case (monitor_drain_progress env drainer s) r
  check_phase verifying env info drainer s r = verify_case (verify_drain_complete env drainer s) r
  check_phase complete env info drainer s r = (
    record { drainer = drainer; status = some s },
    record { result = some (record r { drain_complete = true }); err = none },
  )
  check_phase failed env info drainer s r = (
    record { drainer = drainer; status = some s },
    record {
      result = some (record r { error = some (codes "drain failed: " ++ s.message) });
      err = none;
    },
  )
  check_phase rolling_back env info drainer s r =
      (record { drainer = drainer; status = some s }, record { result = some r; err = none })

  unfoldable pub check_scale_down_drain : Env → WorkerState → WorkerState × Answer
  unfolding check_phase
  check_scale_down_drain env st = elim env.lookup [
    | not_found ↦ (st, record { result = some no_result; err = none })
    | failure e ↦
        (st, record { result = none; err = some (codes "failed to get worker StatefulSet: " ++ e) })
    | found sts ↦
        let info = detect_scale_down (some sts) env.desired in
        let s = get_or_init_drain_status st.status in
        let r = record no_result { needs_drain = true; target_pod = info.target_pod_name } in
        let answer = check_phase s.phase env info st.drainer s r in
        if not info.detected
        then (st, record { result = some no_result; err = none })
        else if not (drain_enabled env.config)
        then (st, record { result = some (record r { needs_drain = false }); err = none })
        else answer
  ]

-- ResetDrainState; the reconciler's client is not part of the state.
unfoldable pub reset_drain_state : Time → WorkerState → WorkerState
unfolding reset
reset_drain_state now st = record {
  drainer = none;
  status = elim st.status [ none ↦ none | some s ↦ some (reset now s) ];
}

-- Step 5 of the cluster controller's reconciliation: requeue and leave the workers alone, or go on
-- to reconcile them (which applies the replicas wanted), and then reset the drain state or not.
pub data Decision : Type 0 where
  wait proceed proceed_and_reset : Decision

unfoldable pub decide : Answer → Decision
decide a = elim a.err [
  | some e ↦ proceed
  | none ↦ elim a.result [
    | none ↦ proceed
    | some r ↦
        if r.drain_in_progress
        then wait
        else if r.drain_complete
        then proceed_and_reset
        else proceed
  ]
]
