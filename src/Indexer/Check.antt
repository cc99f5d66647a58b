-- ===== src/Indexer/Check.antt =====
-- CheckScaleDownDrain of internal/opensearch/reconciler/indexer_reconciler.go with its helpers, and
-- what the cluster controller does with the answer (controllers/wazuhcluster_controller.go, step 3).
-- Metrics, events and logs are left out.
use wazuh_operator.Common.{
  ◌++◌, Option, none, some, Bool, true, false, not, if◌then◌else◌, ℤ, pos, eqb_ℤ, Bytes, codes,
  Time,
}
use wazuh_operator.Kube.{Result, ok, err}
use wazuh_operator.Drain.Status.{
  DrainPhase, unset, idle, pending, draining, verifying, complete, failed, rolling_back, GoError,
  ComponentDrainStatus,
}
use wazuh_operator.Drain.State.{
  transition, start_drain, mark_failed, mark_complete, update_progress, update_shard_count, reset,
}
use wazuh_operator.Drain.Detection.{ScaleDownInfo, detect_scale_down}
use wazuh_operator.Drain.Worker.{
  StsLookup, not_found, failure, found, get_or_init_drain_status, Decision, wait, proceed,
  proceed_and_reset,
}
use wazuh_operator.Indexer.Server.{Server}
use wazuh_operator.Indexer.Drainer.{
  IndexerDrainConfig, DrainProgress, IndexerDrainer, new_indexer_drainer, start_shard_drain,
  monitor_progress, verify_complete, cancel_shard_drain,
}

-- The reconciler's field `drainer`, the indexer's drain status, and the server's store.
pub record IndexerState (S : Type 0) : Type 0 where
  pub drainer : Option IndexerDrainer
  pub status : Option ComponentDrainStatus
  pub store : S

-- What one reconciliation sees besides the server.
pub record IndexerEnv : Type 0 where
  pub now : Time
  pub lookup : StsLookup
  pub desired : ℤ
  pub config : Option IndexerDrainConfig
  pub client_error : Option GoError

pub record DrainCheckResult : Type 0 where
  pub needs_drain : Bool
  pub drain_in_progress : Bool
  pub drain_complete : Bool
  pub target_pod : Bytes
  pub progress : Option DrainProgress
  pub error : Option GoError

abbrev pub no_check_result : DrainCheckResult
no_check_result = record {
  needs_drain = false;
  drain_in_progress = false;
  drain_complete = false;
  target_pod = codes "";
  progress = none;
  error = none;
}

-- The pair that CheckScaleDownDrain returns.
pub record IndexerAnswer : Type 0 where
  pub result : Option DrainCheckResult
  pub err : Option GoError

abbrev pub indexer_drain_enabled : Option IndexerDrainConfig → Bool
indexer_drain_enabled none = false
indexer_drain_enabled (some c) = elim c.enabled [ none ↦ false | some b ↦ b ]

abbrev pub get_or_new_indexer_drainer :
    Option IndexerDrainConfig → Option IndexerDrainer → IndexerDrainer
get_or_new_indexer_drainer config none = new_indexer_drainer config
get_or_new_indexer_drainer config (some d) = d

-- The cases of the switch that call a helper, at what the helper returned.
unfoldable pub started_case {ℓ} :
    {S : Type ℓ} → S × Option GoError → DrainCheckResult → S × IndexerAnswer
started_case (st, some e) r =
    (st, record { result = some (record r { error = some e }); err = some e })
started_case (st, none) r =
    (st, record { result = some (record r { drain_in_progress = true }); err = none })

unfoldable pub monitored_case {ℓ} :
    {S : Type ℓ} → S × Result DrainProgress → DrainCheckResult → S × IndexerAnswer
monitored_case (st, err e) r = (
  st,
  record { result = some (record r { drain_in_progress = true; error = some e }); err = none },
)
monitored_case (st, ok p) r = (
  st,
  record { result = some (record r { drain_in_progress = true; progress = some p }); err = none },
)

unfoldable pub verified_case {ℓ} :
    {S : Type ℓ} → S × Result Bool → DrainCheckResult → S × IndexerAnswer
verified_case (st, err e) r =
    (st, record { result = some (record r { error = some e }); err = none })
verified_case (st, ok true) r = (
  st,
  record {
    result = some (record r { drain_complete = true; drain_in_progress = false });
    err = none;
  },
)
verified_case (st, ok false) r =
    (st, record { result = some (record r { drain_in_progress = true }); err = none })

module _ (sv : Server) where
  open sv use {Store}

  -- startDrain, at the current drain status.
  unfoldable pub start_indexer_drain :
      IndexerEnv
      → ScaleDownInfo
      → Option IndexerDrainer
      → ComponentDrainStatus
      → Store
      → IndexerState Store × Option GoError
  unfolding start_drain start_shard_drain mark_failed transition new_indexer_drainer
  start_indexer_drain env info drainer s st = elim env.client_error [
    | some e ↦ (
      record { drainer = drainer; status = some s; store = st },
      some (codes "failed to create OpenSearch client: " ++ e),
    )
    | none ↦
        let d = get_or_new_indexer_drainer env.config drainer in
        let (s1, e1) =
          start_drain env.now info.target_pod_name info.current_replicas info.target_replicas s in
        let (d2, st2, e2) = start_shard_drain sv info.target_pod_name d st in
        elim e1 [
          | some e ↦ (
            record { drainer = some d; status = some s; store = st },
            some (codes "failed to transition drain state: " ++ e),
          )
          | none ↦ elim e2 [
            | some e ↦ (
              record {
                drainer = some d2;
                status = some (mark_failed env.now (codes "Failed to start drain: " ++ e) s1).0;
                store = st2;
              },
              some e,
            )
            | none ↦ (
              record {
                drainer = some d2;
                status =
                    some (transition env.now draining (codes "Relocating shards from node") s1).0;
                store = st2;
              },
              none,
            )
          ]
        ]
  ]

  -- monitorDrainProgress; it writes nothing to the server.
  unfoldable pub monitor_indexer_drain :
      IndexerEnv
      → Bytes
      → Option IndexerDrainer
      → ComponentDrainStatus
      → Store
      → IndexerState Store × Result DrainProgress
  unfolding monitor_progress update_progress update_shard_count transition
  monitor_indexer_drain env node none s st = (
    record { drainer = none; status = some s; store = st },
    err (codes "drainer not initialized"),
  )
  monitor_indexer_drain env node (some d) s st =
      let p = monitor_progress sv node d st in
      let s' = update_shard_count p.shards_remaining (update_progress p.percent p.message s) in
      let moved = (transition env.now verifying (codes "Verifying drain completion") s').0 in
      elim p.error [
        | some e ↦ (record { drainer = some d; status = some s; store = st }, err e)
        | none ↦ (
          record {
            drainer = some d;
            status = some (if p.is_complete then moved else s');
            store = st;
          },
          ok p,
        )
      ]

  -- verifyDrainComplete; an error of the cancellation is only logged.
  unfoldable pub verify_indexer_drain :
      IndexerEnv
      → Bytes
      → Option IndexerDrainer
      → ComponentDrainStatus
      → Store
      → IndexerState Store × Result Bool
  unfolding verify_complete mark_complete cancel_shard_drain
  verify_indexer_drain env node none s st = (
    record { drainer = none; status = some s; store = st },
    err (codes "drainer not initialized"),
  )
  verify_indexer_drain env node (some d) s st = elim (verify_complete sv node st) [
    | err e ↦ (record { drainer = some d; status = some s; store = st }, err e)
    | ok false ↦ (record { drainer = some d; status = some s; store = st }, ok false)
    | ok true ↦ (
      record {
        drainer = some d;
        status = some (mark_complete env.now s).0;
        store = (cancel_shard_drain sv st).0;
      },
      ok true,
    )
  ]

  -- The switch over the phase, at a scale-down that was detected and with draining enabled.
  unfoldable pub check_indexer_phase :
      DrainPhase
      → IndexerEnv
      → ScaleDownInfo
      → Option IndexerDrainer
      → ComponentDrainStatus
      → Store
      → DrainCheckResult
      → IndexerState Store × IndexerAnswer
  unfolding start_indexer_drain monitor_indexer_drain verify_indexer_drain started_case
      monitored_case verified_case
  check_indexer_phase idle env info d s st r = started_case (start_indexer_drain env info d s st) r
  check_indexer_phase unset env info d s st r = started_case (start_indexer_drain env info d s st) r
  check_indexer_phase pending env info d s st r =
      monitored_case (monitor_indexer_drain env info.target_pod_name d s st) r
  check_indexer_phase draining env info d s st r =
      monitored_case (monitor_indexer_drain env info.target_pod_name d s st) r
  check_indexer_phase verifying env info d s st r =
      verified_case (verify_indexer_drain env info.target_pod_name d s st) r
  check_indexer_phase complete env info d s st r = (
    record { drainer = d; status = some s; store = st },
    record { result = some (record r { drain_complete = true }); err = none },
  )
  check_indexer_phase failed env info d s st r = (
    record { drainer = d; status = some s; store = st },
    record {
      result = some (record r { error = some (codes "drain failed: " ++ s.message) });
      err = none;
    },
  )
  check_indexer_phase rolling_back env info d s st r =
      (record { drainer = d; status = some s; store = st }, record { result = some r; err = none })

  unfoldable pub check_indexer_scale_down :
      IndexerEnv → IndexerState Store → IndexerState Store × IndexerAnswer
  unfolding check_indexer_phase
  check_indexer_scale_down env st = elim env.lookup [
    | not_found ↦ (st, record { result = some no_check_result; err = none })
    | failure e ↦ (
      st,
      record { result = none; err = some (codes "failed to get indexer StatefulSet: " ++ e) },
    )
    | found sts ↦
        let info = detect_scale_down (some sts) env.desired in
        let s = get_or_init_drain_status st.status in
        let r = record no_check_result { needs_drain = true; target_pod = info.target_pod_name } in
        let answer = check_indexer_phase s.phase env info st.drainer s st.store r in
        if not info.detected
        then (st, record { result = some no_check_result; err = none })
        else if not (indexer_drain_enabled env.config)
        then (st, record { result = some (record r { needs_drain = false }); err = none })
        else answer
  ]

-- ResetDrainState
unfoldable pub reset_indexer_drain : {S : Type 0} → Time → IndexerState S → IndexerState S
unfolding reset
reset_indexer_drain now st = record st {
  drainer = none;
  status = elim st.status [ none ↦ none | some s ↦ some (reset now s) ];
}

-- Step 3 of the controller's reconciliation: the replicas wanted, and what follows an answer.
abbrev pub desired_indexer_replicas : ℤ → ℤ
desired_indexer_replicas n = if eqb_ℤ n (pos 0) then pos 3 else n

unfoldable pub decide_indexer : IndexerAnswer → Decision
decide_indexer a = elim a.err [
  | some e ↦ proceed
  | none ↦ elim a.result [
    | none ↦ proceed
    | some r ↦
        if r.drain_in_progress
        then wait
        else if r.drain_complete
        then proceed_and_reset
        else proceed
  ]
]
