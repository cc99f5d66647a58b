-- ===== src/Drain/Recovery.antt =====
-- The retries and rollbacks of drains at the start of a reconciliation: checkAndHandleRetry and
-- verifyRollbackComplete of controllers/wazuhcluster_controller.go. The managers of retries and
-- rollbacks exist, as the entry point creates them. Events and logs are left out, and so is the write
-- of the status, whose error is only logged.
pub mod Settled
use wazuh_operator.Common.{
  ◌++◌, Option, none, some, Bool, true, false, ◌||◌, if◌then◌else◌, ℤ, pos, ltb_ℤ, Bytes, codes,
  show_ℤ, Time, Duration, sub_time,
}
use wazuh_operator.Kube.{Client, Result, ok, err}
use wazuh_operator.Drain.Status.{
  DrainPhase, pending, failed, rolling_back, phase_eq, ComponentDrainStatus, GoError,
}
use wazuh_operator.Drain.Retry.{is_retry_due}
use wazuh_operator.Drain.Rollback.{
  DrainStatus, WazuhCluster, drain_component_indexer, drain_component_manager,
  verify_rollback_complete,
}

-- What the reconciliation does after a retry step: nothing, or it ends and is queued again, at once or
-- after a time.
pub data Requeue : Type 0 where
  go_on : Requeue
  at_once : Requeue
  after_wait : Duration → Requeue

-- The part of checkAndHandleRetry for one component; both parts have the same text.
unfoldable pub retry_component : Time → ComponentDrainStatus → ComponentDrainStatus × Requeue
unfolding is_retry_due sub_time
retry_component now s =
    let started = record s {
      phase = pending;
      message = codes "Retry attempt " ++ (show_ℤ s.attempt_count ++ codes " starting");
    } in
    let later : Requeue = elim s.next_retry_time [
      | none ↦ go_on
      | some t ↦ let left = sub_time t now in if ltb_ℤ (pos 0) left then after_wait left else go_on
    ] in
    if phase_eq s.phase failed || phase_eq s.phase rolling_back
    then if is_retry_due now s then (started, at_once) else (s, later)
    else (s, go_on)

-- A component whose pointer may be nil.
unfoldable pub retry_pointer :
    Time → Option ComponentDrainStatus → Option ComponentDrainStatus × Requeue
unfolding retry_component
retry_pointer now none = (none, go_on)
retry_pointer now (some s) = let (s', q) = retry_component now s in (some s', q)

-- checkAndHandleRetry: the manager's turn comes only if the indexer has nothing to wait for.
unfoldable pub check_and_handle_retry : Time → Option DrainStatus → Option DrainStatus × Requeue
unfolding retry_pointer
check_and_handle_retry now none = (none, go_on)
check_and_handle_retry now (some d) =
    let (i, q) = retry_pointer now d.indexer in
    let (m, q') = retry_pointer now d.manager in
    elim q [
      | go_on ↦ (some (record { indexer = i; manager = m }), q')
      | at_once ↦ (some (record d { indexer = i }), at_once)
      | after_wait t ↦ (some (record d { indexer = i }), after_wait t)
    ]

-- What a verified rollback makes of a status.
abbrev pub rolled_back : ComponentDrainStatus → ComponentDrainStatus
rolled_back s = record s { phase = failed; message = codes "Rollback complete, waiting for retry" }

-- The part for one component, at the answer of VerifyRollbackComplete.
unfoldable pub settle :
    Result Bool → Option ComponentDrainStatus → Option ComponentDrainStatus × Option GoError
settle answer none = (none, none)
settle answer (some s) =
    if phase_eq s.phase rolling_back
    then elim answer [
      | err e ↦ (some s, some e)
      | ok false ↦ (some s, none)
      | ok true ↦ (some (rolled_back s), none)
    ]
    else (some s, none)

module _ (c : Client) where
  open c use {Store}

  -- verifyRollbackComplete of the controller; an error of the indexer leaves the manager alone.
  unfoldable pub settle_rollbacks : WazuhCluster → Store → WazuhCluster × Option GoError
  unfolding settle verify_rollback_complete
  settle_rollbacks cluster st = elim cluster.drain [
    | none ↦ (cluster, none)
    | some d ↦
        let (i, e) =
          settle (verify_rollback_complete c cluster drain_component_indexer st) d.indexer in
        let cluster' = record cluster { drain = some (record d { indexer = i }) } in
        let (m, e') =
          settle (verify_rollback_complete c cluster' drain_component_manager st) d.manager in
        elim e [
          | some x ↦ (cluster', some x)
          | none ↦ (record cluster { drain = some (record { indexer = i; manager = m }) }, e')
        ]
  ]
