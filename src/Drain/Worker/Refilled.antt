-- ===== src/Drain/Worker/Refilled.antt =====
-- A queue that gets events again while its drain is being verified
-- (VerifyQueueEmpty of internal/wazuh/drain/manager_drain.go, called by
-- internal/wazuh/reconciler/worker_reconciler.go).
use wazuh_operator.Common.{
  Bytes, ◌≡◌, List, [], ◌∷◌, some, ℕ, suc, pos, ◌≤ℤ◌, arith, All, Time, Duration, sub_time,
}
use wazuh_operator.Kube.{ok}
use wazuh_operator.Drain.Status.{verifying, ComponentDrainStatus}
use wazuh_operator.Drain.Manager.{ManagerDrainer, verify_queue_empty}
use wazuh_operator.Drain.Worker.{
  WorkerState, Env, verify_drain_complete, verify_case, check_phase, wait, proceed_and_reset,
  decide,
}
use wazuh_operator.Drain.Worker.Gate.{IsDraining, next, decision, check_draining}
use wazuh_operator.Drain.Worker.Stuck.{run, AllWait}

-- The Wazuh API answers that events are left.
abbrev pub HasEvents : Env → Type 0
HasEvents env = (n : ℕ) × (env.queue ≡ ok (pos (suc n)))

-- The drain is being verified by a drainer that knows the queue empty since an instant.
pub record IsVerifying (since : Time) (d : ManagerDrainer) (st : WorkerState) : Type 0 where
  pub status : ComponentDrainStatus
  pub has_status : st.status ≡ some status
  pub at_phase : status.phase ≡ verifying
  pub has_drainer : st.drainer ≡ some d
  pub seen : d.empty_queue_seen_time ≡ some since

module _ (show : Duration → Bytes) (since : Time) (d : ManagerDrainer) where
  refilled_step :
      (env : Env) (st : WorkerState)
      → IsDraining env
      → HasEvents env
      → IsVerifying since d st
      → (next show env st ≡ st) × (decision show env st ≡ wait)
  unfolding check_phase verify_case decide verify_drain_complete verify_queue_empty
  refilled_step env st h (n, q) v =
      ground (arith, check_draining show env st h, v.has_status, v.at_phase, v.has_drainer, v.seen)

  emptied_step :
      (env : Env) (st : WorkerState)
      → IsDraining env
      → env.queue ≡ ok (pos 0)
      → d.grace_period ≤ℤ sub_time env.now since
      → IsVerifying since d st
      → decision show env st ≡ proceed_and_reset
  unfolding check_phase verify_case decide verify_drain_complete verify_queue_empty
  emptied_step env st h q long v =
      ground (arith, check_draining show env st h, v.has_status, v.at_phase, v.has_drainer, v.seen)

  -- While a drain is being verified, answers that events are left make the controller wait, but leave
  -- the instant since which the drainer knows the queue empty: the first answer of an empty queue when
  -- that instant is at least the grace period ago makes the controller go on with the scale-down as
  -- drained, however recently events were left.
  pub refilled_proceeds :
      (envs : List Env) (env : Env) (st : WorkerState)
      → All IsDraining envs
      → All HasEvents envs
      → IsDraining env
      → env.queue ≡ ok (pos 0)
      → d.grace_period ≤ℤ sub_time env.now since
      → IsVerifying since d st
      → AllWait show envs st × (decision show env (run show envs st) ≡ proceed_and_reset)
  refilled_proceeds [] env st hs qs h q long v = (tt, emptied_step env st h q long v)
  refilled_proceeds (e ∷ es) env st (h', hs) (q', qs) h q long v =
      let (same, waits) = refilled_step e st h' q' v in
      let (all_wait, goes_on) = refilled_proceeds es env st hs qs h q long v in
      ((waits, rw same all_wait), rw same goes_on)
