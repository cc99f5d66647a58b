-- ===== src/Drain/Worker/Retried.antt =====
-- A drain of the workers after its retry was started by checkAndHandleRetry
-- (controllers/wazuhcluster_controller.go).
use wazuh_operator.Common.{
  ◌≡◌, refl, ◌⊎◌, inl, inr, List, Option, none, some, true, arith, All, Time, Duration, Bytes,
  after,
}
use wazuh_operator.Drain.Status.{pending, failed, rolling_back, ComponentDrainStatus}
use wazuh_operator.Drain.Retry.{is_retry_due}
use wazuh_operator.Drain.Rollback.{DrainStatus}
use wazuh_operator.Drain.Recovery.{at_once, retry_component, retry_pointer, check_and_handle_retry}
use wazuh_operator.Drain.Manager.{ManagerDrainer}
use wazuh_operator.Drain.Worker.{Env}
use wazuh_operator.Drain.Worker.Gate.{IsDraining}
use wazuh_operator.Drain.Worker.Stuck.{run, AllWait, InPhase, pending_stuck}

-- A drain that failed or is rolled back and whose retry time has passed.
pub record IsDue (now : Time) (s : ComponentDrainStatus) : Type 0 where
  pub at : Time
  pub scheduled : s.next_retry_time ≡ some at
  pub passed : after now at ≡ true
  pub stopped : (s.phase ≡ failed) ⊎ (s.phase ≡ rolling_back)

retry_starts :
    (now : Time) (s : ComponentDrainStatus)
    → IsDue now s
    → ((retry_component now s).0.phase ≡ pending) × ((retry_component now s).1 ≡ at_once)
unfolding retry_component is_retry_due
retry_starts now s h = elim h.stopped [
  | inl p ↦ (ground (arith, p, h.scheduled, h.passed), ground (arith, p, h.scheduled, h.passed))
  | inr p ↦ (ground (arith, p, h.scheduled, h.passed), ground (arith, p, h.scheduled, h.passed))
]

-- After the retry of a failed drain of the workers was started, with no drain of the indexer to see
-- to, every reconciliation of a scale-down to be drained keeps the phase Pending and makes the
-- controller wait, whatever the Wazuh API answers.
pub retried_stuck :
    (show : Duration → Bytes) (now : Time) (d : DrainStatus) (s : ComponentDrainStatus)
    (drainer : Option ManagerDrainer) (envs : List Env)
    → d.indexer ≡ none
    → d.manager ≡ some s
    → IsDue now s
    → All IsDraining envs
    → (d' : DrainStatus) × (check_and_handle_retry now (some d) ≡ (some d', at_once))
      × InPhase pending (run show envs (record { drainer = drainer; status = d'.manager }))
      × AllWait show envs (record { drainer = drainer; status = d'.manager })
unfolding check_and_handle_retry retry_pointer
retried_stuck show now d s drainer envs hi hm due h =
    let (p, q) = retry_starts now s due in
    let s' = (retry_component now s).0 in
    let (a, b) =
      pending_stuck show envs (record { drainer = drainer; status = some s' }) h (s', refl, p) in
    (record d { manager = some s' }, ground (arith, hi, hm, q), a, b)
