-- ===== src/Drain/Examples/Status.antt =====
-- The results on the drain status, on scale-downs and on the queue at concrete inputs.
use wazuh_operator.Common.{
  ◌≡◌, refl, List, [], ◌∷◌, none, some, arith, pos, Bytes, codes, Time, length, get_elem?, show_ℤ,
}
use mathlib.Core.Option
use wazuh_operator.Kube.{StatefulSet, ok}
use wazuh_operator.Drain.Status.{
  draining, verifying, complete, failed, rolling_back, ComponentDrainStatus, empty_status,
}
use wazuh_operator.Drain.State.{
  initialize_drain_status, start_drain, update_progress, reset_for_retry, transition,
}
use wazuh_operator.Drain.State.Edges.{Outcome, transition-Outcome}
use wazuh_operator.Drain.State.Traces.{
  Op, to, begin, progress, again, run, trace, Inv, initialize-Inv, run-Inv, Visits, complete-Visits,
}
use wazuh_operator.Drain.Detection.{
  pod_name, get_pod_ordinal_from_name, get_all_target_pods, get_next_target_pod,
}
use wazuh_operator.Drain.Detection.Ordinals.{ordinal-pod_name}
use wazuh_operator.Drain.Detection.Targets.{all-next_target_pod}
use wazuh_operator.Drain.Manager.{ManagerDrainer, monitor_queue_depth, grace_elapsed}
use wazuh_operator.Common.{sub_time, ◌-ℤ◌, wrap, wrap64, sub64, mul64, div64}
use wazuh_operator.Drain.Manager.{tick, wait_for_drain_complete, drained_percent}
use wazuh_operator.Drain.Manager.Wait.{SawDrained, wait-SawDrained}

abbrev now : Time
now = pos 1000

abbrev drain_ops : List Op
drain_ops =
    begin now (codes "worker-2") (pos 3) (pos 2)
    ∷ to now draining (codes "Draining")
    ∷ progress (pos 150) (codes "Processing")
    ∷ to now failed (codes "timeout")
    ∷ to now rolling_back (codes "rollback")
    ∷ again now
    ∷ to now draining (codes "Draining")
    ∷ to now verifying (codes "Verifying")
    ∷ to now complete (codes "Done")
    ∷ []

run-Inv_example : Inv (run drain_ops initialize_drain_status)
run-Inv_example = run-Inv drain_ops initialize-Inv

complete-Visits_example :
    Visits (draining ∷ verifying ∷ complete ∷ []) (trace drain_ops initialize_drain_status)
unfolding initialize_drain_status start_drain update_progress reset_for_retry transition
complete-Visits_example = complete-Visits drain_ops initialize_drain_status refl

-- A drain of worker-2 under way.
abbrev under_way : ComponentDrainStatus
under_way = record (empty_status draining) {
  target_pod = codes "worker-2";
  previous_replicas = some (pos 3);
  target_replicas = some (pos 2);
  start_time = some now;
}

transition-Outcome_example :
    Outcome now verifying
      (codes "checking")
      under_way
      (transition now verifying (codes "checking") under_way)
transition-Outcome_example = transition-Outcome now verifying (codes "checking") under_way

ordinal-pod_name_example :
    get_pod_ordinal_from_name
      (pod_name (codes "wazuh-manager-worker") (pos 12))
      (codes "wazuh-manager-worker")
    ≡ some (pos 12)
ordinal-pod_name_example = ordinal-pod_name (codes "wazuh-manager-worker") 12 (omega arith)

all-next_target_pod_example :
    (pods : List Bytes) × (get_all_target_pods 4 (codes "worker") (pos 5) (pos 2) ≡ some pods)
    × (length pods ≡ 3)
    × (get_elem? pods 1
        ≡ Option.map (λ p. p.0) (get_next_target_pod (codes "worker") (pos 5) (pos 2) (pos 1)))
all-next_target_pod_example =
    all-next_target_pod 4 (codes "worker") 5 2 1 (omega arith) (omega arith) (omega arith)

abbrev workers : StatefulSet
workers = record {
  name = codes "worker";
  namespace = codes "wazuh";
  uid = codes "u1";
  spec_replicas = some (pos 5);
  status_replicas = pos 5;
  ready_replicas = pos 5;
  update_revision = codes "r2";
  current_revision = codes "r1";
}

abbrev drainer : ManagerDrainer
drainer = record {
  timeout = pos 900000000000;
  queue_check_interval = pos 5000000000;
  grace_period = pos 500;
  initial_queue_depth = pos 40;
  empty_queue_seen_time = some (pos 100);
}

-- The drainer after its start, when no answer has been seen.
abbrev started_drainer : ManagerDrainer
started_drainer = record drainer { empty_queue_seen_time = none }

wait-SawDrained_example : SawDrained (pos 500) none (
    tick (pos 150) (ok (pos 0))
    ∷ tick (pos 180) (ok (pos 3))
    ∷ tick (pos 200) (ok (pos 0))
    ∷ tick (pos 900) (ok (pos 0))
    ∷ [])
unfolding wait_for_drain_complete monitor_queue_depth drained_percent grace_elapsed sub_time ◌-ℤ◌
    wrap wrap64 sub64 mul64 div64
wait-SawDrained_example =
    wait-SawDrained (λ d. show_ℤ d) (pos 100)
      (tick (pos 150) (ok (pos 0))
        ∷ tick (pos 180) (ok (pos 3))
        ∷ tick (pos 200) (ok (pos 0))
        ∷ tick (pos 900) (ok (pos 0))
        ∷ [])
      started_drainer none refl
