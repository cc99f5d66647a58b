-- ===== src/Drain/Examples/Workers.antt =====
-- The results on the drain of the workers at concrete inputs.
use wazuh_operator.Common.{
  ◌≡◌, refl, ◌⊎◌, inl, [], ◌∷◌, Option, none, some, true, arith, ℤ, pos, Bytes, codes, show_ℤ, Time,
  Duration, sub_time, ◌-ℤ◌,
}
use wazuh_operator.Kube.{StatefulSet, Result, ok, err}
use wazuh_operator.Drain.Status.{
  DrainPhase, idle, pending, draining, verifying, complete, failed, ComponentDrainStatus,
  empty_status,
}
use wazuh_operator.Drain.Detection.{detect_scale_down}
use wazuh_operator.Drain.Manager.{
  ManagerDrainConfig, ManagerDrainer, verify_queue_empty, new_manager_drainer,
}
use wazuh_operator.Drain.Worker.{
  WorkerState, found, Env, check_scale_down_drain, verify_drain_complete, verify_case, check_phase,
  proceed, proceed_and_reset, decide,
}
use wazuh_operator.Drain.Worker.Gate.{IsDraining, IsDrained, next, decision, reset_needs_drain}
use wazuh_operator.Drain.Worker.Stuck.{run, AllWait, InPhase, verify_error_proceeds, restart_stuck}
use wazuh_operator.Drain.Worker.Refilled.{refilled_proceeds}
use wazuh_operator.Drain.Round.{Round}
use wazuh_operator.Drain.Worker.Rounds.{worker_phase, check_scale_down_drain-Round}
use wazuh_operator.Drain.Rollback.{DrainStatus}
use wazuh_operator.Drain.Recovery.{at_once, check_and_handle_retry}
use wazuh_operator.Drain.Worker.Retried.{IsDue, retried_stuck}
use wazuh_operator.Drain.Worker.Liveness.{drain_completes}

abbrev show : Duration → Bytes
show d = show_ℤ d

abbrev workers : StatefulSet
workers = record {
  name = codes "worker";
  namespace = codes "wazuh";
  uid = codes "u1";
  spec_replicas = some (pos 3);
  status_replicas = pos 3;
  ready_replicas = pos 3;
  update_revision = codes "r1";
  current_revision = codes "r1";
}

abbrev config : ManagerDrainConfig
config = record {
  enabled = some true;
  timeout = none;
  queue_check_interval = none;
  grace_period = some (pos 50);
}

-- A reconciliation at an instant and with an answer of the Wazuh API, after a scale-down from 3 to 2.
abbrev at : Time → Result ℤ → Env
at now queue = record {
  now = now;
  lookup = found workers;
  desired = pos 2;
  config = some config;
  client_error = none;
  queue = queue;
}

at-IsDraining : (now : Time) (queue : Result ℤ) → IsDraining (at now queue)
unfolding detect_scale_down
at-IsDraining now queue = record { sts = workers; is_found = refl; detected = refl; enabled = refl }

abbrev in_phase : DrainPhase → Option ManagerDrainer → WorkerState
in_phase p d = record { drainer = d; status = some (empty_status p) }

abbrev seen_empty : ManagerDrainer
seen_empty = record {
  timeout = pos 900;
  queue_check_interval = pos 5;
  grace_period = pos 50;
  initial_queue_depth = pos 9;
  empty_queue_seen_time = some (pos 100);
}

abbrev api_error : Result ℤ
api_error = err (codes "connection refused")

reset_needs_drain_example :
    IsDraining (at (pos 200) (ok (pos 0)))
    × ((verifying ≡ complete)
        ⊎ ((verifying ≡ verifying) × IsDrained (at (pos 200) (ok (pos 0))) (some seen_empty)))
unfolding check_scale_down_drain check_phase detect_scale_down verify_drain_complete verify_case
    verify_queue_empty decide sub_time ◌-ℤ◌
reset_needs_drain_example =
    reset_needs_drain show (at (pos 200) (ok (pos 0))) (in_phase verifying (some seen_empty)) refl

drain_completes_example :
    let e0 = at (pos 100) (ok (pos 7)) in
    let e1 = at (pos 110) (ok (pos 0)) in
    let e2 = at (pos 170) (ok (pos 0)) in
    let e3 = at (pos 180) (ok (pos 0)) in
    let st = in_phase idle none in
    AllWait show (e0 ∷ e1 ∷ e2 ∷ []) st
    × (decision show e3 (run show (e0 ∷ e1 ∷ e2 ∷ []) st) ≡ proceed_and_reset)
    × InPhase complete (run show (e0 ∷ e1 ∷ e2 ∷ e3 ∷ []) st)
unfolding new_manager_drainer sub_time ◌-ℤ◌
drain_completes_example =
    drain_completes show (at (pos 100) (ok (pos 7))) (at (pos 110) (ok (pos 0)))
      (at (pos 170) (ok (pos 0))) (at (pos 180) (ok (pos 0))) (in_phase idle none)
      (empty_status idle) (pos 7) (at-IsDraining (pos 100) (ok (pos 7)))
      (at-IsDraining (pos 110) (ok (pos 0))) (at-IsDraining (pos 170) (ok (pos 0)))
      (at-IsDraining (pos 180) (ok (pos 0))) refl refl refl refl refl refl refl (omega arith)
      (omega arith) (omega arith)

verify_error_proceeds_example :
    let st = in_phase verifying (some seen_empty) in
    (next show (at (pos 100) api_error) st ≡ st)
    × (decision show (at (pos 100) api_error) st ≡ proceed)
verify_error_proceeds_example =
    verify_error_proceeds show (at (pos 100) api_error) (in_phase verifying (some seen_empty))
      (empty_status verifying) (codes "connection refused") (at-IsDraining (pos 100) api_error) refl
      refl refl

restart_stuck_example :
    let envs = at (pos 100) (ok (pos 0)) ∷ at (pos 900) (ok (pos 0)) ∷ [] in
    (run show envs (in_phase draining none) ≡ in_phase draining none)
    × AllWait show envs (in_phase draining none)
restart_stuck_example =
    restart_stuck show (at (pos 100) (ok (pos 0)) ∷ at (pos 900) (ok (pos 0)) ∷ [])
      (in_phase draining none)
      (at-IsDraining (pos 100) (ok (pos 0)), (at-IsDraining (pos 900) (ok (pos 0)), tt))
      (empty_status draining, refl, refl) refl

check_scale_down_drain-Round_example :
    Round
      (IsDrained (at (pos 200) (ok (pos 0))) (some seen_empty))
      verifying
      (decision show (at (pos 200) (ok (pos 0))) (in_phase verifying (some seen_empty)))
      (worker_phase (next show (at (pos 200) (ok (pos 0))) (in_phase verifying (some seen_empty))))
check_scale_down_drain-Round_example =
    check_scale_down_drain-Round show (at (pos 200) (ok (pos 0)))
      (in_phase verifying (some seen_empty)) (at-IsDraining (pos 200) (ok (pos 0)))

abbrev failed_drain : ComponentDrainStatus
failed_drain = record (empty_status failed) { next_retry_time = some (pos 90) }

failed-IsDue : IsDue (pos 100) failed_drain
failed-IsDue = record { at = pos 90; scheduled = refl; passed = refl; stopped = inl refl }

retried_stuck_example :
    (d' : DrainStatus) × (check_and_handle_retry
        (pos 100)
        (some (record { indexer = none; manager = some failed_drain }))
      ≡ (some d', at_once))
    × InPhase pending (
        run show
          (at (pos 200) (ok (pos 0)) ∷ [])
          (record { drainer = some seen_empty; status = d'.manager }))
    × AllWait show
        (at (pos 200) (ok (pos 0)) ∷ [])
        (record { drainer = some seen_empty; status = d'.manager })
retried_stuck_example =
    retried_stuck show (pos 100) (record { indexer = none; manager = some failed_drain })
      failed_drain (some seen_empty) (at (pos 200) (ok (pos 0)) ∷ []) refl refl failed-IsDue
      (at-IsDraining (pos 200) (ok (pos 0)), tt)

-- Empty since 100, five events at 190, empty at 191.
refilled_proceeds_example :
    let st = in_phase verifying (some seen_empty) in
    AllWait show (at (pos 190) (ok (pos 5)) ∷ []) st
    × (decision show (at (pos 191) (ok (pos 0))) (run show (at (pos 190) (ok (pos 5)) ∷ []) st)
        ≡ proceed_and_reset)
unfolding sub_time ◌-ℤ◌
refilled_proceeds_example =
    refilled_proceeds show (pos 100) seen_empty (at (pos 190) (ok (pos 5)) ∷ [])
      (at (pos 191) (ok (pos 0))) (in_phase verifying (some seen_empty))
      (at-IsDraining (pos 190) (ok (pos 5)), tt) ((4, refl), tt)
      (at-IsDraining (pos 191) (ok (pos 0))) refl (omega arith)
      (record {
        status = empty_status verifying;
        has_status = refl;
        at_phase = refl;
        has_drainer = refl;
        seen = refl;
      })
