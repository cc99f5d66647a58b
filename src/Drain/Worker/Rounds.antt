-- ===== src/Drain/Worker/Rounds.antt =====
-- CheckScaleDownDrain of the workers (internal/wazuh/reconciler/worker_reconciler.go) against the
-- contract of a drain check.
use wazuh_operator.Common.{
  ◌≡◌, refl, sym, ap, inl, inr, Option, none, some, true, false, Bool-cases, Option-cases, arith,
  Bytes, Duration,
}
use wazuh_operator.Kube.{Result-cases}
use wazuh_operator.Drain.Status.{
  DrainPhase, unset, idle, pending, draining, verifying, complete, failed, rolling_back,
  ComponentDrainStatus,
}
use wazuh_operator.Drain.State.{
  transition, start_drain, mark_failed, mark_complete, update_progress, update_queue_depth,
}
use wazuh_operator.Drain.Detection.{ScaleDownInfo, detect_scale_down}
use wazuh_operator.Drain.Manager.{
  ManagerDrainer, start_queue_drain, monitor_queue_depth, verify_queue_empty,
}
use wazuh_operator.Drain.Round.{
  Round, hold_pending, hold_draining, hold_verifying, up_unset, up_idle, up_verifying, up_failed,
  up_rolling_back, start, strand, give_up, hold, advance, finish, release, retarget,
}
use wazuh_operator.Drain.Worker.{
  WorkerState, Env, CheckResult, no_result, Answer, get_or_init_drain_status, get_or_new_drainer,
  start_worker_drain, monitor_drain_progress, verify_drain_complete, start_case, monitor_case,
  verify_case, check_phase, decide,
}
use wazuh_operator.Drain.Worker.Gate.{
  IsDraining, IsDrained, verify_queue_empty-IsDrained, next, decision, check_draining,
}

abbrev pub worker_phase : WorkerState → DrainPhase
worker_phase st = (get_or_init_drain_status st.status).phase

-- A call's round, at its pair of state and answer.
abbrev RoundOf : Type 0 → DrainPhase → WorkerState × Answer → Type 0
RoundOf Drained p a = Round Drained p (decide a.1) (worker_phase a.0)

start_round :
    (D : Type 0) (env : Env) (info : ScaleDownInfo) (d : Option ManagerDrainer)
    (s : ComponentDrainStatus) (r : CheckResult)
    → s.phase ≡ idle
    → RoundOf D idle (start_case (start_worker_drain env info d s) r)
unfolding start_worker_drain start_case decide start_drain mark_failed transition
start_round D env info d s r h = elim (Option-cases env.client_error) [
  | inr (e, p) ↦ retarget (give_up up_idle) (ground (arith, p)) (ground (arith, p))
  | inl p ↦ elim (Option-cases (start_queue_drain env.queue (get_or_new_drainer env.config d)).1) [
    | inr (e, q) ↦ retarget strand (ground (arith, p, q)) (ground (arith, p, q))
    | inl q ↦ retarget start (ground (arith, p, q)) (ground (arith, p, q))
  ]
]

unset_round :
    (D : Type 0) (env : Env) (info : ScaleDownInfo) (d : Option ManagerDrainer)
    (s : ComponentDrainStatus) (r : CheckResult)
    → s.phase ≡ unset
    → RoundOf D unset (start_case (start_worker_drain env info d s) r)
unfolding start_worker_drain start_case decide start_drain
unset_round D env info d s r h = elim (Option-cases env.client_error) [
  | inr (e, p) ↦ retarget (give_up up_unset) (ground (arith, p)) (ground (arith, p))
  | inl p ↦ retarget (give_up up_unset) (ground (arith, p)) (ground (arith, p))
]

module _ (show : Duration → Bytes) where
  pending_round :
      (D : Type 0) (env : Env) (d : Option ManagerDrainer) (s : ComponentDrainStatus)
      (r : CheckResult)
      → s.phase ≡ pending
      → RoundOf D pending (monitor_case (monitor_drain_progress show env d s) r)
  unfolding monitor_drain_progress monitor_case decide update_progress update_queue_depth transition
  pending_round D env none s r h = retarget (hold hold_pending) refl (sym h)
  pending_round D env (some d) s r h =
      elim (Option-cases (monitor_queue_depth show env.now env.queue d).1.error) [
        | inr (e, p) ↦ retarget (hold hold_pending) (ground (arith, p)) (ground (arith, p))
        | inl p ↦ retarget (hold hold_pending) (ground (arith, p)) (ground (arith, p))
      ]

  draining_round :
      (D : Type 0) (env : Env) (d : Option ManagerDrainer) (s : ComponentDrainStatus)
      (r : CheckResult)
      → s.phase ≡ draining
      → RoundOf D draining (monitor_case (monitor_drain_progress show env d s) r)
  unfolding monitor_drain_progress monitor_case decide update_progress update_queue_depth transition
  draining_round D env none s r h = retarget (hold hold_draining) refl (sym h)
  draining_round D env (some d) s r h =
      let m = (monitor_queue_depth show env.now env.queue d).1 in
      elim (Option-cases m.error) [
        | inr (e, p) ↦ retarget (hold hold_draining) (ground (arith, p)) (ground (arith, p))
        | inl p ↦ elim (Bool-cases m.is_complete) [
          | inl q ↦ retarget advance (ground (arith, p, q)) (ground (arith, p, q))
          | inr q ↦ retarget (hold hold_draining) (ground (arith, p, q)) (ground (arith, p, q))
        ]
      ]

  verifying_round :
      (env : Env) (d : Option ManagerDrainer) (s : ComponentDrainStatus) (r : CheckResult)
      → s.phase ≡ verifying
      → r.drain_in_progress ≡ false
      → r.drain_complete ≡ false
      → RoundOf (IsDrained env d) verifying (verify_case (verify_drain_complete show env d s) r)
  unfolding verify_drain_complete verify_case decide mark_complete transition
  verifying_round env none s r h a b = retarget (give_up up_verifying) (ground arith) (sym h)
  verifying_round env (some d) s r h a b =
      elim (Result-cases (verify_queue_empty env.now env.queue d).1) [
        | inr (e, p) ↦ retarget (give_up up_verifying) (ground (arith, p)) (ground (arith, p))
        | inl (true, p) ↦
            retarget (finish (verify_queue_empty-IsDrained env d p)) (ground (arith, p))
              (ground (arith, p))
        | inl (false, p) ↦ retarget (hold hold_verifying) (ground (arith, p)) (ground (arith, p))
      ]

  phase_round :
      (p : DrainPhase) (env : Env) (info : ScaleDownInfo) (d : Option ManagerDrainer)
      (s : ComponentDrainStatus) (r : CheckResult)
      → s.phase ≡ p
      → r.drain_in_progress ≡ false
      → r.drain_complete ≡ false
      → RoundOf (IsDrained env d) p (check_phase show p env info d s r)
  unfolding check_phase
  phase_round idle env info d s r h a b = start_round _ env info d s r h
  phase_round unset env info d s r h a b = unset_round _ env info d s r h
  phase_round pending env info d s r h a b = pending_round _ env d s r h
  phase_round draining env info d s r h a b = draining_round _ env d s r h
  phase_round verifying env info d s r h a b = verifying_round env d s r h a b
  phase_round complete env info d s r h a b =
      unfold decide in retarget release (ground arith) (sym h)
  phase_round failed env info d s r h a b =
      unfold decide in retarget (give_up up_failed) (ground arith) (sym h)
  phase_round rolling_back env info d s r h a b =
      unfold decide in retarget (give_up up_rolling_back) (ground arith) (sym h)

  -- One CheckScaleDownDrain of the workers at a scale-down to be drained is a call of the contract for
  -- drain checks, in which drained means that the worker's queue is empty now and that the instant
  -- that the drainer has recorded for an empty queue is at least the grace period ago.
  pub check_scale_down_drain-Round :
      (env : Env) (st : WorkerState)
      → IsDraining env
      → Round
          (IsDrained env st.drainer)
          (worker_phase st)
          (decision show env st)
          (worker_phase (next show env st))
  check_scale_down_drain-Round env st h =
      let info = detect_scale_down (some h.sts) env.desired in
      let r = record no_result { needs_drain = true; target_pod = info.target_pod_name } in
      let opened = check_draining show env st h in
      retarget
        (phase_round (worker_phase st) env info st.drainer (get_or_init_drain_status st.status) r
          refl refl refl)
        (ap (λ a. decide a.1) (sym opened)) (ap (λ a. worker_phase a.0) (sym opened))
