-- ===== src/Drain/Worker/Stuck.antt =====
-- Errors and restarts in the drain of internal/wazuh/reconciler/worker_reconciler.go.
use wazuh_operator.Common.{
  ◌++◌, subst, sym, ◌≡◌, refl, List, [], ◌∷◌, Option, none, some, Bool, true, false, arith, All,
  Bytes, codes, Time, Duration,
}
use wazuh_operator.Kube.{err}
use wazuh_operator.Drain.Status.{
  DrainPhase, idle, pending, draining, verifying, ComponentDrainStatus, GoError,
}
use wazuh_operator.Drain.State.{
  transition, start_drain, mark_failed, update_progress, update_queue_depth,
}
use wazuh_operator.Drain.Detection.{ScaleDownInfo, detect_scale_down}
use wazuh_operator.Drain.Manager.{
  ManagerDrainer, ManagerDrainProgress, start_queue_drain, monitor_queue_depth, verify_queue_empty,
}
use wazuh_operator.Drain.Worker.{
  WorkerState, Env, CheckResult, no_result, check_scale_down_drain, start_worker_drain,
  monitor_drain_progress, verify_drain_complete, start_case, monitor_case, verify_case, check_phase,
  wait, proceed, decide,
}
use wazuh_operator.Drain.Worker.Gate.{IsDraining, next, decision, check_draining}

-- The state after a row of reconciliations.
abbrev pub run : (Duration → Bytes) → List Env → WorkerState → WorkerState
run show [] st = st
run show (env ∷ envs) st = run show envs (next show env st)

-- All of them leave the workers alone.
abbrev pub AllWait : (Duration → Bytes) → List Env → WorkerState → Type 0
AllWait show [] st = Unit
AllWait show (env ∷ envs) st = (decision show env st ≡ wait) × AllWait show envs (next show env st)

-- The manager's drain status is in this phase.
abbrev pub InPhase : DrainPhase → WorkerState → Type 0
InPhase p st = (s : ComponentDrainStatus) × (st.status ≡ some s) × (s.phase ≡ p)

transition_from_pending :
    (now : Time) (msg : Bytes) (s : ComponentDrainStatus)
    → s.phase ≡ pending
    → (transition now verifying msg s).0 ≡ s
unfolding transition
transition_from_pending now msg s h = ground arith

module _ (show : Duration → Bytes) where
  pending_monitor :
      (env : Env) (drainer : Option ManagerDrainer) (s : ComponentDrainStatus) (r : CheckResult)
      → s.phase ≡ pending
      → InPhase pending (monitor_case (monitor_drain_progress show env drainer s) r).0
        × (decide (monitor_case (monitor_drain_progress show env drainer s) r).1 ≡ wait)
  unfolding monitor_drain_progress monitor_case decide update_progress update_queue_depth
  pending_monitor env none s r h = ((s, refl, h), refl)
  pending_monitor env (some d) s r h = go m.1.error m.1.is_complete refl refl
    where
      m : ManagerDrainer × ManagerDrainProgress
      m = monitor_queue_depth show env.now env.queue d

      s' : ComponentDrainStatus
      s' = update_queue_depth m.1.queue_depth (update_progress m.1.percent m.1.message s)

      go :
          (e : Option GoError) (done : Bool)
          → m.1.error ≡ e
          → m.1.is_complete ≡ done
          → InPhase pending (monitor_case (monitor_drain_progress show env (some d) s) r).0
            × (decide (monitor_case (monitor_drain_progress show env (some d) s) r).1 ≡ wait)
      go (some e) done p q = ((s, ground arith, h), ground arith)
      go none false p q = ((s', ground arith, h), ground arith)
      go none true p q =
          let same =
            transition_from_pending env.now (codes "Verifying queue drain completion") s' h in
          ((s', ground (arith, same), h), ground arith)

  pending_step :
      (env : Env) (st : WorkerState)
      → IsDraining env
      → InPhase pending st
      → InPhase pending (next show env st) × (decision show env st ≡ wait)
  unfolding check_phase
  pending_step env st d (s, e, p) =
      let info = detect_scale_down (some d.sts) env.desired in
      let r = record no_result { needs_drain = true; target_pod = info.target_pod_name } in
      let same : check_scale_down_drain show env st
          ≡ monitor_case (monitor_drain_progress show env st.drainer s) r =
        ground (arith, check_draining show env st d) in
      subst (λ a. InPhase pending a.0 × (decide a.1 ≡ wait)) (sym same)
        (pending_monitor env st.drainer s r p)

  -- A drain in the phase Pending stays there: whatever the Wazuh API answers, and even when the queue
  -- is empty for long, every further reconciliation of a scale-down that is to be drained keeps the
  -- phase and makes the controller wait.
  pub pending_stuck :
      (envs : List Env) (st : WorkerState)
      → All IsDraining envs
      → InPhase pending st
      → InPhase pending (run show envs st) × AllWait show envs st
  pending_stuck [] st h p = (p, tt)
  pending_stuck (env ∷ envs) st (h, hs) p =
      let (p', w) = pending_step env st h p in
      let (p'', ws) = pending_stuck envs (next show env st) hs p' in (p'', (w, ws))

  start_fails :
      (env : Env) (info : ScaleDownInfo) (drainer : Option ManagerDrainer)
      (s : ComponentDrainStatus) (e : Bytes)
      → s.phase ≡ idle
      → env.client_error ≡ none
      → env.queue ≡ err e
      → InPhase pending (start_worker_drain env info drainer s).0
        × ((x : GoError) × ((start_worker_drain env info drainer s).1 ≡ some x))
  unfolding start_worker_drain start_drain start_queue_drain mark_failed transition
  start_fails env info drainer s e h c q = (
    (
      (start_drain env.now info.target_pod_name info.current_replicas info.target_replicas s).0,
      ground arith,
      ground arith,
    ),
    (codes "failed to get initial queue status: " ++ e, ground arith),
  )

  start_case_failed :
      (t : WorkerState × Option GoError) (r : CheckResult) (x : GoError)
      → t.1 ≡ some x
      → InPhase pending t.0
      → InPhase pending (start_case t r).0 × (decide (start_case t r).1 ≡ proceed)
  unfolding start_case decide
  start_case_failed (st, none) r x h p = absurd (ground arith)
  start_case_failed (st, some e) r x h p = (p, refl)

  -- A drain whose start fails because the Wazuh API does not answer ends up Pending, not Failed, and
  -- the controller goes on with the scale-down without a drain.
  pub failed_start_pending :
      (env : Env) (st : WorkerState) (s : ComponentDrainStatus) (e : Bytes)
      → IsDraining env
      → st.status ≡ some s
      → s.phase ≡ idle
      → env.client_error ≡ none
      → env.queue ≡ err e
      → InPhase pending (next show env st) × (decision show env st ≡ proceed)
  unfolding check_phase start_case decide
  failed_start_pending env st s e d a h c q =
      let info = detect_scale_down (some d.sts) env.desired in
      let r = record no_result { needs_drain = true; target_pod = info.target_pod_name } in
      let (at_pending, (x, failed')) = start_fails env info st.drainer s e h c q in
      let same : check_scale_down_drain show env st
          ≡ start_case (start_worker_drain env info st.drainer s) r =
        ground (arith, check_draining show env st d) in
      subst (λ a. InPhase pending a.0 × (decide a.1 ≡ proceed)) (sym same)
        (start_case_failed (start_worker_drain env info st.drainer s) r x failed' at_pending)

  -- While a drain is being verified, an error of the Wazuh API makes the controller go on with the
  -- scale-down, with the drain not verified and the status as it was.
  pub verify_error_proceeds :
      (env : Env) (st : WorkerState) (s : ComponentDrainStatus) (e : Bytes)
      → IsDraining env
      → st.status ≡ some s
      → s.phase ≡ verifying
      → env.queue ≡ err e
      → (next show env st ≡ st) × (decision show env st ≡ proceed)
  unfolding check_phase verify_case decide verify_drain_complete verify_queue_empty
  verify_error_proceeds env st s e d a h q = ground (arith, check_draining show env st d)

  restart_step :
      (env : Env) (st : WorkerState)
      → IsDraining env
      → InPhase draining st
      → st.drainer ≡ none
      → (next show env st ≡ st) × (decision show env st ≡ wait)
  unfolding check_phase monitor_case decide monitor_drain_progress
  restart_step env st d (s, e, p) n = ground (arith, check_draining show env st d)

  -- After a restart of the operator, which forgets its drainer, a drain that was under way makes the
  -- controller wait in every reconciliation, and none changes the status.
  pub restart_stuck :
      (envs : List Env) (st : WorkerState)
      → All IsDraining envs
      → InPhase draining st
      → st.drainer ≡ none
      → (run show envs st ≡ st) × AllWait show envs st
  restart_stuck [] st hs p n = (refl, tt)
  restart_stuck (env ∷ envs) st (h, hs) p n =
      let (same, w) = restart_step env st h p n in
      let (same', ws) = restart_stuck envs st hs p n in (rw same same', (w, rw same ws))
