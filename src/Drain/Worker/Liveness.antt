-- ===== src/Drain/Worker/Liveness.antt =====
-- The reconciliations of a drain from its start to its end, by CheckScaleDownDrain of
-- internal/wazuh/reconciler/worker_reconciler.go.
use wazuh_operator.Common.{
  ◌≡◌, refl, [], ◌∷◌, Option, none, some, true, false, arith, ℤ, pos, ◌≤ℤ◌, ◌<ℤ◌, Bytes, codes,
  Time, Duration, sub_time,
}
use wazuh_operator.Kube.{ok}
use wazuh_operator.Drain.Status.{
  DrainPhase, idle, draining, verifying, complete, ComponentDrainStatus,
}
use wazuh_operator.Drain.State.{
  transition, start_drain, mark_complete, update_progress, update_queue_depth,
}
use wazuh_operator.Drain.Detection.{detect_scale_down}
use wazuh_operator.Drain.Manager.{
  ManagerDrainer, start_queue_drain, monitor_queue_depth, verify_queue_empty, grace_elapsed,
}
use wazuh_operator.Drain.Manager.Monitor.{monitor_empty}
use wazuh_operator.Drain.Worker.{
  WorkerState, Env, get_or_new_drainer, start_worker_drain, monitor_drain_progress,
  verify_drain_complete, start_case, monitor_case, verify_case, check_phase, wait,
  proceed_and_reset, decide,
}
use wazuh_operator.Drain.Worker.Gate.{IsDraining, next, decision, check_draining}
use wazuh_operator.Drain.Worker.Stuck.{InPhase, run, AllWait}

-- The manager's drain is in a phase, with a drainer of this grace period that has seen the queue
-- empty since the given instant, or not at all.
pub record At (p : DrainPhase) (grace : Duration) (since : Option Time) (st : WorkerState)
    : Type 0 where
  pub status : ComponentDrainStatus
  pub has_status : st.status ≡ some status
  pub in_phase : status.phase ≡ p
  pub drainer : ManagerDrainer
  pub has_drainer : st.drainer ≡ some drainer
  pub has_grace : drainer.grace_period ≡ grace
  pub has_since : drainer.empty_queue_seen_time ≡ since

module _ (show : Duration → Bytes) where
  start_step :
      (env : Env) (st : WorkerState) (s : ComponentDrainStatus) (n : ℤ)
      → IsDraining env
      → st.status ≡ some s
      → s.phase ≡ idle
      → env.client_error ≡ none
      → env.queue ≡ ok n
      → At draining (get_or_new_drainer env.config st.drainer).grace_period none (next show env st)
        × (decision show env st ≡ wait)
  unfolding check_phase start_worker_drain start_case decide start_drain start_queue_drain
      transition
  start_step env st s n d a h c q =
      let info = detect_scale_down (some d.sts) env.desired in
      let s1 =
        (start_drain env.now info.target_pod_name info.current_replicas info.target_replicas s).0 in
      let opened = check_draining show env st d in
      (
        record {
          status = (transition env.now draining (codes "Draining event queue on worker") s1).0;
          has_status = ground (arith, opened);
          in_phase = ground arith;
          drainer = (start_queue_drain (ok n) (get_or_new_drainer env.config st.drainer)).0;
          has_drainer = ground (arith, opened);
          has_grace = refl;
          has_since = refl;
        },
        ground (arith, opened),
      )

  empty_step :
      (env : Env) (st : WorkerState) (grace : Duration)
      → IsDraining env
      → At draining grace none st
      → env.queue ≡ ok (pos 0)
      → sub_time env.now env.now <ℤ grace
      → At draining grace (some env.now) (next show env st) × (decision show env st ≡ wait)
  unfolding check_phase monitor_drain_progress monitor_case decide update_progress
      update_queue_depth
  empty_step env st grace d a q g =
      let m = monitor_queue_depth show env.now (ok (pos 0)) a.drainer in
      let (since, kept, fine, done) = monitor_empty show env.now a.drainer in
      let not_yet : grace_elapsed env.now a.drainer ≡ false =
        unfold grace_elapsed in ground (arith, a.has_since, a.has_grace) in
      let opened = check_draining show env st d in
      (
        record {
          status =
              update_queue_depth m.1.queue_depth (update_progress m.1.percent m.1.message a.status);
          has_status = ground (arith, opened, a.has_status, a.in_phase, a.has_drainer);
          in_phase = a.in_phase;
          drainer = m.0;
          has_drainer = ground (arith, opened, a.has_status, a.in_phase, a.has_drainer);
          has_grace = ground (arith, a.has_grace);
          has_since = ground (arith, a.has_since);
        },
        ground (arith, opened, a.has_status, a.in_phase, a.has_drainer),
      )

  grace_step :
      (env : Env) (st : WorkerState) (grace : Duration) (t : Time)
      → IsDraining env
      → At draining grace (some t) st
      → env.queue ≡ ok (pos 0)
      → grace ≤ℤ sub_time env.now t
      → At verifying grace (some t) (next show env st) × (decision show env st ≡ wait)
  unfolding check_phase monitor_drain_progress monitor_case decide update_progress
      update_queue_depth transition
  grace_step env st grace t d a q g =
      let m = monitor_queue_depth show env.now (ok (pos 0)) a.drainer in
      let (since, kept, fine, done) = monitor_empty show env.now a.drainer in
      let long_enough : grace_elapsed env.now a.drainer ≡ true =
        unfold grace_elapsed in ground (arith, a.has_since, a.has_grace) in
      let s' =
        update_queue_depth m.1.queue_depth (update_progress m.1.percent m.1.message a.status) in
      let opened = check_draining show env st d in
      (
        record {
          status = (transition env.now verifying (codes "Verifying queue drain completion") s').0;
          has_status = ground (arith, opened, a.has_status, a.in_phase, a.has_drainer);
          in_phase = ground (arith, a.in_phase);
          drainer = m.0;
          has_drainer = ground (arith, opened, a.has_status, a.in_phase, a.has_drainer);
          has_grace = ground (arith, a.has_grace);
          has_since = ground (arith, a.has_since);
        },
        ground (arith, opened, a.has_status, a.in_phase, a.has_drainer),
      )

  verify_step :
      (env : Env) (st : WorkerState) (grace : Duration) (t : Time)
      → IsDraining env
      → At verifying grace (some t) st
      → env.queue ≡ ok (pos 0)
      → grace ≤ℤ sub_time env.now t
      → InPhase complete (next show env st) × (decision show env st ≡ proceed_and_reset)
  unfolding check_phase verify_drain_complete verify_queue_empty verify_case decide mark_complete
      transition
  verify_step env st grace t d a q g =
      let opened = check_draining show env st d in
      (
        (
          (mark_complete env.now a.status).0,
          ground (arith, opened, a.has_status, a.in_phase, a.has_drainer, a.has_since, a.has_grace),
          ground (arith, a.in_phase),
        ),
        ground (arith, opened, a.has_status, a.in_phase, a.has_drainer, a.has_since, a.has_grace),
      )

  -- From an idle status four reconciliations of a scale-down lead to its release, when the Wazuh API
  -- answers in the first, the queue is empty in the others, and the grace period is positive and has
  -- passed between the second and each later one: the controller waits three times, and then goes
  -- on, with the drain Complete.
  pub drain_completes :
      (e0 e1 e2 e3 : Env) (st : WorkerState) (s : ComponentDrainStatus) (n : ℤ)
      → IsDraining e0
      → IsDraining e1
      → IsDraining e2
      → IsDraining e3
      → st.status ≡ some s
      → s.phase ≡ idle
      → e0.client_error ≡ none
      → e0.queue ≡ ok n
      → e1.queue ≡ ok (pos 0)
      → e2.queue ≡ ok (pos 0)
      → e3.queue ≡ ok (pos 0)
      → sub_time e1.now e1.now <ℤ (get_or_new_drainer e0.config st.drainer).grace_period
      → (get_or_new_drainer e0.config st.drainer).grace_period ≤ℤ sub_time e2.now e1.now
      → (get_or_new_drainer e0.config st.drainer).grace_period ≤ℤ sub_time e3.now e1.now
      → AllWait show (e0 ∷ e1 ∷ e2 ∷ []) st
        × (decision show e3 (run show (e0 ∷ e1 ∷ e2 ∷ []) st) ≡ proceed_and_reset)
        × InPhase complete (run show (e0 ∷ e1 ∷ e2 ∷ e3 ∷ []) st)
  drain_completes e0 e1 e2 e3 st s n d0 d1 d2 d3 a h c q0 q1 q2 q3 g1 g2 g3 =
      let grace = (get_or_new_drainer e0.config st.drainer).grace_period in
      let (a1, w0) = start_step e0 st s n d0 a h c q0 in
      let st1 = next show e0 st in
      let (a2, w1) = empty_step e1 st1 grace d1 a1 q1 g1 in
      let st2 = next show e1 st1 in
      let (a3, w2) = grace_step e2 st2 grace e1.now d2 a2 q2 g2 in
      let (done, released) = verify_step e3 (next show e2 st2) grace e1.now d3 a3 q3 g3 in
      ((w0, (w1, (w2, tt))), released, done)
