-- ===== src/Drain/Worker/Gate.antt =====
-- What CheckScaleDownDrain (internal/wazuh/reconciler/worker_reconciler.go) tells the controller.
use wazuh_operator.Common.{
  ◌≡◌, refl, ◌⊎◌, inl, inr, Option, none, some, Bool, true, false, arith, ℤ, pos, ◌≤ℤ◌, Bytes, Time,
  Duration, sub_time,
}
use wazuh_operator.Kube.{StatefulSet, Result, ok, err}
use wazuh_operator.Drain.Status.{
  DrainPhase, unset, idle, pending, draining, verifying, complete, failed, rolling_back,
  ComponentDrainStatus,
}
use wazuh_operator.Drain.Detection.{ScaleDownInfo, detect_scale_down}
use wazuh_operator.Drain.Manager.{ManagerDrainProgress, ManagerDrainer, verify_queue_empty}
use wazuh_operator.Drain.Worker.{
  WorkerState, StsLookup, not_found, failure, found, Env, no_result, Answer, drain_enabled,
  get_or_init_drain_status, start_worker_drain, monitor_drain_progress, verify_drain_complete,
  start_case, monitor_case, verify_case, check_phase, check_scale_down_drain, Decision,
  proceed_and_reset, decide,
}

-- A scale-down of the workers that is to be drained.
pub record IsDraining (env : Env) : Type 0 where
  pub sts : StatefulSet
  pub is_found : env.lookup ≡ found sts
  pub detected : (detect_scale_down (some sts) env.desired).detected ≡ true
  pub enabled : drain_enabled env.config ≡ true

-- The queue is empty now, and an instant that the drainer recorded when it saw the queue empty is at
-- least the grace period ago. Events that were left in between need not have reset that instant.
pub record IsDrained (env : Env) (drainer : Option ManagerDrainer) : Type 0 where
  pub drainer_of : ManagerDrainer
  pub has_drainer : drainer ≡ some drainer_of
  pub depth : ℤ
  pub answered : env.queue ≡ ok depth
  pub is_empty : depth ≤ℤ pos 0
  pub since : Time
  pub seen_empty : drainer_of.empty_queue_seen_time ≡ some since
  pub long_enough : drainer_of.grace_period ≤ℤ sub_time env.now since

verify_queue_empty-true :
    (now : Time) (answer : Result ℤ) (d : ManagerDrainer)
    → (verify_queue_empty now answer d).1 ≡ ok true
    → (depth : ℤ) × (since : Time) × (answer ≡ ok depth)
      × (depth ≤ℤ pos 0)
      × (d.empty_queue_seen_time ≡ some since)
      × (d.grace_period ≤ℤ sub_time now since)
unfolding verify_queue_empty
verify_queue_empty-true now (err e) d h = cc
verify_queue_empty-true now (ok depth) d h = go d.empty_queue_seen_time refl
  where
    go :
        (o : Option Time)
        → d.empty_queue_seen_time ≡ o
        → (depth' : ℤ) × (since : Time) × (◌≡◌ {A = Result ℤ} (ok depth) (ok depth'))
          × (depth' ≤ℤ pos 0)
          × (d.empty_queue_seen_time ≡ some since)
          × (d.grace_period ≤ℤ sub_time now since)
    go none e = absurd (ground arith)
    go (some t) e = (depth, t, refl, ground arith, e, ground arith)

pub verify_queue_empty-IsDrained :
    (env : Env) (d : ManagerDrainer)
    → (verify_queue_empty env.now env.queue d).1 ≡ ok true
    → IsDrained env (some d)
verify_queue_empty-IsDrained env d q =
    let (depth, since, a, b, c, g) = verify_queue_empty-true env.now env.queue d q in
    record {
      drainer_of = d;
      has_drainer = refl;
      depth = depth;
      answered = a;
      is_empty = b;
      since = since;
      seen_empty = c;
      long_enough = g;
    }

module _ (show_remaining : Duration → Bytes) where
  -- The state and the controller's decision after one reconciliation.
  abbrev pub next : Env → WorkerState → WorkerState
  next env st = (check_scale_down_drain show_remaining env st).0

  abbrev pub decision : Env → WorkerState → Decision
  decision env st = decide (check_scale_down_drain show_remaining env st).1

  abbrev at_phase : Env → StatefulSet → WorkerState → WorkerState × Answer
  at_phase env sts st =
      let info = detect_scale_down (some sts) env.desired in
      let s = get_or_init_drain_status st.status in
      check_phase show_remaining s.phase env info st.drainer s
        (record no_result { needs_drain = true; target_pod = info.target_pod_name })

  pub check_draining :
      (env : Env) (st : WorkerState) (h : IsDraining env)
      → check_scale_down_drain show_remaining env st ≡ at_phase env h.sts st
  unfolding check_scale_down_drain
  check_draining env st h = ground (arith, h.is_found, h.detected, h.enabled)

  verify_reset :
      (env : Env) (drainer : Option ManagerDrainer) (s : ComponentDrainStatus) (pod : Bytes)
      → decide
          (verify_case
            (verify_drain_complete show_remaining env drainer s)
            (record no_result { needs_drain = true; target_pod = pod })).1
        ≡ proceed_and_reset
      → IsDrained env drainer
  unfolding verify_drain_complete verify_case decide
  verify_reset env none s pod h = absurd (ground arith)
  verify_reset env (some d) s pod h = go (verify_queue_empty env.now env.queue d).1 refl
    where
      go :
          (r : Result Bool)
          → (verify_queue_empty env.now env.queue d).1 ≡ r
          → IsDrained env (some d)
      go (err e) q = absurd (ground arith)
      go (ok false) q = absurd (ground arith)
      go (ok true) q = verify_queue_empty-IsDrained env d q

  start_reset :
      (t : WorkerState × Option Bytes) (pod : Bytes)
      → decide (start_case t (record no_result { needs_drain = true; target_pod = pod })).1
        ≡ proceed_and_reset
      → ⊥
  unfolding start_case decide
  start_reset (st, none) pod h = ground arith
  start_reset (st, some e) pod h = ground arith

  monitor_reset :
      (t : WorkerState × Result ManagerDrainProgress) (pod : Bytes)
      → decide (monitor_case t (record no_result { needs_drain = true; target_pod = pod })).1
        ≡ proceed_and_reset
      → ⊥
  unfolding monitor_case decide
  monitor_reset (st, ok p) pod h = ground arith
  monitor_reset (st, err e) pod h = ground arith

  -- In which phase, and on what ground, a scale-down goes on as drained.
  phase_reset :
      (p : DrainPhase) (env : Env) (info : ScaleDownInfo) (drainer : Option ManagerDrainer)
      (s : ComponentDrainStatus) (pod : Bytes)
      → decide
          (check_phase show_remaining p env info drainer s
            (record no_result { needs_drain = true; target_pod = pod })).1
        ≡ proceed_and_reset
      → (p ≡ complete) ⊎ ((p ≡ verifying) × IsDrained env drainer)
  unfolding check_phase
  phase_reset complete env info drainer s pod h = inl refl
  phase_reset verifying env info drainer s pod h = inr (refl, verify_reset env drainer s pod h)
  phase_reset idle env info drainer s pod h =
      absurd (start_reset (start_worker_drain env info drainer s) pod h)
  phase_reset unset env info drainer s pod h =
      absurd (start_reset (start_worker_drain env info drainer s) pod h)
  phase_reset pending env info drainer s pod h =
      absurd (monitor_reset (monitor_drain_progress show_remaining env drainer s) pod h)
  phase_reset draining env info drainer s pod h =
      absurd (monitor_reset (monitor_drain_progress show_remaining env drainer s) pod h)
  phase_reset failed env info drainer s pod h = absurd (unfold decide in ground arith)
  phase_reset rolling_back env info drainer s pod h = absurd (unfold decide in ground arith)

  detected_of :
      (env : Env) (st : WorkerState) → decision env st ≡ proceed_and_reset → IsDraining env
  unfolding check_scale_down_drain decide
  detected_of env st h = go env.lookup refl
    where
      go : (l : StsLookup) → env.lookup ≡ l → IsDraining env
      go not_found e = absurd (ground arith)
      go (failure m) e = absurd (ground arith)
      go (found sts) e = record {
        sts = sts;
        is_found = e;
        detected = ground arith;
        enabled = ground arith;
      }

  -- The controller goes on with a scale-down as drained only if one was detected with draining
  -- enabled, and either the drain had been completed before, or it was being verified, the queue is
  -- empty now, and the instant that the drainer has recorded for an empty queue is at least the
  -- grace period ago.
  pub reset_needs_drain :
      (env : Env) (st : WorkerState)
      → decision env st ≡ proceed_and_reset
      → IsDraining env
        × (((get_or_init_drain_status st.status).phase ≡ complete)
            ⊎ (((get_or_init_drain_status st.status).phase ≡ verifying) × IsDrained env st.drainer))
  reset_needs_drain env st h =
      let d = detected_of env st h in
      (
        d,
        phase_reset (get_or_init_drain_status st.status).phase env _ st.drainer _ _
            (rw (check_draining env st d) at h),
      )
