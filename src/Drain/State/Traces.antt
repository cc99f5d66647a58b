-- ===== src/Drain/State/Traces.antt =====
-- Sequences of the operations of internal/shared/drain/state.go.
use wazuh_operator.Common.{
  ◌≡◌, refl, ◌⊎◌, inl, inr, ◌≢◌, ◌∙◌, All, List, [], ◌∷◌, none, Bool-cases, arith, ℤ, pos, ◌≤ℤ◌,
  Bytes, Time,
}
use wazuh_operator.Drain.Status.{
  DrainPhase, unset, idle, draining, verifying, complete, rolling_back, ComponentDrainStatus,
  phase_eq,
}
use wazuh_operator.Drain.State.{
  or_idle, transition, initialize_drain_status, start_drain, update_progress, update_shard_count,
  update_queue_depth, schedule_retry, reset_for_retry, reset,
}
use wazuh_operator.Drain.State.Edges.{
  ◌⟶◌, detect, start, cancel, check, break, finish, reject, settle, roll_back, give_up, retry,
  exhaust, abandon, Outcome-phase, transition-Outcome,
}

-- The operations of the package that write the status; MarkFailed, MarkComplete and StartRollback
-- are transitions.
pub data Op : Type 0 where
  to : Time → DrainPhase → Bytes → Op
  begin : Time → Bytes → ℤ → ℤ → Op
  progress : ℤ → Bytes → Op
  shards : ℤ → Op
  queue : ℤ → Op
  schedule : Time → Op
  again : Time → Op
  clear : Time → Op

abbrev pub apply : Op → ComponentDrainStatus → ComponentDrainStatus
apply (to now p msg) s = (transition now p msg s).0
apply (begin now pod previous target) s = (start_drain now pod previous target s).0
apply (progress p msg) s = update_progress p msg s
apply (shards n) s = update_shard_count n s
apply (queue n) s = update_queue_depth n s
apply (schedule t) s = schedule_retry t s
apply (again now) s = (reset_for_retry now s).0
apply (clear now) s = reset now s

abbrev pub run : List Op → ComponentDrainStatus → ComponentDrainStatus
run [] s = s
run (op ∷ ops) s = run ops (apply op s)

-- The phases that a run goes through, one after each operation.
abbrev pub trace : List Op → ComponentDrainStatus → List DrainPhase
trace [] s = []
trace (op ∷ ops) s = (apply op s).phase ∷ trace ops (apply op s)

pub record Inv (s : ComponentDrainStatus) : Type 0 where
  pub progress_low : pos 0 ≤ℤ s.progress
  pub progress_high : s.progress ≤ℤ pos 100
  pub phase_set : s.phase ≢ unset
  pub idle_clear :
      s.phase ≡ idle
      → (s.start_time ≡ none) × (s.previous_replicas ≡ none) × (s.target_replicas ≡ none)
  pub busy_started : s.phase ≢ idle → s.start_time ≢ none
  pub replicas_paired : s.previous_replicas ≡ none → s.target_replicas ≡ none

pub initialize-Inv : Inv initialize_drain_status
unfolding initialize_drain_status
initialize-Inv = ground arith

transition-Inv :
    (now : Time) (p : DrainPhase) (msg : Bytes) (s : ComponentDrainStatus)
    → Inv s
    → Inv (transition now p msg s).0
unfolding transition
transition-Inv now p msg s h = ground arith

apply-Inv : (op : Op) (s : ComponentDrainStatus) → Inv s → Inv (apply op s)
unfolding start_drain update_progress update_shard_count update_queue_depth schedule_retry
    reset_for_retry reset
apply-Inv (to now p msg) s h = transition-Inv now p msg s h
apply-Inv (progress p msg) s h = ground arith
apply-Inv _ s h = ground arith

-- Any sequence of operations at all, on a status that satisfies the invariant, keeps it.
pub run-Inv : (ops : List Op) {s : ComponentDrainStatus} → Inv s → Inv (run ops s)
run-Inv [] h = h
run-Inv (op ∷ ops) {s} h = run-Inv ops (apply-Inv op s h)

-- The phases `ws` stand in `ps`, in their order.
pub data Visits : List DrainPhase → List DrainPhase → Type 0 where
  done : {ps : List DrainPhase} → Visits [] ps
  here : {w : DrainPhase} {ws ps : List DrainPhase} → Visits ws ps → Visits (w ∷ ws) (w ∷ ps)
  later : {p : DrainPhase} {ws ps : List DrainPhase} → Visits ws ps → Visits ws (p ∷ ps)

Visits-tail : {w : DrainPhase} {ws ps : List DrainPhase} → Visits (w ∷ ws) ps → Visits ws ps
Visits-tail (here v) = later v
Visits-tail (later v) = later (Visits-tail v)

-- The phases that stand between a phase and completion.
abbrev pub todo : DrainPhase → List DrainPhase
todo draining = verifying ∷ complete ∷ []
todo verifying = complete ∷ []
todo complete = []
todo _ = draining ∷ verifying ∷ complete ∷ []

-- Where one operation can lead: nowhere, to Idle, or along the diagram.
apply_phase :
    (op : Op) (s : ComponentDrainStatus)
    → ((apply op s).phase ≡ s.phase)
      ⊎ ((apply op s).phase ≡ idle)
      ⊎ (or_idle s.phase ⟶ (apply op s).phase)
unfolding start_drain update_progress update_shard_count update_queue_depth schedule_retry
    reset_for_retry reset
apply_phase (to now p msg) s = elim (Outcome-phase (transition-Outcome now p msg s)) [
  | inl same ↦ inl same
  | inr edge ↦ inr (inr edge)
]
apply_phase (begin now pod previous target) s = elim (Bool-cases (phase_eq s.phase idle)) [
  | inl at_idle ↦ let e : s.phase ≡ idle = ground arith in inr (inr (rw e detect))
  | inr other ↦ inl (ground arith)
]
apply_phase (again now) s = elim (Bool-cases (phase_eq s.phase rolling_back)) [
  | inl back ↦ let e : s.phase ≡ rolling_back = ground arith in inr (inr (rw e retry))
  | inr other ↦ inl (ground arith)
]
apply_phase (clear now) s = inr (inl refl)
apply_phase _ s = inl refl

todo_edge :
    {p q : DrainPhase} {ps : List DrainPhase}
    → p ⟶ q
    → Visits (todo q) ps
    → Visits (todo p) (q ∷ ps)
todo_edge start v = here v
todo_edge check v = here v
todo_edge finish v = here v
todo_edge break v = later (Visits-tail v)
todo_edge reject v = later (Visits-tail (Visits-tail v))
todo_edge settle v = later done
todo_edge detect v = later v
todo_edge cancel v = later v
todo_edge roll_back v = later v
todo_edge give_up v = later v
todo_edge retry v = later v
todo_edge exhaust v = later v
todo_edge abandon v = later v

todo-or_idle : (p : DrainPhase) → todo (or_idle p) ≡ todo p
todo-or_idle unset = refl
todo-or_idle _ = refl

todo_idle : (p : DrainPhase) {ps : List DrainPhase} → Visits (todo idle) ps → Visits (todo p) ps
todo_idle draining v = Visits-tail v
todo_idle verifying v = Visits-tail (Visits-tail v)
todo_idle complete v = done
todo_idle _ v = v

todo_step :
    (p q : DrainPhase) {ps : List DrainPhase}
    → (q ≡ p) ⊎ (q ≡ idle) ⊎ (or_idle p ⟶ q)
    → Visits (todo q) ps
    → Visits (todo p) (q ∷ ps)
todo_step p q (inl e) v = later (rw e at v)
todo_step p q (inr (inl e)) v = later (todo_idle p (rw e at v))
todo_step p q (inr (inr d)) v = rw (← todo-or_idle p) (todo_edge d v)

-- A drain that ends Complete has gone through Draining and Verifying in this order, as far as they
-- were still ahead of it: no sequence of operations goes round them.
pub complete-Visits :
    (ops : List Op) (s : ComponentDrainStatus)
    → (run ops s).phase ≡ complete
    → Visits (todo s.phase) (trace ops s)
complete-Visits [] s h = rw h done
complete-Visits (op ∷ ops) s h =
    todo_step s.phase (apply op s).phase (apply_phase op s) (complete-Visits ops (apply op s) h)

transition_keeps_target :
    (now : Time) (p : DrainPhase) (msg : Bytes) (s : ComponentDrainStatus)
    → (transition now p msg s).0.phase ≢ idle
    → ((transition now p msg s).0.previous_replicas ≡ s.previous_replicas)
      × ((transition now p msg s).0.target_replicas ≡ s.target_replicas)
      × ((transition now p msg s).0.target_pod ≡ s.target_pod)
unfolding transition
transition_keeps_target now p msg s k = ground arith

apply_keeps_target :
    (op : Op) (s : ComponentDrainStatus)
    → s.phase ≢ idle
    → (apply op s).phase ≢ idle
    → ((apply op s).previous_replicas ≡ s.previous_replicas)
      × ((apply op s).target_replicas ≡ s.target_replicas)
      × ((apply op s).target_pod ≡ s.target_pod)
unfolding start_drain update_progress update_shard_count update_queue_depth schedule_retry
    reset_for_retry reset
apply_keeps_target (to now p msg) s h k = transition_keeps_target now p msg s k
apply_keeps_target (begin now pod previous target) s h k = ground arith
apply_keeps_target (again now) s h k = ground arith
apply_keeps_target (clear now) s h k = absurd (k refl)
apply_keeps_target _ s h k = (refl, refl, refl)

-- While the status does not fall back to Idle, no operation touches what a rollback needs.
pub run_keeps_target :
    (ops : List Op) (s : ComponentDrainStatus)
    → s.phase ≢ idle
    → All (λ p. p ≢ idle) (trace ops s)
    → ((run ops s).previous_replicas ≡ s.previous_replicas)
      × ((run ops s).target_replicas ≡ s.target_replicas)
      × ((run ops s).target_pod ≡ s.target_pod)
run_keeps_target [] s h k = (refl, refl, refl)
run_keeps_target (op ∷ ops) s h (k, ks) =
    let (a, b, c) = run_keeps_target ops (apply op s) k ks in
    let (a', b', c') = apply_keeps_target op s h k in (a ∙ a', b ∙ b', c ∙ c')
