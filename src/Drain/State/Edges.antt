-- ===== src/Drain/State/Edges.antt =====
-- The transition diagram of internal/shared/drain/state.go, as a relation, and one transition.
use wazuh_operator.Common.{
  ◌≡◌, refl, ◌↔◌, ◌⊎◌, inl, inr, Option, none, some, true, Bool-cases, arith, Bytes, Time,
}
use wazuh_operator.Drain.Status.{
  DrainPhase, idle, pending, draining, verifying, complete, failed, rolling_back,
  ComponentDrainStatus,
}
use wazuh_operator.Drain.State.{is_valid_transition, or_idle, reset_fields, transition}

infix 40 ◌⟶◌
pub data ◌⟶◌ : DrainPhase → DrainPhase → Type 0 where
  detect : idle ⟶ pending
  start : pending ⟶ draining
  cancel : pending ⟶ idle
  check : draining ⟶ verifying
  break : draining ⟶ failed
  finish : verifying ⟶ complete
  reject : verifying ⟶ failed
  settle : complete ⟶ idle
  roll_back : failed ⟶ rolling_back
  give_up : failed ⟶ idle
  retry : rolling_back ⟶ pending
  exhaust : rolling_back ⟶ failed
  abandon : rolling_back ⟶ idle

pub ruleset edges = (
  detect, start, cancel, check, break, finish, reject, settle, roll_back, give_up, retry, exhaust,
  abandon,
)

valid_of_edge : {a b : DrainPhase} → a ⟶ b → is_valid_transition a b ≡ true
unfolding is_valid_transition
valid_of_edge detect = refl
valid_of_edge start = refl
valid_of_edge cancel = refl
valid_of_edge check = refl
valid_of_edge break = refl
valid_of_edge finish = refl
valid_of_edge reject = refl
valid_of_edge settle = refl
valid_of_edge roll_back = refl
valid_of_edge give_up = refl
valid_of_edge retry = refl
valid_of_edge exhaust = refl
valid_of_edge abandon = refl

pub edge_of_valid : (a b : DrainPhase) → is_valid_transition a b ≡ true → a ⟶ b
unfolding is_valid_transition
edge_of_valid a b h = grind (arith, edges)

-- The table allows exactly the steps of the diagram.
pub is_valid_transition_iff : (a b : DrainPhase) → (is_valid_transition a b ≡ true) ↔ (a ⟶ b)
is_valid_transition_iff a b = (edge_of_valid a b, valid_of_edge)

-- What a call of TransitionTo did: it took a step of the diagram, stamped the status and returned
-- nil; or the diagram has no such step, the status is untouched and an error came back.
pub data Outcome (now : Time) (to : DrainPhase) (msg : Bytes) (s : ComponentDrainStatus)
    : ComponentDrainStatus × Option Bytes → Type 0 where
  moved :
      {t : ComponentDrainStatus}
      → or_idle s.phase ⟶ to
      → t.phase ≡ to
      → t.last_transition_time ≡ some now
      → t.message ≡ msg
      → Outcome now to msg s (t, none)
  refused : {e : Bytes} → ¬ (or_idle s.phase ⟶ to) → Outcome now to msg s (s, some e)

reset_fields_stamp :
    (now : Time) (to : DrainPhase) (s : ComponentDrainStatus)
    → ((reset_fields now to s).phase ≡ s.phase)
      × ((reset_fields now to s).last_transition_time ≡ s.last_transition_time)
      × ((reset_fields now to s).message ≡ s.message)
unfolding reset_fields
reset_fields_stamp now idle s = (refl, refl, refl)
reset_fields_stamp now _ s = (refl, refl, refl)

-- Every call of TransitionTo, at any phase and any target, has one of the two outcomes.
pub transition-Outcome :
    (now : Time) (to : DrainPhase) (msg : Bytes) (s : ComponentDrainStatus)
    → Outcome now to msg s (transition now to msg s)
transition-Outcome now to msg s = elim (Bool-cases (is_valid_transition (or_idle s.phase) to)) [
  | inl ok ↦
      let u = record s { phase = to; last_transition_time = some now; message = msg } in
      let (a, b, c) = reset_fields_stamp now to u in
      unfold transition in rw ok (moved (edge_of_valid _ to ok) a b c)
  | inr bad ↦ unfold transition in rw bad (refused (λ edge. let good = valid_of_edge edge in cc))
]

pub Outcome-phase :
    {now : Time} {to : DrainPhase} {msg : Bytes} {s : ComponentDrainStatus}
    {r : ComponentDrainStatus × Option Bytes}
    → Outcome now to msg s r
    → (r.0.phase ≡ s.phase) ⊎ (or_idle s.phase ⟶ r.0.phase)
Outcome-phase (moved edge at_target _ _) = inr (rw at_target edge)
Outcome-phase (refused _) = inl refl
