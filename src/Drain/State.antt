-- ===== src/Drain/State.antt =====
-- internal/shared/drain/state.go. A function that writes through *ComponentDrainStatus returns the
-- new status; `now` is what time.Now() returns in the call.
pub mod Edges
pub mod Traces
use wazuh_operator.Common.{
  List, [], ◌∷◌, ◌++◌, Option, none, some, Bool, true, false, not, if◌then◌else◌, any, ℤ, pos,
  ltb_ℤ, add32, Bytes, codes, show_ℤ, Time, Duration, sub_time, after,
}
use wazuh_operator.Drain.Status.{
  DrainPhase, unset, idle, pending, draining, verifying, complete, failed, rolling_back, phase_name,
  phase_eq, GoError, ComponentDrainStatus, empty_status,
}

-- The map ValidTransitions; `none` is a missing key.
abbrev pub valid_transitions : DrainPhase → Option (List DrainPhase)
valid_transitions unset = none
valid_transitions idle = some (pending ∷ [])
valid_transitions pending = some (draining ∷ idle ∷ [])
valid_transitions draining = some (verifying ∷ failed ∷ [])
valid_transitions verifying = some (complete ∷ failed ∷ [])
valid_transitions complete = some (idle ∷ [])
valid_transitions failed = some (rolling_back ∷ idle ∷ [])
valid_transitions rolling_back = some (pending ∷ failed ∷ idle ∷ [])

unfoldable pub is_valid_transition : DrainPhase → DrainPhase → Bool
is_valid_transition from to = elim (valid_transitions from) [
  | none ↦ false
  | some targets ↦ any (λ valid. phase_eq valid to) targets
]

-- `if from == "" { from = Idle }`
abbrev pub or_idle : DrainPhase → DrainPhase
or_idle unset = idle
or_idle p = p

-- The switch at the end of TransitionTo.
unfoldable pub reset_fields : Time → DrainPhase → ComponentDrainStatus → ComponentDrainStatus
reset_fields now idle s = record s {
  target_pod = codes "";
  previous_replicas = none;
  target_replicas = none;
  progress = pos 0;
  start_time = none;
  attempt_count = pos 0;
  next_retry_time = none;
  shard_count = none;
  queue_depth = none;
}
reset_fields now pending s = record s { start_time = some now; progress = pos 0 }
reset_fields now complete s = record s { progress = pos 100 }
reset_fields now _ s = s

-- TransitionTo at a pointer that is not nil.
unfoldable pub transition :
    Time → DrainPhase → Bytes → ComponentDrainStatus → ComponentDrainStatus × Option GoError
unfolding is_valid_transition reset_fields
transition now to msg s =
    let from = or_idle s.phase in
    if not (is_valid_transition from to)
    then (
      s,
      some (
          codes "invalid transition from " ++ (phase_name from ++ (codes " to " ++ phase_name to))),
    )
    else (
      reset_fields now to (record s { phase = to; last_transition_time = some now; message = msg }),
      none,
    )

unfoldable pub transition_to :
    Time
    → DrainPhase
    → Bytes
    → Option ComponentDrainStatus
    → Option ComponentDrainStatus × Option GoError
unfolding transition
transition_to now to msg none = (none, some (codes "status is nil"))
transition_to now to msg (some s) = let (s', e) = transition now to msg s in (some s', e)

unfoldable pub initialize_drain_status : ComponentDrainStatus
initialize_drain_status = empty_status idle

unfoldable pub start_drain :
    Time → Bytes → ℤ → ℤ → ComponentDrainStatus → ComponentDrainStatus × Option GoError
start_drain now pod previous target s =
    if not (phase_eq s.phase idle)
    then (
      s,
      some (
          codes "cannot start drain: current phase is "
          ++ (phase_name s.phase ++ codes ", expected Idle")),
    )
    else (
      record s {
        phase = pending;
        target_pod = pod;
        previous_replicas = some previous;
        target_replicas = some target;
        start_time = some now;
        last_transition_time = some now;
        progress = pos 0;
        attempt_count = pos 1;
        message =
            codes "Scale-down detected: "
            ++ (show_ℤ previous
                ++ (codes " -> " ++ (show_ℤ target ++ (codes " replicas, draining pod " ++ pod))));
      },
      none,
    )

unfoldable pub clamp_progress : ℤ → ℤ
clamp_progress p =
    let q = if ltb_ℤ p (pos 0) then pos 0 else p in if ltb_ℤ (pos 100) q then pos 100 else q

unfoldable pub update_progress : ℤ → Bytes → ComponentDrainStatus → ComponentDrainStatus
unfolding clamp_progress
update_progress p msg s = record s { progress = clamp_progress p; message = msg }

unfoldable pub update_shard_count : ℤ → ComponentDrainStatus → ComponentDrainStatus
update_shard_count n s = record s { shard_count = some n }

unfoldable pub update_queue_depth : ℤ → ComponentDrainStatus → ComponentDrainStatus
update_queue_depth n s = record s { queue_depth = some n }

unfoldable pub mark_failed :
    Time → Bytes → ComponentDrainStatus → ComponentDrainStatus × Option GoError
unfolding transition
mark_failed now reason s = transition now failed reason s

unfoldable pub mark_complete : Time → ComponentDrainStatus → ComponentDrainStatus × Option GoError
unfolding transition
mark_complete now s = transition now complete (codes "Drain completed successfully") s

unfoldable pub start_rollback :
    Time → Bytes → ComponentDrainStatus → ComponentDrainStatus × Option GoError
unfolding transition
start_rollback now reason s = transition now rolling_back reason s

unfoldable pub schedule_retry : Time → ComponentDrainStatus → ComponentDrainStatus
unfolding add32
schedule_retry t s = record s {
  next_retry_time = some t;
  attempt_count = add32 s.attempt_count (pos 1);
}

unfoldable pub is_retry_due : Time → ComponentDrainStatus → Bool
is_retry_due now s = elim s.next_retry_time [ none ↦ false | some t ↦ after now t ]

unfoldable pub can_retry : ComponentDrainStatus → ℤ → Bool
can_retry s max_attempts = ltb_ℤ s.attempt_count max_attempts

unfoldable pub reset_for_retry : Time → ComponentDrainStatus → ComponentDrainStatus × Option GoError
reset_for_retry now s =
    if not (phase_eq s.phase rolling_back)
    then (
      s,
      some (
          codes "cannot reset for retry: current phase is "
          ++ (phase_name s.phase ++ codes ", expected RollingBack")),
    )
    else (
      record s {
        phase = pending;
        last_transition_time = some now;
        progress = pos 0;
        next_retry_time = none;
        message = codes "Retrying drain (attempt " ++ (show_ℤ s.attempt_count ++ codes ")");
      },
      none,
    )

abbrev is_active : DrainPhase → Bool
is_active pending = true
is_active draining = true
is_active verifying = true
is_active rolling_back = true
is_active _ = false

unfoldable pub is_drain_in_progress : Option ComponentDrainStatus → Bool
is_drain_in_progress none = false
is_drain_in_progress (some s) = is_active s.phase

unfoldable pub is_drain_failed : Option ComponentDrainStatus → Bool
is_drain_failed none = false
is_drain_failed (some s) = phase_eq s.phase failed

unfoldable pub is_drain_complete : Option ComponentDrainStatus → Bool
is_drain_complete none = false
is_drain_complete (some s) = phase_eq s.phase complete

unfoldable pub get_drain_duration : Time → Option ComponentDrainStatus → Duration
unfolding sub_time
get_drain_duration now none = pos 0
get_drain_duration now (some s) = elim s.start_time [ none ↦ pos 0 | some t ↦ sub_time now t ]

unfoldable pub is_timeout : Time → Duration → Option ComponentDrainStatus → Bool
unfolding sub_time
is_timeout now timeout none = false
is_timeout now timeout (some s) = elim s.start_time [
  | none ↦ false
  | some t ↦ ltb_ℤ timeout (sub_time now t)
]

unfoldable pub reset : Time → ComponentDrainStatus → ComponentDrainStatus
reset now s = record s {
  phase = idle;
  last_transition_time = some now;
  target_pod = codes "";
  previous_replicas = none;
  target_replicas = none;
  progress = pos 0;
  start_time = none;
  attempt_count = pos 0;
  next_retry_time = none;
  shard_count = none;
  queue_depth = none;
  message = codes "Reset to idle";
}
