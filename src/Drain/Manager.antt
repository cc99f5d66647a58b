-- ===== src/Drain/Manager.antt =====
-- ManagerDrainerImpl of internal/wazuh/drain/manager_drain.go. GetQueueStatus of the Wazuh API is an
-- argument: its answer, the number of events in the queue, or its error. A call reads the clock at
-- one instant, `now`.
pub mod Monitor
pub mod Wait
use wazuh_operator.Common.{
  List, [], ◌∷◌, ◌++◌, Option, none, some, Bool, true, false, if◌then◌else◌, ℤ, pos, ltb_ℤ, leb_ℤ,
  eqb_ℤ, sub64, mul64, div64, to_int32, Bytes, codes, show_ℤ, Time, Duration, sub_time, second,
}
use mathlib.Core.Option
use wazuh_operator.Kube.{Result, ok, err}
use wazuh_operator.Drain.Status.{GoError, ComponentDrainStatus}
use wazuh_operator.Drain.State.{update_progress, update_queue_depth}

pub record ManagerDrainConfig : Type 0 where
  pub enabled : Option Bool
  pub timeout : Option Duration
  pub queue_check_interval : Option Duration
  pub grace_period : Option Duration

pub record ManagerDrainProgress : Type 0 where
  pub percent : ℤ
  pub queue_depth : ℤ
  pub initial_queue_depth : ℤ
  pub message : Bytes
  pub is_complete : Bool
  pub error : Option GoError

pub record ManagerDrainer : Type 0 where
  pub timeout : Duration
  pub queue_check_interval : Duration
  pub grace_period : Duration
  pub initial_queue_depth : ℤ
  pub empty_queue_seen_time : Option Time

abbrev pub or_default : Duration → Option Duration → Duration
or_default d none = d
or_default d (some e) = e

unfoldable pub new_manager_drainer : Option ManagerDrainConfig → ManagerDrainer
new_manager_drainer none = record {
  timeout = pos 900000000000;
  queue_check_interval = pos 5000000000;
  grace_period = pos 10000000000;
  initial_queue_depth = pos 0;
  empty_queue_seen_time = none;
}
new_manager_drainer (some c) = record {
  timeout = or_default (pos 900000000000) c.timeout;
  queue_check_interval = or_default (pos 5000000000) c.queue_check_interval;
  grace_period = or_default (pos 10000000000) c.grace_period;
  initial_queue_depth = pos 0;
  empty_queue_seen_time = none;
}

unfoldable pub start_queue_drain : Result ℤ → ManagerDrainer → ManagerDrainer × Option GoError
start_queue_drain (err e) d = (d, some (codes "failed to get initial queue status: " ++ e))
start_queue_drain (ok events) d =
    (record d { initial_queue_depth = events; empty_queue_seen_time = none }, none)

-- The part of MonitorQueueDepth that computes the percentage: the initial depth, which grows with
-- new events, and the percentage.
unfoldable pub drained_percent : ℤ → ℤ → ℤ × ℤ
drained_percent initial depth =
    let processed = sub64 initial depth in
    if ltb_ℤ (pos 0) initial
    then if ltb_ℤ processed (pos 0)
      then (depth, to_int32 (div64 (mul64 (pos 0) (pos 100)) depth))
      else (initial, to_int32 (div64 (mul64 processed (pos 100)) initial))
    else (initial, pos 100)

-- The part about the grace period: since when the queue is empty, and whether that is long enough.
abbrev pub empty_since : Time → Option Time → Time
empty_since now none = now
empty_since now (some t) = t

unfoldable pub grace_elapsed : Time → ManagerDrainer → Bool
grace_elapsed now d = leb_ℤ d.grace_period (sub_time now (empty_since now d.empty_queue_seen_time))

-- `show_remaining` prints a duration rounded to seconds, as "%v" does.
unfoldable pub monitor_queue_depth :
    (Duration → Bytes) → Time → Result ℤ → ManagerDrainer → ManagerDrainer × ManagerDrainProgress
unfolding drained_percent grace_elapsed
monitor_queue_depth show_remaining now (err e) d = (
  d,
  record {
    percent = pos 0;
    queue_depth = pos 0;
    initial_queue_depth = d.initial_queue_depth;
    message = codes "";
    is_complete = false;
    error = some (codes "failed to get queue status: " ++ e);
  },
)
monitor_queue_depth show_remaining now (ok depth) d =
    let (initial, percent) = drained_percent d.initial_queue_depth depth in
    let since = empty_since now d.empty_queue_seen_time in
    let remaining = sub64 d.grace_period (sub_time now since) in
    let report : ℤ → Bool → Bytes → ManagerDrainProgress = λ p done msg. record {
      percent = p;
      queue_depth = depth;
      initial_queue_depth = d.initial_queue_depth;
      message = msg;
      is_complete = done;
      error = none;
    } in
    if eqb_ℤ depth (pos 0)
    then (
      record d { initial_queue_depth = initial; empty_queue_seen_time = some since },
      if grace_elapsed now d
          then report (pos 100) true (codes "Queue drained successfully (grace period elapsed)")
          else report percent false (
              codes "Queue empty, waiting for grace period ("
              ++ (show_remaining remaining ++ codes " remaining)")),
    )
    else (
      record d { initial_queue_depth = initial; empty_queue_seen_time = none },
      report percent false
          (codes "Processing queue: " ++ (show_ℤ depth ++ codes " events remaining")),
    )

unfoldable pub verify_queue_empty : Time → Result ℤ → ManagerDrainer → ManagerDrainer × Result Bool
verify_queue_empty now (err e) d = (d, err (codes "failed to verify queue empty: " ++ e))
verify_queue_empty now (ok events) d =
    if ltb_ℤ (pos 0) events then (d, ok false) else elim d.empty_queue_seen_time [
      | none ↦ (record d { empty_queue_seen_time = some now }, ok false)
      | some t ↦ if ltb_ℤ (sub_time now t) d.grace_period then (d, ok false) else (d, ok true)
    ]

unfoldable pub cancel_drain : ManagerDrainer → ManagerDrainer
cancel_drain d = record d { initial_queue_depth = pos 0; empty_queue_seen_time = none }

-- What the select of WaitForDrainComplete receives: the context's end, or a tick of the clock with
-- the queue's answer to it.
pub data WaitEvent : Type 0 where
  cancelled : Bytes → WaitEvent
  tick : Time → Result ℤ → WaitEvent

-- The loop of WaitForDrainComplete over the events that it receives; the result is `none` while it
-- waits, and otherwise the error that it returns. The error of a timeout prints the duration.
unfoldable pub wait_for_drain_complete :
    (Duration → Bytes)
    → Time
    → List WaitEvent
    → ManagerDrainer
    → Option ComponentDrainStatus
    → ManagerDrainer × Option ComponentDrainStatus × Option (Option GoError)
unfolding monitor_queue_depth update_progress update_queue_depth sub_time
wait_for_drain_complete show start [] d s = (d, s, none)
wait_for_drain_complete show start (cancelled e ∷ es) d s = (d, s, some (some e))
wait_for_drain_complete show start (tick now answer ∷ es) d s =
    let (d', p) = monitor_queue_depth show now answer d in
    let s' =
      Option.map (λ t. update_queue_depth p.queue_depth (update_progress p.percent p.message t))
        s in
    let skip = wait_for_drain_complete show start es d' s in
    let rest = wait_for_drain_complete show start es d' s' in
    if ltb_ℤ d.timeout (sub_time now start)
    then (d, s, some (some (codes "drain timeout after " ++ show d.timeout)))
    else elim p.error [ some e ↦ skip | none ↦ if p.is_complete then (d', s', some none) else rest ]
