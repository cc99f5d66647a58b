-- ===== src/Drain/Manager/Monitor.antt =====
-- MonitorQueueDepth of internal/wazuh/drain/manager_drain.go.
use native.Mathlib.Nat.{div-le_of_le-mul}
use wazuh_operator.Common.{
  ℕ, ◌-◌, ◌*◌, ◌/◌, ◌<◌, ◌≤◌, ◌≡◌, ◌⊎◌, none, some, true, false, arith, pos, ◌≤ℤ◌, Bytes, Time,
  Duration, sub_time, Option, Bool-cases, inl, inr, refl, sub64_pos, mul64_pos, div64_pos,
  to_int32_small, if◌then◌else◌, ltb,
}
use wazuh_operator.Kube.{ok}
use wazuh_operator.Drain.Manager.{
  ManagerDrainer, drained_percent, empty_since, grace_elapsed, monitor_queue_depth,
}

percent_le : (i x : ℕ) → x ≤ i → x * 100 / i ≤ 100
percent_le i x h = div-le_of_le-mul i (omega arith)

-- With no overflow, the percentage is the share of the initial events that were handled; new events
-- beyond the initial ones restart it at 0 %, and a queue that began empty is at 100 %.
drained_percent_lem :
    (i n : ℕ)
    → i < 92233720368547758
    → n < 9223372036854775808
    → drained_percent (pos i) (pos n) ≡ (
        if ltb 0 i
        then if ltb i n then (pos n, pos 0) else (pos i, pos ((i - n) * 100 / i))
        else (pos 0, pos 100))
unfolding drained_percent
drained_percent_lem i n hi hn = ground (
  arith,
  sub64_pos i n,
  mul64_pos (i - n) 100,
  mul64_pos 0 100,
  div64_pos ((i - n) * 100) i,
  div64_pos 0 n,
  to_int32_small ((i - n) * 100 / i),
  to_int32_small (0 / n),
  to_int32_small 0,
  percent_le i (i - n),
)

known_since :
    (now : Time) (o : Option Time)
    → (o ≡ some (empty_since now o)) ⊎ ((o ≡ none) × (empty_since now o ≡ now))
known_since now none = inr (refl, refl)
known_since now (some t) = inl refl

report_bounds :
    (show : Duration → Bytes) (now : Time) (d : ManagerDrainer) (i n : ℕ)
    → d.initial_queue_depth ≡ pos i
    → i < 92233720368547758
    → n < 9223372036854775808
    → let p = (monitor_queue_depth show now (ok (pos n)) d).1 in
      (pos 0 ≤ℤ p.percent) × (p.percent ≤ℤ pos 100)
unfolding monitor_queue_depth
report_bounds show now d i n e hi hn =
    ground (arith, drained_percent_lem i n hi hn, percent_le i (i - n))

report_complete :
    (show : Duration → Bytes) (now : Time) (d : ManagerDrainer) (n : ℕ)
    → let (d', p) = monitor_queue_depth show now (ok (pos n)) d in
      p.is_complete ≡ true
      → (n ≡ 0)
        × (p.percent ≡ pos 100)
        × (d'.empty_queue_seen_time ≡ some (empty_since now d.empty_queue_seen_time))
        × (d.grace_period ≤ℤ sub_time now (empty_since now d.empty_queue_seen_time))
unfolding monitor_queue_depth grace_elapsed
report_complete show now d n h = (ground arith, ground arith, ground arith, ground arith)

report_forgets :
    (show : Duration → Bytes) (now : Time) (d : ManagerDrainer) (n : ℕ)
    → (n ≡ 0) ⊎ ((monitor_queue_depth show now (ok (pos n)) d).0.empty_queue_seen_time ≡ none)
unfolding monitor_queue_depth
report_forgets show now d n = ground arith

-- The percentage lies between 0 and 100; a report of completion means that the queue is empty now, at
-- 100 %, and that the instant since which the drainer knows it empty, now at the latest, is at least the
-- grace period ago; with events left the drainer forgets that instant.
monitor_report :
    (show : Duration → Bytes) (now : Time) (d : ManagerDrainer) (i n : ℕ)
    → d.initial_queue_depth ≡ pos i
    → i < 92233720368547758
    → n < 9223372036854775808
    → let (d', p) = monitor_queue_depth show now (ok (pos n)) d in
      (pos 0 ≤ℤ p.percent)
      × (p.percent ≤ℤ pos 100)
      × ((p.is_complete ≡ false)
          ⊎ ((n ≡ 0)
              × (p.percent ≡ pos 100)
              × (since : Time) × (d'.empty_queue_seen_time ≡ some since)
              × ((d.empty_queue_seen_time ≡ some since)
                  ⊎ ((d.empty_queue_seen_time ≡ none) × (since ≡ now)))
              × (d.grace_period ≤ℤ sub_time now since)))
      × ((n ≡ 0) ⊎ (d'.empty_queue_seen_time ≡ none))
monitor_report show now d i n e hi hn =
    let (low, high) = report_bounds show now d i n e hi hn in
    let m = monitor_queue_depth show now (ok (pos n)) d in
    (
      low,
      high,
      elim (Bool-cases m.1.is_complete) [
        | inr waiting ↦ inl waiting
        | inl done ↦
            let (empty, full, seen, long_enough) = report_complete show now d n done in
            let how = known_since now d.empty_queue_seen_time in
            inr (empty, full, empty_since now d.empty_queue_seen_time, seen, how, long_enough)
      ],
      report_forgets show now d n,
    )

-- At an empty queue the drainer remembers since when it is empty.
pub monitor_empty :
    (show : Duration → Bytes) (now : Time) (d : ManagerDrainer)
    → let (d', p) = monitor_queue_depth show now (ok (pos 0)) d in
      (d'.empty_queue_seen_time ≡ some (empty_since now d.empty_queue_seen_time))
      × (d'.grace_period ≡ d.grace_period)
      × (p.error ≡ none)
      × (p.is_complete ≡ grace_elapsed now d)
unfolding monitor_queue_depth
monitor_empty show now d = ground arith
