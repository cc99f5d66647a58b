-- ===== src/Drain/Manager/Wait.antt =====
-- WaitForDrainComplete of internal/wazuh/drain/manager_drain.go.
use wazuh_operator.Common.{
  ◌≡◌, refl, sym, ap, ◌∙◌, inl, inr, List, [], ◌∷◌, ◌++◌, ◌⊎◌, eqb_ℤ, eqb_ℤ_iff, All, Option, none,
  some, true, Bool-cases, Option-cases, arith, ℤ, pos, ltb_ℤ, ◌≤ℤ◌, Bytes, Time, Duration, sub_time,
}
use mathlib.Core.Option
use wazuh_operator.Kube.{Result, ok, err}
use wazuh_operator.Drain.Status.{ComponentDrainStatus}
use wazuh_operator.Drain.State.{update_progress, update_queue_depth}
use wazuh_operator.Drain.Manager.{
  ManagerDrainer, monitor_queue_depth, grace_elapsed, empty_since, WaitEvent, cancelled, tick,
  wait_for_drain_complete,
}

-- An event in which the queue answers with no events, or does not answer.
abbrev pub ShowsNone : WaitEvent → Type 0
ShowsNone (cancelled e) = ⊥
ShowsNone (tick now (err e)) = Unit
ShowsNone (tick now (ok depth)) = depth ≡ pos 0

abbrev pub StartsAt : Time → List WaitEvent → Type 0
StartsAt since es = (rest : List WaitEvent) × (es ≡ tick since (ok (pos 0)) ∷ rest)

-- A tick among the events found the queue empty, and so did the answers since an instant that is the
-- grace period ago or more: the instant of the first of these ticks, or, when they reach back to the
-- start of the events, the instant `seen` known before.
pub record SawDrained (grace : Duration) (seen : Option Time) (es : List WaitEvent) : Type 0 where
  pub before : List WaitEvent
  pub during : List WaitEvent
  pub later : List WaitEvent
  pub now : Time
  pub since : Time
  pub split : es ≡ before ++ (during ++ (tick now (ok (pos 0)) ∷ later))
  pub none_shown : All ShowsNone during
  pub began :
      ((before ≡ []) × (seen ≡ some since))
      ⊎ StartsAt since (during ++ (tick now (ok (pos 0)) ∷ later))
  pub long_enough : grace ≤ℤ sub_time now since

-- One more event in front, whose answer has the drainer know the instant `seen'`.
earlier_event :
    {grace : Duration} {seen seen' : Option Time} {es : List WaitEvent} (e : WaitEvent)
    → ((since : Time)
        → seen' ≡ some since
        → ShowsNone e × ((seen ≡ some since) ⊎ ((seen ≡ none) × (e ≡ tick since (ok (pos 0))))))
    → SawDrained grace seen' es
    → SawDrained grace seen (e ∷ es)
earlier_event {grace} {seen} {seen'} {es} e known s = elim s.began [
  | inr starts ↦ record {
    before = e ∷ s.before;
    during = s.during;
    later = s.later;
    now = s.now;
    since = s.since;
    split = ap (λ l. e ∷ l) s.split;
    none_shown = s.none_shown;
    began = inr starts;
    long_enough = s.long_enough;
  }
  | inl (empty, same) ↦
      let (quiet, how) = known s.since same in
      let whole = s.during ++ (tick s.now (ok (pos 0)) ∷ s.later) in
      record {
        before = [];
        during = e ∷ s.during;
        later = s.later;
        now = s.now;
        since = s.since;
        split = ap (λ l. e ∷ l) (s.split ∙ ap (λ l. l ++ whole) empty);
        none_shown = (quiet, s.none_shown);
        began = elim how [
          | inl kept ↦ inl (refl, kept)
          | inr (_, here) ↦ inr (whole, ap (λ x. x ∷ whole) here)
        ];
        long_enough = s.long_enough;
      }
]

-- What MonitorQueueDepth makes of the instant since which the queue is empty.
monitor_seen :
    (show : Duration → Bytes) (now : Time) (answer : Result ℤ) (d : ManagerDrainer) (since : Time)
    → (monitor_queue_depth show now answer d).0.empty_queue_seen_time ≡ some since
    → (monitor_queue_depth show now answer d).1.error ≡ none
    → ShowsNone (tick now answer)
      × ((d.empty_queue_seen_time ≡ some since)
          ⊎ ((d.empty_queue_seen_time ≡ none) × (tick now answer ≡ tick since (ok (pos 0)))))
unfolding monitor_queue_depth
monitor_seen show now (err e) d since h f = absurd (ground arith)
monitor_seen show now (ok n) d since h f = elim (Bool-cases (eqb_ℤ n (pos 0))) [
  | inr some_left ↦ absurd (ground arith)
  | inl none_left ↦
      let empty = (eqb_ℤ_iff n (pos 0)).0 none_left in
      elim (Option-cases d.empty_queue_seen_time) [
        | inl first ↦
            let same : now ≡ since = ground arith in
            (empty, inr (first, ap (λ x. tick x (ok n)) same ∙ ap (λ x. tick since (ok x)) empty))
        | inr (t, known) ↦
            let same : t ≡ since = ground arith in (empty, inl (known ∙ ap some same))
      ]
]

monitor_failed :
    (show : Duration → Bytes) (now : Time) (answer : Result ℤ) (d : ManagerDrainer) (e : Bytes)
    → (monitor_queue_depth show now answer d).1.error ≡ some e
    → ((monitor_queue_depth show now answer d).0 ≡ d) × ShowsNone (tick now answer)
unfolding monitor_queue_depth
monitor_failed show now (err x) d e h = (refl, tt)
monitor_failed show now (ok n) d e h = absurd (ground arith)

monitor_keeps_grace :
    (show : Duration → Bytes) (now : Time) (answer : Result ℤ) (d : ManagerDrainer)
    → (monitor_queue_depth show now answer d).0.grace_period ≡ d.grace_period
unfolding monitor_queue_depth
monitor_keeps_grace show now (err e) d = refl
monitor_keeps_grace show now (ok n) d = ground arith

monitor_complete :
    (show : Duration → Bytes) (now : Time) (answer : Result ℤ) (d : ManagerDrainer)
    → (monitor_queue_depth show now answer d).1.is_complete ≡ true
    → (answer ≡ ok (pos 0))
      × ((monitor_queue_depth show now answer d).0.empty_queue_seen_time
          ≡ some (empty_since now d.empty_queue_seen_time))
      × (d.grace_period ≤ℤ sub_time now (empty_since now d.empty_queue_seen_time))
unfolding monitor_queue_depth grace_elapsed
monitor_complete show now (err e) d h = absurd (ground arith)
monitor_complete show now (ok n) d h = (ground arith, ground arith, ground arith)

-- The tick that ends the loop.
last_tick :
    (show : Duration → Bytes) (now : Time) (answer : Result ℤ) (d : ManagerDrainer)
    (es : List WaitEvent)
    → (monitor_queue_depth show now answer d).1.is_complete ≡ true
    → SawDrained d.grace_period d.empty_queue_seen_time (tick now answer ∷ es)
last_tick show now answer d es done =
    let (empty, seen, long_enough) = monitor_complete show now answer d done in
    record {
      before = [];
      during = [];
      later = es;
      now = now;
      since = empty_since now d.empty_queue_seen_time;
      split = ap (λ a. tick now a ∷ es) empty;
      none_shown = tt;
      began = elim (Option-cases d.empty_queue_seen_time) [
        | inl first ↦ inr (es, ap (λ o. tick (empty_since now o) (ok (pos 0)) ∷ es) (sym first))
        | inr (t, known) ↦ inl (refl, known ∙ ap (λ o. some (empty_since now o)) (sym known))
      ];
      long_enough = long_enough;
    }

-- WaitForDrainComplete returns nil only if one of the ticks that it received found the queue empty,
-- and for the grace period before that tick no answer showed an event left: since an earlier tick
-- that found the queue empty, or since an instant at which the drainer already knew it empty, and
-- then no answer from the first on.
pub wait-SawDrained :
    (show : Duration → Bytes) (start : Time) (es : List WaitEvent) (d : ManagerDrainer)
    (s : Option ComponentDrainStatus)
    → (wait_for_drain_complete show start es d s).2 ≡ some none
    → SawDrained d.grace_period d.empty_queue_seen_time es
unfolding wait_for_drain_complete
wait-SawDrained show start [] d s h = absurd (ground arith)
wait-SawDrained show start (cancelled e ∷ es) d s h = absurd (ground arith)
wait-SawDrained show start (tick now answer ∷ es) d s h =
    let m = monitor_queue_depth show now answer d in
    let kept = monitor_keeps_grace show now answer d in
    let s' =
      Option.map
        (λ t. update_queue_depth m.1.queue_depth (update_progress m.1.percent m.1.message t)) s in
    let whole = wait_for_drain_complete show start (tick now answer ∷ es) d s in
    elim (Bool-cases (ltb_ℤ d.timeout (sub_time now start))) [
      | inl late ↦ absurd (ground arith)
      | inr in_time ↦ elim (Option-cases m.1.error) [
        | inr (e, failed) ↦
            let same : whole ≡ wait_for_drain_complete show start es m.0 s = ground arith in
            let ih = wait-SawDrained show start es m.0 s (sym (ap (λ w. w.2) same) ∙ h) in
            let (left, quiet) = monitor_failed show now answer d e failed in
            earlier_event (tick now answer)
              (λ since k. (quiet, inl (ap (λ x. x.empty_queue_seen_time) (sym left) ∙ k)))
              (rw kept at ih)
        | inl fine ↦ elim (Bool-cases m.1.is_complete) [
          | inr waiting ↦
              let same : whole ≡ wait_for_drain_complete show start es m.0 s' = ground arith in
              let ih = wait-SawDrained show start es m.0 s' (sym (ap (λ w. w.2) same) ∙ h) in
              earlier_event (tick now answer)
                (λ since k. monitor_seen show now answer d since k fine) (rw kept at ih)
          | inl done ↦ last_tick show now answer d es done
        ]
      ]
    ]
