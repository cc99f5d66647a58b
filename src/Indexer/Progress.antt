-- ===== src/Indexer/Progress.antt =====
-- MonitorProgress and WaitForDrainComplete of internal/opensearch/drain/indexer_drain.go.
use wazuh_operator.Common.{
  ℕ, zero, suc, ◌*◌, ◌/◌, ◌-◌, ◌≤◌, ◌<◌, ◌≡◌, refl, ◌↔◌, inl, inr, List, [], ◌∷◌, Option, none,
  some, Bool, true, false, Bool-cases, Option-cases, arith, ℤ, pos, sub32_pos, mul32_pos, div32_pos,
  to_int32_small, ◌≤ℤ◌, ltb_ℤ, ltb, sub_time, Time, Duration, Bytes,
}
use native.Mathlib.Nat.{div-le_of_le-mul}
use mathlib.Core.Option
use wazuh_operator.Kube.{Result, ok, err}
use wazuh_operator.Drain.Status.{ComponentDrainStatus}
use wazuh_operator.Drain.State.{update_progress, update_shard_count}
use wazuh_operator.Indexer.Drainer.{
  IndexerDrainer, moved_percent, progress_of, DrainEvent, cancelled, tick, wait_for_relocation,
}

percent_lem :
    (i r : ℕ) → r ≤ i → i < 21474836 → (q : ℕ) × (moved_percent (pos i) (pos r) ≡ pos q) × (q ≤ 100)
unfolding moved_percent
percent_lem i r h b =
    let moved = sub32_pos i r (omega arith) (omega arith) in
    let times = mul32_pos (i - r) 100 (omega arith) in
    let part = div32_pos ((i - r) * 100) i (omega arith) in
    let bound = div-le_of_le-mul i {m = (i - r) * 100} {n = 100} (omega arith) in
    elim (Bool-cases (ltb 0 i)) [
      | inl p ↦ ((i - r) * 100 / i, ground (arith, moved, times, part, p), bound)
      | inr p ↦ (100, ground (arith, p), omega arith)
    ]

-- At a count r of shards that is at most the initial count i, below 21474836, the progress is between
-- 0 and 100 percent, and it is complete exactly if no shard is left and none is relocating.
pub progress_bounds :
    (i r : ℕ) (some_move : Bool) (moving : ℤ)
    → r ≤ i
    → i < 21474836
    → (q : ℕ) × ((progress_of (pos i) (ok (pos r)) (ok (some_move, moving))).percent ≡ pos q)
      × (q ≤ 100)
      × (((progress_of (pos i) (ok (pos r)) (ok (some_move, moving))).is_complete ≡ true)
          ↔ ((r ≡ 0) × (some_move ≡ false)))
unfolding progress_of
progress_bounds i zero true moving h b =
    let (q, e, k) = percent_lem i 0 h b in
    (
      q,
      ground (arith, to_int32_small 0, e),
      k,
      (λ c. absurd (ground arith), λ (c, d). absurd (ground arith)),
    )
progress_bounds i zero false moving h b = (100, refl, omega arith, (λ c. (refl, refl), λ c. refl))
progress_bounds i (suc r) true moving h b =
    let (q, e, k) = percent_lem i (suc r) h b in
    let small = to_int32_small (suc r) (omega arith) in
    (q, ground (arith, small, e), k, (λ c. absurd (ground arith), λ (c, d). absurd (ground arith)))
progress_bounds i (suc r) false moving h b =
    let (q, e, k) = percent_lem i (suc r) h b in
    let small = to_int32_small (suc r) (omega arith) in
    (q, ground (arith, small, e), k, (λ c. absurd (ground arith), λ (c, d). absurd (ground arith)))

-- Among the events is a tick, at most the timeout after the start, that found no shard on the node and
-- none relocating.
pub data SawEmpty (begun : Time) (timeout : Duration) : List DrainEvent → Type 0 where
  found_empty :
      {at : Time} {count moving : ℤ} {es : List DrainEvent}
      → sub_time at begun ≤ℤ timeout
      → count ≡ pos 0
      → SawEmpty begun timeout (tick at (ok count) (ok (false, moving)) ∷ es)
  later :
      {e : DrainEvent} {es : List DrainEvent}
      → SawEmpty begun timeout es
      → SawEmpty begun timeout (e ∷ es)

found_of :
    (begun : Time) (d : IndexerDrainer) (now : Time) (count : Result ℤ)
    (relocating : Result (Bool × ℤ)) (es : List DrainEvent)
    → sub_time now begun ≤ℤ d.timeout
    → (progress_of d.initial_shard_count count relocating).error ≡ none
    → (progress_of d.initial_shard_count count relocating).is_complete ≡ true
    → SawEmpty begun d.timeout (tick now count relocating ∷ es)
unfolding progress_of
found_of begun d now (err e) relocating es l a b = absurd (ground arith)
found_of begun d now (ok n) (err e) es l a b = absurd (ground arith)
found_of begun d now (ok n) (ok (true, m)) es l a b = absurd (ground arith)
found_of begun d now (ok n) (ok (false, m)) es l a b = found_empty l (ground arith)

-- WaitForDrainComplete returns without an error only if it received such a tick.
pub wait-SawEmpty :
    (show : Duration → Bytes) (begun : Time) (d : IndexerDrainer) (es : List DrainEvent)
    (s : Option ComponentDrainStatus)
    → (wait_for_relocation show begun d es s).1 ≡ some none
    → SawEmpty begun d.timeout es
unfolding wait_for_relocation
wait-SawEmpty show begun d [] s h = absurd (ground arith)
wait-SawEmpty show begun d (cancelled e ∷ es) s h = absurd (ground arith)
wait-SawEmpty show begun d (tick now count relocating ∷ es) s h =
    let p = progress_of d.initial_shard_count count relocating in
    let s' =
      Option.map
        (λ t. update_shard_count p.shards_remaining (update_progress p.percent p.message t)) s in
    elim (Bool-cases (ltb_ℤ d.timeout (sub_time now begun))) [
      | inl late ↦ absurd (ground (arith, late))
      | inr late ↦ elim (Option-cases p.error) [
        | inr (e, q) ↦ later (wait-SawEmpty show begun d es s (ground (arith, late, q)))
        | inl q ↦ elim (Bool-cases p.is_complete) [
          | inr c ↦ later (wait-SawEmpty show begun d es s' (ground (arith, late, q, c)))
          | inl c ↦ found_of begun d now count relocating es (ground arith) q c
        ]
      ]
    ]
