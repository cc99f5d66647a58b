-- ===== src/Drain/Retry/Backoff.antt =====
-- The delay before a retry (internal/wazuh/drain/retry.go).
use wazuh_operator.Common.{
  ℕ, zero, suc, ◌≡◌, refl, ◌⊎◌, inl, inr, Bool-cases, Option, if◌then◌else◌, arith, ℤ, pos, ltb_ℤ,
  ◌≤ℤ◌, ◌<ℤ◌, Duration, ◌<◌,
}
use wazuh_operator.Drain.Status.{ComponentDrainStatus, DrainRetryConfig}
use wazuh_operator.Drain.Retry.{
  FloatOps, max_delay_of, initial_delay_of, multiplier_of, backoff, rounds_of, retry_delay,
}

-- A round with no early exit: grow, then cut off at the cap.
abbrev pub capped : (Duration → Duration) → Duration → Duration → Duration
capped grow cap d = if ltb_ℤ cap (grow d) then cap else grow d

abbrev pub times : ℕ → (Duration → Duration) → Duration → Duration
times zero f d = d
times (suc n) f d = times n f (f d)

times_fixed : (n : ℕ) (f : Duration → Duration) (d : Duration) → f d ≡ d → times n f d ≡ d
times_fixed zero f d e = refl
times_fixed (suc n) f d e = rw e (times_fixed n f d e)

backoff-times :
    (grow : Duration → Duration) (cap : Duration) (n : ℕ) (d : Duration)
    → cap ≤ℤ grow cap
    → backoff grow cap n d ≡ times n (capped grow cap) d
unfolding backoff
backoff-times grow cap zero d h = refl
backoff-times grow cap (suc n) d h =
    let fixed : capped grow cap cap ≡ cap = ground arith in
    ground (arith, times_fixed n (capped grow cap) cap fixed, backoff-times grow cap n (grow d) h)

backoff-le :
    (grow : Duration → Duration) (cap : Duration) (n : ℕ) (d : Duration)
    → d ≤ℤ cap
    → backoff grow cap n d ≤ℤ cap
unfolding backoff
backoff-le grow cap zero d h = h
backoff-le grow cap (suc n) d h = ground (arith, backoff-le grow cap n (grow d))

-- The delay is the initial delay, multiplied and cut off at the maximum once for each attempt after
-- the first; the early exit of the loop changes nothing, for a multiplier that does not take the
-- maximum below itself.
pub retry_delay-times :
    (fl : FloatOps) (s : ComponentDrainStatus) (config : Option DrainRetryConfig)
    → max_delay_of config ≤ℤ fl.scale (multiplier_of fl config) (max_delay_of config)
    → retry_delay fl s config
      ≡ times
          (rounds_of s.attempt_count)
          (capped (fl.scale (multiplier_of fl config)) (max_delay_of config))
          (initial_delay_of config)
unfolding retry_delay
retry_delay-times fl s config h =
    backoff-times (fl.scale (multiplier_of fl config)) (max_delay_of config)
      (rounds_of s.attempt_count) (initial_delay_of config) h

backoff_suc-le :
    (grow : Duration → Duration) (cap : Duration) (n : ℕ) (d : Duration)
    → 0 < n
    → backoff grow cap n d ≤ℤ cap
unfolding backoff
backoff_suc-le grow cap zero d h = elim h [ ]
backoff_suc-le grow cap (suc n) d h = ground (arith, backoff-le grow cap n (grow d))

rounds-zero : (a : ℤ) → a ≤ℤ pos 1 → rounds_of a ≡ 0
rounds-zero a h = ground arith

rounds_pos : (a : ℤ) → pos 1 <ℤ a → 0 < rounds_of a
rounds_pos a h = ground arith

-- Up to the first attempt the delay is the initial delay itself, even above the maximum. From the
-- second on it is at most the maximum, whatever the multiplier and the initial delay are.
pub retry_delay_bounds :
    (fl : FloatOps) (s : ComponentDrainStatus) (config : Option DrainRetryConfig)
    → ((s.attempt_count ≤ℤ pos 1) × (retry_delay fl s config ≡ initial_delay_of config))
      ⊎ ((pos 1 <ℤ s.attempt_count) × (retry_delay fl s config ≤ℤ max_delay_of config))
unfolding retry_delay backoff
retry_delay_bounds fl s config = elim (Bool-cases (ltb_ℤ (pos 1) s.attempt_count)) [
  | inl more ↦
      let h : pos 1 <ℤ s.attempt_count = ground arith in
      inr (
        h,
        backoff_suc-le (fl.scale (multiplier_of fl config)) (max_delay_of config)
            (rounds_of s.attempt_count) (initial_delay_of config) (rounds_pos s.attempt_count h),
      )
  | inr first ↦
      let h : s.attempt_count ≤ℤ pos 1 = ground arith in
      inl (h, rw (rounds-zero s.attempt_count h) refl)
]
