-- ===== src/Drain/Retry/Attempts.antt =====
-- The attempts that internal/wazuh/drain/retry.go counts.
use wazuh_operator.Common.{
  ℕ, ◌+◌, ◌<◌, ◌≡◌, Option, false, arith, pos, List, [], ◌∷◌, length, ap, ◌≤ℤ◌, Time, add32, ◌+ℤ◌,
  wrap32_of_IsInt32,
}
use wazuh_operator.Drain.Status.{ComponentDrainStatus, DrainRetryConfig}
use wazuh_operator.Drain.Retry.{
  FloatOps, max_attempts_of, should_retry, increment_attempt, evaluate_retry,
}

-- EvaluateRetry decides as ShouldRetry does, in every state of the status.
pub evaluate-should_retry :
    (fl : FloatOps) (now : Time) (s : ComponentDrainStatus) (config : Option DrainRetryConfig)
    → (evaluate_retry fl now s config).should_retry ≡ should_retry s config
unfolding evaluate_retry should_retry
evaluate-should_retry fl now s config = ground arith

add32-one : (a : ℕ) → a + 1 < 2147483648 → add32 (pos a) (pos 1) ≡ pos (a + 1)
unfolding add32 ◌+ℤ◌
add32-one a h = ground (arith, wrap32_of_IsInt32 (pos (a + 1)))

module _ (fl : FloatOps) (config : Option DrainRetryConfig) where
  -- IncrementAttempt at each of the given instants.
  abbrev pub increments : List Time → ComponentDrainStatus → ComponentDrainStatus
  increments [] s = s
  increments (now ∷ ts) s = increments ts (increment_attempt fl now config s)

  increments_count :
      (ts : List Time) (s : ComponentDrainStatus) (a : ℕ)
      → s.attempt_count ≡ pos a
      → a + length ts < 2147483648
      → (increments ts s).attempt_count ≡ pos (a + length ts)
  unfolding increment_attempt
  increments_count [] s a e h = rw e (ap pos (omega arith))
  increments_count (now ∷ ts) s a e h =
      let e' : (increment_attempt fl now config s).attempt_count ≡ pos (a + 1) =
        ground (arith, add32-one a) in
      let rest = increments_count ts (increment_attempt fl now config s) (a + 1) e' (omega arith) in
      ground (arith, rest)

  -- Once as many attempts are counted as the configuration allows, no retry is granted in any phase:
  -- attempts that start from a count and are each counted come to an end.
  pub should_retry_exhausted :
      (ts : List Time) (s : ComponentDrainStatus) (a : ℕ)
      → s.attempt_count ≡ pos a
      → a + length ts < 2147483648
      → max_attempts_of config ≤ℤ pos (a + length ts)
      → should_retry (increments ts s) config ≡ false
  unfolding should_retry
  should_retry_exhausted ts s a e h m = ground (arith, increments_count ts s a e h)
