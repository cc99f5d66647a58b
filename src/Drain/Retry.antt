-- ===== src/Drain/Retry.antt =====
-- RetryManagerImpl of internal/wazuh/drain/retry.go. The language has no floating point numbers:
-- float64, strconv.ParseFloat and the product of a duration and a float64 are parameters.
pub mod Backoff
pub mod Attempts
use wazuh_operator.Common.{
  ℕ, zero, suc, ◌-◌, List, [], ◌∷◌, Option, none, some, Bool, true, false, ◌&&◌, not, if◌then◌else◌,
  ℤ, pos, pos_part, ltb_ℤ, leb_ℤ, eqb_ℤ, add32, sub32, Bytes, codes, Time, Duration, minute,
  add_time, after, ◌*ℤ◌,
}
use wazuh_operator.Drain.Status.{failed, phase_eq, ComponentDrainStatus, DrainRetryConfig}

pub record FloatOps : Type 1 where
  pub Float : Type 0
  pub parse_float : Bytes → Option Float
  -- the constant DefaultDrainRetryBackoffMultiplier
  pub default_multiplier : Float
  -- time.Duration(float64(d) * m)
  pub scale : Float → Duration → Duration

abbrev pub default_max_attempts : ℤ
default_max_attempts = pos 3

abbrev pub default_initial_delay : Duration
default_initial_delay = pos 300000000000

abbrev pub default_max_delay : Duration
default_max_delay = pos 1800000000000

-- `if config != nil && config.MaxAttempts > 0`, in ShouldRetry and EvaluateRetry.
abbrev pub max_attempts_of : Option DrainRetryConfig → ℤ
max_attempts_of none = default_max_attempts
max_attempts_of (some c) =
    if ltb_ℤ (pos 0) c.max_attempts then c.max_attempts else default_max_attempts

abbrev pub initial_delay_of : Option DrainRetryConfig → Duration
initial_delay_of none = default_initial_delay
initial_delay_of (some c) = elim c.initial_delay [ none ↦ default_initial_delay | some d ↦ d ]

abbrev pub max_delay_of : Option DrainRetryConfig → Duration
max_delay_of none = default_max_delay
max_delay_of (some c) = elim c.max_delay [ none ↦ default_max_delay | some d ↦ d ]

unfoldable pub should_retry : ComponentDrainStatus → Option DrainRetryConfig → Bool
should_retry s config =
    if leb_ℤ (max_attempts_of config) s.attempt_count
    then false
    else if not (phase_eq s.phase failed)
    then false
    else true

unfoldable pub is_retry_due : Time → ComponentDrainStatus → Bool
is_retry_due now s = elim s.next_retry_time [ none ↦ false | some t ↦ after now t ]

unfoldable pub reset_retry_state : ComponentDrainStatus → ComponentDrainStatus
reset_retry_state s = record s { attempt_count = pos 0; next_retry_time = none }

-- The loop `for i := int32(1); i < attempt; i++` by the rounds left; a round past the cap ends it.
unfoldable pub backoff : (Duration → Duration) → Duration → ℕ → Duration → Duration
backoff grow max_delay zero delay = delay
backoff grow max_delay (suc rounds) delay =
    let rest = backoff grow max_delay rounds (grow delay) in
    if ltb_ℤ max_delay (grow delay) then max_delay else rest

-- `if attempt == 0 { attempt = 1 }`, and the rounds from 1 to below it.
abbrev pub rounds_of : ℤ → ℕ
rounds_of attempt_count =
    let attempt = if eqb_ℤ attempt_count (pos 0) then pos 1 else attempt_count in
    pos_part attempt - 1

pub record RetryDecision : Type 0 where
  pub should_retry : Bool
  pub is_due : Bool
  pub attempt_number : ℤ
  pub remaining_attempts : ℤ
  pub next_retry_time : Option Time
  pub reason : Bytes

module _ (fl : FloatOps) where
  open fl use {Float, parse_float, default_multiplier, scale}

  abbrev pub multiplier_of : Option DrainRetryConfig → Float
  multiplier_of none = default_multiplier
  multiplier_of (some c) = elim c.backoff_multiplier [
    | [] ↦ default_multiplier
    | b ∷ bs ↦ elim (parse_float (b ∷ bs)) [ none ↦ default_multiplier | some m ↦ m ]
  ]

  unfoldable pub retry_delay : ComponentDrainStatus → Option DrainRetryConfig → Duration
  unfolding backoff
  retry_delay s config =
      backoff (scale (multiplier_of config)) (max_delay_of config) (rounds_of s.attempt_count)
        (initial_delay_of config)

  unfoldable pub calculate_next_retry_time :
      Time → ComponentDrainStatus → Option DrainRetryConfig → Time
  unfolding retry_delay
  calculate_next_retry_time now s config = add_time now (retry_delay s config)

  unfoldable pub increment_attempt :
      Time → Option DrainRetryConfig → ComponentDrainStatus → ComponentDrainStatus
  unfolding calculate_next_retry_time
  increment_attempt now config s =
      let t = record s { attempt_count = add32 s.attempt_count (pos 1) } in
      record t { next_retry_time = some (calculate_next_retry_time now t config) }

  -- `now` is read once where a retry time is set, and once where one is calculated.
  unfoldable pub evaluate_retry :
      Time → ComponentDrainStatus → Option DrainRetryConfig → RetryDecision
  unfolding calculate_next_retry_time
  evaluate_retry now s config =
      let most = max_attempts_of config in
      let decision : RetryDecision = record {
        should_retry = false;
        is_due = false;
        attempt_number = add32 s.attempt_count (pos 1);
        remaining_attempts = sub32 most s.attempt_count;
        next_retry_time = none;
        reason = codes "";
      } in
      if leb_ℤ most s.attempt_count
      then record decision { reason = codes "max attempts reached" }
      else if not (phase_eq s.phase failed)
      then record decision { reason = codes "not in failed state" }
      else elim s.next_retry_time [
        | some t ↦ record decision {
          should_retry = true;
          is_due = after now t;
          next_retry_time = some t;
          reason =
              if after now t then codes "retry time has passed" else codes "waiting for retry time";
        }
        | none ↦ record decision {
          should_retry = true;
          next_retry_time = some (calculate_next_retry_time now s config);
          reason = codes "retry scheduled";
        }
      ]
