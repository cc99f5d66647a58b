-- ===== src/Drain/Status.antt =====
-- DrainPhase and ComponentDrainStatus of api/v1/shared_types.go, and the retry configuration.
use wazuh_operator.Common.{ℕ, Option, none, Bool, ◌==◌, ℤ, pos, Bytes, codes, Time, Duration}

-- The typed string DrainPhase: its constants, and the empty text of a status never written.
pub data DrainPhase : Type 0 where
  unset idle pending draining verifying complete failed rolling_back : DrainPhase

abbrev pub phase_name : DrainPhase → Bytes
phase_name unset = codes ""
phase_name idle = codes "Idle"
phase_name pending = codes "Pending"
phase_name draining = codes "Draining"
phase_name verifying = codes "Verifying"
phase_name complete = codes "Complete"
phase_name failed = codes "Failed"
phase_name rolling_back = codes "RollingBack"

-- The constants are distinct texts, so a comparison of phases is one of their positions.
abbrev phase_index : DrainPhase → ℕ
phase_index unset = 0
phase_index idle = 1
phase_index pending = 2
phase_index draining = 3
phase_index verifying = 4
phase_index complete = 5
phase_index failed = 6
phase_index rolling_back = 7

abbrev pub phase_eq : DrainPhase → DrainPhase → Bool
phase_eq p q = phase_index p == phase_index q

-- A Go error by its text; an `error` result is `none` for nil.
abbrev pub GoError : Type 0
GoError = Bytes

-- int32 and int64 fields are integers, pointers are options.
pub record ComponentDrainStatus : Type 0 where
  pub phase : DrainPhase
  pub target_pod : Bytes
  pub previous_replicas : Option ℤ
  pub target_replicas : Option ℤ
  pub progress : ℤ
  pub start_time : Option Time
  pub last_transition_time : Option Time
  pub attempt_count : ℤ
  pub next_retry_time : Option Time
  pub message : Bytes
  pub shard_count : Option ℤ
  pub queue_depth : Option ℤ

-- The zero value of the struct, with a phase.
abbrev pub empty_status : DrainPhase → ComponentDrainStatus
empty_status p = record {
  phase = p;
  target_pod = codes "";
  previous_replicas = none;
  target_replicas = none;
  progress = pos 0;
  start_time = none;
  last_transition_time = none;
  attempt_count = pos 0;
  next_retry_time = none;
  message = codes "";
  shard_count = none;
  queue_depth = none;
}

-- An empty multiplier is an empty text.
pub record DrainRetryConfig : Type 0 where
  pub max_attempts : ℤ
  pub initial_delay : Option Duration
  pub backoff_multiplier : Bytes
  pub max_delay : Option Duration
