-- ===== src/Indexer/Drainer.antt =====
-- IndexerDrainerImpl of internal/opensearch/drain/indexer_drain.go for a single node. The drainer's
-- client is the server and its store.
use mathlib.Core.Option
use wazuh_operator.Common.{
  List, [], ◌∷◌, ◌++◌, Option, none, some, Bool, true, false, ◌&&◌, not, if◌then◌else◌, ℤ, pos,
  ltb_ℤ, eqb_ℤ, sub32, mul32, div32, to_int32, Bytes, codes, show_ℤ, Time, Duration, sub_time,
}
use wazuh_operator.Kube.{Result, ok, err}
use wazuh_operator.Drain.Status.{GoError, ComponentDrainStatus}
use wazuh_operator.Drain.State.{update_progress, update_shard_count}
use wazuh_operator.Drain.Manager.{or_default}
use wazuh_operator.Indexer.Server.{
  Server, get_shard_count, has_relocating_shards, set_allocation_exclusion,
  clear_allocation_exclusion,
}

pub record IndexerDrainConfig : Type 0 where
  pub enabled : Option Bool
  pub timeout : Option Duration
  pub health_check_interval : Option Duration

pub record DrainProgress : Type 0 where
  pub percent : ℤ
  pub shards_remaining : ℤ
  pub shards_relocating : ℤ
  pub message : Bytes
  pub is_complete : Bool
  pub error : Option GoError

abbrev pub no_progress : DrainProgress
no_progress = record {
  percent = pos 0;
  shards_remaining = pos 0;
  shards_relocating = pos 0;
  message = codes "";
  is_complete = false;
  error = none;
}

pub record IndexerDrainer : Type 0 where
  pub timeout : Duration
  pub health_check_interval : Duration
  pub initial_shard_count : ℤ

unfoldable pub new_indexer_drainer : Option IndexerDrainConfig → IndexerDrainer
new_indexer_drainer none = record {
  timeout = pos 1800000000000;
  health_check_interval = pos 10000000000;
  initial_shard_count = pos 0;
}
new_indexer_drainer (some c) = record {
  timeout = or_default (pos 1800000000000) c.timeout;
  health_check_interval = or_default (pos 10000000000) c.health_check_interval;
  initial_shard_count = pos 0;
}

-- The percentage of moved shards, in int32.
unfoldable pub moved_percent : ℤ → ℤ → ℤ
moved_percent initial remaining =
    if ltb_ℤ (pos 0) initial
    then div32 (mul32 (sub32 initial remaining) (pos 100)) initial
    else pos 100

-- MonitorProgress at the answers to its two requests.
unfoldable pub progress_of : ℤ → Result ℤ → Result (Bool × ℤ) → DrainProgress
unfolding moved_percent
progress_of initial (err e) relocating = record no_progress {
  error = some (codes "failed to get shard count: " ++ e);
}
progress_of initial (ok count) (err e) = record no_progress {
  shards_remaining = to_int32 count;
  error = some (codes "failed to check relocating shards: " ++ e);
}
progress_of initial (ok count) (ok (some_move, moving)) =
    let p = record no_progress {
      shards_remaining = to_int32 count;
      shards_relocating = to_int32 moving;
      percent = moved_percent initial (to_int32 count);
    } in
    if eqb_ℤ count (pos 0) && not some_move
    then record p {
      is_complete = true;
      percent = pos 100;
      message = codes "All shards relocated successfully";
    }
    else if some_move
    then record p {
      message =
          codes "Relocating shards: "
          ++ (show_ℤ count
              ++ (codes " remaining on node, "
                  ++ (show_ℤ moving ++ codes " currently relocating")));
    }
    else record p {
      message =
          codes "Waiting for shard relocation: "
          ++ (show_ℤ count ++ codes " shards remaining on node");
    }

-- VerifyComplete at the answers to its requests, the second of which it may not make.
unfoldable pub verified : Result ℤ → Result (Bool × ℤ) → Result Bool
verified (err e) relocating = err (codes "failed to verify drain completion: " ++ e)
verified (ok count) relocating = if ltb_ℤ (pos 0) count then ok false else elim relocating [
  | err e ↦ err (codes "failed to check relocating shards: " ++ e)
  | ok (some_move, _) ↦ ok (not some_move)
]

-- What the select of WaitForDrainComplete receives, with the answers to MonitorProgress.
pub data DrainEvent : Type 0 where
  cancelled : Bytes → DrainEvent
  tick : Time → Result ℤ → Result (Bool × ℤ) → DrainEvent

-- WaitForDrainComplete over the events that it receives; the result is `none` while it waits.
unfoldable pub wait_for_relocation :
    (Duration → Bytes)
    → Time
    → IndexerDrainer
    → List DrainEvent
    → Option ComponentDrainStatus
    → Option ComponentDrainStatus × Option (Option GoError)
unfolding progress_of update_progress update_shard_count sub_time
wait_for_relocation show start d [] s = (s, none)
wait_for_relocation show start d (cancelled e ∷ es) s = (s, some (some e))
wait_for_relocation show start d (tick now count relocating ∷ es) s =
    let p = progress_of d.initial_shard_count count relocating in
    let s' =
      Option.map
        (λ t. update_shard_count p.shards_remaining (update_progress p.percent p.message t)) s in
    let skip = wait_for_relocation show start d es s in
    let rest = wait_for_relocation show start d es s' in
    if ltb_ℤ d.timeout (sub_time now start)
    then (s, some (some (codes "drain timeout after " ++ show d.timeout)))
    else elim p.error [ some e ↦ skip | none ↦ if p.is_complete then (s', some none) else rest ]

module _ (sv : Server) where
  open sv use {Store}

  -- StartDrain; the count is recorded also where the exclusion then fails.
  unfoldable pub start_shard_drain :
      Bytes → IndexerDrainer → Store → IndexerDrainer × Store × Option GoError
  unfolding get_shard_count set_allocation_exclusion
  start_shard_drain node d st = elim (get_shard_count sv node st) [
    | err e ↦ (d, st, some (codes "failed to get initial shard count: " ++ e))
    | ok count ↦
        let d' = record d { initial_shard_count = to_int32 count } in
        elim (set_allocation_exclusion sv node st) [
          | err e ↦ (d', st, some (codes "failed to set allocation exclusion: " ++ e))
          | ok st' ↦ (d', st', none)
        ]
  ]

  unfoldable pub monitor_progress : Bytes → IndexerDrainer → Store → DrainProgress
  unfolding progress_of
  monitor_progress node d st =
      progress_of d.initial_shard_count (get_shard_count sv node st) (has_relocating_shards sv st)

  unfoldable pub verify_complete : Bytes → Store → Result Bool
  unfolding verified
  verify_complete node st = verified (get_shard_count sv node st) (has_relocating_shards sv st)

  -- CancelDrain
  unfoldable pub cancel_shard_drain : Store → Store × Option GoError
  unfolding clear_allocation_exclusion
  cancel_shard_drain st = elim (clear_allocation_exclusion sv st) [
    | err e ↦ (st, some (codes "failed to clear allocation exclusion: " ++ e))
    | ok st' ↦ (st', none)
  ]
