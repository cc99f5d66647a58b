-- ===== src/Indexer/Examples.antt =====
-- The results on the drain of the indexer at concrete inputs.
pub mod Pools
use wazuh_operator.Common.{
  ℕ, ◌≤◌, ◌≡◌, ◌≢◌, refl, ◌↔◌, ◌⊎◌, List, [], ◌∷◌, ◌++◌, Option, none, some, Bool, true, false,
  arith, ℤ, pos, ◌≤ℤ◌, Bytes, codes, All, show_ℤ, sub32, wrap32, Time, Duration, sub_time, ◌-ℤ◌,
  bytes_eq,
}
use wazuh_operator.Kube.{StatefulSet, Result, ok, err}
use wazuh_operator.Drain.Status.{
  DrainPhase, idle, pending, draining, verifying, complete, rolling_back, empty_status,
  ComponentDrainStatus,
}
use wazuh_operator.Drain.Detection.{detect_scale_down, pod_name}
use wazuh_operator.Drain.Worker.{found, wait, proceed_and_reset}
use wazuh_operator.Drain.Round.{Round}
use wazuh_operator.NodePools.{IndexerNodePoolSpec, data_role, cluster_manager_role}
use wazuh_operator.Indexer.Server.{
  Server, ShardInfo, ClusterHealth, has_relocating_shards, get_shard_count,
  get_allocation_exclusion,
}
use wazuh_operator.Indexer.Drainer.{
  IndexerDrainConfig, IndexerDrainer, DrainEvent, tick, progress_of, wait_for_relocation,
}
use wazuh_operator.Indexer.Check.{
  IndexerState, IndexerEnv, check_indexer_scale_down, decide_indexer, get_or_new_indexer_drainer,
}
use wazuh_operator.Indexer.Gate.{
  IsIndexerDraining, IsEvacuated, indexer_next, indexer_decision, target_of,
}
use wazuh_operator.Indexer.Rounds.{phase_of, check_indexer_scale_down-Round}
use wazuh_operator.Indexer.Controller.{Reconciliation, seen, reconcile_indexer_drain, reconcile_all}
use wazuh_operator.Indexer.Progress.{SawEmpty, progress_bounds, wait-SawEmpty}
use wazuh_operator.Indexer.DryRun.{evaluate_indexer_feasibility}
use wazuh_operator.Indexer.DryRun.Ready.{IsReady, evaluate_indexer_feasibility-IsReady}
use wazuh_operator.Indexer.Traces.{SawEvacuated, release-SawEvacuated, complete_never_drains}

-- A server: its shards, how many are relocating, the excluded name, and whether it answers for its
-- health.
record World : Type 0 where
  shards : List ShardInfo
  relocating : ℤ
  excluded_name : Option Bytes
  healthy : Bool

abbrev server : Server
server = record {
  Store = World;
  cat_shards = λ w. ok w.shards;
  cluster_health = λ w. elim w.healthy [
    | true ↦ ok (record {
      status = codes "green";
      number_of_data_nodes = pos 3;
      relocating_shards = w.relocating;
    })
    | false ↦ err (codes "connection refused")
  ];
  exclude_settings = λ w. ok (w.excluded_name, none);
  put_exclude = λ name w. ok (record w { excluded_name = name });
}

abbrev shard_on : Bytes → ShardInfo
shard_on node = record {
  index = codes "alerts";
  shard = codes "0";
  prirep = codes "p";
  state = codes "STARTED";
  node = node;
}

abbrev world : List ShardInfo → World
world shards = record { shards = shards; relocating = pos 0; excluded_name = none; healthy = true }

abbrev busy : World
busy = world (shard_on (codes "indexer-2") ∷ shard_on (codes "indexer-0") ∷ [])

abbrev moved : World
moved = world (shard_on (codes "indexer-1") ∷ shard_on (codes "indexer-0") ∷ [])

abbrev indexers : StatefulSet
indexers = record {
  name = codes "indexer";
  namespace = codes "wazuh";
  uid = codes "u1";
  spec_replicas = some (pos 3);
  status_replicas = pos 3;
  ready_replicas = pos 3;
  update_revision = codes "r1";
  current_revision = codes "r1";
}

abbrev drains : IndexerDrainConfig
drains = record { enabled = some true; timeout = none; health_check_interval = none }

-- A reconciliation at an instant, after a scale-down from 3 to 2.
abbrev at : Time → IndexerEnv
at now = record {
  now = now;
  lookup = found indexers;
  desired = pos 2;
  config = some drains;
  client_error = none;
}

at-IsIndexerDraining : (now : Time) → IsIndexerDraining (at now)
unfolding detect_scale_down
at-IsIndexerDraining now = record {
  sts = indexers;
  is_found = refl;
  detected = refl;
  enabled = refl;
}

abbrev round : Time → World → Reconciliation World
round now w = record { env = at now; server_store = w; written = true }

abbrev in_phase : DrainPhase → World → IndexerState World
in_phase p w = record { drainer = none; status = some (empty_status p); store = w }

idle_not_complete : idle ≢ complete
idle_not_complete e = absurd (ground arith)

release-SawEvacuated_example :
    SawEvacuated server
      ((round (pos 100) busy ∷ round (pos 110) moved ∷ []) ++ (round (pos 120) moved ∷ []))
unfolding check_indexer_scale_down detect_scale_down decide_indexer reconcile_all
    has_relocating_shards bytes_eq pod_name show_ℤ sub32 wrap32 ◌-ℤ◌
release-SawEvacuated_example =
    release-SawEvacuated server (round (pos 100) busy ∷ round (pos 110) moved ∷ [])
      (round (pos 120) moved) (in_phase idle busy) idle_not_complete refl

check_indexer_scale_down-Round_example :
    Round
      (IsEvacuated server (target_of (at (pos 100)) (at-IsIndexerDraining (pos 100)).sts) busy)
      idle
      (indexer_decision server (at (pos 100)) (in_phase idle busy))
      (phase_of server (indexer_next server (at (pos 100)) (in_phase idle busy)))
check_indexer_scale_down-Round_example =
    check_indexer_scale_down-Round server (at (pos 100)) (in_phase idle busy)
      (at-IsIndexerDraining (pos 100))

complete_never_drains_example :
    (indexer_decision server (at (pos 900)) (
        seen server
          (round (pos 900) busy)
          (reconcile_all server (round (pos 100) busy ∷ []) (in_phase complete busy)))
      ≡ proceed_and_reset)
    × ((reconcile_indexer_drain server
          (round (pos 900) busy)
          (reconcile_all server (round (pos 100) busy ∷ []) (in_phase complete busy))).store
        ≡ busy)
complete_never_drains_example =
    complete_never_drains server (round (pos 100) busy ∷ []) (round (pos 900) busy)
      (in_phase complete busy) refl (at-IsIndexerDraining (pos 900))

abbrev drainer : IndexerDrainer
drainer = record { timeout = pos 900; health_check_interval = pos 5; initial_shard_count = pos 9 }

progress_bounds_example :
    (q : ℕ) × ((progress_of (pos 9) (ok (pos 4)) (ok (true, pos 2))).percent ≡ pos q)
    × (q ≤ 100)
    × (((progress_of (pos 9) (ok (pos 4)) (ok (true, pos 2))).is_complete ≡ true)
        ↔ ((◌≡◌ {A = ℕ} 4 0) × (true ≡ false)))
progress_bounds_example = progress_bounds 9 4 true (pos 2) (omega arith) (omega arith)

abbrev ticks : List DrainEvent
ticks =
    tick (pos 105) (ok (pos 4)) (ok (true, pos 1))
    ∷ tick (pos 110) (ok (pos 0)) (ok (false, pos 0))
    ∷ []

evaluate_indexer_feasibility-IsReady_example : IsReady server (codes "indexer-2") busy
unfolding evaluate_indexer_feasibility get_allocation_exclusion bytes_eq get_shard_count
evaluate_indexer_feasibility-IsReady_example =
    evaluate_indexer_feasibility-IsReady server (pos 5) (codes "indexer-2") busy refl
