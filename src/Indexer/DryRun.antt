-- ===== src/Indexer/DryRun.antt =====
-- The dry run of the indexer's drain, EvaluateFeasibility of internal/opensearch/drain/indexer_drain.go.
pub mod Ready
use wazuh_operator.Common.{
  ◌≡◌, refl, ◌≢◌, List, [], ◌∷◌, ◌++◌, Option, none, some, Bool, true, false, ◌&&◌, not,
  if◌then◌else◌, Bool-cases, arith, ℤ, pos, ltb_ℤ, eqb_ℤ, mul64, Bytes, codes, bytes_eq, Time,
  Duration, second,
}
use wazuh_operator.Kube.{Result, ok, err, Result-cases}
use wazuh_operator.Drain.Rollback.{drain_component_indexer}
use wazuh_operator.Drain.DryRun.{DryRunResult, new_dry_run, dry_block, dry_warn}
use wazuh_operator.Drain.DryRun.Feasible.{IsConsistent, dry_block-IsConsistent, if-IsConsistent}
use wazuh_operator.Indexer.Server.{Server, ClusterHealth, get_shard_count, get_allocation_exclusion}

unfoldable pub check_cluster : ClusterHealth → DryRunResult → DryRunResult
unfolding dry_block
check_cluster health r =
    let r1 =
      if not (bytes_eq health.status (codes "green"))
      then dry_block
          (codes "Cluster health is " ++ (health.status ++ codes ", must be green before drain")) r
      else r in
    if ltb_ℤ health.number_of_data_nodes (pos 2)
    then dry_block (codes "Cannot drain: only one data node in cluster") r1
    else r1

unfoldable pub check_shards : Bytes → Result ℤ → DryRunResult → DryRunResult
unfolding dry_warn
check_shards node (err e) r =
    dry_warn (codes "Cannot determine shard count on " ++ (node ++ (codes ": " ++ e))) r
check_shards node (ok n) r =
    if eqb_ℤ n (pos 0)
    then dry_warn (codes "Node " ++ (node ++ codes " has no shards to relocate")) r
    else r

unfoldable pub check_exclusion : Bytes → Result Bytes → DryRunResult → DryRunResult
unfolding dry_block dry_warn
check_exclusion node (err e) r =
    dry_warn (codes "Cannot check existing allocation exclusion: " ++ e) r
check_exclusion node (ok name) r =
    if not (bytes_eq name (codes "")) && not (bytes_eq name node)
    then dry_block
        (codes "Another node (" ++ (name ++ codes ") is already excluded from allocation")) r
    else r

-- The estimate, at a count that is 0 where it was not answered.
unfoldable pub estimate_shards : Result ℤ → Duration
estimate_shards (err e) = mul64 (pos 30) second
estimate_shards (ok n) =
    let rough = mul64 n (pos 30) in
    if ltb_ℤ (pos 0) n
    then mul64 (if ltb_ℤ rough (pos 60) then pos 60 else rough) second
    else mul64 (pos 30) second

-- EvaluateFeasibility at the answers to its three requests, of which it makes the last two only where
-- the first is answered.
unfoldable pub feasibility_of :
    Time → Bytes → Result ClusterHealth → Result ℤ → Result Bytes → DryRunResult
unfolding dry_block check_cluster check_shards check_exclusion estimate_shards
feasibility_of now node (err e) count exclusion =
    dry_block (codes "Cannot check cluster health: " ++ e) (new_dry_run now drain_component_indexer)
feasibility_of now node (ok health) count exclusion =
    record (check_exclusion node exclusion
      (check_shards node count (check_cluster health (new_dry_run now drain_component_indexer)))) {
        estimated_duration = some (estimate_shards count);
      }

unfoldable pub evaluate_indexer_feasibility : (sv : Server) → Time → Bytes → sv.Store → DryRunResult
unfolding feasibility_of
evaluate_indexer_feasibility sv now node st =
    feasibility_of now node (sv.cluster_health st) (get_shard_count sv node st)
      (get_allocation_exclusion sv st)
