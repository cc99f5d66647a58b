-- ===== src/Indexer/Pool.antt =====
-- The drain of several nodes of a node pool (internal/opensearch/drain/indexer_drain.go, from
-- NodePoolScaleDownInfo on), and the names of a pool's pods (pkg/constants/names.go).
use wazuh_operator.Common.{
  ℕ, zero, suc, List, [], ◌∷◌, ◌++◌, Option, none, some, Bool, true, false, not, ◌&&◌,
  if◌then◌else◌, any, all, ℤ, pos, pos_part, ◌+ℤ◌, ◌-ℤ◌, ltb_ℤ, leb_ℤ, eqb_ℤ, add32, sub32,
  to_int32, Bytes, codes, bytes_eq, show_ℤ, length,
}
use wazuh_operator.Kube.{Result, ok, err}
use wazuh_operator.Drain.Status.{GoError}
use wazuh_operator.NodePools.{data_role, cluster_manager_role, min_cluster_manager_nodes}
use wazuh_operator.Indexer.Server.{
  Server, ClusterHealth, get_shard_count, has_relocating_shards, set_allocation_exclusion,
}
use wazuh_operator.Indexer.Drainer.{
  DrainProgress, no_progress, IndexerDrainer, moved_percent, verify_complete,
}

pub record NodePoolScaleDownInfo : Type 0 where
  pub pool_name : Bytes
  pub roles : List Bytes
  pub current_replicas : ℤ
  pub desired_replicas : ℤ
  pub target_pod_names : List Bytes

unfoldable pub is_scale_down : NodePoolScaleDownInfo → Bool
is_scale_down info = ltb_ℤ info.desired_replicas info.current_replicas

unfoldable pub get_replicas_delta : NodePoolScaleDownInfo → ℤ
unfolding is_scale_down
get_replicas_delta info =
    if not (is_scale_down info) then pos 0 else sub32 info.current_replicas info.desired_replicas

unfoldable pub info_has_role : Bytes → NodePoolScaleDownInfo → Bool
info_has_role role info = any (λ r. bytes_eq r role) info.roles

-- HasDataRole and HasClusterManagerRole
abbrev pub info_has_data_role : NodePoolScaleDownInfo → Bool
info_has_data_role info = info_has_role data_role info

abbrev pub info_has_manager_role : NodePoolScaleDownInfo → Bool
info_has_manager_role info = info_has_role cluster_manager_role info

-- IsCoordinatingOnly: the loop leaves at the first other role.
unfoldable pub is_coordinating_only : NodePoolScaleDownInfo → Bool
is_coordinating_only info = all (λ r. bytes_eq r (codes "coordinating_only")) info.roles

pub record NodePoolDrainResult : Type 0 where
  pub needs_drain : Bool
  pub skip_reason : Bytes
  pub feasible : Bool
  pub blockers : List Bytes
  pub warnings : List Bytes
  pub target_nodes : List Bytes

abbrev pub no_drain_result : NodePoolDrainResult
no_drain_result = record {
  needs_drain = false;
  skip_reason = codes "";
  feasible = true;
  blockers = [];
  warnings = [];
  target_nodes = [];
}

-- A call that returns, or panics.
pub data Outcome {ℓ} (A : Type ℓ) : Type ℓ where
  returned : A → Outcome A
  panicked : Outcome A

unfoldable pub block : Bytes → NodePoolDrainResult → NodePoolDrainResult
block reason r = record r { feasible = false; blockers = r.blockers ++ (reason ∷ []) }

-- The check of the quorum of cluster managers.
unfoldable pub check_quorum : NodePoolScaleDownInfo → ℤ → NodePoolDrainResult → NodePoolDrainResult
unfolding info_has_role get_replicas_delta block
check_quorum info total r =
    let after = sub32 total (get_replicas_delta info) in
    if info_has_manager_role info
    then if ltb_ℤ after min_cluster_manager_nodes
      then block
          (codes "Scale-down would reduce cluster_manager nodes from "
            ++ (show_ℤ total
                ++ (codes " to "
                    ++ (show_ℤ after
                        ++ (codes ", below minimum quorum of "
                            ++ show_ℤ min_cluster_manager_nodes)))))
          r
      else r
    else r

-- The check of the cluster's health; an answer that is an error leaves `health` nil, whose field is
-- then read.
unfoldable pub check_health :
    Result ClusterHealth → NodePoolDrainResult → Outcome NodePoolDrainResult
unfolding block
check_health (err e) r = panicked
check_health (ok health) r =
    let r1 =
      if not (bytes_eq health.status (codes "green"))
      then block
          (codes "Cluster health is " ++ (health.status ++ codes ", must be green before drain")) r
      else r in
    returned (
      if ltb_ℤ health.number_of_data_nodes (pos 2)
      then block (codes "Cannot drain: only one data node in cluster") r1
      else r1)

-- EvaluateNodePoolScaleDown, at the answer to the request for the cluster's health (`none` where the
-- drainer has no client). Its error is always nil.
unfoldable pub evaluate_node_pool_scale_down :
    Option (Result ClusterHealth) → NodePoolScaleDownInfo → ℤ → Outcome NodePoolDrainResult
unfolding is_scale_down is_coordinating_only check_quorum info_has_role check_health
evaluate_node_pool_scale_down health info total =
    let r1 = check_quorum info total no_drain_result in
    let r2 = record r1 { needs_drain = true; target_nodes = info.target_pod_names } in
    if not (is_scale_down info)
    then returned (record no_drain_result { skip_reason = codes "Not a scale-down operation" })
    else if is_coordinating_only info
    then returned (record no_drain_result {
      skip_reason = codes "Coordinating-only nodes do not hold shards";
    })
    else if info_has_data_role info
    then elim health [ none ↦ returned r2 | some answer ↦ check_health answer r2 ]
    else returned
        (record r1 { needs_drain = false; skip_reason = codes "NodePool does not have data role" })

unfoldable pub indexer_node_pool_name : Bytes → Bytes → Bytes
indexer_node_pool_name cluster pool = cluster ++ (codes "-indexer-" ++ pool)

unfoldable pub indexer_node_pool_pod_name : Bytes → Bytes → ℤ → Bytes
unfolding indexer_node_pool_name
indexer_node_pool_pod_name cluster pool ordinal =
    indexer_node_pool_name cluster pool ++ (codes "-" ++ show_ℤ ordinal)

-- The loop of GetNodePoolScaleDownTargets from an ordinal on, for so many pods.
unfoldable pub names_from : Bytes → Bytes → ℤ → ℕ → List Bytes
unfolding indexer_node_pool_pod_name
names_from cluster pool i zero = []
names_from cluster pool i (suc n) =
    indexer_node_pool_pod_name cluster pool i ∷ names_from cluster pool (i +ℤ pos 1) n

unfoldable pub get_node_pool_scale_down_targets : Bytes → Bytes → ℤ → ℤ → List Bytes
unfolding names_from
get_node_pool_scale_down_targets cluster pool current desired =
    if leb_ℤ current desired
    then []
    else names_from cluster pool desired (pos_part (current -ℤ desired))

module _ (sv : Server) where
  open sv use {Store}

  -- The sum of the shards on the nodes, in int32; a node whose count is not answered adds nothing.
  unfoldable pub total_shards : List Bytes → ℤ → Store → ℤ
  unfolding get_shard_count
  total_shards [] total st = total
  total_shards (node ∷ nodes) total st = elim (get_shard_count sv node st) [
    | err e ↦ total_shards nodes total st
    | ok count ↦ total_shards nodes (add32 total (to_int32 count)) st
  ]

  -- The loop of StartNodePoolDrain over SetAllocationExclusion.
  unfoldable pub exclude_all : List Bytes → Store → Store × Option GoError
  unfolding set_allocation_exclusion
  exclude_all [] st = (st, none)
  exclude_all (node ∷ nodes) st = elim (set_allocation_exclusion sv node st) [
    | err e ↦
        (st, some (codes "failed to set allocation exclusion for " ++ (node ++ (codes ": " ++ e))))
    | ok st' ↦ exclude_all nodes st'
  ]

  unfoldable pub start_node_pool_drain :
      List Bytes → IndexerDrainer → Store → IndexerDrainer × Store × Option GoError
  unfolding total_shards exclude_all
  start_node_pool_drain [] d st = (d, st, none)
  start_node_pool_drain (node ∷ nodes) d st =
      let (st', e) = exclude_all (node ∷ nodes) st in
      (record d { initial_shard_count = total_shards (node ∷ nodes) (pos 0) st }, st', e)

  -- MonitorNodePoolDrainProgress; its error is that of the progress.
  unfoldable pub monitor_node_pool_drain_progress :
      List Bytes → IndexerDrainer → Store → DrainProgress
  unfolding total_shards moved_percent
  monitor_node_pool_drain_progress [] d st = record no_progress {
    is_complete = true;
    percent = pos 100;
    message = codes "No nodes to drain";
  }
  monitor_node_pool_drain_progress (node ∷ nodes) d st =
      let total = total_shards (node ∷ nodes) (pos 0) st in
      let count = show_ℤ (pos (length (node ∷ nodes))) in
      elim (has_relocating_shards sv st) [
        | err e ↦ record no_progress {
          shards_remaining = total;
          error = some (codes "failed to check relocating shards: " ++ e);
        }
        | ok (some_move, moving) ↦
            let p = record no_progress {
              shards_remaining = total;
              shards_relocating = to_int32 moving;
              percent = moved_percent d.initial_shard_count total;
            } in
            if eqb_ℤ total (pos 0) && not some_move
            then record p {
              is_complete = true;
              percent = pos 100;
              message = codes "All shards relocated from " ++ (count ++ codes " nodes");
            }
            else if some_move
            then record p {
              message =
                  codes "Relocating shards: "
                  ++ (show_ℤ total
                      ++ (codes " remaining on nodes, "
                          ++ (show_ℤ moving ++ codes " currently relocating")));
            }
            else record p {
              message =
                  codes "Waiting for shard relocation: "
                  ++ (show_ℤ total
                      ++ (codes " shards remaining across " ++ (count ++ codes " nodes")));
            }
      ]

  unfoldable pub verify_node_pool_drain_complete : List Bytes → Store → Result Bool
  unfolding verify_complete has_relocating_shards
  verify_node_pool_drain_complete [] st = elim (has_relocating_shards sv st) [
    | err e ↦ err (codes "failed to check relocating shards: " ++ e)
    | ok (some_move, _) ↦ ok (not some_move)
  ]
  verify_node_pool_drain_complete (node ∷ nodes) st =
      let rest = verify_node_pool_drain_complete nodes st in
      elim (verify_complete sv node st) [
        | err e ↦ err e
        | ok done ↦ if not done then ok false else rest
      ]
