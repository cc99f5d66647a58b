-- ===== src/NodePools/Examples.antt =====
-- The results on node pools at concrete inputs.
use wazuh_operator.Common.{
  ◌+◌, ◌<◌, ◌≡◌, ◌↔◌, [], ◌∷◌, true, false, ◌&&◌, ◌||◌, ◌==◌, leb_ℤ, arith, pos, codes, length,
}
use wazuh_operator.NodePools.{
  IndexerNodePoolSpec, WazuhIndexerClusterSpec, cluster_manager_role, data_role,
  has_cluster_manager_role, validate_node_pools, validate_scale_down,
}
use wazuh_operator.NodePools.Accepted.{pools_fit, validate_node_pools_lem, validate_scale_down_lem}

abbrev managers : IndexerNodePoolSpec
managers = record {
  name = codes "managers";
  replicas = pos 3;
  roles = cluster_manager_role ∷ [];
  storage_size = codes "";
}

abbrev hot : IndexerNodePoolSpec
hot = record {
  name = codes "data-hot";
  replicas = pos 2;
  roles = data_role ∷ [];
  storage_size = codes "50Gi";
}

abbrev two_pools : WazuhIndexerClusterSpec
two_pools = record { replicas = pos 0; node_pools = managers ∷ hot ∷ [] }

validate_node_pools_lem_example :
    (validate_node_pools two_pools).valid
    ≡ (length two_pools.node_pools == 0)
      || (leb_ℤ two_pools.replicas (pos 0) && pools_fit two_pools.node_pools)
validate_node_pools_lem_example = validate_node_pools_lem two_pools

-- Two of three managers are not enough.
validate_scale_down_lem_example :
    ((validate_scale_down managers (pos 3) (pos 2) (pos 3)).valid ≡ false)
    ↔ ((2 < 3) × (has_cluster_manager_role managers ≡ true) × (3 + 2 < 3 + 3))
validate_scale_down_lem_example =
    validate_scale_down_lem managers 3 2 3 (omega arith) (omega arith) (omega arith) (omega arith)
