-- ===== src/Indexer/Examples/Pools.antt =====
-- The results on the drain of node pools at concrete inputs.
use wazuh_operator.Common.{
  ◌≡◌, refl, ◌↔◌, List, [], ◌∷◌, ◌++◌, none, some, true, false, arith, ℤ, pos, Bytes, codes, ◌-ℤ◌,
  bytes_eq, wrap32, ◌+ℤ◌, add32,
}
use wazuh_operator.Kube.{Result, err}
use wazuh_operator.Drain.Status.{idle, verifying}
use wazuh_operator.NodePools.{IndexerNodePoolSpec, data_role, cluster_manager_role}
use wazuh_operator.Indexer.Server.{Replaces, ClusterHealth}
use wazuh_operator.Indexer.Exclusion.{pool_excludes_last}
use wazuh_operator.Indexer.Pool.{
  start_node_pool_drain, no_drain_result, is_scale_down, info_has_role,
  get_node_pool_scale_down_targets,
}
use wazuh_operator.Indexer.PoolCheck.{
  PoolEnv, go_on, crash, refuse, check_node_pool_scale_down_drain, targets_of,
  get_total_cluster_managers,
}
use wazuh_operator.Indexer.PoolCheck.Safety.{IsPoolDraining, MayGoOn, pool_update_needs_drain}
use wazuh_operator.Indexer.PoolCheck.Quorum.{managers_counted_twice}
use wazuh_operator.Indexer.PoolCheck.Shared.{pool_check_crash_iff, next_pool_undrained}
use wazuh_operator.Indexer.Examples.{World, server, world, shard_on, drains, in_phase, drainer}

server-Replaces : Replaces server
server-Replaces = record {
  excluded = λ w. w.excluded_name;
  after_put = λ name st st' h. ground arith;
}

abbrev pool : Bytes → List Bytes → ℤ → IndexerNodePoolSpec
pool name roles replicas = record {
  name = name;
  replicas = replicas;
  roles = roles;
  storage_size = codes "10Gi";
}

-- A check of a pool whose StatefulSet still asks for so many replicas.
abbrev check_of : IndexerNodePoolSpec → ℤ → PoolEnv
check_of p current = record {
  now = pos 100;
  cluster_name = codes "c";
  config = some drains;
  node_pools = p ∷ [];
  pool = p;
  current_replicas = current;
  client_error = none;
}

abbrev hot : PoolEnv
hot = check_of (pool (codes "hot") (data_role ∷ []) (pos 2)) (pos 3)

abbrev warm : PoolEnv
warm = check_of (pool (codes "warm") (data_role ∷ []) (pos 1)) (pos 2)

-- No shard on the pods of the pool hot, and one on the pod of the pool warm that is to go.
abbrev warm_busy : World
warm_busy = world (shard_on (codes "c-indexer-warm-1") ∷ [])

hot-IsPoolDraining : IsPoolDraining hot
unfolding is_scale_down info_has_role bytes_eq
hot-IsPoolDraining = record {
  enabled = refl;
  has_client = refl;
  scale_down = refl;
  has_data = refl;
}

warm-IsPoolDraining : IsPoolDraining warm
unfolding is_scale_down info_has_role bytes_eq
warm-IsPoolDraining = record {
  enabled = refl;
  has_client = refl;
  scale_down = refl;
  has_data = refl;
}

pool_update_needs_drain_example : MayGoOn server hot (in_phase verifying warm_busy)
unfolding check_node_pool_scale_down_drain bytes_eq get_node_pool_scale_down_targets ◌-ℤ◌
pool_update_needs_drain_example =
    pool_update_needs_drain server hot (in_phase verifying warm_busy) hot-IsPoolDraining refl

pool_check_crash_iff_example :
    ((check_node_pool_scale_down_drain server hot
        (in_phase idle (record warm_busy { healthy = false }))).1
      ≡ crash)
    ↔ ((e : Bytes) × (◌≡◌ {A = Result ClusterHealth}
          (server.cluster_health (record warm_busy { healthy = false }))
          (err e)))
pool_check_crash_iff_example =
    pool_check_crash_iff server hot (in_phase idle (record warm_busy { healthy = false }))
      hot-IsPoolDraining

next_pool_undrained_example :
    let first = (check_node_pool_scale_down_drain server hot (in_phase verifying warm_busy)).0 in
    ((check_node_pool_scale_down_drain server warm first).1 ≡ go_on)
    × ((check_node_pool_scale_down_drain server warm first).0.store ≡ first.store)
unfolding check_node_pool_scale_down_drain bytes_eq get_node_pool_scale_down_targets ◌-ℤ◌
next_pool_undrained_example =
    next_pool_undrained server hot warm (in_phase verifying warm_busy)
      (record no_drain_result { needs_drain = true; target_nodes = targets_of warm })
      hot-IsPoolDraining warm-IsPoolDraining refl refl refl refl

abbrev managers : PoolEnv
managers = check_of (pool (codes "m") (cluster_manager_role ∷ []) (pos 3)) (pos 4)

managers_counted_twice_example :
    ((reason : Bytes) × ((check_node_pool_scale_down_drain server managers
          (in_phase idle warm_busy)).1
        ≡ refuse reason))
    × ((check_node_pool_scale_down_drain server managers (in_phase idle warm_busy)).0.status
        ≡ (in_phase idle warm_busy).status)
    × ((check_node_pool_scale_down_drain server managers (in_phase idle warm_busy)).0.store
        ≡ warm_busy)
unfolding get_total_cluster_managers bytes_eq add32 wrap32 ◌+ℤ◌ info_has_role
managers_counted_twice_example =
    managers_counted_twice server managers (in_phase idle warm_busy) 3 4 3
      (record { status = codes "green"; number_of_data_nodes = pos 3; relocating_shards = pos 0 })
      (record {
        enabled = refl;
        has_client = refl;
        total = refl;
        current = refl;
        desired = refl;
        smaller = omega arith;
        small_total = omega arith;
        small_current = omega arith;
      })
      refl refl (omega arith)

pool_excludes_last_example :
    (start_node_pool_drain server
      ((codes "a" ∷ []) ++ (codes "b" ∷ []))
      drainer
      warm_busy).1.excluded_name
    ≡ some (codes "b")
unfolding start_node_pool_drain server-Replaces
pool_excludes_last_example =
    pool_excludes_last server server-Replaces (codes "a" ∷ []) (codes "b") drainer warm_busy refl
