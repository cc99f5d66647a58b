-- ===== src/Indexer/PoolCheck/Quorum.antt =====
-- The quorum of cluster managers in checkNodePoolScaleDownDrain: getTotalClusterManagers of
-- internal/opensearch/reconciler/indexer_reconciler.go and EvaluateNodePoolScaleDown of
-- internal/opensearch/drain/indexer_drain.go.
use wazuh_operator.Common.{
  ℕ, ◌+◌, ◌-◌, ◌<◌, ◌≤◌, ◌∙◌, ◌≡◌, refl, ap, inl, inr, none, some, true, false, Bool-cases, arith,
  ℤ, pos, ltb_ℤ, sub32, sub32_pos, bytes_eq, Bytes, codes, ◌++◌,
}
use wazuh_operator.Kube.{ok}
use wazuh_operator.NodePools.{cluster_manager_role}
use wazuh_operator.Indexer.Server.{Server, ClusterHealth}
use wazuh_operator.Indexer.Check.{IndexerState, indexer_drain_enabled, get_or_new_indexer_drainer}
use wazuh_operator.Indexer.Pool.{
  NodePoolScaleDownInfo, NodePoolDrainResult, no_drain_result, returned, is_scale_down,
  get_replicas_delta, info_has_data_role, info_has_manager_role, check_quorum, check_health, block,
  evaluate_node_pool_scale_down,
}
use wazuh_operator.Indexer.PoolCheck.{
  PoolEnv, refuse, get_total_cluster_managers, first_of, info_of, evaluated,
  check_node_pool_scale_down_drain,
}
use wazuh_operator.Indexer.PoolCheck.Safety.{not_coordinating, evaluate_data}

-- A pool whose replicas are to go from c to d, of a cluster whose pools with managers want t replicas.
pub record Shrinks (env : PoolEnv) (t c d : ℕ) : Type 0 where
  pub enabled : indexer_drain_enabled env.config ≡ true
  pub has_client : env.client_error ≡ none
  pub total : get_total_cluster_managers env.node_pools ≡ pos t
  pub current : env.current_replicas ≡ pos c
  pub desired : env.pool.replicas ≡ pos d
  pub smaller : d < c
  pub small_total : t < 2147483648
  pub small_current : c < 2147483648

delta_lem :
    (info : NodePoolScaleDownInfo) (c d : ℕ)
    → info.current_replicas ≡ pos c
    → info.desired_replicas ≡ pos d
    → d < c
    → c < 2147483648
    → (is_scale_down info ≡ true) × (get_replicas_delta info ≡ pos (c - d))
unfolding is_scale_down get_replicas_delta
delta_lem info c d hc hd l b =
    let e = sub32_pos c d b (omega arith) in
    (rw (hc, hd) (ground arith), rw (hc, hd, e) (ground arith))

-- Removing n managers from t is refused if fewer than three are left.
below_quorum :
    (t n : ℕ)
    → n ≤ t + 2147483647
    → t < 2147483648
    → n < 2147483648
    → t < 3 + n
    → ltb_ℤ (sub32 (pos t) (pos n)) (pos 3) ≡ true
below_quorum t n k bt bn q = rw (sub32_pos t n bt (omega arith)) (ground arith)

quorum_blocks :
    (info : NodePoolScaleDownInfo) (r : NodePoolDrainResult) (total n : ℤ)
    → info_has_manager_role info ≡ true
    → get_replicas_delta info ≡ n
    → ltb_ℤ (sub32 total n) (pos 3) ≡ true
    → (check_quorum info total r).feasible ≡ false
unfolding check_quorum block
quorum_blocks info r total n m e q = rw (m, e, q) refl

health_blocked :
    (health : ClusterHealth) (r : NodePoolDrainResult)
    → r.feasible ≡ false
    → (r' : NodePoolDrainResult) × (check_health (ok health) r ≡ returned r')
      × (r'.feasible ≡ false)
unfolding check_health block
health_blocked health r h = (_, refl, ground arith)

-- Where the health is answered, the verdict on the quorum is kept to the end.
evaluate_blocked :
    (info : NodePoolScaleDownInfo) (health : ClusterHealth) (total : ℤ)
    → is_scale_down info ≡ true
    → info_has_manager_role info ≡ true
    → (check_quorum info total no_drain_result).feasible ≡ false
    → (r : NodePoolDrainResult) × (evaluate_node_pool_scale_down (some (ok health)) info total
        ≡ returned r)
      × (r.feasible ≡ false)
unfolding evaluate_node_pool_scale_down bytes_eq
evaluate_blocked info health total h m q =
    let k = not_coordinating cluster_manager_role info refl m in
    elim (Bool-cases (info_has_data_role info)) [
      | inl d ↦
          let (r', e, f) =
            health_blocked health
              (record (check_quorum info total no_drain_result) {
                needs_drain = true;
                target_nodes = info.target_pod_names;
              })
              q in
          (r', evaluate_data info (ok health) total h d ∙ e, f)
      | inr d ↦ (
        record (check_quorum info total no_drain_result) {
          needs_drain = false;
          skip_reason = codes "NodePool does not have data role";
        },
        rw (h, k, d) refl,
        q,
      )
    ]

module _ (sv : Server) where
  open sv use {Store}

  evaluated_of :
      (env : PoolEnv) (st : IndexerState Store) (total : ℤ) (health : ClusterHealth)
      (r : NodePoolDrainResult)
      → get_total_cluster_managers env.node_pools ≡ total
      → sv.cluster_health st.store ≡ ok health
      → evaluate_node_pool_scale_down (some (ok health)) (info_of env) total ≡ returned r
      → evaluate_node_pool_scale_down
          (some (sv.cluster_health st.store))
          (info_of env)
          (get_total_cluster_managers env.node_pools)
        ≡ returned r
  evaluated_of env st total health r a b e = rw (a, b) e

  refused :
      (env : PoolEnv) (st : IndexerState Store) (r : NodePoolDrainResult)
      → indexer_drain_enabled env.config ≡ true
      → env.client_error ≡ none
      → r.feasible ≡ false
      → evaluate_node_pool_scale_down
          (some (sv.cluster_health st.store))
          (info_of env)
          (get_total_cluster_managers env.node_pools)
        ≡ returned r
      → check_node_pool_scale_down_drain sv env st ≡ (
        record st { drainer = some (get_or_new_indexer_drainer env.config st.drainer) },
        refuse (codes "scale-down blocked: " ++ first_of r.blockers),
      )
  unfolding check_node_pool_scale_down_drain evaluated
  refused env st r a b f e = ground (arith, a, b, f, e)

  -- A pool of cluster managers may not go from c to d replicas if the pools with managers want t
  -- replicas in all, as they are after the change, and t - (c - d) is below three: the check refuses
  -- it, leaves the drain's status and sends the server nothing.
  pub managers_counted_twice :
      (env : PoolEnv) (st : IndexerState Store) (t c d : ℕ) (health : ClusterHealth)
      → Shrinks env t c d
      → info_has_manager_role (info_of env) ≡ true
      → sv.cluster_health st.store ≡ ok health
      → t + d < 3 + c
      → ((reason : Bytes) × ((check_node_pool_scale_down_drain sv env st).1 ≡ refuse reason))
        × ((check_node_pool_scale_down_drain sv env st).0.status ≡ st.status)
        × ((check_node_pool_scale_down_drain sv env st).0.store ≡ st.store)
  managers_counted_twice env st t c d health h m a q =
      let (down, delta) =
        delta_lem (info_of env) c d h.current h.desired h.smaller h.small_current in
      let blocked = quorum_blocks (info_of env) no_drain_result (pos t) (pos (c - d)) m delta (
        below_quorum t (c - d) (omega (arith, h.small_current)) h.small_total
          (omega (arith, h.small_current)) (omega (arith, h.smaller))) in
      let (r, e, f) = evaluate_blocked (info_of env) health (pos t) down m blocked in
      let opened =
        refused env st r h.enabled h.has_client f
          (evaluated_of env st (pos t) health r h.total a e) in
      (
        (codes "scale-down blocked: " ++ first_of r.blockers, ap (λ x. x.1) opened),
        ap (λ x. x.0.status) opened,
        ap (λ x. x.0.store) opened,
      )
