-- ===== src/Indexer/PoolCheck/Safety.antt =====
-- When checkNodePoolScaleDownDrain (internal/opensearch/reconciler/indexer_reconciler.go) lets the
-- replicas of a node pool go down.
use wazuh_operator.Common.{
  ◌≡◌, refl, ◌⊎◌, inl, inr, List, [], ◌∷◌, none, some, true, false, Bool-cases, arith, ℤ, ℕ, zero,
  suc, pos, pos_part, ◌+ℤ◌, ◌-ℤ◌, ◌≤ℤ◌, ◌<ℤ◌, leb_ℤ, eqb_ℤ, eqb_ℤ_iff, +ℤ_parts, -ℤ_parts, subst,
  any, all, All, Bytes, codes, bytes_eq, bytes_eq→eq,
}
use wazuh_operator.Kube.{Result, ok, err, Result-cases}
use wazuh_operator.Drain.Status.{
  DrainPhase, unset, idle, pending, draining, verifying, complete, failed, rolling_back,
  ComponentDrainStatus,
}
use wazuh_operator.Drain.Worker.{get_or_init_drain_status}
use wazuh_operator.NodePools.{data_role}
use wazuh_operator.Indexer.Server.{Server, ClusterHealth}
use wazuh_operator.Indexer.Drainer.{IndexerDrainer, verify_complete}
use wazuh_operator.Indexer.Check.{IndexerState, indexer_drain_enabled, get_or_new_indexer_drainer}
use wazuh_operator.Indexer.Gate.{IsEvacuated, verify_complete-IsEvacuated}
use wazuh_operator.Indexer.Rounds.{phase_of}
use wazuh_operator.Indexer.Pool.{
  NodePoolScaleDownInfo, NodePoolDrainResult, no_drain_result, Outcome, returned, panicked,
  indexer_node_pool_pod_name, names_from, get_node_pool_scale_down_targets, is_scale_down,
  info_has_role, info_has_data_role, is_coordinating_only, check_quorum, check_health, block,
  evaluate_node_pool_scale_down, verify_node_pool_drain_complete,
}
use wazuh_operator.Indexer.PoolCheck.{
  PoolEnv, go_on, get_total_cluster_managers, targets_of, info_of, start_pool, monitor_pool,
  verify_pool, pool_phase, evaluated, check_node_pool_scale_down_drain,
}

-- A pool whose scale-down is to be drained: it holds data, draining is enabled, and the client exists.
pub record IsPoolDraining (env : PoolEnv) : Type 0 where
  pub enabled : indexer_drain_enabled env.config ≡ true
  pub has_client : env.client_error ≡ none
  pub scale_down : is_scale_down (info_of env) ≡ true
  pub has_data : info_has_data_role (info_of env) ≡ true

-- A pool with another role than coordinating_only is not coordinating-only.
pub not_coordinating :
    (role : Bytes) (info : NodePoolScaleDownInfo)
    → bytes_eq role (codes "coordinating_only") ≡ false
    → info_has_role role info ≡ true
    → is_coordinating_only info ≡ false
unfolding is_coordinating_only info_has_role
not_coordinating role info k h = go info.roles h
  where
    go :
        (rs : List Bytes)
        → any (λ r. bytes_eq r role) rs ≡ true
        → all (λ r. bytes_eq r (codes "coordinating_only")) rs ≡ false
    go [] h = absurd (ground arith)
    go (r ∷ rs) h = elim (Bool-cases (bytes_eq r role)) [
      | inl q ↦
          let c : bytes_eq r (codes "coordinating_only") ≡ false = rw (bytes_eq→eq r role q) k in
          rw c refl
      | inr q ↦ ground (arith, q, go rs)
    ]

-- The evaluation of a pool with the data role ends in the check of the cluster's health.
pub evaluate_data :
    (info : NodePoolScaleDownInfo) (answer : Result ClusterHealth) (total : ℤ)
    → is_scale_down info ≡ true
    → info_has_data_role info ≡ true
    → evaluate_node_pool_scale_down (some answer) info total
      ≡ check_health answer (record (check_quorum info total no_drain_result) {
        needs_drain = true;
        target_nodes = info.target_pod_names;
      })
unfolding evaluate_node_pool_scale_down bytes_eq
evaluate_data info answer total h k = rw (h, not_coordinating data_role info refl k, k) refl

pub health_keeps :
    (answer : Result ClusterHealth) (r r' : NodePoolDrainResult)
    → check_health answer r ≡ returned r'
    → r'.needs_drain ≡ r.needs_drain
unfolding check_health block
health_keeps (err e) r r' h = absurd (ground arith)
health_keeps (ok health) r r' h = ground arith

-- What holds of all names from an ordinal on holds of the pod of each ordinal among them.
names_from-each :
    (P : Bytes → Type 0) (cluster pool : Bytes) (n : ℕ) (i k : ℤ)
    → All P (names_from cluster pool i n)
    → i ≤ℤ k
    → k <ℤ i +ℤ pos n
    → P (indexer_node_pool_pod_name cluster pool k)
unfolding names_from
names_from-each P cluster pool zero i k h low high =
    absurd (ground (arith, +ℤ_parts i (pos zero), low, high))
names_from-each P cluster pool (suc n) i k (h, hs) low high = elim (Bool-cases (eqb_ℤ i k)) [
  | inl here ↦ subst (λ o. P (indexer_node_pool_pod_name cluster pool o)) ((eqb_ℤ_iff i k).0 here) h
  | inr behind ↦
      let sum = +ℤ_parts i (pos (suc n)) in
      let next_one = +ℤ_parts i (pos 1) in
      let sum' = +ℤ_parts (i +ℤ pos 1) (pos n) in
      names_from-each P cluster pool n (i +ℤ pos 1) k hs (ground arith) (ground arith)
]

targets-each :
    (P : Bytes → Type 0) (cluster pool : Bytes) (current desired k : ℤ)
    → All P (get_node_pool_scale_down_targets cluster pool current desired)
    → desired ≤ℤ k
    → k <ℤ current
    → P (indexer_node_pool_pod_name cluster pool k)
unfolding get_node_pool_scale_down_targets
targets-each P cluster pool current desired k h low high =
    elim (Bool-cases (leb_ℤ current desired)) [
      | inl none_go ↦ absurd (ground arith)
      | inr some_go ↦
          let count = pos_part (current -ℤ desired) in
          let names : All P (names_from cluster pool desired count) =
            rw (some_go, get_node_pool_scale_down_targets) at h in
          let diff = -ℤ_parts current desired in
          let sum = +ℤ_parts desired (pos count) in
          names_from-each P cluster pool count desired k names low (ground arith)
    ]

module _ (sv : Server) where
  open sv use {Store}

  -- Every pod of the pool from the ordinal of the wanted replicas up to the one below the current
  -- replicas is evacuated: these are the pods that the StatefulSet controller removes.
  pub record PodsEvacuated (env : PoolEnv) (st : Store) : Type 0 where
    pub each :
        (k : ℤ)
        → env.pool.replicas ≤ℤ k
        → k <ℤ env.current_replicas
        → IsEvacuated sv (indexer_node_pool_pod_name env.cluster_name env.pool.name k) st

  verify_nodes-IsEvacuated :
      (nodes : List Bytes) (st : Store)
      → verify_node_pool_drain_complete sv nodes st ≡ ok true
      → All (λ n. IsEvacuated sv n st) nodes
  unfolding verify_node_pool_drain_complete
  verify_nodes-IsEvacuated [] st h = tt
  verify_nodes-IsEvacuated (node ∷ nodes) st h = elim (Result-cases (verify_complete sv node st)) [
    | inr (e, p) ↦ absurd (ground (arith, p))
    | inl (false, p) ↦ absurd (ground (arith, p))
    | inl (true, p) ↦ (
      verify_complete-IsEvacuated sv node st p,
      verify_nodes-IsEvacuated nodes st (ground (arith, p)),
    )
  ]

  -- On what ground a check goes on with the scale-down of such a pool.
  abbrev pub MayGoOn : PoolEnv → IndexerState Store → Type 0
  MayGoOn env st =
      (phase_of sv st ≡ complete)
      ⊎ ((phase_of sv st ≡ pending) ⊎ (phase_of sv st ≡ rolling_back))
      ⊎ ((phase_of sv st ≡ verifying) × PodsEvacuated env st.store)

  phase_goes_on :
      (p : DrainPhase) (env : PoolEnv) (d : IndexerDrainer) (s : ComponentDrainStatus) (st : Store)
      → (pool_phase sv p env d s st).1 ≡ go_on
      → (p ≡ complete)
        ⊎ ((p ≡ pending) ⊎ (p ≡ rolling_back))
        ⊎ ((p ≡ verifying) × PodsEvacuated env st)
  unfolding pool_phase start_pool monitor_pool verify_pool
  phase_goes_on complete env d s st h = inl refl
  phase_goes_on pending env d s st h = inr (inl (inl refl))
  phase_goes_on rolling_back env d s st h = inr (inl (inr refl))
  phase_goes_on idle env d s st h = absurd (ground arith)
  phase_goes_on unset env d s st h = absurd (ground arith)
  phase_goes_on failed env d s st h = absurd (ground arith)
  phase_goes_on draining env d s st h = absurd (ground arith)
  phase_goes_on verifying env d s st h =
      elim (Result-cases (verify_node_pool_drain_complete sv (targets_of env) st)) [
        | inr (e, p) ↦ absurd (ground (arith, p))
        | inl (false, p) ↦ absurd (ground (arith, p))
        | inl (true, p) ↦
            let each =
              targets-each (λ n. IsEvacuated sv n st) env.cluster_name env.pool.name
                env.current_replicas env.pool.replicas in
            inr (
              inr (
                refl,
                record { each = λ k. each k (verify_nodes-IsEvacuated (targets_of env) st p) },
              ))
      ]

  pool_goes_on :
      (o : Outcome NodePoolDrainResult) (env : PoolEnv) (d : IndexerDrainer)
      (st : IndexerState Store)
      → ((r : NodePoolDrainResult) → o ≡ returned r → r.needs_drain ≡ true)
      → (evaluated sv o env d st).1 ≡ go_on
      → MayGoOn env st
  unfolding evaluated
  pool_goes_on panicked env d st n h = absurd (ground arith)
  pool_goes_on (returned r) env d st n h =
      phase_goes_on (phase_of sv st) env d (get_or_init_drain_status st.status) st.store
        (ground (arith, n r refl))

  pub opened_check :
      (env : PoolEnv) (st : IndexerState Store)
      → IsPoolDraining env
      → check_node_pool_scale_down_drain sv env st
        ≡ evaluated sv
            (check_health
              (sv.cluster_health st.store)
              (record (check_quorum
                (info_of env)
                (get_total_cluster_managers env.node_pools)
                no_drain_result) { needs_drain = true; target_nodes = targets_of env }))
            env
            (get_or_new_indexer_drainer env.config st.drainer)
            st
  unfolding check_node_pool_scale_down_drain
  opened_check env st h =
      let e =
        evaluate_data (info_of env) (sv.cluster_health st.store)
          (get_total_cluster_managers env.node_pools) h.scale_down h.has_data in
      ground (arith, h.enabled, h.has_client, e)

  -- The check lets the replicas of a pool that holds data go down, with draining enabled and the client
  -- there, only if the stored drain is Complete, or is being verified with no shard left on any of the
  -- pods to go, those of the ordinals from the wanted replicas up to below the current ones, or is in
  -- one of the phases Pending and RollingBack that the check does not know.
  pub pool_update_needs_drain :
      (env : PoolEnv) (st : IndexerState Store)
      → IsPoolDraining env
      → (check_node_pool_scale_down_drain sv env st).1 ≡ go_on
      → MayGoOn env st
  pool_update_needs_drain env st h k =
      pool_goes_on _ env (get_or_new_indexer_drainer env.config st.drainer) st
        (λ r e. health_keeps (sv.cluster_health st.store) _ r e) (rw (opened_check env st h) at k)
