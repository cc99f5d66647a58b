-- ===== src/Indexer/PoolCheck/Shared.antt =====
-- The one drain status that all node pools share in checkNodePoolScaleDownDrain
-- (internal/opensearch/reconciler/indexer_reconciler.go), and the crash at an unanswered health request.
use wazuh_operator.Common.{
  ◌≡◌, refl, ap, ◌∙◌, ◌↔◌, inl, inr, true, false, Bool-cases, Option-cases, arith, Bytes,
}
use wazuh_operator.Kube.{Result, ok, err, Result-cases}
use wazuh_operator.Drain.Status.{
  DrainPhase, unset, idle, pending, draining, verifying, complete, failed, rolling_back,
  ComponentDrainStatus,
}
use wazuh_operator.Drain.Worker.{get_or_init_drain_status}
use wazuh_operator.Indexer.Server.{Server, ClusterHealth}
use wazuh_operator.Indexer.Drainer.{IndexerDrainer}
use wazuh_operator.Indexer.Check.{IndexerState, get_or_new_indexer_drainer}
use wazuh_operator.Indexer.Rounds.{phase_of}
use wazuh_operator.Indexer.Pool.{
  NodePoolDrainResult, no_drain_result, Outcome, returned, panicked, check_quorum, check_health,
  start_node_pool_drain, verify_node_pool_drain_complete,
}
use wazuh_operator.Indexer.PoolCheck.{
  PoolEnv, go_on, crash, get_total_cluster_managers, targets_of, info_of, verify_pool, pool_phase,
  start_pool, monitor_pool, evaluated, check_node_pool_scale_down_drain,
}
use wazuh_operator.Indexer.PoolCheck.Safety.{IsPoolDraining, opened_check, health_keeps}

module _ (sv : Server) where
  open sv use {Store}

  -- The outcome of the evaluation in a check of a pool to be drained.
  abbrev pub evaluation : PoolEnv → Store → Outcome NodePoolDrainResult
  evaluation env st =
      check_health (sv.cluster_health st)
        (record (check_quorum (info_of env) (get_total_cluster_managers env.node_pools)
          no_drain_result) { needs_drain = true; target_nodes = targets_of env })

  phase_crash :
      (p : DrainPhase) (env : PoolEnv) (d : IndexerDrainer) (s : ComponentDrainStatus) (st : Store)
      → (pool_phase sv p env d s st).1 ≡ crash
      → ⊥
  unfolding pool_phase start_pool monitor_pool verify_pool
  phase_crash idle env d s st h =
      elim (Option-cases (start_node_pool_drain sv (targets_of env) d st).2) [
        | inl p ↦ ground (arith, p)
        | inr (e, p) ↦ ground (arith, p)
      ]
  phase_crash unset env d s st h =
      elim (Option-cases (start_node_pool_drain sv (targets_of env) d st).2) [
        | inl p ↦ ground (arith, p)
        | inr (e, p) ↦ ground (arith, p)
      ]
  phase_crash pending env d s st h = ground arith
  phase_crash rolling_back env d s st h = ground arith
  phase_crash failed env d s st h = ground arith
  phase_crash complete env d s st h = ground arith
  phase_crash draining env d s st h = ground arith
  phase_crash verifying env d s st h =
      elim (Result-cases (verify_node_pool_drain_complete sv (targets_of env) st)) [
        | inr (e, p) ↦ ground (arith, p)
        | inl (false, p) ↦ ground (arith, p)
        | inl (true, p) ↦ ground (arith, p)
      ]

  evaluated_crash :
      (o : Outcome NodePoolDrainResult) (env : PoolEnv) (d : IndexerDrainer)
      (st : IndexerState Store)
      → (evaluated sv o env d st).1 ≡ crash
      → o ≡ panicked
  unfolding evaluated
  evaluated_crash panicked env d st h = refl
  evaluated_crash (returned r) env d st h = elim (Bool-cases r.feasible) [
    | inr f ↦ absurd (ground (arith, f))
    | inl f ↦ elim (Bool-cases r.needs_drain) [
      | inr n ↦ absurd (ground (arith, f, n))
      | inl n ↦ absurd (
          phase_crash (phase_of sv st) env d (get_or_init_drain_status st.status) st.store
            (ground (arith, f, n)))
    ]
  ]

  health_crash :
      (answer : Result ClusterHealth) (r : NodePoolDrainResult)
      → check_health answer r ≡ panicked
      → (e : Bytes) × (answer ≡ err e)
  unfolding check_health
  health_crash (err e) r h = (e, refl)
  health_crash (ok a) r h = absurd (ground arith)

  -- The check of a pool to be drained panics exactly if the server does not answer the request for the
  -- cluster's health.
  pub pool_check_crash_iff :
      (env : PoolEnv) (st : IndexerState Store)
      → IsPoolDraining env
      → ((check_node_pool_scale_down_drain sv env st).1 ≡ crash)
        ↔ ((e : Bytes) × (sv.cluster_health st.store ≡ err e))
  unfolding evaluated check_health
  pool_check_crash_iff env st h =
      let opened = opened_check sv env st h in
      (
        λ c. health_crash (sv.cluster_health st.store) _ (
            evaluated_crash _ env (get_or_new_indexer_drainer env.config st.drainer) st
              (rw opened at c)),
        λ (e, p). ground (arith, opened, p),
      )

  verified_complete :
      (env : PoolEnv) (d : IndexerDrainer) (s : ComponentDrainStatus) (st : Store)
      → (pool_phase sv verifying env d s st).1 ≡ go_on
      → phase_of sv (pool_phase sv verifying env d s st).0 ≡ complete
  unfolding pool_phase verify_pool
  verified_complete env d s st h =
      elim (Result-cases (verify_node_pool_drain_complete sv (targets_of env) st)) [
        | inr (e, p) ↦ absurd (ground (arith, p))
        | inl (false, p) ↦ absurd (ground (arith, p))
        | inl (true, p) ↦ ground (arith, p)
      ]

  evaluated_verified :
      (o : Outcome NodePoolDrainResult) (env : PoolEnv) (d : IndexerDrainer)
      (st : IndexerState Store)
      → ((r : NodePoolDrainResult) → o ≡ returned r → r.needs_drain ≡ true)
      → phase_of sv st ≡ verifying
      → (evaluated sv o env d st).1 ≡ go_on
      → phase_of sv (evaluated sv o env d st).0 ≡ complete
  unfolding evaluated
  evaluated_verified panicked env d st n q h = absurd (ground arith)
  evaluated_verified (returned r) env d st n q h = elim (Bool-cases r.feasible) [
    | inr f ↦ absurd (ground (arith, f))
    | inl f ↦
        let v = verified_complete env d (get_or_init_drain_status st.status) st.store in
        ground (arith, f, n r refl, q, v)
  ]

  evaluated_complete :
      (r : NodePoolDrainResult) (env : PoolEnv) (d : IndexerDrainer) (st : IndexerState Store)
      → r.feasible ≡ true
      → r.needs_drain ≡ true
      → phase_of sv st ≡ complete
      → ((evaluated sv (returned r) env d st).1 ≡ go_on)
        × ((evaluated sv (returned r) env d st).0.store ≡ st.store)
  unfolding evaluated pool_phase
  evaluated_complete r env d st f n q = (ground (arith, f, n, q), ground (arith, f, n, q))

  -- After a drain of one pool was verified and its update let go on, the check of another pool (or of
  -- the same) that is to be drained and whose evaluation finds nothing against it goes on at once and
  -- changes nothing at the server, whatever shards its pods hold: the pools share one status.
  pub next_pool_undrained :
      (env env' : PoolEnv) (st : IndexerState Store) (r : NodePoolDrainResult)
      → IsPoolDraining env
      → IsPoolDraining env'
      → phase_of sv st ≡ verifying
      → (check_node_pool_scale_down_drain sv env st).1 ≡ go_on
      → evaluation env' (check_node_pool_scale_down_drain sv env st).0.store ≡ returned r
      → r.feasible ≡ true
      → ((check_node_pool_scale_down_drain sv env' (check_node_pool_scale_down_drain sv env st).0).1
          ≡ go_on)
        × ((check_node_pool_scale_down_drain sv env'
              (check_node_pool_scale_down_drain sv env st).0).0.store
            ≡ (check_node_pool_scale_down_drain sv env st).0.store)
  next_pool_undrained env env' st r a b q h e f =
      let first = opened_check sv env st a in
      let st' = (check_node_pool_scale_down_drain sv env st).0 in
      let done : phase_of sv st' ≡ complete = rw first (
        evaluated_verified _ env (get_or_new_indexer_drainer env.config st.drainer) st
          (λ r e. health_keeps (sv.cluster_health st.store) _ r e) q (rw first at h)) in
      let second =
        opened_check sv env' st' b
        ∙ ap (λ o. evaluated sv o env' (get_or_new_indexer_drainer env'.config st'.drainer) st')
            e in
      let c =
        evaluated_complete r env' (get_or_new_indexer_drainer env'.config st'.drainer) st' f
          (health_keeps (sv.cluster_health st'.store) _ r e) done in
      (ap (λ x. x.1) second ∙ c.0, ap (λ x. x.0.store) second ∙ c.1)
