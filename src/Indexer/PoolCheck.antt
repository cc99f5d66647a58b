-- ===== src/Indexer/PoolCheck.antt =====
-- checkNodePoolScaleDownDrain of internal/opensearch/reconciler/indexer_reconciler.go with its helpers.
-- Events and logs are left out.
pub mod Safety
pub mod Quorum
pub mod Shared
use wazuh_operator.Common.{
  List, [], ◌∷◌, ◌++◌, Option, none, some, Bool, true, false, not, if◌then◌else◌, ℤ, pos, add32,
  Bytes, codes, show_ℤ, length, Time,
}
use wazuh_operator.Kube.{Result, ok, err}
use wazuh_operator.Drain.Status.{
  DrainPhase, unset, idle, pending, draining, verifying, complete, failed, rolling_back, GoError,
  ComponentDrainStatus,
}
use wazuh_operator.Drain.Worker.{get_or_init_drain_status}
use wazuh_operator.NodePools.{IndexerNodePoolSpec, has_cluster_manager_role}
use wazuh_operator.Indexer.Server.{Server}
use wazuh_operator.Indexer.Drainer.{
  IndexerDrainConfig, DrainProgress, IndexerDrainer, cancel_shard_drain,
}
use wazuh_operator.Indexer.Check.{IndexerState, indexer_drain_enabled, get_or_new_indexer_drainer}
use wazuh_operator.Indexer.Pool.{
  NodePoolScaleDownInfo, NodePoolDrainResult, Outcome, returned, panicked,
  evaluate_node_pool_scale_down, get_node_pool_scale_down_targets, start_node_pool_drain,
  monitor_node_pool_drain_progress, verify_node_pool_drain_complete,
}

-- What one check of a pool sees besides the server: the cluster's name and pools, the pool, the
-- replicas that its StatefulSet asks for, and an error of ensureOpenSearchClient.
pub record PoolEnv : Type 0 where
  pub now : Time
  pub cluster_name : Bytes
  pub config : Option IndexerDrainConfig
  pub node_pools : List IndexerNodePoolSpec
  pub pool : IndexerNodePoolSpec
  pub current_replicas : ℤ
  pub client_error : Option GoError

-- The returned pair: (true, nil), (false, nil) or (false, err); or a panic.
pub data PoolAnswer : Type 0 where
  defer_update : PoolAnswer
  go_on : PoolAnswer
  refuse : GoError → PoolAnswer
  crash : PoolAnswer

unfoldable pub sum_managers : ℤ → List IndexerNodePoolSpec → ℤ
unfolding has_cluster_manager_role
sum_managers total [] = total
sum_managers total (pool ∷ pools) =
    sum_managers (if has_cluster_manager_role pool then add32 total pool.replicas else total) pools

unfoldable pub get_total_cluster_managers : List IndexerNodePoolSpec → ℤ
unfolding sum_managers
get_total_cluster_managers pools = sum_managers (pos 0) pools

abbrev pub targets_of : PoolEnv → List Bytes
targets_of env =
    get_node_pool_scale_down_targets env.cluster_name env.pool.name env.current_replicas
      env.pool.replicas

abbrev pub info_of : PoolEnv → NodePoolScaleDownInfo
info_of env = record {
  pool_name = env.pool.name;
  roles = env.pool.roles;
  current_replicas = env.current_replicas;
  desired_replicas = env.pool.replicas;
  target_pod_names = targets_of env;
}

abbrev pub first_of : List Bytes → Bytes
first_of [] = codes ""
first_of (b ∷ bs) = b

module _ (sv : Server) where
  open sv use {Store}

  -- The cases of the switch that call the drainer.
  unfoldable pub start_pool :
      PoolEnv → IndexerDrainer → ComponentDrainStatus → Store → IndexerState Store × PoolAnswer
  unfolding start_node_pool_drain
  start_pool env d s st =
      let (d', st', e) = start_node_pool_drain sv (targets_of env) d st in
      elim e [
        | some m ↦ (
          record {
            drainer = some d';
            status = some (record s { phase = failed; message = m });
            store = st';
          },
          refuse (codes "failed to start drain: " ++ m),
        )
        | none ↦ (
          record {
            drainer = some d';
            status = some (record s {
              phase = draining;
              message =
                  codes "Draining " ++ (show_ℤ (pos (length (targets_of env))) ++ codes " pods");
              start_time = some env.now;
              last_transition_time = some env.now;
            });
            store = st';
          },
          defer_update,
        )
      ]

  unfoldable pub monitor_pool :
      PoolEnv → IndexerDrainer → ComponentDrainStatus → Store → IndexerState Store × PoolAnswer
  unfolding monitor_node_pool_drain_progress
  monitor_pool env d s st =
      let p = monitor_node_pool_drain_progress sv (targets_of env) d st in
      let s' = record s { progress = p.percent; message = p.message } in
      elim p.error [
        | some e ↦ (record { drainer = some d; status = some s; store = st }, defer_update)
        | none ↦ (
          record {
            drainer = some d;
            status = some (if p.is_complete then record s' { phase = verifying } else s');
            store = st;
          },
          defer_update,
        )
      ]

  unfoldable pub verify_pool :
      PoolEnv → IndexerDrainer → ComponentDrainStatus → Store → IndexerState Store × PoolAnswer
  unfolding verify_node_pool_drain_complete cancel_shard_drain
  verify_pool env d s st = elim (verify_node_pool_drain_complete sv (targets_of env) st) [
    | err e ↦ (record { drainer = some d; status = some s; store = st }, defer_update)
    | ok false ↦ (record { drainer = some d; status = some s; store = st }, defer_update)
    | ok true ↦ (
      record {
        drainer = some d;
        status = some (record s {
          phase = complete;
          last_transition_time = some env.now;
          message = codes "Drain complete, proceeding with scale-down";
        });
        store = (cancel_shard_drain sv st).0;
      },
      go_on,
    )
  ]

  -- The switch over the phase.
  unfoldable pub pool_phase :
      DrainPhase
      → PoolEnv
      → IndexerDrainer
      → ComponentDrainStatus
      → Store
      → IndexerState Store × PoolAnswer
  unfolding start_pool monitor_pool verify_pool
  pool_phase idle env d s st = start_pool env d s st
  pool_phase unset env d s st = start_pool env d s st
  pool_phase draining env d s st = monitor_pool env d s st
  pool_phase verifying env d s st = verify_pool env d s st
  pool_phase complete env d s st =
      (record { drainer = some d; status = some (record s { phase = idle }); store = st }, go_on)
  pool_phase failed env d s st = (
    record { drainer = some d; status = some (record s { phase = idle }); store = st },
    defer_update,
  )
  pool_phase pending env d s st = (record { drainer = some d; status = some s; store = st }, go_on)
  pool_phase rolling_back env d s st =
      (record { drainer = some d; status = some s; store = st }, go_on)

  -- What follows the evaluation.
  unfoldable pub evaluated :
      Outcome NodePoolDrainResult
      → PoolEnv
      → IndexerDrainer
      → IndexerState Store
      → IndexerState Store × PoolAnswer
  unfolding pool_phase
  evaluated panicked env d st = (record st { drainer = some d }, crash)
  evaluated (returned r) env d st =
      let s = get_or_init_drain_status st.status in
      let rest = pool_phase s.phase env d s st.store in
      if not r.feasible
      then (
        record st { drainer = some d },
        refuse (codes "scale-down blocked: " ++ first_of r.blockers),
      )
      else if not r.needs_drain
      then (record st { drainer = some d }, go_on)
      else rest

  unfoldable pub check_node_pool_scale_down_drain :
      PoolEnv → IndexerState Store → IndexerState Store × PoolAnswer
  unfolding get_total_cluster_managers evaluate_node_pool_scale_down evaluated
  check_node_pool_scale_down_drain env st =
      let d = get_or_new_indexer_drainer env.config st.drainer in
      let r =
        evaluate_node_pool_scale_down (some (sv.cluster_health st.store)) (info_of env)
          (get_total_cluster_managers env.node_pools) in
      let rest = evaluated r env d st in
      if not (indexer_drain_enabled env.config)
      then (st, go_on)
      else elim env.client_error [ some e ↦ (st, go_on) | none ↦ rest ]
