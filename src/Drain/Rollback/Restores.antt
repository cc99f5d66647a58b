-- ===== src/Drain/Rollback/Restores.antt =====
-- Rollbacks (internal/wazuh/drain/rollback.go) after a scale-down.
use wazuh_operator.Common.{
  ◌≡◌, ◌≢◌, inl, inr, List, Option, none, some, false, Bool-cases, arith, ℤ, Bytes, codes, All,
  bytes_eq, Time, ◌∙◌,
}
use wazuh_operator.Kube.{StatefulSet, ok, Result-cases, Client, ReadsWrites}
use wazuh_operator.Drain.Status.{ComponentDrainStatus, idle, pending}
use wazuh_operator.Drain.State.{start_drain}
use wazuh_operator.Drain.State.Traces.{Op, run, trace, run_keeps_target}
use wazuh_operator.Drain.Rollback.{
  WazuhCluster, DrainStatus, drain_component_indexer, drain_component_manager, indexer_sts_name,
  manager_sts_name, indexer_previous, manager_previous, differs, restore, execute_rollback,
}

differs-false : (o : Option ℤ) (n : ℤ) → differs o n ≡ false → o ≡ some n
differs-false none n h = ground arith
differs-false (some m) n h = ground arith

differs_self : (o : Option ℤ) (n : ℤ) → o ≡ some n → differs o n ≡ false
differs_self none n h = ground arith
differs_self (some m) n h = ground arith

-- The StatefulSet under a key wants this many replicas.
abbrev pub Wants : (c : Client) → Bytes → Bytes → ℤ → c.Store → Type 0
Wants c namespace name n st =
    (s : StatefulSet) × (c.get st namespace name ≡ ok s) × (s.spec_replicas ≡ some n)

module _ (c : Client) (laws : ReadsWrites c) where
  module _ (get_msg update_msg namespace name : Bytes) (n : ℤ) where
    abbrev step : c.Store → c.Store × Option Bytes
    step st = restore c get_msg update_msg namespace name n st

    -- With the wanted replicas in place a rollback writes nothing.
    restore_idle : (st : c.Store) → Wants c namespace name n st → step st ≡ (st, none)
    unfolding restore
    restore_idle st (s, got, wants) = ground (arith, differs_self s.spec_replicas n)

    restore_writes :
        (st st' : c.Store) (s : StatefulSet)
        → c.get st namespace name ≡ ok s
        → c.update st (record s { spec_replicas = some n }) ≡ ok st'
        → Wants c namespace name n st'
    restore_writes st st' s got put =
        let (t, got', spec, _, _) =
          laws.get_after st st' (record s { spec_replicas = some n }) put in
        let (ns, nm) = laws.get_key st namespace name s got in (t, rw (ns, nm) at got', spec)

    restore-Wants : (st : c.Store) → (step st).1 ≡ none → Wants c namespace name n (step st).0
    unfolding restore
    restore-Wants st h = elim (Result-cases (c.get st namespace name)) [
      | inr (e, p) ↦ absurd (ground arith)
      | inl (s, p) ↦ elim (Bool-cases (differs s.spec_replicas n)) [
        | inr same ↦
            let e : step st ≡ (st, none) = ground arith in
            rw e (s, p, differs-false s.spec_replicas n same)
        | inl other ↦ elim (Result-cases (c.update st (record s { spec_replicas = some n }))) [
          | inr (e, q) ↦ absurd (ground arith)
          | inl (st', q) ↦
              let e : step st ≡ (st', none) = ground arith in rw e (restore_writes st st' s p q)
        ]
      ]
    ]

  -- A component that a rollback knows, with the key of its StatefulSet and the replicas it goes back to.
  pub data Target (cluster : WazuhCluster) : Bytes → Bytes → ℤ → Type 0 where
    indexer :
        Target cluster drain_component_indexer (indexer_sts_name cluster) (indexer_previous cluster)
    manager :
        Target cluster drain_component_manager (manager_sts_name cluster) (manager_previous cluster)

  -- Also when no replicas are recorded, and the rollback goes back to a constant.
  execute_rollback-Wants :
      (cluster : WazuhCluster) {component name : Bytes} {n : ℤ} (st : c.Store)
      → Target cluster component name n
      → (execute_rollback c cluster component st).1 ≡ none
      → let st' = (execute_rollback c cluster component st).0 in
        Wants c cluster.namespace name n st'
        × (execute_rollback c cluster component st' ≡ (st', none))
  unfolding execute_rollback bytes_eq
  execute_rollback-Wants cluster st indexer h =
      let g = codes "failed to get indexer StatefulSet: " in
      let u = codes "failed to update indexer StatefulSet replicas: " in
      let w =
        restore-Wants g u cluster.namespace (indexer_sts_name cluster) (indexer_previous cluster) st
          h in
      (
        w,
        restore_idle g u cluster.namespace (indexer_sts_name cluster) (indexer_previous cluster) _
            w,
      )
  execute_rollback-Wants cluster st manager h =
      let g = codes "failed to get manager worker StatefulSet: " in
      let u = codes "failed to update manager worker StatefulSet replicas: " in
      let w =
        restore-Wants g u cluster.namespace (manager_sts_name cluster) (manager_previous cluster) st
          h in
      (
        w,
        restore_idle g u cluster.namespace (manager_sts_name cluster) (manager_previous cluster) _
            w,
      )

start_drain_ok :
    (now : Time) (pod : Bytes) (previous target : ℤ) (s : ComponentDrainStatus)
    → (start_drain now pod previous target s).1 ≡ none
    → ((start_drain now pod previous target s).0.phase ≡ pending)
      × ((start_drain now pod previous target s).0.previous_replicas ≡ some previous)
unfolding start_drain
start_drain_ok now pod previous target s h = ground arith

pub indexer_previous_lem :
    (cluster : WazuhCluster) (d : DrainStatus) (s : ComponentDrainStatus) (n : ℤ)
    → cluster.drain ≡ some d
    → d.indexer ≡ some s
    → s.previous_replicas ≡ some n
    → indexer_previous cluster ≡ n
indexer_previous_lem cluster d s n e e' e'' = ground arith

manager_previous_lem :
    (cluster : WazuhCluster) (d : DrainStatus) (s : ComponentDrainStatus) (n : ℤ)
    → cluster.drain ≡ some d
    → d.manager ≡ some s
    → s.previous_replicas ≡ some n
    → manager_previous cluster ≡ n
manager_previous_lem cluster d s n e e' e'' = ground arith

-- The two components with replicas to restore.
pub data Part : Type 0 where
  indexers managers : Part

abbrev pub part_name : Part → Bytes
part_name indexers = drain_component_indexer
part_name managers = drain_component_manager

abbrev pub sts_name_of : Part → WazuhCluster → Bytes
sts_name_of indexers cluster = indexer_sts_name cluster
sts_name_of managers cluster = manager_sts_name cluster

abbrev pub status_of : Part → DrainStatus → Option ComponentDrainStatus
status_of indexers d = d.indexer
status_of managers d = d.manager

-- When the drain status of the indexer or the manager has a number of previous replicas recorded, a
-- rollback of that component that reports no error leaves its StatefulSet asking for that number, and
-- a second rollback changes nothing and reports no error either.
pub execute_rollback_restores :
    (c : Client) (laws : ReadsWrites c) (part : Part) (cluster : WazuhCluster) (d : DrainStatus)
    (s : ComponentDrainStatus) (n : ℤ) (st : c.Store)
    → cluster.drain ≡ some d
    → status_of part d ≡ some s
    → s.previous_replicas ≡ some n
    → (execute_rollback c cluster (part_name part) st).1 ≡ none
    → let st' = (execute_rollback c cluster (part_name part) st).0 in
      Wants c cluster.namespace (sts_name_of part cluster) n st'
      × (execute_rollback c cluster (part_name part) st' ≡ (st', none))
execute_rollback_restores c laws indexers cluster d s n st e e' e'' h =
    let (wants, idle_again) = execute_rollback-Wants c laws cluster st indexer h in
    let known = indexer_previous_lem cluster d s n e e' e'' in (rw known at wants, idle_again)
execute_rollback_restores c laws managers cluster d s n st e e' e'' h =
    let (wants, idle_again) = execute_rollback-Wants c laws cluster st manager h in
    let known = manager_previous_lem cluster d s n e e' e'' in (rw known at wants, idle_again)

-- From the scale-down to the rollback: a drain of the indexer starts from `previous` replicas, and
-- any operations follow that do not bring it back to Idle. A rollback that then reports no error
-- leaves the indexer's StatefulSet asking for `previous` replicas.
pub start-rollback_restores :
    (c : Client) (laws : ReadsWrites c) (cluster : WazuhCluster) (d : DrainStatus) (st : c.Store)
    (now : Time) (pod : Bytes) (previous target : ℤ) (s : ComponentDrainStatus) (ops : List Op)
    → (start_drain now pod previous target s).1 ≡ none
    → All (λ p. p ≢ idle) (trace ops (start_drain now pod previous target s).0)
    → cluster.drain ≡ some d
    → d.indexer ≡ some (run ops (start_drain now pod previous target s).0)
    → (execute_rollback c cluster drain_component_indexer st).1 ≡ none
    → Wants c cluster.namespace
        (indexer_sts_name cluster)
        previous
        (execute_rollback c cluster drain_component_indexer st).0
start-rollback_restores c laws cluster d st now pod previous target s ops started busy e e' h =
    let t = (start_drain now pod previous target s).0 in
    let (phase, kept) = start_drain_ok now pod previous target s started in
    let busy_now : t.phase ≢ idle = ground arith in
    let (same, _, _) = run_keeps_target ops t busy_now busy in
    (execute_rollback_restores c laws indexers cluster d (run ops t) previous st e e' (same ∙ kept)
      h).0
