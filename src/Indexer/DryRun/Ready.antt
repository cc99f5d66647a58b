-- ===== src/Indexer/DryRun/Ready.antt =====
-- What a dry run of the indexer's drain (internal/opensearch/drain/indexer_drain.go) that finds it
-- feasible has seen.
use wazuh_operator.Common.{
  ◌≡◌, refl, sym, ◌∙◌, ◌⊎◌, inl, inr, ◌++◌, true, ◌&&◌, not, if◌then◌else◌, Bool-cases, arith, ℤ,
  pos, ◌≤ℤ◌, ltb_ℤ, eqb_ℤ, Bytes, codes, bytes_eq, bytes_eq→eq, Time,
}
use wazuh_operator.Kube.{Result, ok, err}
use wazuh_operator.Drain.Rollback.{drain_component_indexer}
use wazuh_operator.Drain.DryRun.{DryRunResult, new_dry_run, dry_block, dry_warn}
use wazuh_operator.Drain.DryRun.Feasible.{
  IsConsistent, dry_block-IsConsistent, block_if-IsConsistent, if-IsConsistent,
}
use wazuh_operator.Indexer.Server.{Server, ClusterHealth, get_shard_count, get_allocation_exclusion}
use wazuh_operator.Indexer.DryRun.{
  check_cluster, check_shards, check_exclusion, feasibility_of, evaluate_indexer_feasibility,
}

-- The cluster is green with two data nodes at least, and no other node is known to be excluded.
pub record IsReady (sv : Server) (node : Bytes) (st : sv.Store) : Type 0 where
  pub health : ClusterHealth
  pub answered : sv.cluster_health st ≡ ok health
  pub green : health.status ≡ codes "green"
  pub two_nodes : pos 2 ≤ℤ health.number_of_data_nodes
  pub none_other :
      (name : Bytes) → get_allocation_exclusion sv st ≡ ok name → (name ≡ codes "") ⊎ (name ≡ node)

check_cluster-IsConsistent :
    (health : ClusterHealth) (r : DryRunResult)
    → IsConsistent r
    → IsConsistent (check_cluster health r)
unfolding check_cluster
check_cluster-IsConsistent health r h =
    block_if-IsConsistent (ltb_ℤ health.number_of_data_nodes (pos 2))
      (codes "Cannot drain: only one data node in cluster")
      (if not (bytes_eq health.status (codes "green"))
        then dry_block
            (codes "Cluster health is " ++ (health.status ++ codes ", must be green before drain"))
            r
        else r)
      (block_if-IsConsistent (not (bytes_eq health.status (codes "green")))
        (codes "Cluster health is " ++ (health.status ++ codes ", must be green before drain")) r h)

check_shards-IsConsistent :
    (node : Bytes) (a : Result ℤ) (r : DryRunResult)
    → IsConsistent r
    → IsConsistent (check_shards node a r)
unfolding check_shards dry_warn
check_shards-IsConsistent node (err e) r h = h
check_shards-IsConsistent node (ok n) r h = if-IsConsistent (eqb_ℤ n (pos 0)) _ r h h

check_exclusion-IsConsistent :
    (node : Bytes) (a : Result Bytes) (r : DryRunResult)
    → IsConsistent r
    → IsConsistent (check_exclusion node a r)
unfolding check_exclusion dry_warn
check_exclusion-IsConsistent node (err e) r h = h
check_exclusion-IsConsistent node (ok name) r h =
    block_if-IsConsistent (not (bytes_eq name (codes "")) && not (bytes_eq name node))
      (codes "Another node (" ++ (name ++ codes ") is already excluded from allocation")) r h

cluster_ready :
    (health : ClusterHealth) (r : DryRunResult)
    → (check_cluster health r).feasible ≡ true
    → (bytes_eq health.status (codes "green") ≡ true) × (pos 2 ≤ℤ health.number_of_data_nodes)
unfolding check_cluster dry_block
cluster_ready health r h = elim (Bool-cases (bytes_eq health.status (codes "green"))) [
  | inl g ↦ (g, ground (arith, g))
  | inr g ↦ absurd (ground (arith, g))
]

shards_same :
    (node : Bytes) (a : Result ℤ) (r : DryRunResult) → (check_shards node a r).feasible ≡ r.feasible
unfolding check_shards dry_warn
shards_same node (err e) r = refl
shards_same node (ok n) r = ground arith

exclusion_ready :
    (node name : Bytes) (r : DryRunResult)
    → (check_exclusion node (ok name) r).feasible ≡ true
    → (bytes_eq name (codes "") ≡ true) ⊎ (bytes_eq name node ≡ true)
unfolding check_exclusion dry_block
exclusion_ready node name r h = elim (Bool-cases (bytes_eq name (codes ""))) [
  | inl p ↦ inl p
  | inr p ↦ elim (Bool-cases (bytes_eq name node)) [
    | inl q ↦ inr q
    | inr q ↦ absurd (ground (arith, p, q))
  ]
]

exclusion_keeps :
    (node : Bytes) (a : Result Bytes) (r : DryRunResult)
    → (check_exclusion node a r).feasible ≡ true
    → r.feasible ≡ true
unfolding check_exclusion dry_block dry_warn
exclusion_keeps node (err e) r h = h
exclusion_keeps node (ok name) r h = ground arith

feasibility_of-IsConsistent :
    (now : Time) (node : Bytes) (a : Result ClusterHealth) (count : Result ℤ)
    (exclusion : Result Bytes)
    → IsConsistent (feasibility_of now node a count exclusion)
unfolding feasibility_of
feasibility_of-IsConsistent now node (err e) count exclusion =
    dry_block-IsConsistent (codes "Cannot check cluster health: " ++ e)
      (new_dry_run now drain_component_indexer)
feasibility_of-IsConsistent now node (ok health) count exclusion =
    let r = new_dry_run now drain_component_indexer in
    let r1 = check_cluster-IsConsistent health r (λ h. refl, λ h. refl) in
    let r2 = check_shards-IsConsistent node count (check_cluster health r) r1 in
    check_exclusion-IsConsistent node exclusion (check_shards node count (check_cluster health r))
      r2

feasibility_ready :
    (now : Time) (node : Bytes) (a : Result ClusterHealth) (count : Result ℤ)
    (exclusion : Result Bytes)
    → (feasibility_of now node a count exclusion).feasible ≡ true
    → (health : ClusterHealth) × (a ≡ ok health)
      × (health.status ≡ codes "green")
      × (pos 2 ≤ℤ health.number_of_data_nodes)
unfolding feasibility_of dry_block
feasibility_ready now node (err e) count exclusion h = absurd (ground arith)
feasibility_ready now node (ok health) count exclusion h =
    let r = new_dry_run now drain_component_indexer in
    let r2 = check_shards node count (check_cluster health r) in
    let (g, n) = cluster_ready health r (
      sym (shards_same node count (check_cluster health r))
      ∙ exclusion_keeps node exclusion r2 h) in
    (health, refl, bytes_eq→eq health.status (codes "green") g, n)

feasibility_none_other :
    (now : Time) (node : Bytes) (a : Result ClusterHealth) (count : Result ℤ) (name : Bytes)
    → (feasibility_of now node a count (ok name)).feasible ≡ true
    → (name ≡ codes "") ⊎ (name ≡ node)
unfolding feasibility_of dry_block
feasibility_none_other now node (err e) count name h = absurd (ground arith)
feasibility_none_other now node (ok health) count name h =
    let r2 =
      check_shards node count (check_cluster health (new_dry_run now drain_component_indexer)) in
    elim (exclusion_ready node name r2 h) [
      | inl e ↦ inl (bytes_eq→eq name (codes "") e)
      | inr e ↦ inr (bytes_eq→eq name node e)
    ]

module _ (sv : Server) where
  open sv use {Store}

  -- The dry run of the indexer's drain is consistent, whatever the server answers.
  pub evaluate_indexer_feasibility-IsConsistent :
      (now : Time) (node : Bytes) (st : Store)
      → IsConsistent (evaluate_indexer_feasibility sv now node st)
  unfolding evaluate_indexer_feasibility
  evaluate_indexer_feasibility-IsConsistent now node st =
      feasibility_of-IsConsistent now node (sv.cluster_health st) (get_shard_count sv node st)
        (get_allocation_exclusion sv st)

  -- A dry run finds the drain of a node feasible only if the server answers that the cluster is green
  -- with at least two data nodes, and no other node is known to be excluded from allocation.
  pub evaluate_indexer_feasibility-IsReady :
      (now : Time) (node : Bytes) (st : Store)
      → (evaluate_indexer_feasibility sv now node st).feasible ≡ true
      → IsReady sv node st
  unfolding evaluate_indexer_feasibility
  evaluate_indexer_feasibility-IsReady now node st h =
      let (health, a, g, n) =
        feasibility_ready now node (sv.cluster_health st) (get_shard_count sv node st)
          (get_allocation_exclusion sv st) h in
      record {
        health = health;
        answered = a;
        green = g;
        two_nodes = n;
        none_other = λ name p.
            feasibility_none_other now node (sv.cluster_health st) (get_shard_count sv node st) name
              (rw p at h);
      }
