-- ===== src/Drain/Recovery/Settled.antt =====
-- When the controller (controllers/wazuhcluster_controller.go) takes a rollback for finished.
use wazuh_operator.Common.{
  ◌≡◌, refl, ap, sym, ◌∙◌, bytes_eq, inl, inr, some, Bool, true, false, Option-cases, arith, ℤ,
  eqb_ℤ, eqb_ℤ_iff, ◌&&◌,
}
use wazuh_operator.Kube.{StatefulSet, Client, Result, ok, err, Result-cases}
use wazuh_operator.Drain.Status.{failed, rolling_back, ComponentDrainStatus}
use wazuh_operator.Drain.Rollback.{
  DrainStatus, WazuhCluster, verify_restored, verify_rollback_complete, indexer_sts_name,
  indexer_previous, drain_component_indexer,
}
use wazuh_operator.Drain.Rollback.Restores.{indexer_previous_lem}
use wazuh_operator.Drain.Recovery.{settle, settle_rollbacks}

settle-failed :
    (answer : Result Bool) (s s' : ComponentDrainStatus)
    → s.phase ≡ rolling_back
    → (settle answer (some s)).0 ≡ some s'
    → s'.phase ≡ failed
    → answer ≡ ok true
unfolding settle
settle-failed (err e) s s' h a b = absurd (ground arith)
settle-failed (ok false) s s' h a b = absurd (ground arith)
settle-failed (ok true) s s' h a b = refl

module _ (c : Client) where
  open c use {Store}

  settled_indexer :
      (cluster : WazuhCluster) (st : Store) (d d' : DrainStatus)
      → cluster.drain ≡ some d
      → (settle_rollbacks c cluster st).0.drain ≡ some d'
      → (settle (verify_rollback_complete c cluster drain_component_indexer st) d.indexer).0
        ≡ d'.indexer
  unfolding settle_rollbacks
  settled_indexer cluster st d d' h a =
      elim (Option-cases
        (settle (verify_rollback_complete c cluster drain_component_indexer st) d.indexer).1) [
          | inl e ↦ ground (arith, h, e)
          | inr (x, e) ↦ ground (arith, h, e)
        ]

  verified_restored :
      (cluster : WazuhCluster) (st : Store)
      → verify_rollback_complete c cluster drain_component_indexer st ≡ ok true
      → (sts : StatefulSet) × (c.get st cluster.namespace (indexer_sts_name cluster) ≡ ok sts)
        × (sts.ready_replicas ≡ indexer_previous cluster)
        × (sts.status_replicas ≡ indexer_previous cluster)
  unfolding verify_rollback_complete verify_restored bytes_eq
  verified_restored cluster st h =
      elim (Result-cases (c.get st cluster.namespace (indexer_sts_name cluster))) [
        | inr (e, p) ↦ absurd (ground (arith, p))
        | inl (sts, p) ↦
            let both : eqb_ℤ sts.ready_replicas (indexer_previous cluster)
                  && eqb_ℤ sts.status_replicas (indexer_previous cluster)
                ≡ true =
              ground (arith, p) in
            (
              sts,
              p,
              (eqb_ℤ_iff sts.ready_replicas (indexer_previous cluster)).0 (ground arith),
              (eqb_ℤ_iff sts.status_replicas (indexer_previous cluster)).0 (ground arith),
            )
      ]

  -- With a number of previous replicas recorded in its status, the controller takes a rollback of the
  -- indexer for finished only if the StatefulSet was read with that number of replicas, in all and
  -- ready.
  pub settled_rollback :
      (cluster : WazuhCluster) (st : Store) (d d' : DrainStatus) (s s' : ComponentDrainStatus)
      (n : ℤ)
      → cluster.drain ≡ some d
      → d.indexer ≡ some s
      → s.previous_replicas ≡ some n
      → s.phase ≡ rolling_back
      → (settle_rollbacks c cluster st).0.drain ≡ some d'
      → d'.indexer ≡ some s'
      → s'.phase ≡ failed
      → (sts : StatefulSet) × (c.get st cluster.namespace (indexer_sts_name cluster) ≡ ok sts)
        × (sts.ready_replicas ≡ n)
        × (sts.status_replicas ≡ n)
  settled_rollback cluster st d d' s s' n hd hi hn hp a b f =
      let same = settled_indexer cluster st d d' hd a in
      let verified =
        settle-failed (verify_rollback_complete c cluster drain_component_indexer st) s s' hp
          (ap (λ o. (settle (verify_rollback_complete c cluster drain_component_indexer st) o).0)
              (sym hi)
            ∙ (same ∙ b))
          f in
      let known = indexer_previous_lem cluster d s n hd hi hn in
      let (sts, got, ready, total) = verified_restored cluster st verified in
      (sts, got, ready ∙ known, total ∙ known)
