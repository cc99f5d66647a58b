-- ===== src/Indexer/Traces.antt =====
-- Rows of reconciliations of the cluster controller at the indexer's drain.
use wazuh_operator.Common.{
  ◌≡◌, refl, sym, ap, ◌∙◌, ◌≢◌, ◌⊎◌, inl, inr, List, [], ◌∷◌, ◌++◌, some, true, false, Bool-cases,
  arith,
}
use wazuh_operator.Drain.Status.{DrainPhase, complete, phase_eq}
use wazuh_operator.Drain.Detection.{detect_scale_down}
use wazuh_operator.Drain.Worker.{StsLookup, not_found, failure, found, proceed_and_reset}
use wazuh_operator.Drain.Round.{Round-Drained}
use wazuh_operator.Indexer.Server.{Server}
use wazuh_operator.Indexer.Check.{
  IndexerState, IndexerEnv, indexer_drain_enabled, check_indexer_phase, check_indexer_scale_down,
  decide_indexer,
}
use wazuh_operator.Indexer.Gate.{
  IsIndexerDraining, IsEvacuated, indexer_next, indexer_decision, target_of, check_indexer_draining,
  indexer_detected,
}
use wazuh_operator.Indexer.Rounds.{phase_of, check_indexer_scale_down-Round}
use wazuh_operator.Indexer.Controller.{Reconciliation, seen, reconcile_indexer_drain, reconcile_all}

-- In some of the reconciliations a scale-down was to be drained, and the server then had no shard on
-- the pod to go and no relocating shard.
pub data SawEvacuated (sv : Server) : List (Reconciliation sv.Store) → Type 0 where
  now :
      {r : Reconciliation sv.Store} {rs : List (Reconciliation sv.Store)}
      (d : IsIndexerDraining r.env)
      → IsEvacuated sv (target_of r.env d.sts) r.server_store
      → SawEvacuated sv (r ∷ rs)
  later :
      {r : Reconciliation sv.Store} {rs : List (Reconciliation sv.Store)}
      → SawEvacuated sv rs
      → SawEvacuated sv (r ∷ rs)

is_complete : (p : DrainPhase) → phase_eq p complete ≡ true → p ≡ complete
is_complete p h = ground arith

not_complete : (p : DrainPhase) → phase_eq p complete ≡ false → p ≢ complete
not_complete p h = λ e. absurd (ground (arith, e))

module _ (sv : Server) where
  open sv use {Store}

  -- A check that does not find a scale-down to drain leaves the state.
  draining_or_same :
      (env : IndexerEnv) (st : IndexerState Store)
      → IsIndexerDraining env ⊎ (indexer_next sv env st ≡ st)
  unfolding check_indexer_scale_down
  draining_or_same env st = go env.lookup refl
    where
      go : (l : StsLookup) → env.lookup ≡ l → IsIndexerDraining env ⊎ (indexer_next sv env st ≡ st)
      go not_found e = inr (ground (arith, e))
      go (failure m) e = inr (ground (arith, e))
      go (found sts) e = elim (Bool-cases (detect_scale_down (some sts) env.desired).detected) [
        | inr q ↦ inr (ground (arith, e, q))
        | inl q ↦ elim (Bool-cases (indexer_drain_enabled env.config)) [
          | inr k ↦ inr (ground (arith, e, q, k))
          | inl k ↦ inl (record { sts = sts; is_found = e; detected = q; enabled = k })
        ]
      ]

  kept_phase :
      (r : Reconciliation Store) (st : IndexerState Store)
      → (phase_of sv (reconcile_indexer_drain sv r st) ≡ phase_of sv st)
        ⊎ (phase_of sv (reconcile_indexer_drain sv r st)
            ≡ phase_of sv (indexer_next sv r.env (seen sv r st)))
  unfolding reconcile_indexer_drain
  kept_phase r st = elim (Bool-cases r.written) [
    | inl w ↦ inr (ground (arith, w))
    | inr w ↦ inl (ground (arith, w))
  ]

  step-IsEvacuated :
      (r : Reconciliation Store) (st : IndexerState Store)
      → phase_of sv st ≢ complete
      → (phase_of sv (reconcile_indexer_drain sv r st) ≢ complete)
        ⊎ ((d : IsIndexerDraining r.env) × IsEvacuated sv (target_of r.env d.sts) r.server_store)
  step-IsEvacuated r st h = elim (draining_or_same r.env (seen sv r st)) [
    | inr same ↦ elim (kept_phase r st) [
      | inl k ↦ inl (λ c. h (sym k ∙ c))
      | inr k ↦ inl (λ c. h (sym (ap (phase_of sv) same) ∙ (sym k ∙ c)))
    ]
    | inl d ↦
        elim (Bool-cases (phase_eq (phase_of sv (indexer_next sv r.env (seen sv r st))) complete)) [
          | inl c ↦
              elim (Round-Drained (check_indexer_scale_down-Round sv r.env (seen sv r st) d)
                (inr (is_complete _ c))) [ inl p ↦ absurd (h p) | inr e ↦ inr (d, e) ]
          | inr c ↦ elim (kept_phase r st) [
            | inl k ↦ inl (λ q. h (sym k ∙ q))
            | inr k ↦ inl (λ q. not_complete _ c (sym k ∙ q))
          ]
        ]
  ]

  -- From a status whose phase is not Complete, in any row of reconciliations between which the server
  -- changes freely and statuses are lost where they are not written: if the last one goes on with the
  -- scale-down as drained, then in one of them a scale-down was to be drained and the server listed no
  -- shard on its pod and reported no relocating shard.
  pub release-SawEvacuated :
      (rs : List (Reconciliation Store)) (r : Reconciliation Store) (st : IndexerState Store)
      → phase_of sv st ≢ complete
      → indexer_decision sv r.env (seen sv r (reconcile_all sv rs st)) ≡ proceed_and_reset
      → SawEvacuated sv (rs ++ (r ∷ []))
  unfolding reconcile_all
  release-SawEvacuated [] r st h e =
      let d = indexer_detected sv r.env (seen sv r st) e in
      elim (Round-Drained (check_indexer_scale_down-Round sv r.env (seen sv r st) d) (inl e)) [
        | inl p ↦ absurd (h p)
        | inr v ↦ now d v
      ]
  release-SawEvacuated (r' ∷ rs) r st h e = elim (step-IsEvacuated r' st h) [
    | inl k ↦ later (release-SawEvacuated rs r (reconcile_indexer_drain sv r' st) k e)
    | inr (d, v) ↦ now d v
  ]

  complete_release :
      (env : IndexerEnv) (st : IndexerState Store)
      → phase_of sv st ≡ complete
      → IsIndexerDraining env
      → (indexer_decision sv env st ≡ proceed_and_reset)
        × (phase_of sv (indexer_next sv env st) ≡ complete)
        × ((indexer_next sv env st).store ≡ st.store)
  unfolding check_indexer_phase decide_indexer
  complete_release env st h d =
      let opened = check_indexer_draining sv env st d in
      (ground (arith, opened), ground (arith, opened), ground (arith, opened))

  complete_step :
      (r : Reconciliation Store) (st : IndexerState Store)
      → phase_of sv st ≡ complete
      → phase_of sv (reconcile_indexer_drain sv r st) ≡ complete
  complete_step r st h = elim (kept_phase r st) [
    | inl k ↦ k ∙ h
    | inr k ↦ elim (draining_or_same r.env (seen sv r st)) [
      | inr same ↦ k ∙ (ap (phase_of sv) same ∙ h)
      | inl d ↦ k ∙ (complete_release r.env (seen sv r st) h d).1
    ]
  ]

  -- Once the stored status is Complete, every later reconciliation that finds a scale-down to drain goes
  -- on with it as drained and sends the server nothing that changes it, whatever the server then holds:
  -- the deferred reset never reaches the stored status.
  pub complete_never_drains :
      (rs : List (Reconciliation Store)) (r : Reconciliation Store) (st : IndexerState Store)
      → phase_of sv st ≡ complete
      → IsIndexerDraining r.env
      → (indexer_decision sv r.env (seen sv r (reconcile_all sv rs st)) ≡ proceed_and_reset)
        × ((reconcile_indexer_drain sv r (reconcile_all sv rs st)).store ≡ r.server_store)
  unfolding reconcile_all reconcile_indexer_drain
  complete_never_drains [] r st h d =
      let c = complete_release r.env (seen sv r st) h d in (c.0, c.2)
  complete_never_drains (r' ∷ rs) r st h d =
      complete_never_drains rs r (reconcile_indexer_drain sv r' st) (complete_step r' st h) d
