-- ===== src/Indexer/Rounds.antt =====
-- CheckScaleDownDrain (internal/opensearch/reconciler/indexer_reconciler.go) against the contract of a
-- drain check, alone and in rows of reconciliations between which the server's store changes freely.
use wazuh_operator.Common.{
  ◌≡◌, refl, ap, sym, inl, inr, Option, none, some, true, false, Bool-cases, Option-cases, arith,
  Bytes,
}
use wazuh_operator.Kube.{Result-cases}
use wazuh_operator.Drain.Status.{
  DrainPhase, unset, idle, pending, draining, verifying, complete, failed, rolling_back,
  ComponentDrainStatus,
}
use wazuh_operator.Drain.State.{
  transition, start_drain, mark_failed, mark_complete, update_progress, update_shard_count,
}
use wazuh_operator.Drain.Detection.{ScaleDownInfo, detect_scale_down}
use wazuh_operator.Drain.Worker.{get_or_init_drain_status}
use wazuh_operator.Drain.Round.{
  Round, hold_pending, hold_draining, hold_verifying, up_unset, up_idle, up_verifying, up_failed,
  up_rolling_back, start, strand, give_up, hold, advance, finish, release, retarget,
}
use wazuh_operator.Indexer.Server.{Server}
use wazuh_operator.Indexer.Drainer.{
  IndexerDrainer, verify_complete, monitor_progress, start_shard_drain,
}
use wazuh_operator.Indexer.Check.{
  IndexerState, IndexerEnv, DrainCheckResult, IndexerAnswer, get_or_new_indexer_drainer,
  started_case, monitored_case, verified_case, start_indexer_drain, monitor_indexer_drain,
  verify_indexer_drain, check_indexer_phase, decide_indexer,
}
use wazuh_operator.Indexer.Gate.{
  IsIndexerDraining, IsEvacuated, verify_complete-IsEvacuated, indexer_next, indexer_decision,
  target_of, result_of, check_indexer_draining,
}

module _ (sv : Server) where
  open sv use {Store}

  abbrev pub phase_of : IndexerState Store → DrainPhase
  phase_of st = (get_or_init_drain_status st.status).phase

  -- A call's round, at its pair of state and answer.
  abbrev RoundOf : Type 0 → DrainPhase → IndexerState Store × IndexerAnswer → Type 0
  RoundOf Drained p a = Round Drained p (decide_indexer a.1) (phase_of a.0)

  start_round :
      (D : Type 0) (env : IndexerEnv) (info : ScaleDownInfo) (d : Option IndexerDrainer)
      (s : ComponentDrainStatus) (st : Store) (r : DrainCheckResult)
      → s.phase ≡ idle
      → RoundOf D idle (started_case (start_indexer_drain sv env info d s st) r)
  unfolding start_indexer_drain started_case decide_indexer start_drain mark_failed transition
  start_round D env info d s st r h = elim (Option-cases env.client_error) [
    | inr (e, p) ↦ retarget (give_up up_idle) (ground (arith, p)) (ground (arith, p))
    | inl p ↦
        elim (Option-cases
          (start_shard_drain sv info.target_pod_name (get_or_new_indexer_drainer env.config d)
            st).2) [
              | inr (e, q) ↦ retarget strand (ground (arith, p, q)) (ground (arith, p, q))
              | inl q ↦ retarget start (ground (arith, p, q)) (ground (arith, p, q))
            ]
  ]

  unset_round :
      (D : Type 0) (env : IndexerEnv) (info : ScaleDownInfo) (d : Option IndexerDrainer)
      (s : ComponentDrainStatus) (st : Store) (r : DrainCheckResult)
      → s.phase ≡ unset
      → RoundOf D unset (started_case (start_indexer_drain sv env info d s st) r)
  unfolding start_indexer_drain started_case decide_indexer start_drain
  unset_round D env info d s st r h = elim (Option-cases env.client_error) [
    | inr (e, p) ↦ retarget (give_up up_unset) (ground (arith, p)) (ground (arith, p))
    | inl p ↦ retarget (give_up up_unset) (ground (arith, p)) (ground (arith, p))
  ]

  pending_round :
      (D : Type 0) (env : IndexerEnv) (node : Bytes) (d : Option IndexerDrainer)
      (s : ComponentDrainStatus) (st : Store) (r : DrainCheckResult)
      → s.phase ≡ pending
      → RoundOf D pending (monitored_case (monitor_indexer_drain sv env node d s st) r)
  unfolding monitor_indexer_drain monitored_case decide_indexer update_progress update_shard_count
      transition
  pending_round D env node none s st r h = retarget (hold hold_pending) refl (sym h)
  pending_round D env node (some d) s st r h =
      elim (Option-cases (monitor_progress sv node d st).error) [
        | inr (e, p) ↦ retarget (hold hold_pending) (ground (arith, p)) (ground (arith, p))
        | inl p ↦ retarget (hold hold_pending) (ground (arith, p)) (ground (arith, p))
      ]

  draining_round :
      (D : Type 0) (env : IndexerEnv) (node : Bytes) (d : Option IndexerDrainer)
      (s : ComponentDrainStatus) (st : Store) (r : DrainCheckResult)
      → s.phase ≡ draining
      → RoundOf D draining (monitored_case (monitor_indexer_drain sv env node d s st) r)
  unfolding monitor_indexer_drain monitored_case decide_indexer update_progress update_shard_count
      transition
  draining_round D env node none s st r h = retarget (hold hold_draining) refl (sym h)
  draining_round D env node (some d) s st r h =
      elim (Option-cases (monitor_progress sv node d st).error) [
        | inr (e, p) ↦ retarget (hold hold_draining) (ground (arith, p)) (ground (arith, p))
        | inl p ↦ elim (Bool-cases (monitor_progress sv node d st).is_complete) [
          | inl q ↦ retarget advance (ground (arith, p, q)) (ground (arith, p, q))
          | inr q ↦ retarget (hold hold_draining) (ground (arith, p, q)) (ground (arith, p, q))
        ]
      ]

  verifying_round :
      (env : IndexerEnv) (node : Bytes) (d : Option IndexerDrainer) (s : ComponentDrainStatus)
      (st : Store) (r : DrainCheckResult)
      → s.phase ≡ verifying
      → r.drain_in_progress ≡ false
      → r.drain_complete ≡ false
      → RoundOf
          (IsEvacuated sv node st)
          verifying
          (verified_case (verify_indexer_drain sv env node d s st) r)
  unfolding verify_indexer_drain verified_case decide_indexer mark_complete transition
  verifying_round env node none s st r h a b =
      retarget (give_up up_verifying) (ground arith) (sym h)
  verifying_round env node (some d) s st r h a b =
      elim (Result-cases (verify_complete sv node st)) [
        | inr (e, p) ↦ retarget (give_up up_verifying) (ground (arith, p)) (ground (arith, p))
        | inl (true, p) ↦
            retarget (finish (verify_complete-IsEvacuated sv node st p)) (ground (arith, p))
              (ground (arith, p))
        | inl (false, p) ↦ retarget (hold hold_verifying) (ground (arith, p)) (ground (arith, p))
      ]

  phase_round :
      (p : DrainPhase) (env : IndexerEnv) (info : ScaleDownInfo) (d : Option IndexerDrainer)
      (s : ComponentDrainStatus) (st : Store) (r : DrainCheckResult)
      → s.phase ≡ p
      → r.drain_in_progress ≡ false
      → r.drain_complete ≡ false
      → RoundOf
          (IsEvacuated sv info.target_pod_name st)
          p
          (check_indexer_phase sv p env info d s st r)
  unfolding check_indexer_phase
  phase_round idle env info d s st r h a b = start_round _ env info d s st r h
  phase_round unset env info d s st r h a b = unset_round _ env info d s st r h
  phase_round pending env info d s st r h a b = pending_round _ env info.target_pod_name d s st r h
  phase_round draining env info d s st r h a b =
      draining_round _ env info.target_pod_name d s st r h
  phase_round verifying env info d s st r h a b =
      verifying_round env info.target_pod_name d s st r h a b
  phase_round complete env info d s st r h a b =
      unfold decide_indexer in retarget release (ground arith) (sym h)
  phase_round failed env info d s st r h a b =
      unfold decide_indexer in retarget (give_up up_failed) (ground arith) (sym h)
  phase_round rolling_back env info d s st r h a b =
      unfold decide_indexer in retarget (give_up up_rolling_back) (ground arith) (sym h)

  -- One CheckScaleDownDrain of the indexer at a scale-down to be drained is a call of the contract
  -- for drain checks, in which drained means that the server lists no shard on the pod to go and
  -- reports no relocating shard.
  pub check_indexer_scale_down-Round :
      (env : IndexerEnv) (st : IndexerState Store) (h : IsIndexerDraining env)
      → Round
          (IsEvacuated sv (target_of env h.sts) st.store)
          (phase_of st)
          (indexer_decision sv env st)
          (phase_of (indexer_next sv env st))
  check_indexer_scale_down-Round env st h =
      let r =
        phase_round (phase_of st) env (detect_scale_down (some h.sts) env.desired) st.drainer
          (get_or_init_drain_status st.status) st.store (result_of env h.sts) refl refl refl in
      let opened = check_indexer_draining sv env st h in
      retarget r (ap (λ a. decide_indexer a.1) (sym opened)) (ap (λ a. phase_of a.0) (sym opened))
