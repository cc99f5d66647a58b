-- ===== src/Indexer/Gate.antt =====
-- What CheckScaleDownDrain (internal/opensearch/reconciler/indexer_reconciler.go) tells the
-- controller.
use wazuh_operator.Common.{
  ◌≡◌, refl, ◌⊎◌, inl, inr, List, [], ◌∷◌, Option, none, some, Bool, true, false, Bool-cases, arith,
  pos, ◌≤ℤ◌, Bytes, bytes_eq, All, filter, length,
}
use wazuh_operator.Kube.{StatefulSet, Result, ok, err, Result-cases}
use wazuh_operator.Drain.Status.{
  DrainPhase, unset, idle, pending, draining, verifying, complete, failed, rolling_back,
  ComponentDrainStatus, GoError,
}
use wazuh_operator.Drain.Detection.{ScaleDownInfo, detect_scale_down}
use wazuh_operator.Drain.Worker.{
  StsLookup, not_found, failure, found, get_or_init_drain_status, Decision, proceed_and_reset,
}
use wazuh_operator.Indexer.Server.{
  Server, ShardInfo, ClusterHealth, get_shards_on_node, get_shard_count, has_relocating_shards,
}
use wazuh_operator.Indexer.Drainer.{DrainProgress, IndexerDrainer, verified, verify_complete}
use wazuh_operator.Indexer.Check.{
  IndexerState, IndexerEnv, DrainCheckResult, no_check_result, IndexerAnswer, indexer_drain_enabled,
  started_case, monitored_case, verified_case, start_indexer_drain, monitor_indexer_drain,
  verify_indexer_drain, check_indexer_phase, check_indexer_scale_down, decide_indexer,
}

-- A scale-down of the indexer that is to be drained.
pub record IsIndexerDraining (env : IndexerEnv) : Type 0 where
  pub sts : StatefulSet
  pub is_found : env.lookup ≡ found sts
  pub detected : (detect_scale_down (some sts) env.desired).detected ≡ true
  pub enabled : indexer_drain_enabled env.config ≡ true

-- The server lists no shard on the node, and reports that none is relocating.
pub record IsEvacuated (sv : Server) (node : Bytes) (st : sv.Store) : Type 0 where
  pub shards : List ShardInfo
  pub listed : sv.cat_shards st ≡ ok shards
  pub none_left : All (λ s. bytes_eq s.node node ≡ false) shards
  pub health : ClusterHealth
  pub answered : sv.cluster_health st ≡ ok health
  pub none_moving : health.relocating_shards ≤ℤ pos 0

All-of_filter :
    (node : Bytes) (shards : List ShardInfo)
    → length (filter (λ s. bytes_eq s.node node) shards) ≡ 0
    → All (λ s. bytes_eq s.node node ≡ false) shards
All-of_filter node [] h = tt
All-of_filter node (s ∷ shards) h = elim (Bool-cases (bytes_eq s.node node)) [
  | inl on_it ↦ absurd (ground arith)
  | inr off ↦ (off, All-of_filter node shards (ground arith))
]

-- The pod that the check is about.
abbrev pub target_of : IndexerEnv → StatefulSet → Bytes
target_of env sts = (detect_scale_down (some sts) env.desired).target_pod_name

abbrev pub result_of : IndexerEnv → StatefulSet → DrainCheckResult
result_of env sts = record no_check_result { needs_drain = true; target_pod = target_of env sts }

module _ (sv : Server) where
  open sv use {Store}

  pub verify_complete-IsEvacuated :
      (node : Bytes) (st : Store) → verify_complete sv node st ≡ ok true → IsEvacuated sv node st
  unfolding verify_complete verified get_shard_count get_shards_on_node has_relocating_shards
  verify_complete-IsEvacuated node st h = elim (Result-cases (sv.cat_shards st)) [
    | inr (e, p) ↦ absurd (ground arith)
    | inl (shards, p) ↦ elim (Result-cases (sv.cluster_health st)) [
      | inr (e, q) ↦ absurd (ground arith)
      | inl (health, q) ↦
          let empty : length (filter (λ s. bytes_eq s.node node) shards) ≡ 0 = ground arith in
          record {
            shards = shards;
            listed = p;
            none_left = All-of_filter node shards empty;
            health = health;
            answered = q;
            none_moving = ground arith;
          }
    ]
  ]

  -- The state and the controller's decision after one reconciliation.
  abbrev pub indexer_next : IndexerEnv → IndexerState Store → IndexerState Store
  indexer_next env st = (check_indexer_scale_down sv env st).0

  abbrev pub indexer_decision : IndexerEnv → IndexerState Store → Decision
  indexer_decision env st = decide_indexer (check_indexer_scale_down sv env st).1

  abbrev pub at_indexer_phase :
      IndexerEnv → StatefulSet → IndexerState Store → IndexerState Store × IndexerAnswer
  at_indexer_phase env sts st =
      let s = get_or_init_drain_status st.status in
      check_indexer_phase sv s.phase env (detect_scale_down (some sts) env.desired) st.drainer s
        st.store (result_of env sts)

  pub check_indexer_draining :
      (env : IndexerEnv) (st : IndexerState Store) (h : IsIndexerDraining env)
      → check_indexer_scale_down sv env st ≡ at_indexer_phase env h.sts st
  unfolding check_indexer_scale_down
  check_indexer_draining env st h = ground (arith, h.is_found, h.detected, h.enabled)

  verified_reset :
      (env : IndexerEnv) (node : Bytes) (d : Option IndexerDrainer) (s : ComponentDrainStatus)
      (st : Store) (r : DrainCheckResult)
      → decide_indexer (verified_case (verify_indexer_drain sv env node d s st) r).1
        ≡ proceed_and_reset
      → r.drain_in_progress ≡ false
      → r.drain_complete ≡ false
      → IsEvacuated sv node st
  unfolding verify_indexer_drain verified_case decide_indexer
  verified_reset env node none s st r h a b = absurd (ground arith)
  verified_reset env node (some d) s st r h a b = go (verify_complete sv node st) refl
    where
      go : (x : Result Bool) → verify_complete sv node st ≡ x → IsEvacuated sv node st
      go (err e) q = absurd (ground arith)
      go (ok false) q = absurd (ground arith)
      go (ok true) q = verify_complete-IsEvacuated node st q

  started_reset :
      (t : IndexerState Store × Option GoError) (r : DrainCheckResult)
      → decide_indexer (started_case t r).1 ≡ proceed_and_reset
      → ⊥
  unfolding started_case decide_indexer
  started_reset (st, none) r h = ground arith
  started_reset (st, some e) r h = ground arith

  monitored_reset :
      (t : IndexerState Store × Result DrainProgress) (r : DrainCheckResult)
      → decide_indexer (monitored_case t r).1 ≡ proceed_and_reset
      → ⊥
  unfolding monitored_case decide_indexer
  monitored_reset (st, ok p) r h = ground arith
  monitored_reset (st, err e) r h = ground arith

  phase-IsEvacuated :
      (p : DrainPhase) (env : IndexerEnv) (info : ScaleDownInfo) (d : Option IndexerDrainer)
      (s : ComponentDrainStatus) (st : Store) (r : DrainCheckResult)
      → decide_indexer (check_indexer_phase sv p env info d s st r).1 ≡ proceed_and_reset
      → r.drain_in_progress ≡ false
      → r.drain_complete ≡ false
      → (p ≡ complete) ⊎ ((p ≡ verifying) × IsEvacuated sv info.target_pod_name st)
  unfolding check_indexer_phase
  phase-IsEvacuated complete env info d s st r h a b = inl refl
  phase-IsEvacuated verifying env info d s st r h a b =
      inr (refl, verified_reset env info.target_pod_name d s st r h a b)
  phase-IsEvacuated idle env info d s st r h a b =
      absurd (started_reset (start_indexer_drain sv env info d s st) r h)
  phase-IsEvacuated unset env info d s st r h a b =
      absurd (started_reset (start_indexer_drain sv env info d s st) r h)
  phase-IsEvacuated pending env info d s st r h a b =
      absurd (monitored_reset (monitor_indexer_drain sv env info.target_pod_name d s st) r h)
  phase-IsEvacuated draining env info d s st r h a b =
      absurd (monitored_reset (monitor_indexer_drain sv env info.target_pod_name d s st) r h)
  phase-IsEvacuated failed env info d s st r h a b = absurd (unfold decide_indexer in ground arith)
  phase-IsEvacuated rolling_back env info d s st r h a b =
      absurd (unfold decide_indexer in ground arith)

  pub indexer_detected :
      (env : IndexerEnv) (st : IndexerState Store)
      → indexer_decision env st ≡ proceed_and_reset
      → IsIndexerDraining env
  unfolding check_indexer_scale_down decide_indexer
  indexer_detected env st h = go env.lookup refl
    where
      go : (l : StsLookup) → env.lookup ≡ l → IsIndexerDraining env
      go not_found e = absurd (ground arith)
      go (failure m) e = absurd (ground arith)
      go (found sts) e = record {
        sts = sts;
        is_found = e;
        detected = ground arith;
        enabled = ground arith;
      }

  -- The controller goes on with a scale-down of the indexer as drained only if one was detected with
  -- draining enabled, and either the drain had been completed before, or it was being verified and
  -- the server lists no shard on the pod to go and reports no relocating shard.
  pub indexer_reset_needs_drain :
      (env : IndexerEnv) (st : IndexerState Store)
      → indexer_decision env st ≡ proceed_and_reset
      → (d : IsIndexerDraining env) × (((get_or_init_drain_status st.status).phase ≡ complete)
          ⊎ (((get_or_init_drain_status st.status).phase ≡ verifying)
              × IsEvacuated sv (target_of env d.sts) st.store))
  indexer_reset_needs_drain env st h =
      let d = indexer_detected env st h in
      (
        d,
        phase-IsEvacuated (get_or_init_drain_status st.status).phase env _ st.drainer _ st.store
            (result_of env d.sts) (rw (check_indexer_draining env st d) at h) refl refl,
      )
