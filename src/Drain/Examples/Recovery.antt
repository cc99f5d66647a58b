-- ===== src/Drain/Examples/Recovery.antt =====
-- The results on retries and rollbacks at concrete inputs.
use wazuh_operator.Common.{
  ◌≡◌, refl, ◌⊎◌, inl, inr, List, [], ◌∷◌, Option, none, some, Bool, ◌&&◌, arith, if◌then◌else◌, ℤ,
  pos, ◌*ℤ◌, ◌≤ℤ◌, ◌<ℤ◌, Bytes, codes, bytes_eq, bytes_eq_iff, atoi, Bool-cases,
}
use wazuh_operator.Kube.{StatefulSet, ok, err, Client, ReadsWrites}
use wazuh_operator.Drain.Status.{
  idle, draining, failed, rolling_back, ComponentDrainStatus, empty_status, DrainRetryConfig,
}
use wazuh_operator.Drain.State.{start_drain, transition}
use wazuh_operator.Drain.State.Traces.{Op, to, run}
use wazuh_operator.Drain.Retry.{FloatOps, initial_delay_of, max_delay_of, retry_delay}
use wazuh_operator.Drain.Retry.Backoff.{retry_delay_bounds}
use wazuh_operator.Drain.Rollback.{
  WazuhCluster, DrainStatus, drain_component_indexer, indexer_sts_name, execute_rollback,
}
use wazuh_operator.Drain.Recovery.{rolled_back, settle_rollbacks}
use wazuh_operator.Drain.Recovery.Settled.{settled_rollback}
use wazuh_operator.Drain.Rollback.Restores.{
  Wants, indexers, execute_rollback_restores, start-rollback_restores,
}

-- Whole multipliers.
abbrev floats : FloatOps
floats = record {
  Float = ℤ;
  parse_float = λ s. atoi s;
  default_multiplier = pos 2;
  scale = λ m d. m *ℤ d;
}

abbrev config : Option DrainRetryConfig
config = some (record {
  max_attempts = pos 4;
  initial_delay = some (pos 60);
  backoff_multiplier = codes "3";
  max_delay = some (pos 1000);
})

abbrev third : ComponentDrainStatus
third = record (empty_status failed) { attempt_count = pos 3 }

retry_delay_bounds_example :
    ((third.attempt_count ≤ℤ pos 1) × (retry_delay floats third config ≡ initial_delay_of config))
    ⊎ ((pos 1 <ℤ third.attempt_count) × (retry_delay floats third config ≤ℤ max_delay_of config))
retry_delay_bounds_example = retry_delay_bounds floats third config

-- An API server that holds one StatefulSet.
abbrev same_key : StatefulSet → Bytes → Bytes → Bool
same_key s namespace name = bytes_eq s.namespace namespace && bytes_eq s.name name

abbrev one_object : Client
one_object = record {
  Store = StatefulSet;
  get = λ st namespace name. if same_key st namespace name then ok st else err (codes "not found");
  update = λ st s.
      if same_key st s.namespace s.name
      then ok (record st { spec_replicas = s.spec_replicas })
      else err (codes "not found");
}

one_object-ReadsWrites : ReadsWrites one_object
one_object-ReadsWrites = record {
  get_after = λ st st' s h. elim (Bool-cases (same_key st s.namespace s.name)) [
    | inr other ↦ absurd (ground arith)
    | inl same ↦
        let ns = (bytes_eq_iff st.namespace s.namespace).0 (ground arith) in
        let nm = (bytes_eq_iff st.name s.name).0 (ground arith) in
        let e : st' ≡ record st { spec_replicas = s.spec_replicas } = ground arith in
        (record st { spec_replicas = s.spec_replicas }, ground arith, refl, nm, ns)
  ];
  get_key = λ st namespace name s h. elim (Bool-cases (same_key st namespace name)) [
    | inr other ↦ absurd (ground arith)
    | inl same ↦
        let ns = (bytes_eq_iff st.namespace namespace).0 (ground arith) in
        let nm = (bytes_eq_iff st.name name).0 (ground arith) in
        let e : st ≡ s = ground arith in (rw e at ns, rw e at nm)
  ];
}

-- The indexer after a scale-down from 5 to 4.
abbrev four_indexers : StatefulSet
four_indexers = record {
  name = codes "prod-indexer";
  namespace = codes "wazuh";
  uid = codes "u1";
  spec_replicas = some (pos 4);
  status_replicas = pos 5;
  ready_replicas = pos 5;
  update_revision = codes "r1";
  current_revision = codes "r1";
}

abbrev ops : List Op
ops =
    to (pos 20) draining (codes "")
    ∷ to (pos 30) failed (codes "timeout")
    ∷ to (pos 40) rolling_back (codes "")
    ∷ []

abbrev started : ComponentDrainStatus
unfolding start_drain
started = (start_drain (pos 10) (codes "prod-indexer-4") (pos 5) (pos 4) (empty_status idle)).0

abbrev drain_status : DrainStatus
drain_status = record { indexer = some (run ops started); manager = none }

abbrev cluster : WazuhCluster
cluster = record { name = codes "prod"; namespace = codes "wazuh"; drain = some drain_status }

start-rollback_restores_example :
    Wants one_object
      (codes "wazuh")
      (codes "prod-indexer")
      (pos 5)
      (execute_rollback one_object cluster drain_component_indexer four_indexers).0
unfolding start_drain transition execute_rollback bytes_eq
start-rollback_restores_example =
    start-rollback_restores one_object one_object-ReadsWrites cluster drain_status four_indexers
      (pos 10) (codes "prod-indexer-4") (pos 5) (pos 4) (empty_status idle) ops refl
      (ground arith, (ground arith, (ground arith, tt))) refl refl refl

execute_rollback_restores_example :
    let st' = (execute_rollback one_object cluster drain_component_indexer four_indexers).0 in
    Wants one_object (codes "wazuh") (codes "prod-indexer") (pos 5) st'
    × (execute_rollback one_object cluster drain_component_indexer st' ≡ (st', none))
unfolding start_drain transition execute_rollback bytes_eq
execute_rollback_restores_example =
    execute_rollback_restores one_object one_object-ReadsWrites indexers cluster drain_status
      (run ops started) (pos 5) four_indexers refl refl refl refl

settled_rollback_example :
    (sts : StatefulSet) × (one_object.get four_indexers (codes "wazuh") (indexer_sts_name cluster)
      ≡ ok sts)
    × (sts.ready_replicas ≡ pos 5)
    × (sts.status_replicas ≡ pos 5)
unfolding start_drain transition settle_rollbacks bytes_eq
settled_rollback_example =
    settled_rollback one_object cluster four_indexers drain_status
      (record drain_status { indexer = some (rolled_back (run ops started)) }) (run ops started)
      (rolled_back (run ops started)) (pos 5) refl refl refl refl refl refl refl
