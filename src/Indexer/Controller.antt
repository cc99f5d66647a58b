-- ===== src/Indexer/Controller.antt =====
-- The cluster controller around the indexer's drain check (controllers/wazuhcluster_controller.go, step
-- 3 of Reconcile): the working copy of the status, what of it is written, and the deferred reset.
use wazuh_operator.Common.{List, [], ◌∷◌, Bool, Time, if◌then◌else◌}
use wazuh_operator.Drain.Worker.{Decision, wait, proceed, proceed_and_reset}
use wazuh_operator.Indexer.Server.{Server}
use wazuh_operator.Indexer.Check.{
  IndexerState, IndexerEnv, check_indexer_scale_down, reset_indexer_drain, decide_indexer,
}

-- One reconciliation: what it sees, the server's store when it runs, and whether a write of the
-- status was reached and accepted.
pub record Reconciliation (S : Type 0) : Type 0 where
  pub env : IndexerEnv
  pub server_store : S
  pub written : Bool

-- The reset that is deferred where the drain is complete.
unfoldable pub deferred : {S : Type 0} → Decision → Time → IndexerState S → IndexerState S
unfolding reset_indexer_drain
deferred wait now st = st
deferred proceed now st = st
deferred proceed_and_reset now st = reset_indexer_drain now st

module _ (sv : Server) where
  open sv use {Store}

  abbrev pub seen : Reconciliation Store → IndexerState Store → IndexerState Store
  seen r st = record st { store = r.server_store }

  -- Between reconciliations the API server keeps the status, and the operator's memory the drainer.
  -- ResetDrainState is deferred: it runs on the working copy, after the last write of the status.
  unfoldable pub reconcile_indexer_drain :
      Reconciliation Store → IndexerState Store → IndexerState Store
  unfolding check_indexer_scale_down decide_indexer deferred
  reconcile_indexer_drain r st =
      let (working, answer) = check_indexer_scale_down sv r.env (seen r st) in
      let after = deferred (decide_indexer answer) r.env.now working in
      record {
        drainer = after.drainer;
        status = if r.written then working.status else st.status;
        store = working.store;
      }

  unfoldable pub reconcile_all :
      List (Reconciliation Store) → IndexerState Store → IndexerState Store
  unfolding reconcile_indexer_drain
  reconcile_all [] st = st
  reconcile_all (r ∷ rs) st = reconcile_all rs (reconcile_indexer_drain r st)
