-- ===== src/Indexer.antt =====
-- The indexer: the drain of OpenSearch nodes before a scale-down (internal/opensearch/drain, the
-- drain checks of internal/opensearch/reconciler/indexer_reconciler.go), over the calls of
-- internal/opensearch/api/cluster_api.go.
pub mod Server
pub mod Drainer
pub mod Check
pub mod Gate
pub mod Rounds
pub mod Exclusion
pub mod Progress
pub mod Pool
pub mod PoolCheck
pub mod Controller
pub mod Traces
pub mod DryRun
pub mod Examples
