-- ===== src/Lib.antt =====
-- Verification library of the Wazuh operator for Kubernetes (Go): the parts of the operator that
-- decide when workloads are scaled down or restarted, when volumes grow and the certificate
-- authority is renewed, and the version logic they rest on.
--
-- Program and files
-- * internal/shared/drain/state.go, the state machine of a drain: Drain/Status.antt has the types
--   of api/v1/shared_types.go (DrainPhase, ComponentDrainStatus, DrainRetryConfig),
--   Drain/State.antt the functions under their names (TransitionTo is `transition`, and
--   `transition_to` at a pointer). Drain/State/Edges.antt gives the diagram of the phases,
--   Drain/State/Traces.antt runs of operations.
-- * internal/shared/drain/detection.go, which pods a scale-down removes: Drain/Detection.antt
--   (DetectStatefulSetScaleDown is `detect_scale_down`), with Drain/Detection/Targets.antt and
--   Drain/Detection/Ordinals.antt.
-- * internal/wazuh/drain/retry.go, retries: Drain/Retry.antt (CalculateNextRetryTime is
--   `retry_delay` and `calculate_next_retry_time`), with Drain/Retry/Backoff.antt and
--   Drain/Retry/Attempts.antt.
-- * internal/wazuh/drain/rollback.go, rollbacks: Drain/Rollback.antt, over the client of
--   Kube.antt, with Drain/Rollback/Restores.antt.
-- * internal/wazuh/drain/manager_drain.go, the drain of a worker's event queue:
--   Drain/Manager.antt, with Drain/Manager/Monitor.antt and Drain/Manager/Wait.antt.
-- * internal/wazuh/reconciler/worker_reconciler.go (CheckScaleDownDrain and its helpers,
--   ResetDrainState) and step 5 of the reconciliation in controllers/wazuhcluster_controller.go:
--   Drain/Worker.antt, with Drain/Worker/Gate.antt, Drain/Worker/Liveness.antt,
--   Drain/Worker/Stuck.antt, Drain/Worker/Refilled.antt and Drain/Worker/Rounds.antt.
-- * The contract of a drain check, to which those of the workers and the indexer are held, is
--   Drain/Round.antt, a relation between the phase before, the controller's decision and the phase
--   after.
-- * internal/opensearch/drain/indexer_drain.go, the drain of OpenSearch nodes, over the calls of
--   internal/opensearch/api/cluster_api.go: Indexer/Server.antt (the calls), Indexer/Drainer.antt
--   (one node), Indexer/Pool.antt (the nodes of a pool), with Indexer/Progress.antt and
--   Indexer/Exclusion.antt.
-- * internal/opensearch/reconciler/indexer_reconciler.go, its drain checks: Indexer/Check.antt
--   (CheckScaleDownDrain and its helpers), with Indexer/Gate.antt and Indexer/Rounds.antt;
--   Indexer/PoolCheck.antt (checkNodePoolScaleDownDrain), with the modules Safety, Quorum and
--   Shared below it.
-- * Step 3 of the reconciliation in controllers/wazuhcluster_controller.go, with what of the
--   status is written: Indexer/Controller.antt, with Indexer/Traces.antt.
-- * internal/shared/rolling, rolling restarts: Rolling.antt, with Rolling/Safety.antt and
--   Rolling/Progress.antt.
-- * The versions of pkg/versions/versions.go: Versions.antt (parsing, order and the table) and
--   Versions/Support.antt (what a version supports), with Versions/Order.antt and, beside it,
--   Format, Lookup, Table, HotReload, Plugin and Supported.
-- * internal/opensearch/validation/nodepool_validator.go, which node pools are accepted:
--   NodePools.antt (ValidateNodePools is `validate_node_pools`), with NodePools/Accepted.antt and
--   NodePools/Consistent.antt.
-- * The retries and rollbacks at the start of a reconciliation (checkAndHandleRetry,
--   verifyRollbackComplete of controllers/wazuhcluster_controller.go): Drain/Recovery.antt, with
--   Drain/Recovery/Settled.antt and Drain/Worker/Retried.antt.
-- * Dry runs (EvaluateFeasibility of both drainers, internal/wazuh/drain/dryrun.go, evaluateDryRun
--   of the controller): Drain/DryRun.antt, with Drain/DryRun/Feasible.antt, and
--   Indexer/DryRun.antt, with Indexer/DryRun/Ready.antt.
-- * internal/shared/storage, the size of volumes: Storage.antt (ValidateExpansion, ExpandPVC and
--   their helpers), Storage/Status.antt; Storage/Process.antt (processVolumeExpansion of
--   internal/wazuh/reconciler/cluster_reconciler_volume.go), with Storage/Sizes.antt and
--   Storage/Completed.antt.
-- * internal/utils/maintenance_window.go, the maintenance windows: Certificates/Windows.antt, with
--   Certificates/LastStart.antt, Certificates/InWindow.antt and Certificates/Hangs.antt.
-- * internal/certificates/common/duration.go (ParseCertDuration, FormatCertDuration):
--   Certificates/Durations.antt, with Certificates/Durations/Printed.antt.
-- * checkCAMaintenanceWindow of internal/certificates/reconciler/certificate_maintenance.go,
--   whether the certificate authority may be renewed now: Certificates/Maintenance.antt, with
--   Certificates/Broken.antt, Certificates/Closed.antt and Certificates/Refused.antt.
-- * Common.antt and its modules: the names of the libraries, Boolean tests, lists, integers of a
--   width, texts, decimal numbers and instants. Kube.antt: the Kubernetes objects and the client.
-- * The modules Examples of Drain, Rolling, Versions, NodePools, Indexer, Storage and
--   Certificates: the results at concrete inputs.
--
-- How the parts interact. In each reconciliation the controller calls CheckScaleDownDrain, which
-- detects a scale-down, drives the state machine of the drain status with the reports of the queue
-- drainer, and answers whether to wait; for the indexer likewise with the drainer of shards, and
-- for each node pool when its StatefulSet is reconciled. Retries and rollbacks read and write the
-- same status. The validation of node pools runs before the indexer is reconciled. The state of a
-- reconciliation is a record of the drainer and the drain status; a function that writes through a
-- pointer returns what the pointer then holds.
--
-- Conventions and bounds. A text is a list of codes. Numbers of Go are integers with the
-- wrap-around of their width written out at each operation; results on arithmetic state the range
-- they need. An instant is a number of nanoseconds, and a call reads the clock once, as an
-- argument. A pointer is an option, a result with an error is a value or an error's text. The loop
-- over pods of GetAllTargetPods has fuel; fuel above the number of pods is enough. The loop of a
-- back-off runs on the rounds left. The loop of WaitForDrainComplete runs over the events that its
-- select receives. The loop of IsWithinWindow has fuel; for a schedule that always has a next
-- start, the nanoseconds of the duration and of a day, and two more, are enough.
--
-- Parameters. The Kubernetes API server is a client over a store (Kube.antt), with the law that an
-- accepted update is read back; quantities and the client of volumes are records of Storage.antt;
-- the OpenSearch server is a record of calls over a store of its own (Server of
-- Indexer/Server.antt), with the law, where a result needs it, that an accepted PUT replaces the
-- excluded name (Replaces); the cron library and the time zones are a record of functions
-- (Calendar of Certificates/Windows.antt), with what it documents of Next as a hypothesis; the
-- answers of the Wazuh API and of a health check are arguments; floating point numbers are a
-- record of operations; the order in which Go walks a map is an argument.
--
-- Not modelled: metrics, events and logs, which nothing reads back; the construction of Kubernetes
-- objects and configuration files, which is text without state; the creation of X.509
-- certificates, which a library does, and reconcileCA around it; networking; the lists that the
-- reconcilers ask the API server for; the restarts after a renewal of certificates, the merging of
-- maps, change detection, disruption budgets and the validation of specs and passwords, on which
-- nothing that is modelled depends.
pub mod Common
pub mod Kube
pub mod Drain
pub mod Rolling
pub mod Versions
pub mod NodePools
pub mod Indexer
pub mod Storage
pub mod Certificates
