-- ===== src/Drain.antt =====
-- Safe scale-down: the drain status of a component, its state machine (internal/shared/drain),
-- retries and rollbacks (internal/wazuh/drain).
pub mod Status
pub mod State
pub mod Detection
pub mod Retry
pub mod Rollback
pub mod Manager
pub mod Worker
pub mod Round
pub mod Recovery
pub mod DryRun
pub mod Examples
