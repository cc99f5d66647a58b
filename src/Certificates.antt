-- ===== src/Certificates.antt =====
-- The renewal of the certificate authority: its durations
-- (internal/certificates/common/duration.go), and the decision of checkCAMaintenanceWindow
-- (internal/certificates/reconciler/certificate_maintenance.go) whether it may be renewed now.
pub mod Windows
pub mod LastStart
pub mod InWindow
pub mod Hangs
pub mod Durations
pub mod Maintenance
pub mod Broken
pub mod Closed
pub mod Refused
pub mod Examples
