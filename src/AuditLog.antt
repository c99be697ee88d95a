-- ===== src/AuditLog.antt =====
-- The audit log of the proxy: backend/internal/features/audit-log/service.go.
pub mod Types
pub mod Specs
pub mod Log
pub mod Paging
pub mod Rows
pub mod Consistent
pub mod Hydrated
pub mod Created
mod Tests
