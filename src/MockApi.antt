-- ===== src/MockApi.antt =====
-- The API spec feature, backend/internal/features/api-specs.
pub mod Types
pub mod Routes
pub mod Validation
pub mod Directory
pub mod Examples
pub mod Lookup
pub mod Save
pub mod Store
