-- ===== src/OpenApi.antt =====
pub mod Schemas
pub mod Paths
pub mod Operations
pub mod Import
mod Tests
