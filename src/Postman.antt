-- ===== src/Postman.antt =====
-- The parser of Postman collections: backend/internal/postman/parser.go.
pub mod Types
pub mod Comments
pub mod Bodies
pub mod Paths
pub mod Collect
mod Tests
