-- ===== src/Proxy.antt =====
-- The public proxy: backend/internal/features/proxy/handler.go.
pub mod Config
pub mod Forward
pub mod Handler
pub mod Headers
pub mod Preview
pub mod RateLimit
pub mod Security
pub mod Services
pub mod Settings
