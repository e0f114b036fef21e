-- ===== src/Middleware.antt =====
-- backend/internal/middleware: what stands between a request and its handler.
pub mod RateLimit
pub mod Auth
pub mod RequestId
