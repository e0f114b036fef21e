-- ===== src/System.antt =====
-- The operations that the handlers reach, as requests, and what a request leaves in the database
-- (backend/internal/handler: each write handler makes one call of its service).
pub mod Preserved
pub mod Audit
mod Reservoirs
mod Gates
mod Directives
mod Confirmations
pub mod Requests
pub mod Safety
pub mod Lifecycle
pub mod Atomicity
pub use Requests.{Request, perform, serve}
