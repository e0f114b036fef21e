-- ===== src/Service/Confirmation.antt =====
-- backend/internal/service/execution_confirmation.go
mod Defs
pub mod Admit
pub mod Commit
pub mod Effects
pub mod Uniqueness
pub mod Reads
unfoldable pub use Defs.*
