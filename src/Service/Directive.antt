-- ===== src/Service/Directive.antt =====
-- backend/internal/service/operation_directive.go
mod Defs
pub mod Admit
pub mod Commit
pub mod Effects
pub mod GateEffects
pub mod Reads
pub mod Written
unfoldable pub use Defs.*
