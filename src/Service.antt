-- ===== src/Service.antt =====
-- backend/internal/service: the business rules over the repositories.
pub mod Common
pub mod Security
pub mod GateMove
pub mod Reservoir
pub mod Gate
pub mod Directive
pub mod Confirmation
pub mod Login
pub mod Reports
