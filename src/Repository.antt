-- ===== src/Repository.antt =====
-- backend/internal/repository: the database as the backend sees it, transactions, and the stores
-- of the aggregates. What each of them does is proved in the modules below.
mod Database
pub mod Calls
mod Tables
pub mod Store
pub mod Security
pub mod Directives
pub mod Paging
unfoldable pub use Database.*
pub use Tables.*
