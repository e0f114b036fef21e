-- ===== src/Startup.antt =====
-- backend/internal/database/database.go: how the backend starts. The records that it seeds, the order
-- in which it writes them, and how it waits for the database.
pub mod Records
pub mod Seed
pub mod Connect
pub mod Safe
pub mod Fill
pub mod Once
pub mod Ready
