-- ===== src/Orm.antt =====
-- What the backend asks of gorm, statement by statement. gorm and the database are not part of the
-- repository, so the statements are a parameter with their documented behaviour as laws: a
-- statement that succeeds does to its table what the statement says; any statement may fail.
-- A table is the list of its rows in the order of their primary keys.
mod Defs
pub mod Memory
pub use Defs.*
