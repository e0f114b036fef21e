-- ===== src/Model.antt =====
-- backend/internal/model: the records that the database keeps. A point in time is a number of
-- nanoseconds (UTC), a float64 is its bit pattern (the backend only copies it), `*time.Time` and
-- gorm.DeletedAt are options.
mod Base
mod Aggregates
mod Security
pub use Base.*
pub use Aggregates.*
pub use Security.*
