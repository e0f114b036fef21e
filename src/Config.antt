-- ===== src/Config.antt =====
-- backend/internal/config/config.go: the settings, how they are read from the environment, and their
-- validation.
pub mod Values
pub mod Valid
pub mod Load
pub mod Safe
pub mod Causes
pub mod Lists
unfoldable pub use gb_516_hydropower_gate_d.Config.Values.*
unfoldable pub use gb_516_hydropower_gate_d.Config.Load.*
