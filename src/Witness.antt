-- ===== src/Witness.antt =====
-- Runs at concrete inputs: a database in memory, and what the theorems say of it.
mod Data
mod Directives
mod Confirmations
mod System
mod Parts
mod Texts
mod Settings
mod Start
mod Pages
mod Lifecycle
mod Limits
mod Access
mod Logins
mod Creation
