-- ===== src/Repository/Calls.antt =====
-- How to read a run of a call: what its parts did when it succeeded, what a transaction leaves
-- behind when it did not, and which predicates on the database a call keeps.
pub mod Runs
pub mod Keeps
pub mod Atomic
