-- ===== src/Tests.antt =====
-- The theorems at concrete inputs: a small database, its clock and identifiers, and runs on it.
pub mod Data
mod Scheduling
mod Submitting
mod Reports
mod Books
mod Routing
mod Analysing
