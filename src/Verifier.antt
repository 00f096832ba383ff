-- ===== src/Verifier.antt =====
-- tokenbank/verifier: the checks of a result envelope and the recommendation of a report.
pub mod Common
pub mod Tasks
pub mod Runner
pub mod Secrets
pub mod Acceptance
pub mod Leaks
