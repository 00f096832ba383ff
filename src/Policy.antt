-- ===== src/Policy.antt =====
-- tokenbank/policy: the linting of extension keys, the checks of a route, and what a decision says.
pub mod Extensions
pub mod Checks
pub mod Evaluation
pub mod Verdict
pub mod Decision
