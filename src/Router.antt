-- ===== src/Router.antt =====
-- The router of router/: what it reads of plans, profiles and backends, and its scorer.
pub mod Model
pub mod Floats
pub mod Scorer
pub mod Validator
pub mod Tokens
pub mod Privacy
pub mod Analyzer
