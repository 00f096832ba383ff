-- ===== src/Router/Scorer.antt =====
-- router/route_scorer.py: the hard filters of a candidate, the parts of its score, and the ranking.
pub mod Filters
pub mod Fits
pub mod Scores
pub mod Ranking
pub mod Selection
pub mod Passing
pub mod Safety
