-- ===== src/Models.antt =====
-- The check that every model of models/ makes before it reads its fields.
pub mod Forbidden
