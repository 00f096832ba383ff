-- ===== src/Capacity.antt =====
-- The pairing of workers and backends in capacity/.
pub mod Validators
pub mod Pairing
