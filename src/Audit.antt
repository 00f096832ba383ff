-- ===== src/Audit.antt =====
-- The audit receipts of audit/receipts.py. The identifier and version of the routebook, which is read
-- from YAML files, are arguments. A body column holds a `dict`.
pub mod Receipt
pub mod Repository
pub mod Acceptance
