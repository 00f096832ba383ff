-- ===== src/Ledger.antt =====
-- The usage ledger of ledger/usage.py. The identifier and version of the routebook, which is read from
-- YAML files, are arguments. A body column holds a `dict`.
pub mod Amounts
pub mod Bodies
pub mod Entry
pub mod Repository
pub mod Recording
pub mod Billing
