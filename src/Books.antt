-- ===== src/Books.antt =====
-- The control plane with its books: the calls on the scheduler, the usage ledger and the audit
-- receipts, in any order, over one database.
pub mod Reads
pub mod Effects
pub mod Invariant
pub mod Requests
pub mod Serving
pub mod Asking
pub mod Repeated
pub mod Inserting
pub mod Delivery
