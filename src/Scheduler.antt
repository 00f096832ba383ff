-- ===== src/Scheduler.antt =====
-- scheduler/: leases, the status of Work Units, and the operations of `Scheduler`.
pub mod Lease
pub mod Lifecycle
pub mod Tables
pub mod Attempts
pub mod Assignments
pub mod Leasing
pub mod Results
pub mod Sweeper
pub mod Calls
pub mod Effects
pub mod Invariant
pub mod History
pub mod Atomicity
pub mod Leases
pub mod Submission
pub mod Secrecy
pub mod Ownership
pub mod Sweeping
