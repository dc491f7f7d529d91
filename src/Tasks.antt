-- ===== src/Tasks.antt =====
-- src/platform/intake_tasks.py: the leases of extraction tasks and the transactions that end them.
pub mod Claim
pub mod Fail
pub mod Complete
pub mod Retry
pub mod Keys
pub mod Effects
pub mod Lease
pub mod Steps
pub mod Spent
pub mod Fencing
pub mod Exclusive
pub mod Log
pub mod Frame
pub mod Invariant
pub mod Policy
pub mod Replay
mod Tests
