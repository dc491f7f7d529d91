-- ===== src/Reconstruction.antt =====
-- src/core/reconstruction.py: what the retained shipment memory proves of each charged day. The
-- definitions are in the first three modules below, the proofs in the others.
pub mod Events
pub mod Days
pub mod Access
pub mod Adjudication
pub mod Window
pub mod Validation
pub mod Ordering
pub mod Timeline
mod Tests
