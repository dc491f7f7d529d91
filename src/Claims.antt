-- ===== src/Claims.antt =====
-- src/core/intake_claims.py: the checks of the claims that a model extracted from an invoice.
pub mod Anchor
pub mod Located
pub mod First
pub mod Found
pub mod Values
pub mod Validate
pub mod Passed
mod Tests
