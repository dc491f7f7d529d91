-- ===== src/Clerk.antt =====
-- src/core/clerk_steps.py and src/core/verdict.py: the timing check of an invoice and its verdict.
pub mod Timing
pub mod Verdict
pub mod Valid
pub mod Late
mod Tests
