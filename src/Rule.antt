-- ===== src/Rule.antt =====
-- src/core/applicable_rule.py: which retrieved clause may govern an invoice.
pub mod Candidate
pub mod Decide
pub mod Applicable
pub mod Rejection
pub mod Least
pub mod Choice
mod Tests
