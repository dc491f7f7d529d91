-- ===== src/Events.antt =====
-- src/platform/intake_tasks.py, _lock_invoice_and_advance and _insert_event: the events of an
-- invoice and their numbers, for the transactions of every part.
pub mod Numbering
pub mod Log
