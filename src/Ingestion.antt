-- ===== src/Ingestion.antt =====
-- src/platform/intake_repository.py and src/platform/intake_api.py: how an invoice is received.
pub mod Requests
pub mod Finalize
pub mod Effects
pub mod Answers
pub mod Replay
pub mod Log
