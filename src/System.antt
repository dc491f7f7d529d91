-- ===== src/System.antt =====
-- The transactions of src/platform over the same tables: ingestion, extraction, approval, draft and
-- send. Each is serializable, so a sequence of them stands for every interleaving of their callers.
pub mod History
pub mod Invariant
pub mod Replay
mod Tests
