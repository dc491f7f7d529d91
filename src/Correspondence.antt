-- ===== src/Correspondence.antt =====
-- src/core/correspondence.py, src/platform/correspondence_repository.py, src/platform/send_gates.py
-- and src/external/controlled_mail.py: the draft of a sealed decision, the gates that a controlled
-- send has to pass, and the send.
pub mod Gates
pub mod Permission
pub mod FactPack
pub mod Fresh
pub mod Provider
pub mod Draft
pub mod Send
pub mod Sending
pub mod Delivery
pub mod Retried
pub mod Replay
mod Tests
mod Trials
