-- ===== src/Seal.antt =====
-- src/core/seal_manifest.py and src/platform/authority_seal_repository.py: the approval of a
-- recommendation and its seal.
pub mod Manifest
pub mod Inputs
pub mod Approve
pub mod Effects
pub mod Unique
pub mod Made
pub mod Answers
