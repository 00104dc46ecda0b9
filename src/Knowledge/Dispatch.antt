-- ===== src/Knowledge/Dispatch.antt =====
-- apps/api/src/apbra_api/knowledge_dispatch.py: what is sent to a document provider, and what is
-- known of the outcome.
pub mod Types
pub mod Summary
pub mod Service
pub mod Claims
pub mod Claimed
pub mod Sends
pub mod Repeat
pub mod Receipts
mod Tests
