-- ===== src/Conversation.antt =====
-- apps/api/src/apbra_api/application.py: `ConversationService`, and the clarification cycles and
-- interpretations of `AcceptanceService`.
pub mod Answers
pub mod Events
pub mod Cycles
pub mod Interpretations
pub mod Changes
pub mod CycleChanges
pub mod Runs
pub mod CycleRows
pub mod Sequences
pub mod Numbers
pub mod Rounds
pub mod Recorded
pub mod Retry
pub mod Refinement
mod Tests
