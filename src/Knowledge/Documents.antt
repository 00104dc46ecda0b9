-- ===== src/Knowledge/Documents.antt =====
-- apps/api/src/apbra_api/knowledge_documents.py: the stored form of a document's journal, and the
-- commands that extend it.
pub mod Journal
pub mod Drafts
pub mod Apply
pub mod Lookup
pub mod Rows
pub mod Written
pub mod Stored
pub mod Refines
pub mod Repeat
mod Codes
mod Tests
