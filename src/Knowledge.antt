-- ===== src/Knowledge.antt =====
-- The knowledge documents of a company: apps/api/src/apbra_api/knowledge_*.py.
pub mod Lifecycle
pub mod Dispatch
pub mod Documents
