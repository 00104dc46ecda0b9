-- ===== src/Store.antt =====
-- apps/api/src/apbra_api/persistence.py: the tables of tenancy and cases, and the queries and
-- writes of `ApplicationSession` on them.
pub mod ConversationRows
pub mod Rows
pub mod Query
pub mod Write
pub mod Companies
pub mod Conversations
pub mod Ends
pub mod Samples
