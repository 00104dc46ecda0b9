-- ===== src/Generation.antt =====
-- apps/api/src/apbra_api/generation.py: `GenerationService`, with its tables and queries of
-- persistence.py.
pub mod Rows
pub mod Query
pub mod Eligible
pub mod Earlier
pub mod Start
pub mod Finish
pub mod Access
pub mod Written
pub mod FinishWritten
pub mod Active
pub mod Ends
pub mod Ending
mod Tests
