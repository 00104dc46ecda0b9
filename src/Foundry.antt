-- ===== src/Foundry.antt =====
-- apps/api/src/apbra_api/foundry_*.py: what may be spent on a report, and the private channel.
pub mod Report
pub mod Frames
