-- ===== src/Foundry/Report.antt =====
-- apps/api/src/apbra_api/foundry_report_runtime.py: an approval of one report, and the calls of the
-- provider that it pays for.
pub mod Types
pub mod Approval
pub mod Reservations
pub mod Budget
pub mod Sound
pub mod Stages
pub mod Ended
mod Tests
