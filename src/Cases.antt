-- ===== src/Cases.antt =====
-- apps/api/src/apbra_api/authorization.py and `CaseService` of application.py.
pub mod Authorization
pub mod Service
pub mod Resolution
pub mod Access
pub mod Revocation
pub mod SelfGrant
pub mod Versions
pub mod Creation
mod Tests
