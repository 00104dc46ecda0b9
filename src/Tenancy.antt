-- ===== src/Tenancy.antt =====
-- apps/api/src/apbra_api/application.py: the services that decide who belongs to a company.
mod Manage
pub mod Memberships
pub mod Invitations
pub mod Company
pub mod Founding
pub mod OneCompany
pub mod Owners
pub mod Acceptance
mod Tests
mod CompanyTests
