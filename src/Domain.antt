-- ===== src/Domain.antt =====
-- apps/api/src/apbra_api/domain.py: who acts, and with which rights.
use apbra.Prelude.{ℕ, Bool, true, false, String}

pub data Role : Type 0 where
  company_owner company_admin member expert : Role

-- `Role.can_invite`
abbrev pub can_invite : Role → Bool
can_invite company_owner = true
can_invite company_admin = true
can_invite member = false
can_invite expert = false

pub record Actor : Type 0 where
  pub identity_id : ℕ
  pub membership_id : ℕ
  pub company_id : ℕ
  pub issuer : String
  pub subject : String
  pub display_name : String
  pub role : Role
  pub provider_profile_id : String

pub data AccessLevel : Type 0 where
  owner editor viewer : AccessLevel

-- `AccessLevel.can_edit`
abbrev pub can_edit : AccessLevel → Bool
can_edit owner = true
can_edit editor = true
can_edit viewer = false

-- The exceptions of domain.py that the modelled services raise; `integrity_error` is the
-- database's, for a row that would break a constraint, and `assertion_error` Python's.
pub data ApplicationError : Type 0 where
  authentication_required forbidden protected_resource_not_found conflict : ApplicationError
  stale_version idempotency_conflict last_owner_required invitation_invalid : ApplicationError
  integrity_error assertion_error company_creation_not_available : ApplicationError
  company_name_invalid profile_invalid configuration_unavailable : ApplicationError
  semantic_validation_failed intelligent_analysis_unavailable : ApplicationError
  generation_unavailable generation_failed reviewed_design_required : ApplicationError
  artifact_unavailable ai_authored_geometry_required : ApplicationError
