-- ===== src/Store/Rows.antt =====
-- The rows of persistence.py as records. A table lists its rows in the order of their creation,
-- which stands for `created_at`; a time is a number.
use apbra.Prelude.{ℕ, Bool, Option, List, String, Fallible}
use apbra.Store.ConversationRows.{ConversationEventRow, ClarificationCycleRow, InterpretationRow}
use apbra.Domain.{Role, AccessLevel, ApplicationError}

pub record CompanyRow : Type 0 where
  pub id : ℕ
  pub name : String
  pub active : Bool

pub record ExternalIdentityRow : Type 0 where
  pub id : ℕ
  pub provider_profile_id : String
  pub issuer : String
  pub subject : String
  pub display_name : String
  pub active : Bool

pub record MembershipRow : Type 0 where
  pub id : ℕ
  pub company_id : ℕ
  pub identity_id : ℕ
  pub role : Role
  pub active : Bool

pub record InvitationRow : Type 0 where
  pub id : ℕ
  pub company_id : ℕ
  pub issued_by_membership_id : ℕ
  pub invited_issuer : String
  pub invited_subject : String
  pub provider_profile_id : String
  pub role : Role
  pub token_digest : String
  pub expires_at : ℕ
  pub revoked_at : Option ℕ
  pub consumed_at : Option ℕ
  pub consumed_by_identity_id : Option ℕ

pub record CaseRow : Type 0 where
  pub id : ℕ
  pub company_id : ℕ
  pub creator_membership_id : ℕ
  pub current_request_version_id : ℕ
  pub version : ℕ
  pub semantic_context_version : ℕ
  pub report_title : String
  pub updated_at : ℕ

pub record RequestVersionRow : Type 0 where
  pub id : ℕ
  pub case_id : ℕ
  pub company_id : ℕ
  pub sequence : ℕ
  pub request_text : String
  pub created_by_membership_id : ℕ

pub record CaseAccessRow : Type 0 where
  pub case_id : ℕ
  pub company_id : ℕ
  pub membership_id : ℕ
  pub access_level : AccessLevel
  pub active : Bool
  pub revoked_at : Option ℕ

pub record IdempotencyRow : Type 0 where
  pub company_id : ℕ
  pub membership_id : ℕ
  pub operation : String
  pub command_key : String
  pub payload_digest : String
  pub resource_id : ℕ

-- What the program encodes as the JSON text `details_json`.
pub data Details : Type 0 where
  no_details : Details
  of_membership : ℕ → Details
  of_role_change : Role → Role → Details
  of_grant : ℕ → AccessLevel → Details
  of_settings : ℕ → Details
  of_artifact : ℕ → String → Details

pub record AuditEventRow : Type 0 where
  pub company_id : ℕ
  pub actor_membership_id : ℕ
  pub event_type : String
  pub resource_type : String
  pub resource_id : ℕ
  pub details : Details

pub record SessionRow : Type 0 where
  pub id : ℕ
  pub token_digest : String
  pub provider_profile_id : String
  pub identity_id : ℕ
  pub membership_id : Option ℕ
  pub expires_at : ℕ
  pub revoked_at : Option ℕ

pub record TenantSettingsCurrentRow : Type 0 where
  pub company_id : ℕ
  pub version_id : ℕ
  pub version : ℕ

pub record TenantSettingsVersionRow : Type 0 where
  pub id : ℕ
  pub company_id : ℕ
  pub version : ℕ

pub record CompanyCreationCommandRow : Type 0 where
  pub identity_id : ℕ
  pub command_key : String
  pub payload_digest : String
  pub company_id : ℕ
  pub membership_id : ℕ

pub record Store : Type 0 where
  pub companies : List CompanyRow
  pub identities : List ExternalIdentityRow
  pub memberships : List MembershipRow
  pub invitations : List InvitationRow
  pub cases : List CaseRow
  pub request_versions : List RequestVersionRow
  pub case_access : List CaseAccessRow
  pub idempotency_records : List IdempotencyRow
  pub audit_events : List AuditEventRow
  pub sessions : List SessionRow
  pub creation_commands : List CompanyCreationCommandRow
  pub settings_current : List TenantSettingsCurrentRow
  pub settings_versions : List TenantSettingsVersionRow
  pub conversation_events : List ConversationEventRow
  pub clarification_cycles : List ClarificationCycleRow
  pub interpretations : List InterpretationRow

-- A call raises, and its transaction is rolled back, or returns a value and the store it commits.
abbrev pub Outcome {ℓ} : Type ℓ → Type ℓ
Outcome A = Fallible ApplicationError A
