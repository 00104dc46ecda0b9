-- ===== src/Store/Companies.antt =====
-- The queries and writes of `ApplicationSession` for the creation of a company, with the first version of
-- its settings, which tenant_settings.py writes. Identifiers and times are arguments.
use apbra.Prelude.{
  ℕ, Bool, true, not, ◌&&◌, Option, some, [], ◌∷◌, ◌++◌, String, str_eq, ◌==◌, ltb, ok, ◌>>=◌, ◌>>◌,
  require, some_or, is_none, any, find, modify_first,
}
use apbra.Domain.{company_owner, authentication_required, conflict, integrity_error}
use apbra.Store.Rows.{
  CompanyRow, ExternalIdentityRow, MembershipRow, InvitationRow, SessionRow,
  CompanyCreationCommandRow, of_settings, no_details, Store, Outcome,
}
use apbra.Store.Query.{actor_of, company_is_active}
use apbra.Store.Write.{add_audit, insert_membership}

unfoldable pub lock_active_session_for_creation : Store → ℕ → ℕ → ℕ → Outcome SessionRow
lock_active_session_for_creation s session_id identity_id now =
    some_or
      (find
        (λ row.
          row.id == session_id
          && row.identity_id == identity_id
          && is_none row.revoked_at
          && ltb now row.expires_at)
        s.sessions)
      authentication_required

abbrev pub is_creation_command : ℕ → String → CompanyCreationCommandRow → Bool
is_creation_command identity_id key row =
    row.identity_id == identity_id && str_eq row.command_key key

unfoldable pub company_creation_command : Store → ℕ → String → Option CompanyCreationCommandRow
company_creation_command s identity_id key =
    find (is_creation_command identity_id key) s.creation_commands

abbrev pub is_company : ℕ → CompanyRow → Bool
is_company company_id row = row.id == company_id

unfoldable pub company : Store → ℕ → Option CompanyRow
company s company_id = find (is_company company_id) s.companies

abbrev pub is_active_membership : Store → ℕ → MembershipRow → Bool
is_active_membership s identity_id row =
    row.identity_id == identity_id && row.active && company_is_active s row.company_id

unfoldable pub active_identity_membership : Store → ℕ → Option MembershipRow
active_identity_membership s identity_id = find (is_active_membership s identity_id) s.memberships

abbrev pub is_eligible : Store → ExternalIdentityRow → ℕ → InvitationRow → Bool
is_eligible s identity now row =
    str_eq row.provider_profile_id identity.provider_profile_id
    && str_eq row.invited_issuer identity.issuer
    && str_eq row.invited_subject identity.subject
    && is_none row.revoked_at
    && is_none row.consumed_at
    && ltb now row.expires_at
    && company_is_active s row.company_id

unfoldable pub eligible_invitation_for_identity : Store → ExternalIdentityRow → ℕ → Bool
eligible_invitation_for_identity s identity now = any (is_eligible s identity now) s.invitations

-- The first version of the settings: the text of the template is left aside.
unfoldable pub create_private_preview_initial_settings : Store → ℕ → ℕ → Outcome Store
create_private_preview_initial_settings s company_id settings_id = do
  require (not (any (λ row. row.company_id == company_id) s.settings_current)) conflict
  require (not (any (λ row. row.id == settings_id) s.settings_versions)) integrity_error
  ok (record s {
    settings_versions =
        s.settings_versions
        ++ record { id = settings_id; company_id = company_id; version = 1 } ∷ [];
    settings_current =
        s.settings_current
        ++ record { company_id = company_id; version_id = settings_id; version = 1 } ∷ [];
  })

-- The identifiers that a creation draws.
pub record NewIds : Type 0 where
  pub company_id : ℕ
  pub membership_id : ℕ
  pub settings_id : ℕ

abbrev pub founded : String → NewIds → CompanyRow
founded name ids = record { id = ids.company_id; name = name; active = true }

abbrev pub founder : ExternalIdentityRow → NewIds → MembershipRow
founder identity ids = record {
  id = ids.membership_id;
  company_id = ids.company_id;
  identity_id = identity.id;
  role = company_owner;
  active = true;
}

abbrev pub command_of : ExternalIdentityRow → String → String → NewIds → CompanyCreationCommandRow
command_of identity command_key payload_digest ids = record {
  identity_id = identity.id;
  command_key = command_key;
  payload_digest = payload_digest;
  company_id = ids.company_id;
  membership_id = ids.membership_id;
}

abbrev pub with_membership : ℕ → SessionRow → SessionRow
with_membership membership_id session = record session { membership_id = some membership_id }

-- `locked_session.membership_id = …`
abbrev pub bind_session : SessionRow → ℕ → Store → Store
bind_session session membership_id s = record s {
  sessions = modify_first (λ row. row.id == session.id) (with_membership membership_id) s.sessions;
}

-- The unique constraints of a creation command.
abbrev pub is_new_command : Store → CompanyCreationCommandRow → Bool
is_new_command s row =
    not (any (is_creation_command row.identity_id row.command_key) s.creation_commands)
    && not (any (λ old. old.company_id == row.company_id) s.creation_commands)
    && not (any (λ old. old.membership_id == row.membership_id) s.creation_commands)

unfoldable pub create_company_with_owner :
    Store
    → ExternalIdentityRow
    → SessionRow
    → String
    → String
    → String
    → NewIds
    → Outcome (CompanyRow × MembershipRow × Store)
create_company_with_owner s identity session name command_key payload_digest ids = do
  require (session.identity_id == identity.id && is_none session.revoked_at) authentication_required
  require (not (any (is_company ids.company_id) s.companies)) integrity_error
  s₁ ←
      insert_membership (record s { companies = s.companies ++ founded name ids ∷ [] })
        (founder identity ids)
  s₂ ← create_private_preview_initial_settings s₁ ids.company_id ids.settings_id
  require (is_new_command s₂ (command_of identity command_key payload_digest ids)) integrity_error
  let actor = actor_of (founder identity ids) identity
  let s₃ =
      add_audit s₂ actor "COMPANY_CREATED" "COMPANY" ids.company_id (of_settings ids.settings_id)
  let s₄ = add_audit s₃ actor "MEMBERSHIP_CREATED" "MEMBERSHIP" ids.membership_id no_details
  ok (
    founded name ids,
    founder identity ids,
    bind_session session ids.membership_id (record s₄ {
      creation_commands =
          s₄.creation_commands ++ command_of identity command_key payload_digest ids ∷ [];
    }),
  )
