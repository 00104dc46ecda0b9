-- ===== src/Tenancy/Company.antt =====
-- `CompanyService` and `ProfileService` of application.py. Identifiers and times are arguments.
use Prim.Native.Char.{code}
use Prim.Native.String.{count}
use apbra.Prelude.{
  ℕ, Bool, true, false, not, ◌&&◌, ◌||◌, none, some, String, str_eq, ◌==◌, ltb, ok, ◌>>=◌, ◌>>◌,
  require, some_or, is_none, find, modify_first, strip, is_blank,
}
use apbra.Domain.{
  authentication_required, idempotency_conflict, company_creation_not_available,
  company_name_invalid, profile_invalid, ApplicationError,
}
use apbra.Store.Rows.{
  CompanyRow, ExternalIdentityRow, MembershipRow, SessionRow, CompanyCreationCommandRow, Store,
  Outcome,
}
use apbra.Store.Query.{active_actor, identity_is_active, membership}
use apbra.Store.Companies.{
  lock_active_session_for_creation, company_creation_command, company, active_identity_membership,
  eligible_invitation_for_identity, NewIds, bind_session, create_company_with_owner,
}

-- `any(unicodedata.category(character) in {"Cc", "Cf"} …)`
abbrev pub any_control : (ℕ → Bool) → String → Bool
any_control is_control String.[] = false
any_control is_control (String.◌∷◌ c s) = is_control (code c) || any_control is_control s

-- The branch of `create` on a command that is known.
unfoldable pub created_before :
    Store
    → SessionRow
    → ExternalIdentityRow
    → CompanyCreationCommandRow
    → String
    → Outcome ((CompanyRow × MembershipRow) × Bool × Store)
created_before s session identity existing payload_digest = do
  require (str_eq existing.payload_digest payload_digest) idempotency_conflict
  actor ← some_or (active_actor s existing.membership_id identity.id) company_creation_not_available
  company_row ← some_or (company s existing.company_id) company_creation_not_available
  member ← some_or (membership s existing.company_id identity.id) company_creation_not_available
  require
      (member.active && member.id == existing.membership_id && actor.company_id == company_row.id)
      company_creation_not_available
  ok ((company_row, member), false, bind_session session actor.membership_id s)

-- `nfc` is `unicodedata.normalize("NFC", …)` and `is_control` the test of a character's category.
module _ (nfc : String → String) (is_control : ℕ → Bool) where
  unfoldable pub safe_display_name : String → ApplicationError → Outcome String
  safe_display_name value invalid = do
    let name = nfc (strip value)
    require (not (is_blank name) && not (ltb 200 (count name)) && not (any_control is_control name))
        invalid
    ok name

  -- `name_digest` is `canonical_payload` of the record that holds the name.
  module _ (name_digest : String → String) where
    -- The branch of `create` on a command that is new.
    unfoldable pub create_new :
        Store
        → ℕ
        → SessionRow
        → ExternalIdentityRow
        → String
        → String
        → String
        → NewIds
        → Outcome ((CompanyRow × MembershipRow) × Bool × Store)
    create_new s now session identity name command_key payload_digest ids = do
      require (is_none (active_identity_membership s identity.id)) company_creation_not_available
      require (not (eligible_invitation_for_identity s identity now)) company_creation_not_available
      (company_row, member, s') ←
          create_company_with_owner s identity session name command_key payload_digest ids
      ok ((company_row, member), true, s')

    -- What follows the locks of `create`.
    unfoldable pub create_locked :
        Store
        → ℕ
        → SessionRow
        → ExternalIdentityRow
        → String
        → String
        → NewIds
        → Outcome ((CompanyRow × MembershipRow) × Bool × Store)
    create_locked s now session identity name command_key ids =
        elim (company_creation_command s identity.id command_key) [
          | some existing ↦ created_before s session identity existing (name_digest name)
          | none ↦ create_new s now session identity name command_key (name_digest name) ids
        ]

    unfoldable pub create_company :
        Store
        → ℕ
        → ℕ
        → ExternalIdentityRow
        → String
        → String
        → NewIds
        → Outcome ((CompanyRow × MembershipRow) × Bool × Store)
    create_company s now session_id identity name command_key ids = do
      canonical_name ← safe_display_name name company_name_invalid
      require (identity_is_active s identity.id) authentication_required
      session ← lock_active_session_for_creation s session_id identity.id now
      create_locked s now session identity canonical_name command_key ids

  abbrev pub with_display_name : String → ExternalIdentityRow → ExternalIdentityRow
  with_display_name name row = record row { display_name = name }

  unfoldable pub update_profile :
      Store → ExternalIdentityRow → String → Outcome (ExternalIdentityRow × Store)
  update_profile s identity display_name = do
    name ← safe_display_name display_name profile_invalid
    row ←
        some_or (find (λ row. row.id == identity.id && row.active) s.identities)
          authentication_required
    ok (
      with_display_name name row,
      record s {
        identities =
            modify_first (λ row. row.id == identity.id && row.active) (with_display_name name)
              s.identities;
      },
    )
