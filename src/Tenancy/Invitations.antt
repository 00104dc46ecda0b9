-- ===== src/Tenancy/Invitations.antt =====
-- `InvitationService` of application.py. The token is an argument, since it is drawn at random, and
-- `sha256_text` is a parameter; times are in microseconds.
use apbra.Prelude.{
  ℕ, ◌+◌, ◌*◌, Bool, not, ◌&&◌, none, some, ok, err, ◌>>=◌, ◌>>◌, require, some_or, String, str_eq,
  ◌==◌, ltb, opt_eq, is_none, is_some, strip, is_blank, modify_first, if◌then◌else◌,
}
use apbra.Domain.{
  Role, company_owner, Actor, forbidden, conflict, invitation_invalid, authentication_required,
}
use apbra.Store.Rows.{ExternalIdentityRow, MembershipRow, InvitationRow, Store, Outcome, no_details}
use apbra.Store.Query.{
  role_eq, identity_is_active, active_company, active_actor, invitation, is_company_invitation,
  lock_company_invitation, membership,
}
use apbra.Store.Write.{add_audit, create_invitation, accept_invitation}
use apbra.Tenancy.Manage.{current_manager}

abbrev pub microseconds_per_day : ℕ
microseconds_per_day = 86_400_000_000

-- what the branch of `accept` on a consumed invitation returns
unfoldable pub accepted_before :
    Store → InvitationRow → ExternalIdentityRow → Outcome (MembershipRow × Store)
accepted_before s row identity = elim (membership s row.company_id identity.id) [
  | none ↦ err invitation_invalid
  | some existing ↦
      if opt_eq row.consumed_by_identity_id (some identity.id)
        && existing.active
        && is_some (active_actor s existing.id identity.id)
      then ok (existing, s)
      else err invitation_invalid
]

abbrev pub is_meant_for : ExternalIdentityRow → InvitationRow → Bool
is_meant_for identity row =
    str_eq row.invited_subject identity.subject
    && str_eq row.invited_issuer identity.issuer
    && str_eq row.provider_profile_id identity.provider_profile_id

abbrev pub is_open : ℕ → InvitationRow → Bool
is_open now row = is_none row.revoked_at && ltb now row.expires_at

-- the branch of `accept` on an invitation that nobody has consumed
unfoldable pub accept_open :
    Store → ℕ → ℕ → InvitationRow → ExternalIdentityRow → Outcome (MembershipRow × Store)
accept_open s now id row identity = do
  require (is_open now row) invitation_invalid
  require (is_meant_for identity row) invitation_invalid
  require (identity_is_active s identity.id) authentication_required
  require (is_none (membership s row.company_id identity.id)) conflict
  accept_invitation s now id row identity

abbrev pub revoked : ℕ → InvitationRow → InvitationRow
revoked now row = record row { revoked_at = some now }

module _ (sha256_text : String → String) where
  unfoldable pub issue :
      Store → Actor → ℕ → ℕ → String → String → Role → ℕ → Outcome (InvitationRow × String × Store)
  issue s actor now id raw_token invited_subject role expires_in_days = do
    current ← current_manager s actor
    require (not (role_eq role company_owner)) forbidden
    let subject = strip invited_subject
    require (not (is_blank subject)) conflict
    (row, s') ←
        create_invitation s current id subject role (sha256_text raw_token)
          (now + expires_in_days * microseconds_per_day)
    ok (row, raw_token, s')

  unfoldable pub inspect : Store → ℕ → String → Outcome InvitationRow
  inspect s now raw_token = do
    row ← some_or (invitation s (sha256_text raw_token)) invitation_invalid
    require
        (is_none row.revoked_at
          && is_none row.consumed_at
          && ltb now row.expires_at
          && is_some (active_company s row.company_id))
        invitation_invalid
    ok row

  unfoldable pub accept :
      Store → ℕ → ℕ → ExternalIdentityRow → String → Outcome (MembershipRow × Store)
  accept s now id identity raw_token = do
    let digest = sha256_text raw_token
    preliminary ← some_or (invitation s digest) invitation_invalid
    require (is_some (active_company s preliminary.company_id)) invitation_invalid
    row ← some_or (invitation s digest) invitation_invalid
    require (row.company_id == preliminary.company_id && str_eq row.token_digest digest)
        invitation_invalid
    if is_some row.consumed_at
        then accepted_before s row identity
        else accept_open s now id row identity

unfoldable pub revoke : Store → Actor → ℕ → ℕ → Outcome Store
unfolding current_manager
revoke s actor now invitation_id = do
  current ← current_manager s actor
  row ← some_or (lock_company_invitation s actor.company_id invitation_id) invitation_invalid
  require (is_none row.consumed_at) invitation_invalid
  ok (
      add_audit
        (record s {
          invitations =
              modify_first (is_company_invitation actor.company_id invitation_id) (revoked now)
                s.invitations;
        })
        current "INVITATION_REVOKED" "INVITATION" row.id no_details)
