-- ===== src/Store/Query.antt =====
-- The queries of `ApplicationSession`. A lock changes no row; each call is one transaction.
use apbra.Prelude.{
  ℕ, Bool, true, false, not, ◌&&◌, Option, none, some, String, str_eq, ◌==◌, ltb, is_none, any,
  find, count, if◌then◌else◌,
}
use apbra.Domain.{Role, company_owner, company_admin, member, expert, Actor}
use apbra.Store.Rows.{
  CompanyRow, ExternalIdentityRow, MembershipRow, InvitationRow, CaseRow, RequestVersionRow,
  CaseAccessRow, IdempotencyRow, SessionRow, Store,
}

abbrev pub role_eq : Role → Role → Bool
role_eq company_owner company_owner = true
role_eq company_admin company_admin = true
role_eq member member = true
role_eq expert expert = true
role_eq _ _ = false

unfoldable pub company_is_active : Store → ℕ → Bool
company_is_active s company = any (λ row. row.id == company && row.active) s.companies

unfoldable pub identity_is_active : Store → ℕ → Bool
identity_is_active s identity = any (λ row. row.id == identity && row.active) s.identities

unfoldable pub identity_of : Store → ℕ → Option ExternalIdentityRow
identity_of s identity = find (λ row. row.id == identity) s.identities

unfoldable pub active_company : Store → ℕ → Option CompanyRow
active_company s company = find (λ row. row.id == company && row.active) s.companies

unfoldable pub active_session : Store → String → ℕ → Option (SessionRow × ExternalIdentityRow)
unfolding identity_of
active_session s digest now =
    elim (find
      (λ row. str_eq row.token_digest digest && is_none row.revoked_at && ltb now row.expires_at)
      s.sessions) [
        | none ↦ none
        | some row ↦ elim (identity_of s row.identity_id) [
          | none ↦ none
          | some identity ↦
              if not identity.active
              then none
              else if not (str_eq row.provider_profile_id identity.provider_profile_id)
                  && not (
                      str_eq row.provider_profile_id "local-test"
                      && str_eq identity.provider_profile_id "legacy-unqualified")
              then none
              else some (row, identity)
        ]
      ]

abbrev pub actor_of : MembershipRow → ExternalIdentityRow → Actor
actor_of membership identity = record {
  identity_id = identity.id;
  membership_id = membership.id;
  company_id = membership.company_id;
  issuer = identity.issuer;
  subject = identity.subject;
  display_name = identity.display_name;
  role = membership.role;
  provider_profile_id = identity.provider_profile_id;
}

unfoldable pub active_actor : Store → ℕ → ℕ → Option Actor
active_actor s membership_id identity_id =
    elim (find
      (λ row.
        row.id == membership_id
        && row.identity_id == identity_id
        && row.active
        && identity_is_active s row.identity_id
        && company_is_active s row.company_id)
      s.memberships) [
        | none ↦ none
        | some membership ↦ elim (identity_of s membership.identity_id) [
          | none ↦ none
          | some identity ↦ some (actor_of membership identity)
        ]
      ]

-- the row of the join over memberships: an active member, with an active identity
unfoldable pub member_is_active : Store → ℕ → Bool
member_is_active s membership =
    any (λ row. row.id == membership && row.active && identity_is_active s row.identity_id)
      s.memberships

unfoldable pub access_row : Store → ℕ → ℕ → Option CaseAccessRow
access_row s case_id membership =
    find (λ row. row.case_id == case_id && row.membership_id == membership) s.case_access

-- the row of the join over cases and companies
unfoldable pub is_visible_case : Store → Actor → ℕ → CaseRow → Bool
is_visible_case s actor case_id row =
    row.id == case_id && row.company_id == actor.company_id && company_is_active s row.company_id

-- the row of the join over case_access, memberships and identities
unfoldable pub opens_case : Store → Actor → CaseRow → CaseAccessRow → Bool
opens_case s actor row access =
    access.case_id == row.id
    && access.company_id == row.company_id
    && access.membership_id == actor.membership_id
    && access.active
    && member_is_active s access.membership_id

unfoldable pub case_access : Store → Actor → ℕ → Option (CaseRow × CaseAccessRow)
case_access s actor case_id = elim (find (is_visible_case s actor case_id) s.cases) [
  | none ↦ none
  | some row ↦ elim (find (opens_case s actor row) s.case_access) [
    | none ↦ none
    | some access ↦ some (row, access)
  ]
]

unfoldable pub is_active_owner : ℕ → MembershipRow → Bool
is_active_owner company row =
    row.company_id == company && role_eq row.role company_owner && row.active

unfoldable pub active_owner_count : Store → ℕ → ℕ
active_owner_count s company = count (is_active_owner company) s.memberships

unfoldable pub is_invitation : String → InvitationRow → Bool
is_invitation digest row = str_eq row.token_digest digest

unfoldable pub invitation : Store → String → Option InvitationRow
invitation s digest = find (is_invitation digest) s.invitations

unfoldable pub is_membership_of : ℕ → ℕ → MembershipRow → Bool
is_membership_of company identity row = row.company_id == company && row.identity_id == identity

unfoldable pub membership : Store → ℕ → ℕ → Option MembershipRow
membership s company identity = find (is_membership_of company identity) s.memberships

unfoldable pub is_company_invitation : ℕ → ℕ → InvitationRow → Bool
is_company_invitation company id row = row.id == id && row.company_id == company

unfoldable pub lock_company_invitation : Store → ℕ → ℕ → Option InvitationRow
lock_company_invitation s company id = find (is_company_invitation company id) s.invitations

unfoldable pub is_company_membership : ℕ → ℕ → MembershipRow → Bool
is_company_membership company id row = row.id == id && row.company_id == company

unfoldable pub lock_company_membership : Store → ℕ → ℕ → Option MembershipRow
lock_company_membership s company id = find (is_company_membership company id) s.memberships

unfoldable pub is_case : ℕ → CaseRow → Bool
is_case case_id row = row.id == case_id

unfoldable pub locked_case : Store → ℕ → Option CaseRow
locked_case s case_id = find (is_case case_id) s.cases

unfoldable pub request_version : Store → ℕ → Option RequestVersionRow
request_version s id = find (λ row. row.id == id) s.request_versions

unfoldable pub is_idempotency_record : Actor → String → String → IdempotencyRow → Bool
is_idempotency_record actor operation key row =
    row.company_id == actor.company_id
    && row.membership_id == actor.membership_id
    && str_eq row.operation operation
    && str_eq row.command_key key

unfoldable pub idempotency_record : Store → Actor → String → String → Option IdempotencyRow
idempotency_record s actor operation key =
    find (is_idempotency_record actor operation key) s.idempotency_records
