-- ===== src/Store/Write.antt =====
-- The writes of `ApplicationSession`: rows are appended or changed in place, every write leaves an
-- audit event where the source does, and a unique constraint refuses a second row.
use apbra.Prelude.{
  ℕ, Bool, true, not, ◌&&◌, none, some, [], ◌∷◌, ◌++◌, ok, ◌>>=◌, ◌>>◌, require, String, ◌==◌, ◌+◌,
  any, modify_first, is_some,
}
use apbra.Domain.{Role, Actor, AccessLevel, owner, integrity_error}
use apbra.Store.Rows.{
  ExternalIdentityRow, MembershipRow, InvitationRow, CaseRow, RequestVersionRow, CaseAccessRow,
  IdempotencyRow, Details, no_details, of_grant, Store, Outcome,
}
use apbra.Store.Query.{is_invitation, is_membership_of, is_case, access_row}

unfoldable pub add_audit : Store → Actor → String → String → ℕ → Details → Store
add_audit s actor event resource id details = record s {
  audit_events =
      s.audit_events
      ++ record {
        company_id = actor.company_id;
        actor_membership_id = actor.membership_id;
        event_type = event;
        resource_type = resource;
        resource_id = id;
        details = details;
      }
        ∷ [];
}

-- uq_membership_company, uq_membership_company_identity
unfoldable pub insert_membership : Store → MembershipRow → Outcome Store
insert_membership s row = do
  require
      (not (any (λ old. old.id == row.id) s.memberships)
        && not (any (is_membership_of row.company_id row.identity_id) s.memberships))
      integrity_error
  ok (record s { memberships = s.memberships ++ row ∷ [] })

unfoldable pub create_invitation :
    Store → Actor → ℕ → String → Role → String → ℕ → Outcome (InvitationRow × Store)
create_invitation s actor id invited_subject role token_digest expires_at = do
  let row : InvitationRow = record {
    id = id;
    company_id = actor.company_id;
    issued_by_membership_id = actor.membership_id;
    invited_issuer = actor.issuer;
    invited_subject = invited_subject;
    provider_profile_id = actor.provider_profile_id;
    role = role;
    token_digest = token_digest;
    expires_at = expires_at;
    revoked_at = none;
    consumed_at = none;
    consumed_by_identity_id = none;
  }
  require
      (not (any (λ old. old.id == id) s.invitations)
        && not (any (is_invitation token_digest) s.invitations))
      integrity_error
  ok (
    row,
    add_audit (record s { invitations = s.invitations ++ row ∷ [] }) actor "INVITATION_ISSUED"
        "INVITATION" id no_details,
  )

abbrev pub consume : ℕ → ℕ → InvitationRow → InvitationRow
consume now identity row = record row {
  consumed_at = some now;
  consumed_by_identity_id = some identity;
}

abbrev pub accepted_membership : ℕ → InvitationRow → ExternalIdentityRow → MembershipRow
accepted_membership id row identity = record {
  id = id;
  company_id = row.company_id;
  identity_id = identity.id;
  role = row.role;
  active = true;
}

unfoldable pub accept_invitation :
    Store → ℕ → ℕ → InvitationRow → ExternalIdentityRow → Outcome (MembershipRow × Store)
accept_invitation s now id row identity = do
  let membership = accepted_membership id row identity
  s' ← insert_membership s membership
  ok (
    membership,
    record s' {
      invitations =
          modify_first (is_invitation row.token_digest) (consume now identity.id) s'.invitations;
      audit_events =
          s'.audit_events
          ++ record {
            company_id = row.company_id;
            actor_membership_id = id;
            event_type = "INVITATION_ACCEPTED";
            resource_type = "INVITATION";
            resource_id = row.id;
            details = no_details;
          }
            ∷ [];
    },
  )

abbrev pub new_case : Actor → ℕ → ℕ → ℕ → String → CaseRow
new_case actor now case_id version_id report_title = record {
  id = case_id;
  company_id = actor.company_id;
  creator_membership_id = actor.membership_id;
  current_request_version_id = version_id;
  version = 1;
  semantic_context_version = 1;
  report_title = report_title;
  updated_at = now;
}

abbrev pub first_version : Actor → ℕ → ℕ → String → RequestVersionRow
first_version actor case_id version_id request_text = record {
  id = version_id;
  case_id = case_id;
  company_id = actor.company_id;
  sequence = 1;
  request_text = request_text;
  created_by_membership_id = actor.membership_id;
}

abbrev pub owner_access : Actor → ℕ → CaseAccessRow
owner_access actor case_id = record {
  case_id = case_id;
  company_id = actor.company_id;
  membership_id = actor.membership_id;
  access_level = owner;
  active = true;
  revoked_at = none;
}

abbrev pub creation_record : Actor → ℕ → String → String → IdempotencyRow
creation_record actor case_id command_key payload_digest = record {
  company_id = actor.company_id;
  membership_id = actor.membership_id;
  operation = "CREATE_CASE";
  command_key = command_key;
  payload_digest = payload_digest;
  resource_id = case_id;
}

unfoldable pub create_case :
    Store → Actor → ℕ → ℕ → ℕ → String → String → String → String → Outcome (CaseRow × Store)
create_case s actor now case_id version_id request_text command_key payload_digest report_title = do
  let row = new_case actor now case_id version_id report_title
  require
      (not (any (is_case case_id) s.cases)
        && not (any (λ old. old.id == version_id) s.request_versions)
        && not (is_some (access_row s case_id actor.membership_id)))
      integrity_error
  ok (
    row,
    add_audit
        (record s {
          cases = s.cases ++ row ∷ [];
          request_versions =
              s.request_versions ++ first_version actor case_id version_id request_text ∷ [];
          case_access = s.case_access ++ owner_access actor case_id ∷ [];
          idempotency_records =
              s.idempotency_records
              ++ creation_record actor case_id command_key payload_digest ∷ [];
        })
        actor "CASE_CREATED" "REPORTING_CASE" case_id no_details,
  )

abbrev pub next_version : Actor → ℕ → CaseRow → String → RequestVersionRow
next_version actor version_id row request_text = record {
  id = version_id;
  case_id = row.id;
  company_id = row.company_id;
  sequence = row.version + 1;
  request_text = request_text;
  created_by_membership_id = actor.membership_id;
}

abbrev pub advanced : ℕ → ℕ → CaseRow → CaseRow
advanced now version_id row = record row {
  current_request_version_id = version_id;
  version = row.version + 1;
  semantic_context_version = row.semantic_context_version + 1;
  updated_at = now;
}

unfoldable pub update_case_request :
    Store → ℕ → ℕ → CaseRow → Actor → String → Outcome (CaseRow × Store)
update_case_request s now version_id row actor request_text = do
  require
      (not (any (λ old. old.id == version_id) s.request_versions)
        && not (
            any (λ old. old.case_id == row.id && old.sequence == row.version + 1)
              s.request_versions))
      integrity_error
  ok (
    advanced now version_id row,
    add_audit
        (record s {
          request_versions =
              s.request_versions ++ next_version actor version_id row request_text ∷ [];
          cases = modify_first (is_case row.id) (advanced now version_id) s.cases;
        })
        actor "CASE_REQUEST_UPDATED" "REPORTING_CASE" row.id no_details,
  )

abbrev pub is_access_of : ℕ → ℕ → CaseAccessRow → Bool
is_access_of case_id membership row = row.case_id == case_id && row.membership_id == membership

abbrev pub regrant : AccessLevel → CaseAccessRow → CaseAccessRow
regrant level row = record row { access_level = level; active = true; revoked_at = none }

unfoldable pub write_access : Store → Actor → ℕ → ℕ → AccessLevel → Store
unfolding access_row
write_access s actor case_id membership level = elim (access_row s case_id membership) [
  | none ↦ record s {
    case_access =
        s.case_access
        ++ record {
          case_id = case_id;
          company_id = actor.company_id;
          membership_id = membership;
          access_level = level;
          active = true;
          revoked_at = none;
        }
          ∷ [];
  }
  | some row ↦ record s {
    case_access = modify_first (is_access_of case_id membership) (regrant level) s.case_access;
  }
]

unfoldable pub grant_case_access : Store → Actor → ℕ → MembershipRow → AccessLevel → Store
unfolding write_access add_audit
grant_case_access s actor case_id membership level =
    add_audit (write_access s actor case_id membership.id level) actor "CASE_ACCESS_GRANTED"
      "REPORTING_CASE" case_id (of_grant membership.id level)
