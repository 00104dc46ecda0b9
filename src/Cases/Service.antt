-- ===== src/Cases/Service.antt =====
-- `CaseService` of application.py. Identifiers and the time are arguments; `canonical_payload` is the
-- digest of the command's JSON payload.
use apbra.Prelude.{
  ℕ, Bool, true, false, not, ◌&&◌, none, some, List, ok, ◌>>=◌, ◌>>◌, require, some_or, String,
  str_eq, ◌==◌, is_blank, strip, slice_to, filter, modify_first, if◌then◌else◌,
}
use apbra.Domain.{
  Actor, AccessLevel, owner, editor, viewer, forbidden, conflict, stale_version,
  idempotency_conflict, assertion_error,
}
use apbra.Store.Rows.{CaseRow, RequestVersionRow, CaseAccessRow, Store, Outcome, of_membership}
use apbra.Store.Query.{idempotency_record, locked_case, lock_company_membership, access_row}
use apbra.Store.Write.{create_case, update_case_request, grant_case_access, add_audit, is_access_of}
use apbra.Cases.Authorization.{authorized_case_access}

unfoldable pub request_display_title : String → String
request_display_title request_text = slice_to 160 (strip request_text)

module _ (canonical_payload : String → String) where
  -- The Boolean is whether a case was created.
  unfoldable pub create :
      Store → Actor → ℕ → ℕ → ℕ → String → String → Outcome (CaseRow × Bool × Store)
  create s actor now case_id version_id request_text command_key = do
    let text = strip request_text
    require (not (is_blank text)) conflict
    let payload_digest = canonical_payload text
    elim (idempotency_record s actor "CREATE_CASE" command_key) [
      | some existing ↦ do
        require (str_eq existing.payload_digest payload_digest) idempotency_conflict
        (row, access) ← authorized_case_access s actor existing.resource_id false
        ok (row, false, s)
      | none ↦ do
        (row, s') ←
            create_case s actor now case_id version_id text command_key payload_digest
              (request_display_title text)
        ok (row, true, s')
    ]

unfoldable pub get : Store → Actor → ℕ → Outcome CaseRow
get s actor case_id = do (row, access) ← authorized_case_access s actor case_id false; ok row

unfoldable pub versions : Store → Actor → ℕ → Outcome (List RequestVersionRow)
versions s actor case_id = do
  (row, access) ← authorized_case_access s actor case_id false
  ok (filter (λ version. version.case_id == case_id) s.request_versions)

unfoldable pub update : Store → Actor → ℕ → ℕ → ℕ → String → ℕ → Outcome (CaseRow × Store)
update s actor now version_id case_id request_text expected_version = do
  (seen, access) ← authorized_case_access s actor case_id true
  row ← some_or (locked_case s case_id) assertion_error
  require (row.version == expected_version) stale_version
  let text = strip request_text
  require (not (is_blank text)) conflict
  update_case_request s now version_id row actor text

abbrev pub is_owner : AccessLevel → Bool
is_owner owner = true
is_owner editor = false
is_owner viewer = false

unfoldable pub list_access : Store → Actor → ℕ → Outcome (List CaseAccessRow)
list_access s actor case_id = do
  (row, access) ← authorized_case_access s actor case_id false
  require (is_owner access.access_level) forbidden
  ok (filter (λ entry. entry.case_id == case_id) s.case_access)

unfoldable pub grant_access : Store → Actor → ℕ → ℕ → AccessLevel → Outcome Store
grant_access s actor case_id membership_id access_level = do
  (row, access) ← authorized_case_access s actor case_id false
  require (is_owner access.access_level && not (is_owner access_level)) forbidden
  membership ← some_or (lock_company_membership s actor.company_id membership_id) forbidden
  require membership.active forbidden
  ok (grant_case_access s actor case_id membership access_level)

abbrev pub revoked_access : ℕ → CaseAccessRow → CaseAccessRow
revoked_access now row = record row { active = false; revoked_at = some now }

unfoldable pub revoke_access : Store → Actor → ℕ → ℕ → ℕ → Outcome Store
revoke_access s actor now case_id membership_id = do
  (row, access) ← authorized_case_access s actor case_id false
  require (is_owner access.access_level && not (membership_id == actor.membership_id)) forbidden
  target ← some_or (access_row s case_id membership_id) forbidden
  require (target.company_id == actor.company_id) forbidden
  if target.active
      then ok (
          add_audit
            (record s {
              case_access =
                  modify_first (is_access_of case_id membership_id) (revoked_access now)
                    s.case_access;
            })
            actor "CASE_ACCESS_REVOKED" "REPORTING_CASE" case_id (of_membership membership_id))
      else ok s
