-- ===== src/Cases/Tests.antt =====
-- Runs of the case service on the sample company, and the theorems at those runs.
use apbra.Prelude.{
  ◌≡◌, ◌+◌, refl, true, false, some, ok, err, String, str_eq, strip, is_blank, if◌then◌else◌, none,
  [], ◌∷◌, is_none, ltb, any, ◌&&◌, ◌==◌, opt_eq,
}
use apbra.Domain.{
  viewer, stale_version, forbidden, protected_resource_not_found, idempotency_conflict,
}
use apbra.Store.Rows.{CaseRow, RequestVersionRow, SessionRow, Store}
use apbra.Store.Query.{
  company_is_active, active_session, active_actor, identity_of, identity_is_active,
  member_is_active, access_row, is_visible_case, opens_case, case_access, is_company_membership,
  lock_company_membership, is_case, locked_case, request_version, is_idempotency_record,
  idempotency_record,
}
use apbra.Store.Write.{add_audit, create_case, update_case_request, grant_case_access, write_access}
use apbra.Store.Samples.{sample, shared_case, editor_row, owner_actor, member_actor, value_or}
use apbra.Cases.Authorization.{authorized_case_access, resolve_actor, resolve_session}
use apbra.Cases.Service.{
  create, update, list_access, grant_access, revoke_access, request_display_title,
}
use apbra.Cases.Access.{UniqueAccess}
use apbra.Cases.Resolution.{resolve_actor-active}
use apbra.Cases.Revocation.{revoke_access-closes}
use apbra.Cases.SelfGrant.{grant_access_self}
use apbra.Cases.Versions.{update-advances, update-stale}
use apbra.Cases.Creation.{create-replay}

abbrev same_text : String → String
same_text text = text

abbrev closed : Store
closed = value_or sample (revoke_access sample owner_actor 50 20 12)

abbrev self_granted : Store
self_granted = value_or sample (grant_access sample owner_actor 20 10 viewer)

abbrev updated : CaseRow × Store
updated = value_or (shared_case, sample) (update sample owner_actor 50 31 20 "other" 1)

abbrev created : CaseRow × Store
created =
    let (row, _, s) =
      value_or (shared_case, false, sample)
        (create same_text sample owner_actor 50 21 32 "text" "key") in
    (row, s)

authorized-sample :
    authorized_case_access sample member_actor 20 true ≡ ok (shared_case, editor_row)
unfolding authorized_case_access case_access is_visible_case opens_case company_is_active
    member_is_active identity_is_active
authorized-sample = refl

revoke_access-sample : revoke_access sample owner_actor 50 20 12 ≡ ok closed
unfolding revoke_access authorized_case_access case_access is_visible_case opens_case
    company_is_active member_is_active identity_is_active access_row add_audit
revoke_access-sample = refl

grant_access-sample : grant_access sample owner_actor 20 10 viewer ≡ ok self_granted
unfolding grant_access authorized_case_access case_access is_visible_case opens_case
    company_is_active member_is_active identity_is_active access_row add_audit
    lock_company_membership is_company_membership grant_case_access write_access
grant_access-sample = refl

update-sample : update sample owner_actor 50 31 20 "other" 1 ≡ ok updated
unfolding update authorized_case_access case_access is_visible_case opens_case company_is_active
    member_is_active identity_is_active locked_case is_case update_case_request add_audit strip
update-sample = refl

create-sample :
    create same_text sample owner_actor 50 21 32 "text" "key" ≡ ok (created.0, true, created.1)
unfolding create create_case idempotency_record is_idempotency_record is_case access_row add_audit
    request_display_title strip
create-sample = refl

member_may_edit : authorized_case_access updated.1 member_actor 20 true ≡ ok (updated.0, editor_row)
unfolding authorized_case_access case_access is_visible_case opens_case company_is_active
    member_is_active identity_is_active update locked_case is_case update_case_request add_audit
    strip
member_may_edit = refl

not_blank : is_blank (strip " text ") ≡ false
unfolding strip
not_blank = refl

company_active : company_is_active sample 3 ≡ true
unfolding company_is_active
company_active = refl

owner_active : member_is_active sample 10 ≡ true
unfolding member_is_active identity_is_active
owner_active = refl

unique : UniqueAccess sample.case_access
unique = (refl, (refl, tt))

revoke_access-closes_example :
    authorized_case_access closed member_actor 20 false ≡ err protected_resource_not_found
revoke_access-closes_example =
    revoke_access-closes sample owner_actor member_actor 50 20 12 false closed unique refl
      revoke_access-sample

grant_access_self_example :
    (list_access self_granted owner_actor 20 ≡ err forbidden)
    × (grant_access self_granted owner_actor 20 12 viewer ≡ err forbidden)
    × (revoke_access self_granted owner_actor 50 20 12 ≡ err forbidden)
grant_access_self_example =
    grant_access_self sample owner_actor 20 viewer self_granted 50 12 viewer unique
      grant_access-sample

update-advances_example :
    (old : CaseRow) × (version : RequestVersionRow) × (locked_case sample 20 ≡ some old)
    × (locked_case updated.1 20 ≡ some updated.0)
    × (request_version updated.1 updated.0.current_request_version_id ≡ some version)
    × (updated.0.version ≡ 2)
    × (updated.0.semantic_context_version ≡ old.semantic_context_version + 1)
    × (version.sequence ≡ updated.0.version)
    × (version.request_text ≡ strip "other")
update-advances_example =
    update-advances sample owner_actor 50 31 20 "other" 1 updated.0 updated.1 update-sample

update-stale_example : update updated.1 member_actor 60 33 20 "third" 1 ≡ err stale_version
update-stale_example =
    update-stale sample owner_actor 50 31 20 "other" 1 updated.0 updated.1 member_actor 60 33
      "third" (updated.0, editor_row) update-sample member_may_edit

create-replay_example : create same_text created.1 owner_actor 60 22 33 " text " "key" ≡ (
    if str_eq (strip "text") (strip " text ")
    then ok (created.0, false, created.1)
    else err idempotency_conflict)
create-replay_example =
    create-replay same_text sample owner_actor 50 21 32 "text" "key" created.0 created.1 60 22 33
      " text " company_active owner_active not_blank create-sample

abbrev signed_in : Store
signed_in = record sample {
  sessions =
      record {
        id = 60;
        token_digest = "session";
        provider_profile_id = "local-test";
        identity_id = 1;
        membership_id = some 10;
        expires_at = 100;
        revoked_at = none;
      }
      ∷ [];
}

resolve_actor-sample : resolve_actor same_text signed_in 50 (some "session") ≡ ok owner_actor
unfolding resolve_actor resolve_session active_session active_actor identity_of identity_is_active
    company_is_active
resolve_actor-sample = refl

resolve_actor-active_example :
    (any
        (λ (row : SessionRow).
          str_eq row.token_digest "session"
          && is_none row.revoked_at
          && ltb 50 row.expires_at
          && row.identity_id == 1
          && opt_eq row.membership_id (some 10))
        signed_in.sessions
      ≡ true)
    × (company_is_active signed_in 3 ≡ true)
    × (identity_is_active signed_in 1 ≡ true)
    × (member_is_active signed_in 10 ≡ true)
resolve_actor-active_example =
    resolve_actor-active same_text signed_in 50 "session" owner_actor resolve_actor-sample
