-- ===== src/Tenancy/Memberships.antt =====
-- `MembershipService` of application.py.
use apbra.Prelude.{
  ℕ, Bool, false, not, ◌||◌, List, ok, ◌>>=◌, ◌>>◌, require, some_or, ◌==◌, leb, modify_first,
  filter, if◌then◌else◌,
}
use apbra.Domain.{Role, company_owner, company_admin, member, Actor, forbidden, last_owner_required}
use apbra.Store.Rows.{MembershipRow, Store, Outcome, no_details, of_role_change}
use apbra.Store.Query.{
  role_eq, company_is_active, active_actor, active_owner_count, is_company_membership,
  lock_company_membership,
}
use apbra.Store.Write.{add_audit}
use apbra.Tenancy.Manage.{current_manager}

-- The members that `list` shows.
unfoldable pub list_members : Store → Actor → Outcome (List MembershipRow)
unfolding current_manager
list_members s actor = do
  current ← current_manager s actor
  ok (filter (λ row. row.company_id == actor.company_id) s.memberships)

-- the tests of `deactivate` on a member who is an owner
abbrev pub owner_may_leave : Store → Actor → Actor → MembershipRow → Outcome (Unit {0})
owner_may_leave s actor current row =
    if role_eq row.role company_owner
    then (do
      require (role_eq current.role company_owner) forbidden
      require (not (leb (active_owner_count s actor.company_id) 1)) last_owner_required)
    else ok tt

abbrev pub without_access : MembershipRow → MembershipRow
without_access row = record row { active = false }

unfoldable pub deactivate : Store → Actor → ℕ → Outcome Store
unfolding current_manager
deactivate s actor membership_id = do
  current ← current_manager s actor
  row ← some_or (lock_company_membership s actor.company_id membership_id) forbidden
  require (not (membership_id == actor.membership_id)) forbidden
  owner_may_leave s actor current row
  if row.active
      then ok (
          add_audit
            (record s {
              memberships =
                  modify_first (is_company_membership actor.company_id membership_id) without_access
                    s.memberships;
            })
            current "MEMBERSHIP_DEACTIVATED" "MEMBERSHIP" row.id no_details)
      else ok s

abbrev pub is_assignable : Role → Bool
is_assignable role = role_eq role member || role_eq role company_admin

abbrev pub with_role : Role → MembershipRow → MembershipRow
with_role role row = record row { role = role }

unfoldable pub change_role : Store → Actor → ℕ → Role → Outcome (MembershipRow × Store)
change_role s actor membership_id role = do
  require (is_assignable role) forbidden
  require (company_is_active s actor.company_id) forbidden
  current ← some_or (active_actor s actor.membership_id actor.identity_id) forbidden
  require (role_eq current.role company_owner) forbidden
  row ← some_or (lock_company_membership s actor.company_id membership_id) forbidden
  require row.active forbidden
  require (not (role_eq row.role company_owner)) last_owner_required
  require (is_assignable row.role) forbidden
  if role_eq row.role role
      then ok (row, s)
      else ok (
        with_role role row,
        add_audit
            (record s {
              memberships =
                  modify_first (is_company_membership actor.company_id membership_id)
                    (with_role role) s.memberships;
            })
            current "MEMBERSHIP_ROLE_CHANGED" "MEMBERSHIP" row.id (of_role_change row.role role),
      )
