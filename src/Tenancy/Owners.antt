-- ===== src/Tenancy/Owners.antt =====
-- A company keeps an owner.
use apbra.Prelude.{
  ℕ, ◌≡◌, ◌≤◌, ◌+◌, refl, true, false, some, [], arith, ok, ◌==◌, >>=-eq-ok, some_or, subst, sym,
  ◌∙◌, Option-cases, Bool-cases, inl, inr, find-passes, count-modify_first, modify_first, count,
  if◌then◌else◌,
}
use apbra.Domain.{Role, company_owner, Actor, forbidden}
use apbra.Store.Rows.{MembershipRow, Store}
use apbra.Store.Query.{
  role_eq, is_active_owner, active_owner_count, is_company_membership, lock_company_membership,
}
use apbra.Store.Write.{add_audit}
use apbra.Tenancy.Manage.{current_manager}
use apbra.Tenancy.Memberships.{
  deactivate, owner_may_leave, change_role, without_access, with_role, is_assignable,
}

-- Deactivating the row that was locked takes at most one owner, and only if it was an active one.
owners-without_access :
    (s : Store) (company id c : ℕ) (r : MembershipRow)
    → lock_company_membership s company id ≡ some r
    → count
          (is_active_owner c)
          (modify_first (is_company_membership company id) without_access s.memberships)
        + (if is_active_owner c r then 1 else 0)
      ≡ active_owner_count s c
unfolding lock_company_membership active_owner_count
owners-without_access s company id c r h =
    let e =
      count-modify_first (is_active_owner c) (is_company_membership company id) without_access
        s.memberships r h in
    let gone : is_active_owner c (without_access r) ≡ false =
      unfold is_active_owner in ground arith in
    omega (arith, rw gone at e)

locked-company :
    (s : Store) (company id : ℕ) (r : MembershipRow)
    → lock_company_membership s company id ≡ some r
    → r.company_id ≡ company
unfolding lock_company_membership is_company_membership
locked-company s company id r h =
    let e = find-passes (is_company_membership company id) s.memberships r h in ground arith

-- How a deactivation that succeeds has gone.
pub record IsDeactivation (s : Store) (actor : Actor) (id : ℕ) (s' : Store) : Type 0 where
  pub current : Actor
  pub row : MembershipRow
  pub manages : current_manager s actor ≡ ok current
  pub locked : lock_company_membership s actor.company_id id ≡ some row
  pub other : (id == actor.membership_id) ≡ false
  pub allowed : owner_may_leave s actor current row ≡ ok tt
  pub memberships : s'.memberships ≡ (
      if row.active
      then modify_first (is_company_membership actor.company_id id) without_access s.memberships
      else s.memberships)
  pub rest :
      record s' { memberships = []; audit_events = [] }
      ≡ record s { memberships = []; audit_events = [] }

pub deactivate-IsDeactivation :
    (s : Store) (actor : Actor) (id : ℕ) (s' : Store)
    → deactivate s actor id ≡ ok s'
    → IsDeactivation s actor id s'
unfolding deactivate add_audit
deactivate-IsDeactivation s actor id s' h =
    let (current, manages, h₁) = >>=-eq-ok (current_manager s actor) _ h in
    let (row, locked, h₂) =
      >>=-eq-ok (some_or (lock_company_membership s actor.company_id id) forbidden) _ h₁ in
    record {
      current = current;
      row = row;
      manages = manages;
      locked = ground arith;
      other = ground arith;
      allowed = ground arith;
      memberships = ground arith;
      rest = ground arith;
    }

-- A role that may be assigned is no owner's.
assignable_no_owner :
    (c : ℕ) (r : MembershipRow) → is_assignable r.role ≡ true → is_active_owner c r ≡ false
unfolding is_active_owner
assignable_no_owner c r h = ground arith

is_active_owner-parts :
    (c : ℕ) (r : MembershipRow)
    → is_active_owner c r ≡ true
    → (r.company_id ≡ c) × (role_eq r.role company_owner ≡ true) × (r.active ≡ true)
unfolding is_active_owner
is_active_owner-parts c r h = (ground arith, ground arith, ground arith)

owner_may_leave-count :
    (s : Store) (actor current : Actor) (r : MembershipRow)
    → owner_may_leave s actor current r ≡ ok tt
    → role_eq r.role company_owner ≡ true
    → 2 ≤ active_owner_count s actor.company_id
owner_may_leave-count s actor current r h e = ground arith

count-deactivation :
    (s : Store) (actor : Actor) (id : ℕ) (s' : Store) (c : ℕ)
    → (d : IsDeactivation s actor id s')
    → active_owner_count s' c + (if is_active_owner c d.row then 1 else 0) ≡ active_owner_count s c
count-deactivation s actor id s' c d =
    let less = owners-without_access s actor.company_id id c d.row d.locked in
    unfold active_owner_count in
    rw d.memberships (elim (Bool-cases d.row.active) [
      | inl active ↦ simp active (unfold active_owner_count in less)
      | inr inactive ↦
          let not_owner : is_active_owner c d.row ≡ false =
            unfold is_active_owner in ground arith in
          simp (inactive, not_owner) (omega arith)
    ])

-- A deactivation that succeeds leaves every company that had an active owner with at least one.
pub deactivate-owner :
    (s : Store) (actor : Actor) (id : ℕ) (s' : Store) (c : ℕ)
    → deactivate s actor id ≡ ok s'
    → 1 ≤ active_owner_count s c
    → 1 ≤ active_owner_count s' c
deactivate-owner s actor id s' c h has =
    let d = deactivate-IsDeactivation s actor id s' h in
    let less = count-deactivation s actor id s' c d in
    elim (Bool-cases (is_active_owner c d.row)) [
      | inr other ↦ omega (arith, rw other at less)
      | inl owner ↦
          let (company, role, _) = is_active_owner-parts c d.row owner in
          let two = owner_may_leave-count s actor d.current d.row d.allowed role in
          let same = locked-company s actor.company_id id d.row d.locked in
          let two' : 2 ≤ active_owner_count s c =
            subst (λ k. 2 ≤ active_owner_count s k) (sym same ∙ company) two in
          omega (arith, rw owner at less)
    ]

-- How a change of role that succeeds has gone.
pub record IsRoleChange (s : Store) (actor : Actor) (id : ℕ) (role : Role) (s' : Store)
    : Type 0 where
  pub row : MembershipRow
  pub assignable : is_assignable role ≡ true
  pub locked : lock_company_membership s actor.company_id id ≡ some row
  pub was : is_assignable row.role ≡ true
  pub active : row.active ≡ true
  pub memberships : s'.memberships ≡ (
      if role_eq row.role role
      then s.memberships
      else modify_first (is_company_membership actor.company_id id) (with_role role) s.memberships)
  pub rest :
      record s' { memberships = []; audit_events = [] }
      ≡ record s { memberships = []; audit_events = [] }

pub change_role-IsRoleChange :
    (s : Store) (actor : Actor) (id : ℕ) (role : Role) (r : MembershipRow) (s' : Store)
    → change_role s actor id role ≡ ok (r, s')
    → IsRoleChange s actor id role s'
unfolding change_role add_audit
change_role-IsRoleChange s actor id role r s' h =
    elim (Option-cases (lock_company_membership s actor.company_id id)) [
      | inl missing ↦ absurd (ground arith)
      | inr (row, locked) ↦ record {
        row = row;
        assignable = ground arith;
        locked = locked;
        was = ground arith;
        active = ground arith;
        memberships = ground arith;
        rest = ground arith;
      }
    ]

-- A change of role that succeeds leaves the number of active owners of every company as it was.
pub change_role-owners :
    (s : Store) (actor : Actor) (id : ℕ) (role : Role) (r : MembershipRow) (s' : Store) (c : ℕ)
    → change_role s actor id role ≡ ok (r, s')
    → active_owner_count s' c ≡ active_owner_count s c
change_role-owners s actor id role r s' c h =
    let d = change_role-IsRoleChange s actor id role r s' h in
    let less =
      count-modify_first (is_active_owner c) (is_company_membership actor.company_id id)
        (with_role role) s.memberships d.row (unfold lock_company_membership in d.locked) in
    let before : is_active_owner c d.row ≡ false = assignable_no_owner c d.row d.was in
    let after : is_active_owner c (with_role role d.row) ≡ false =
      assignable_no_owner c (with_role role d.row) d.assignable in
    unfold active_owner_count in
    rw d.memberships (elim (Bool-cases (role_eq d.row.role role)) [
      | inl same ↦ rw same refl
      | inr new ↦ rw new (omega (arith, rw (before, after) at less))
    ])
