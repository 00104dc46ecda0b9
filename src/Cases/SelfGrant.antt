-- ===== src/Cases/SelfGrant.antt =====
-- `grant_access` to the caller's own membership.
use apbra.Prelude.{
  ℕ, ◌≡◌, refl, sym, ◌∙◌, subst, true, false, not, ◌&&◌, some, List, [], ◌∷◌, arith, ok, err,
  require, >>=-eq-ok, Bool-cases, Option-cases, inl, inr, find, find-passes, find-modify_first,
  modify_first, any,
}
use apbra.Domain.{Actor, AccessLevel, forbidden}
use apbra.Store.Rows.{CaseRow, CaseAccessRow, Store, of_grant}
use apbra.Store.Query.{
  is_visible_case, opens_case, case_access, access_row, is_company_membership, company_is_active,
  member_is_active, identity_is_active, lock_company_membership,
}
use apbra.Store.Write.{grant_case_access, is_access_of, regrant, write_access, add_audit}
use apbra.Cases.Authorization.{authorized_case_access}
use apbra.Cases.Service.{is_owner, list_access, grant_access, revoke_access}
use apbra.Cases.Access.{
  UniqueAccess, case_access-rows, authorized-rows, is_visible_case-parts, no_rows_no_access,
}

-- With one row for each case and member, the row that opens the case is the one that is changed.
opened-found :
    (s : Store) (case_id : ℕ) (actor : Actor) (row : CaseRow) (access : CaseAccessRow)
    (xs : List CaseAccessRow)
    → row.id ≡ case_id
    → UniqueAccess xs
    → find (opens_case s actor row) xs ≡ some access
    → find (is_access_of case_id actor.membership_id) xs ≡ some access
unfolding opens_case
opened-found s case_id actor row access [] er u h = cc
opened-found s case_id actor row access (x ∷ xs) er u h =
    elim (Bool-cases (is_access_of case_id actor.membership_id x)) [
      | inl its ↦
          let same_case : x.case_id ≡ case_id = ground arith in
          let same_member : x.membership_id ≡ actor.membership_id = ground arith in
          let others : any (is_access_of case_id actor.membership_id) xs ≡ false =
            subst (λ c. any (is_access_of c actor.membership_id) xs ≡ false) same_case
              (subst (λ m. any (is_access_of x.case_id m) xs ≡ false) same_member u.0) in
          let none_else =
            no_rows_no_access s actor row case_id actor.membership_id xs refl er others in
          ground (arith, its, none_else, h)
      | inr other ↦
          let rest = opened-found s case_id actor row access xs er u.1 in
          ground (arith, er, other, rest, h)
    ]

-- What a successful call of `grant_access` to the caller's own membership rests on.
record IsSelfGrant (s : Store) (actor : Actor) (case_id : ℕ) (level : AccessLevel) (s' : Store)
    : Type 0 where
  row : CaseRow
  access : CaseAccessRow
  visible : find (is_visible_case s actor case_id) s.cases ≡ some row
  opens : find (opens_case s actor row) s.case_access ≡ some access
  lower : is_owner level ≡ false
  member : ℕ
  its_own : member ≡ actor.membership_id
  after :
      s'
      ≡ add_audit
          (write_access s actor case_id member level)
          actor
          "CASE_ACCESS_GRANTED"
          "REPORTING_CASE"
          case_id
          (of_grant member level)

grant_access-IsSelfGrant :
    (s : Store) (actor : Actor) (case_id : ℕ) (level : AccessLevel) (s' : Store)
    → grant_access s actor case_id actor.membership_id level ≡ ok s'
    → IsSelfGrant s actor case_id level s'
unfolding grant_access lock_company_membership is_company_membership grant_case_access
grant_access-IsSelfGrant s actor case_id level s' h =
    let ((row, access), seen, h1) = >>=-eq-ok (authorized_case_access s actor case_id false) _ h in
    let (joined, _) = authorized-rows s actor case_id false row access seen in
    let (visible, opens) = case_access-rows s actor case_id row access joined in
    let (_, guard, h2) =
      >>=-eq-ok (require (is_owner access.access_level && not (is_owner level)) forbidden) _ h1 in
    elim (Option-cases (lock_company_membership s actor.company_id actor.membership_id)) [
      | inl missing ↦ absurd (ground arith)
      | inr (m, found) ↦
          let its = find-passes _ s.memberships m found in
          record {
            row = row;
            access = access;
            visible = visible;
            opens = opens;
            lower = ground arith;
            member = m.id;
            its_own = ground arith;
            after = ground arith;
          }
    ]

abbrev demoted : Store → Actor → ℕ → AccessLevel → Store
demoted s actor case_id level =
    add_audit (write_access s actor case_id actor.membership_id level) actor "CASE_ACCESS_GRANTED"
      "REPORTING_CASE" case_id (of_grant actor.membership_id level)

demoted-rows :
    (s : Store) (actor : Actor) (case_id : ℕ) (level : AccessLevel) (access : CaseAccessRow)
    → find (is_access_of case_id actor.membership_id) s.case_access ≡ some access
    → demoted s actor case_id level
      ≡ add_audit
          (record s {
            case_access =
                modify_first
                  (is_access_of case_id actor.membership_id)
                  (regrant level)
                  s.case_access;
          })
          actor
          "CASE_ACCESS_GRANTED"
          "REPORTING_CASE"
          case_id
          (of_grant actor.membership_id level)
unfolding write_access access_row
demoted-rows s actor case_id level access found = ground (arith, found)

still_opens :
    (s : Store) (actor : Actor) (row : CaseRow) (level : AccessLevel) (access : CaseAccessRow)
    → opens_case s actor row access ≡ true
    → opens_case s actor row (regrant level access) ≡ true
unfolding opens_case
still_opens s actor row level access h = ground arith

-- What is refused to a member whose access to the case is not an owner's.
IsLowered : Store → Actor → ℕ → ℕ → ℕ → AccessLevel → Type 0
IsLowered t actor case_id now other other_level =
    (list_access t actor case_id ≡ err forbidden)
    × (grant_access t actor case_id other other_level ≡ err forbidden)
    × (revoke_access t actor now case_id other ≡ err forbidden)

lower-IsLowered :
    (t : Store) (actor : Actor) (case_id now other : ℕ) (other_level : AccessLevel) (row : CaseRow)
    (access : CaseAccessRow)
    → find (is_visible_case t actor case_id) t.cases ≡ some row
    → find (opens_case t actor row) t.case_access ≡ some access
    → is_owner access.access_level ≡ false
    → IsLowered t actor case_id now other other_level
unfolding IsLowered list_access grant_access revoke_access authorized_case_access case_access
lower-IsLowered t actor case_id now other other_level row access visible opens lower = (
  ground (arith, visible, opens, lower),
  ground (arith, visible, opens, lower),
  ground (arith, visible, opens, lower),
)

-- Whoever succeeds in granting a level on a case to their own membership is an owner of the case no
-- more: in a store with one access row for each case and member, listing the case's access, granting
-- any level to anyone and revoking anyone's access are forbidden to them afterwards.
pub grant_access_self :
    (s : Store) (actor : Actor) (case_id : ℕ) (level : AccessLevel) (s' : Store) (now other : ℕ)
    (other_level : AccessLevel)
    → UniqueAccess s.case_access
    → grant_access s actor case_id actor.membership_id level ≡ ok s'
    → (list_access s' actor case_id ≡ err forbidden)
      × (grant_access s' actor case_id other other_level ≡ err forbidden)
      × (revoke_access s' actor now case_id other ≡ err forbidden)
unfolding IsLowered is_visible_case add_audit opens_case company_is_active member_is_active
    identity_is_active
grant_access_self s actor case_id level s' now other other_level u h =
    let g = grant_access-IsSelfGrant s actor case_id level s' h in
    let v = is_visible_case-parts s actor case_id g.row (find-passes _ s.cases g.row g.visible) in
    let found = opened-found s case_id actor g.row g.access s.case_access v.0 u g.opens in
    let opens =
      find-modify_first (opens_case s actor g.row) (is_access_of case_id actor.membership_id)
        (regrant level) s.case_access g.access g.opens found
        (still_opens s actor g.row level g.access (find-passes _ s.case_access g.access g.opens)) in
    let s'_is : s' ≡ demoted s actor case_id level = ground (arith, g.after, g.its_own) in
    let there = s'_is ∙ demoted-rows s actor case_id level g.access found in
    subst (λ t. IsLowered t actor case_id now other other_level) (sym there)
      (lower-IsLowered _ actor case_id now other other_level g.row (regrant level g.access)
        g.visible opens g.lower)
