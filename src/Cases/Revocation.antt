-- ===== src/Cases/Revocation.antt =====
-- What `revoke_access` closes.
use apbra.Prelude.{
  ℕ, ◌≡◌, refl, sym, ◌∙◌, subst, Bool, false, none, some, List, [], ◌∷◌, arith, ok, err, >>=-eq-ok,
  Bool-cases, Option-cases, inl, inr, find, find-passes, modify_first, any, if◌then◌else◌,
}
use apbra.Domain.{Actor, protected_resource_not_found}
use apbra.Store.Rows.{CaseRow, CaseAccessRow, Store}
use apbra.Store.Query.{is_visible_case, opens_case, case_access, access_row}
use apbra.Store.Write.{is_access_of, add_audit}
use apbra.Cases.Authorization.{authorized_case_access}
use apbra.Cases.Service.{revoke_access, revoked_access}
use apbra.Cases.Access.{UniqueAccess, is_visible_case-parts, no_rows_no_access}

-- After the one row of a member is closed, no row opens the case.
no_access_left :
    (s : Store) (now case_id member : ℕ) (actor : Actor) (row : CaseRow) (xs : List CaseAccessRow)
    → actor.membership_id ≡ member
    → row.id ≡ case_id
    → UniqueAccess xs
    → find
        (opens_case s actor row)
        (modify_first (is_access_of case_id member) (revoked_access now) xs)
      ≡ none
unfolding opens_case
no_access_left s now case_id member actor row [] em er u = refl
no_access_left s now case_id member actor row (x ∷ xs) em er u =
    elim (Bool-cases (is_access_of case_id member x)) [
      | inl its ↦
          let same_case : x.case_id ≡ case_id = ground arith in
          let same_member : x.membership_id ≡ member = ground arith in
          let others : any (is_access_of case_id member) xs ≡ false =
            subst (λ c. any (is_access_of c member) xs ≡ false) same_case
              (subst (λ m. any (is_access_of x.case_id m) xs ≡ false) same_member u.0) in
          let none_else = no_rows_no_access s actor row case_id member xs em er others in
          ground (arith, its, none_else)
      | inr other ↦
          let rest = no_access_left s now case_id member actor row xs em er u.1 in
          ground (arith, em, er, other, rest)
    ]

-- Where the one row of a member is closed already, no row opens the case.
no_access_closed :
    (s : Store) (case_id member : ℕ) (actor : Actor) (row : CaseRow) (target : CaseAccessRow)
    (xs : List CaseAccessRow)
    → actor.membership_id ≡ member
    → row.id ≡ case_id
    → find (is_access_of case_id member) xs ≡ some target
    → target.active ≡ false
    → UniqueAccess xs
    → find (opens_case s actor row) xs ≡ none
unfolding opens_case
no_access_closed s case_id member actor row target [] em er found closed u = refl
no_access_closed s case_id member actor row target (x ∷ xs) em er found closed u =
    elim (Bool-cases (is_access_of case_id member x)) [
      | inl its ↦
          let same_case : x.case_id ≡ case_id = ground arith in
          let same_member : x.membership_id ≡ member = ground arith in
          let same : x ≡ target = ground arith in
          let others : any (is_access_of case_id member) xs ≡ false =
            subst (λ c. any (is_access_of c member) xs ≡ false) same_case
              (subst (λ m. any (is_access_of x.case_id m) xs ≡ false) same_member u.0) in
          let none_else = no_rows_no_access s actor row case_id member xs em er others in
          let off : x.active ≡ false = subst (λ r. r.active ≡ false) (sym same) closed in
          ground (arith, its, none_else, off)
      | inr other ↦
          let rest =
            no_access_closed s case_id member actor row target xs em er (rw other at found) closed
              u.1 in
          ground (arith, em, er, other, rest)
    ]

-- A successful call of `revoke_access` found the member's row, and closed it where it was open.
record IsRevocation (s : Store) (now case_id membership_id : ℕ) (s' : Store) : Type 0 where
  target : CaseAccessRow
  found : find (is_access_of case_id membership_id) s.case_access ≡ some target
  rows : s'.case_access ≡ (
      if target.active
      then modify_first (is_access_of case_id membership_id) (revoked_access now) s.case_access
      else s.case_access)

revoke_access-IsRevocation :
    (s : Store) (actor : Actor) (now case_id membership_id : ℕ) (s' : Store)
    → revoke_access s actor now case_id membership_id ≡ ok s'
    → IsRevocation s now case_id membership_id s'
unfolding revoke_access access_row add_audit
revoke_access-IsRevocation s actor now case_id membership_id s' h =
    let (seen, _, h1) = >>=-eq-ok (authorized_case_access s actor case_id false) _ h in
    elim (Option-cases (access_row s case_id membership_id)) [
      | inl missing ↦ absurd (ground arith)
      | inr (target, found) ↦ elim (Bool-cases target.active) [
        | inl on ↦ record { target = target; found = found; rows = ground arith }
        | inr off ↦ record { target = target; found = found; rows = ground arith }
      ]
    ]

revocation-closes :
    (s s' : Store) (now case_id membership_id : ℕ) (actor : Actor) (row : CaseRow)
    → actor.membership_id ≡ membership_id
    → row.id ≡ case_id
    → UniqueAccess s.case_access
    → IsRevocation s now case_id membership_id s'
    → find (opens_case s' actor row) s'.case_access ≡ none
revocation-closes s s' now case_id membership_id actor row em er u r =
    elim (Bool-cases r.target.active) [
      | inl on ↦
          subst (λ rows. find (opens_case s' actor row) rows ≡ none) (sym (r.rows ∙ simp on))
            (no_access_left s' now case_id membership_id actor row s.case_access em er u)
      | inr off ↦
          subst (λ rows. find (opens_case s' actor row) rows ≡ none) (sym (r.rows ∙ simp off))
            (no_access_closed s' case_id membership_id actor row r.target s.case_access em er
              r.found off u)
    ]

-- Once `revoke_access` has succeeded, in a store with one access row for each case and member, every
-- authorization of that member on that case is refused as not found.
pub revoke_access-closes :
    (s : Store) (actor victim : Actor) (now case_id membership_id : ℕ) (edit : Bool) (s' : Store)
    → UniqueAccess s.case_access
    → victim.membership_id ≡ membership_id
    → revoke_access s actor now case_id membership_id ≡ ok s'
    → authorized_case_access s' victim case_id edit ≡ err protected_resource_not_found
unfolding authorized_case_access case_access
revoke_access-closes s actor victim now case_id membership_id edit s' u em h =
    let r = revoke_access-IsRevocation s actor now case_id membership_id s' h in
    elim (Option-cases (find (is_visible_case s' victim case_id) s'.cases)) [
      | inl missing ↦ ground (arith, missing)
      | inr (row, visible) ↦
          let v =
            is_visible_case-parts s' victim case_id row (find-passes _ s'.cases row visible) in
          let closed = revocation-closes s s' now case_id membership_id victim row em v.0 u r in
          ground (arith, visible, closed)
    ]
