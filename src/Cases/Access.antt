-- ===== src/Cases/Access.antt =====
-- Who can reach a case.
use apbra.Prelude.{
  ℕ, ◌≡◌, refl, subst, Bool, true, false, not, ◌||◌, none, some, List, [], ◌∷◌, arith, ok,
  Option-cases, inl, inr, find, any,
}
use apbra.Domain.{Actor, can_edit}
use apbra.Store.Rows.{CaseRow, CaseAccessRow, Store}
use apbra.Store.Query.{is_visible_case, opens_case, case_access, company_is_active}
use apbra.Store.Write.{is_access_of}
use apbra.Cases.Authorization.{authorized_case_access}

-- The two rows that `case_access` joins.
pub case_access-rows :
    (s : Store) (actor : Actor) (case_id : ℕ) (row : CaseRow) (access : CaseAccessRow)
    → case_access s actor case_id ≡ some (row, access)
    → (find (is_visible_case s actor case_id) s.cases ≡ some row)
      × (find (opens_case s actor row) s.case_access ≡ some access)
unfolding case_access
case_access-rows s actor case_id row access h =
    elim (Option-cases (find (is_visible_case s actor case_id) s.cases)) [
      | inl missing ↦ absurd (ground arith)
      | inr (r, found) ↦ elim (Option-cases (find (opens_case s actor r) s.case_access)) [
        | inl closed ↦ absurd (ground arith)
        | inr (a, opens) ↦
            let same : r ≡ row = ground arith in
            (
              ground arith,
              subst (λ q. find (opens_case s actor q) s.case_access ≡ some access) same
                  (ground arith),
            )
      ]
    ]

pub is_visible_case-parts :
    (s : Store) (actor : Actor) (case_id : ℕ) (row : CaseRow)
    → is_visible_case s actor case_id row ≡ true
    → (row.id ≡ case_id)
      × (row.company_id ≡ actor.company_id)
      × (company_is_active s row.company_id ≡ true)
unfolding is_visible_case
is_visible_case-parts s actor case_id row h = (ground arith, ground arith, ground arith)

pub authorized-rows :
    (s : Store) (actor : Actor) (case_id : ℕ) (edit : Bool) (row : CaseRow) (access : CaseAccessRow)
    → authorized_case_access s actor case_id edit ≡ ok (row, access)
    → (case_access s actor case_id ≡ some (row, access))
      × ((not edit || can_edit access.access_level) ≡ true)
unfolding authorized_case_access
authorized-rows s actor case_id edit row access h = (ground arith, ground arith)

-- At most one row for each case and member, as the table's unique constraint has it.
abbrev pub UniqueAccess : List CaseAccessRow → Type 0
UniqueAccess [] = Unit
UniqueAccess (x ∷ xs) = (any (is_access_of x.case_id x.membership_id) xs ≡ false) × UniqueAccess xs

-- Where no row is of the case and member, none opens the case.
pub no_rows_no_access :
    (s : Store) (actor : Actor) (row : CaseRow) (case_id member : ℕ) (xs : List CaseAccessRow)
    → actor.membership_id ≡ member
    → row.id ≡ case_id
    → any (is_access_of case_id member) xs ≡ false
    → find (opens_case s actor row) xs ≡ none
unfolding opens_case
no_rows_no_access s actor row case_id member [] em er u = refl
no_rows_no_access s actor row case_id member (x ∷ xs) em er u =
    ground (arith, em, er, no_rows_no_access s actor row case_id member xs em er (ground arith))
