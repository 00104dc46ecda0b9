-- ===== src/Cases/Creation.antt =====
-- What `CaseService.create` does with a command key that it has seen.
use apbra.Prelude.{
  ℕ, ◌≡◌, refl, sym, ◌∙◌, subst, true, false, ◌&&◌, none, some, List, [], ◌∷◌, ◌++◌, arith, ok, err,
  ◌==◌, ==_refl, Bool-cases, Option-cases, inl, inr, String, str_eq, eq_iff, is_blank, strip, find,
  find-append, any, if◌then◌else◌,
}
use apbra.Domain.{Actor, idempotency_conflict}
use apbra.Store.Rows.{CaseRow, CaseAccessRow, IdempotencyRow, Store}
use apbra.Store.Query.{
  is_case, idempotency_record, is_idempotency_record, case_access, is_visible_case, opens_case,
  company_is_active, member_is_active, identity_is_active, access_row,
}
use apbra.Store.Write.{create_case, new_case, owner_access, creation_record, add_audit}
use apbra.Cases.Authorization.{authorized_case_access}
use apbra.Cases.Service.{create, request_display_title}

module _ (canonical_payload : String → String) where
  -- What a call that created a case did.
  record IsCreation (s : Store) (actor : Actor) (now case_id version_id : ℕ)
      (request_text command_key : String) (row : CaseRow) (s' : Store) : Type 0 where
    result :
        row ≡ new_case actor now case_id version_id (request_display_title (strip request_text))
    text : is_blank (strip request_text) ≡ false
    new_key :
        find (is_idempotency_record actor "CREATE_CASE" command_key) s.idempotency_records ≡ none
    new_id : any (is_case case_id) s.cases ≡ false
    new_access : access_row s case_id actor.membership_id ≡ none
    cases : s'.cases ≡ s.cases ++ row ∷ []
    case_access : s'.case_access ≡ s.case_access ++ owner_access actor case_id ∷ []
    records :
        s'.idempotency_records
        ≡ s.idempotency_records
          ++ creation_record actor case_id command_key (canonical_payload (strip request_text)) ∷ []
    companies : s'.companies ≡ s.companies
    memberships : s'.memberships ≡ s.memberships
    identities : s'.identities ≡ s.identities

  create-IsCreation :
      (s : Store) (actor : Actor) (now case_id version_id : ℕ) (request_text command_key : String)
      (row : CaseRow) (s' : Store)
      → create canonical_payload s actor now case_id version_id request_text command_key
        ≡ ok (row, true, s')
      → IsCreation s actor now case_id version_id request_text command_key row s'
  unfolding create create_case add_audit idempotency_record
  create-IsCreation s actor now case_id version_id request_text command_key row s' h =
      elim (Option-cases (idempotency_record s actor "CREATE_CASE" command_key)) [
        | inr (existing, found) ↦ absurd (ground arith)
        | inl fresh ↦ elim (Option-cases (access_row s case_id actor.membership_id)) [
          | inr (taken, seen) ↦ absurd (ground arith)
          | inl no_access ↦ record {
            result = ground arith;
            text = ground arith;
            new_key = fresh;
            new_id = ground arith;
            new_access = no_access;
            cases = ground arith;
            case_access = ground arith;
            records = ground arith;
            companies = ground arith;
            memberships = ground arith;
            identities = ground arith;
          }
        ]
      ]

  none_visible :
      (t : Store) (actor : Actor) (case_id : ℕ) (xs : List CaseRow)
      → any (is_case case_id) xs ≡ false
      → find (is_visible_case t actor case_id) xs ≡ none
  unfolding is_visible_case is_case
  none_visible t actor case_id [] e = refl
  none_visible t actor case_id (x ∷ xs) e =
      ground (arith, none_visible t actor case_id xs (ground arith))

  none_opens :
      (t : Store) (actor : Actor) (row : CaseRow) (xs : List CaseAccessRow)
      → find (λ r. r.case_id == row.id && r.membership_id == actor.membership_id) xs ≡ none
      → find (opens_case t actor row) xs ≡ none
  unfolding opens_case
  none_opens t actor row [] e = refl
  none_opens t actor row (x ∷ xs) e = ground (arith, none_opens t actor row xs (ground arith))

  company_kept :
      (s t : Store) (company : ℕ)
      → t.companies ≡ s.companies
      → company_is_active t company ≡ company_is_active s company
  unfolding company_is_active
  company_kept s t company e = simp e

  member_kept :
      (s t : Store) (membership : ℕ)
      → t.memberships ≡ s.memberships
      → t.identities ≡ s.identities
      → member_is_active t membership ≡ member_is_active s membership
  unfolding member_is_active identity_is_active
  member_kept s t membership e e' = simp (e, e')

  -- The store that the creation left lets its creator see the case.
  new_case-visible :
      (s : Store) (actor : Actor) (now case_id version_id : ℕ) (request_text command_key : String)
      (row : CaseRow) (s' : Store)
      → company_is_active s actor.company_id ≡ true
      → IsCreation s actor now case_id version_id request_text command_key row s'
      → find (is_visible_case s' actor case_id) s'.cases ≡ some row
  unfolding is_visible_case
  new_case-visible s actor now case_id version_id request_text command_key row s' active c =
      let active' = company_kept s s' actor.company_id c.companies ∙ active in
      subst (λ rows. find (is_visible_case s' actor case_id) rows ≡ some row) (sym c.cases)
        (find-append (is_visible_case s' actor case_id) s.cases (row ∷ [])
            (none_visible s' actor case_id s.cases c.new_id)
          ∙ subst (λ r. find (is_visible_case s' actor case_id) (r ∷ []) ≡ some r) (sym c.result)
              (ground (arith, ==_refl case_id, ==_refl actor.company_id, active')))

  new_case-opens :
      (s : Store) (actor : Actor) (now case_id version_id : ℕ) (request_text command_key : String)
      (row : CaseRow) (s' : Store)
      → member_is_active s actor.membership_id ≡ true
      → IsCreation s actor now case_id version_id request_text command_key row s'
      → find (opens_case s' actor row) s'.case_access ≡ some (owner_access actor case_id)
  unfolding opens_case access_row
  new_case-opens s actor now case_id version_id request_text command_key row s' active c =
      let active' = member_kept s s' actor.membership_id c.memberships c.identities ∙ active in
      let id_is : case_id ≡ row.id = subst (λ r. case_id ≡ r.id) (sym c.result) refl in
      subst (λ rows. find (opens_case s' actor row) rows ≡ some (owner_access actor case_id))
        (sym c.case_access)
        (find-append (opens_case s' actor row) s.case_access (owner_access actor case_id ∷ []) (
            none_opens s' actor row s.case_access (
              subst
                (λ i.
                  find (λ r. r.case_id == i && r.membership_id == actor.membership_id) s.case_access
                  ≡ none)
                id_is c.new_access))
          ∙ subst
              (λ r.
                find (opens_case s' actor r) (owner_access actor case_id ∷ [])
                ≡ some (owner_access actor case_id))
              (sym c.result)
              (ground (
                arith,
                ==_refl case_id,
                ==_refl actor.company_id,
                ==_refl actor.membership_id,
                active',
              )))

  recorded :
      (actor : Actor) (case_id : ℕ) (command_key payload_digest : String) (xs : List IdempotencyRow)
      → find (is_idempotency_record actor "CREATE_CASE" command_key) xs ≡ none
      → find
          (is_idempotency_record actor "CREATE_CASE" command_key)
          (xs ++ creation_record actor case_id command_key payload_digest ∷ [])
        ≡ some (creation_record actor case_id command_key payload_digest)
  unfolding is_idempotency_record
  recorded actor case_id command_key payload_digest xs new =
      find-append (is_idempotency_record actor "CREATE_CASE" command_key) xs
        (creation_record actor case_id command_key payload_digest ∷ []) new
      ∙ ground (
        arith,
        ==_refl actor.company_id,
        ==_refl actor.membership_id,
        (eq_iff command_key command_key).1 refl,
      )

  -- A repeated command is answered from the record of the first: where the creator and the company
  -- are active, a second call of `create` with the same key and a text that is not blank returns the
  -- created case and leaves the store as it is if the digests of the two texts agree, and is refused
  -- as an idempotency conflict otherwise.
  pub create-replay :
      (s : Store) (actor : Actor) (now case_id version_id : ℕ) (request_text command_key : String)
      (row : CaseRow) (s' : Store) (later other_case other_version : ℕ) (other_text : String)
      → company_is_active s actor.company_id ≡ true
      → member_is_active s actor.membership_id ≡ true
      → is_blank (strip other_text) ≡ false
      → create canonical_payload s actor now case_id version_id request_text command_key
        ≡ ok (row, true, s')
      → create canonical_payload s' actor later other_case other_version other_text command_key ≡ (
          if str_eq (canonical_payload (strip request_text)) (canonical_payload (strip other_text))
          then ok (row, false, s')
          else err idempotency_conflict)
  unfolding create authorized_case_access case_access idempotency_record
  create-replay s actor now case_id version_id request_text command_key row s' later other_case
        other_version other_text company member text h =
      let c = create-IsCreation s actor now case_id version_id request_text command_key row s' h in
      let visible =
        new_case-visible s actor now case_id version_id request_text command_key row s' company c in
      let opens =
        new_case-opens s actor now case_id version_id request_text command_key row s' member c in
      let digest = canonical_payload (strip request_text) in
      let seen =
        subst
          (λ rows.
            find (is_idempotency_record actor "CREATE_CASE" command_key) rows
            ≡ some (creation_record actor case_id command_key digest))
          (sym c.records)
          (recorded actor case_id command_key digest s.idempotency_records c.new_key) in
      elim (Bool-cases (str_eq digest (canonical_payload (strip other_text)))) [
        | inl same ↦ ground (arith, visible, opens, seen, text, same)
        | inr other ↦ ground (arith, seen, text, other)
      ]
