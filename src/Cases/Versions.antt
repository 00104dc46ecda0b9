-- ===== src/Cases/Versions.antt =====
-- What `CaseService.update` and `CaseService.create` change.
use apbra.Prelude.{
  ℕ, ◌≡◌, refl, sym, ◌∙◌, subst, true, false, some, List, [], ◌∷◌, ◌++◌, arith, ok, err, some_or,
  ◌==◌, ==_refl, >>=-eq-ok, Option-cases, inl, inr, String, strip, find, find-passes,
  find-modify_first, modify_first, any, ◌+◌,
}
use apbra.Domain.{Actor, stale_version, assertion_error}
use apbra.Store.Rows.{CaseRow, CaseAccessRow, RequestVersionRow, Store}
use apbra.Store.Query.{locked_case, is_case, request_version}
use apbra.Store.Write.{update_case_request, advanced, next_version, add_audit}
use apbra.Cases.Authorization.{authorized_case_access}
use apbra.Cases.Service.{update}

-- What a successful update did: it changed one case row and added one version.
record IsUpdate (s : Store) (actor : Actor) (now version_id case_id : ℕ) (request_text : String)
    (expected : ℕ) (row : CaseRow) (s' : Store) : Type 0 where
  old : CaseRow
  found : find (is_case case_id) s.cases ≡ some old
  current : old.version ≡ expected
  fresh : any (λ v. v.id == version_id) s.request_versions ≡ false
  result : row ≡ advanced now version_id old
  cases : s'.cases ≡ modify_first (is_case old.id) (advanced now version_id) s.cases
  request_versions :
      s'.request_versions
      ≡ s.request_versions ++ next_version actor version_id old (strip request_text) ∷ []

update-IsUpdate :
    (s : Store) (actor : Actor) (now version_id case_id : ℕ) (request_text : String) (expected : ℕ)
    (row : CaseRow) (s' : Store)
    → update s actor now version_id case_id request_text expected ≡ ok (row, s')
    → IsUpdate s actor now version_id case_id request_text expected row s'
unfolding update locked_case update_case_request add_audit
update-IsUpdate s actor now version_id case_id request_text expected row s' h =
    let (seen, _, h1) = >>=-eq-ok (authorized_case_access s actor case_id true) _ h in
    elim (Option-cases (locked_case s case_id)) [
      | inl missing ↦ absurd (ground arith)
      | inr (old, found) ↦
          let (_, _, h2) = >>=-eq-ok (some_or (locked_case s case_id) assertion_error) _ h1 in
          record {
            old = old;
            found = found;
            current = ground arith;
            fresh = ground arith;
            result = ground arith;
            cases = ground arith;
            request_versions = ground arith;
          }
    ]

-- The changed row is found where the old one was.
updated_case-found :
    (now version_id case_id : ℕ) (xs : List CaseRow) (old : CaseRow)
    → find (is_case case_id) xs ≡ some old
    → find (is_case case_id) (modify_first (is_case old.id) (advanced now version_id) xs)
      ≡ some (advanced now version_id old)
unfolding is_case
updated_case-found now version_id case_id xs old found =
    let its : old.id ≡ case_id = ground (arith, find-passes (is_case case_id) xs old found) in
    let same = subst (λ c. find (is_case c) xs ≡ some old) (sym its) found in
    find-modify_first (is_case case_id) (is_case old.id) (advanced now version_id) xs old found same
      (find-passes (is_case case_id) xs old found)

find-last :
    (v : RequestVersionRow) (xs : List RequestVersionRow)
    → any (λ w. w.id == v.id) xs ≡ false
    → find (λ w. w.id == v.id) (xs ++ v ∷ []) ≡ some v
find-last v [] fresh = ground (arith, ==_refl v.id)
find-last v (x ∷ xs) fresh = ground (arith, find-last v xs (ground arith))

-- A successful update of a case whose version is the expected one returns the row that is stored
-- from then on: its version and its semantic context version are one higher, and its current
-- request version is the new one, numbered like the case, with the stripped text.
pub update-advances :
    (s : Store) (actor : Actor) (now version_id case_id : ℕ) (request_text : String) (expected : ℕ)
    (row : CaseRow) (s' : Store)
    → update s actor now version_id case_id request_text expected ≡ ok (row, s')
    → (old : CaseRow) × (version : RequestVersionRow) × (locked_case s case_id ≡ some old)
      × (locked_case s' case_id ≡ some row)
      × (request_version s' row.current_request_version_id ≡ some version)
      × (row.version ≡ expected + 1)
      × (row.semantic_context_version ≡ old.semantic_context_version + 1)
      × (version.sequence ≡ row.version)
      × (version.request_text ≡ strip request_text)
unfolding locked_case request_version
update-advances s actor now version_id case_id request_text expected row s' h =
    let u = update-IsUpdate s actor now version_id case_id request_text expected row s' h in
    let version = next_version actor version_id u.old (strip request_text) in
    (
      u.old,
      version,
      u.found,
      subst (λ rows. find (is_case case_id) rows ≡ some row) (sym u.cases)
          (updated_case-found now version_id case_id s.cases u.old u.found
            ∙ sym (ap_some u.result)),
      subst
          (λ r. find (λ v. v.id == r.current_request_version_id) s'.request_versions ≡ some version)
          (sym u.result)
          (subst (λ vs. find (λ v. v.id == version_id) vs ≡ some version) (sym u.request_versions)
            (find-last version s.request_versions u.fresh)),
      subst (λ r. r.version ≡ expected + 1) (sym u.result) (ground (arith, u.current)),
      subst (λ r. r.semantic_context_version ≡ u.old.semantic_context_version + 1) (sym u.result)
          refl,
      subst (λ r. version.sequence ≡ r.version) (sym u.result) refl,
      refl,
    )
  where
    ap_some : {a b : CaseRow} → a ≡ b → some a ≡ some b
    ap_some e = cc

-- No update is lost: after a successful update, whoever may edit the case and still expects the
-- version that this update replaced is refused as stale.
pub update-stale :
    (s : Store) (actor : Actor) (now version_id case_id : ℕ) (request_text : String) (expected : ℕ)
    (row : CaseRow) (s' : Store) (other : Actor) (later other_id : ℕ) (other_text : String)
    (seen : CaseRow × CaseAccessRow)
    → update s actor now version_id case_id request_text expected ≡ ok (row, s')
    → authorized_case_access s' other case_id true ≡ ok seen
    → update s' other later other_id case_id other_text expected ≡ err stale_version
unfolding update
update-stale s actor now version_id case_id request_text expected row s' other later other_id
      other_text seen h may =
    let (old, version, _, found, _, next, _, _, _) =
      update-advances s actor now version_id case_id request_text expected row s' h in
    let differs : (row.version == expected) ≡ false = ground arith in
    ground (arith, may, found, differs)
