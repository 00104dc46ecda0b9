-- ===== src/Knowledge/Documents/Lookup.antt =====
-- What `journal` reads of the rows of a document after one more row is inserted.
use apbra.Prelude.{
  ℕ, ◌≡◌, refl, sym, ◌∙◌, subst, inl, inr, Bool, true, false, ◌||◌, Option, none, some, List, [],
  ◌∷◌, ◌++◌, str_eq, eq_iff, ◌==◌, Bool-cases, Option-cases, is_some, any, arith, ok, >>=-eq-ok,
  find, find-passes, find-append-some,
}
use apbra.Knowledge.Lifecycle.{Revision, Command, Operation, reuses}
use apbra.Knowledge.Dispatch.Types.{KnowledgeRevisionRow, KnowledgeCommandRow}
use apbra.Knowledge.Dispatch.Service.{decode}
use apbra.Knowledge.Documents.Journal.{
  Encodings, is_archive, is_revision, new_revisions, archived_from, revision_of, new_revision_of,
  stored_command, command_of_row, stored_operation, operations_of,
}

pub archived_from-append :
    (rows : List KnowledgeCommandRow) (row : KnowledgeCommandRow) (seen : List ℕ)
    → archived_from seen (rows ++ row ∷ []) ≡ archived_from (archived_from seen rows) (row ∷ [])
archived_from-append [] row seen = refl
archived_from-append (x ∷ rows) row seen = archived_from-append rows row _

abbrev brought : Option Revision → List Revision
brought none = []
brought (some r) = r ∷ []

pub new_revisions-append :
    (xs : List Operation) (x : Operation)
    → new_revisions (xs ++ x ∷ []) ≡ new_revisions xs ++ brought x.command.new_revision
new_revisions-append [] x = elim (Option-cases x.command.new_revision) [
  | inl nothing ↦ rw nothing refl
  | inr (r, just) ↦ rw just refl
]
new_revisions-append (y ∷ xs) x = elim (Option-cases y.command.new_revision) [
  | inl nothing ↦ rw nothing (new_revisions-append xs x)
  | inr (r, just) ↦ rw (just, new_revisions-append xs x) refl
]

module _ (e : Encodings) where
  command_of_row-grows :
      (by_id more : List KnowledgeRevisionRow) (row : KnowledgeCommandRow) (c : Command)
      → command_of_row e by_id row ≡ ok c
      → command_of_row e (by_id ++ more) row ≡ ok c
  unfolding command_of_row
  command_of_row-grows by_id more row c h =
      elim (Option-cases (find (is_revision row.target_revision_id) by_id)) [
        | inl nothing ↦ cc (rw nothing at h)
        | inr (target, found) ↦
            rw (find-append-some (is_revision row.target_revision_id) by_id more target found)
              (rw found at h)
      ]

  pub operations_of-grows :
      (by_id more : List KnowledgeRevisionRow) (rows : List KnowledgeCommandRow)
      (xs : List Operation)
      → operations_of e by_id rows ≡ ok xs
      → operations_of e (by_id ++ more) rows ≡ ok xs
  unfolding operations_of
  operations_of-grows by_id more [] xs h = h
  operations_of-grows by_id more (row ∷ rows) xs h =
      let (c, first, h') = >>=-eq-ok (command_of_row e by_id row) _ h in
      let (ys, rest, last) = >>=-eq-ok (operations_of e by_id rows) _ h' in
      rw (command_of_row-grows by_id more row c first, operations_of-grows by_id more rows ys rest)
        last

  pub operations_of-append :
      (by_id : List KnowledgeRevisionRow) (rows : List KnowledgeCommandRow) (xs : List Operation)
      (row : KnowledgeCommandRow) (c : Command)
      → operations_of e by_id rows ≡ ok xs
      → command_of_row e by_id row ≡ ok c
      → operations_of e by_id (rows ++ row ∷ []) ≡ ok (xs ++ stored_operation row c ∷ [])
  unfolding operations_of
  operations_of-append by_id [] xs row c h k = ground arith
  operations_of-append by_id (x ∷ rows) xs row c h k =
      let (d, first, h') = >>=-eq-ok (command_of_row e by_id x) _ h in
      let (ys, rest, last) = >>=-eq-ok (operations_of e by_id rows) _ h' in
      rw (first, operations_of-append by_id rows ys row c rest k) (ground arith)

  any-new_revisions :
      (test : Revision → Bool) (x : Operation) (xs : List Operation)
      → any test (new_revisions (x ∷ xs))
        ≡ (any test (brought x.command.new_revision) || any test (new_revisions xs))
  any-new_revisions test x xs = elim (Option-cases x.command.new_revision) [
    | inl nothing ↦ rw nothing refl
    | inr (r, just) ↦ rw just (ground arith)
  ]

  revision_of-id :
      (target : KnowledgeRevisionRow) (r : Revision)
      → revision_of e target ≡ ok r
      → r.revision_id ≡ target.id
  unfolding revision_of
  revision_of-id target r h =
      let (_, _, last) = >>=-eq-ok (decode e.decode_utf8 e.sha256_hex target) _ h in
      ground (arith, last)

  new_revision_of-id :
      (row : KnowledgeCommandRow) (target : KnowledgeRevisionRow) (o : Option Revision) (x : ℕ)
      → new_revision_of e row target ≡ ok o
      → any (λ (r : Revision). r.revision_id == x) (brought o) ≡ true
      → (target.id == x) ≡ true
  unfolding new_revision_of
  new_revision_of-id row target none x h k = cc
  new_revision_of-id row target (some r) x h k = elim (Bool-cases (is_archive row.kind)) [
    | inl nothing ↦ cc (rw nothing at h)
    | inr one ↦
        let (_, read, last) = >>=-eq-ok (revision_of e target) _ (rw one at h) in
        ground (arith, revision_of-id target r, read, last)
  ]

  pub command_of_row-target :
      (by_id : List KnowledgeRevisionRow) (row : KnowledgeCommandRow) (c : Command)
      → command_of_row e by_id row ≡ ok c
      → (target : KnowledgeRevisionRow) × (find (is_revision row.target_revision_id) by_id
          ≡ some target)
        × (new_revision_of e row target ≡ ok c.new_revision)
        × (c ≡ stored_command e.uuid_text row c.new_revision)
  unfolding command_of_row
  command_of_row-target by_id row c h =
      elim (Option-cases (find (is_revision row.target_revision_id) by_id)) [
        | inl nothing ↦ cc (rw nothing at h)
        | inr (target, found) ↦
            let (r, read, last) = >>=-eq-ok (new_revision_of e row target) _ (rw found at h) in
            (target, found, ground (arith, read, last), ground (arith, last))
      ]

  -- A revision that the journal holds is one of the document's rows.
  brought_row :
      (by_id : List KnowledgeRevisionRow) (row : KnowledgeCommandRow) (c : Command) (x : ℕ)
      → command_of_row e by_id row ≡ ok c
      → any (λ (r : Revision). r.revision_id == x) (brought c.new_revision) ≡ true
      → is_some (find (is_revision x) by_id) ≡ true
  brought_row by_id row c x h k =
      let (target, found, read, _) = command_of_row-target by_id row c h in
      let here = find-passes (is_revision row.target_revision_id) by_id target found in
      let same = new_revision_of-id row target c.new_revision x read k in
      let one : row.target_revision_id ≡ x = ground arith in
      subst (λ y. is_some (find (is_revision y) by_id) ≡ true) one (rw found refl)

  pub new_revisions-row :
      (by_id : List KnowledgeRevisionRow) (rows : List KnowledgeCommandRow) (xs : List Operation)
      (x : ℕ)
      → operations_of e by_id rows ≡ ok xs
      → any (λ (r : Revision). r.revision_id == x) (new_revisions xs) ≡ true
      → is_some (find (is_revision x) by_id) ≡ true
  unfolding operations_of
  new_revisions-row by_id [] xs x h k = ground arith
  new_revisions-row by_id (row ∷ rows) xs x h k =
      let (c, first, h') = >>=-eq-ok (command_of_row e by_id row) _ h in
      let (ys, rest, last) = >>=-eq-ok (operations_of e by_id rows) _ h' in
      let split : xs ≡ stored_operation row c ∷ ys = ground (arith, last) in
      let k' =
        subst (λ zs. any (λ (r : Revision). r.revision_id == x) (new_revisions zs) ≡ true) split
          k in
      let has = λ (r : Revision). r.revision_id == x in
      let k'' : (any has (brought c.new_revision) || any has (new_revisions ys)) ≡ true =
        sym (any-new_revisions has (stored_operation row c) ys) ∙ k' in
      elim (Bool-cases (any has (brought c.new_revision))) [
        | inl here ↦ brought_row by_id row c x first here
        | inr there ↦ new_revisions-row by_id rows ys x rest (rw there at k'')
      ]

  new_text :
      ((a b : ℕ) → e.uuid_text a ≡ e.uuid_text b → a ≡ b)
      → (a b : ℕ) → (a == b) ≡ false
      → str_eq (e.uuid_text a) (e.uuid_text b) ≡ false
  new_text inj a b h = elim (Bool-cases (str_eq (e.uuid_text a) (e.uuid_text b))) [
    | inl same ↦ let one = inj a b ((eq_iff (e.uuid_text a) (e.uuid_text b)).0 same) in ground arith
    | inr other ↦ other
  ]

  -- The operations of rows without the command's identifier and key are no uses of it.
  pub operations_of-reuses :
      ((a b : ℕ) → e.uuid_text a ≡ e.uuid_text b → a ≡ b)
      → (by_id : List KnowledgeRevisionRow) (rows : List KnowledgeCommandRow) (xs : List Operation)
        (c : Command) (key : ℕ)
      → c.command_key ≡ e.uuid_text key
      → operations_of e by_id rows ≡ ok xs
      → any (λ (row : KnowledgeCommandRow). row.id == c.operation_id) rows ≡ false
      → any (λ (row : KnowledgeCommandRow). row.command_key == key) rows ≡ false
      → any (reuses c) xs ≡ false
  unfolding operations_of
  operations_of-reuses inj by_id [] xs c key named h new_id new_key = ground arith
  operations_of-reuses inj by_id (row ∷ rows) xs c key named h new_id new_key =
      let (d, first, h') = >>=-eq-ok (command_of_row e by_id row) _ h in
      let (ys, rest, last) = >>=-eq-ok (operations_of e by_id rows) _ h' in
      let (_, _, _, same) = command_of_row-target by_id row d first in
      let split : xs ≡ stored_operation row d ∷ ys = ground (arith, last) in
      let other = new_text inj row.command_key key (ground arith) in
      let later =
        operations_of-reuses inj by_id rows ys c key named rest (ground arith) (ground arith) in
      subst (λ zs. any (reuses c) zs ≡ false) (sym split)
        (subst (λ d'. (reuses c (stored_operation row d') || any (reuses c) ys) ≡ false) (sym same)
          (rw named (ground (arith, other, later))))
