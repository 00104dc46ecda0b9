-- ===== src/Knowledge/Documents/Written.antt =====
-- The rows that a command leaves, read back as a journal.
use apbra.Prelude.{
  append-nil, ℕ, ◌≡◌, refl, sym, ◌∙◌, ap, subst, true, false, none, List, [], ◌∷◌, ◌++◌, String,
  ◌==◌, any, any-filter, arith, ok, >>=-eq-ok, find, find-filter, filter, filter-append, length,
  if◌then◌else◌,
}
use apbra.Domain.{Actor}
use apbra.Knowledge.Lifecycle.{
  Command, Journal, Operation, Result, begin_operation, reuses, new_operation, extend, advance,
  position, action_preconditions,
}
use apbra.Knowledge.Lifecycle.Begin.{begin_operation-fresh}
use apbra.Knowledge.Dispatch.Types.{
  Kind, create, revision, archive, KnowledgeDocumentRow, KnowledgeCommandRow, DispatchStore,
}
use apbra.Knowledge.Documents.Journal.{
  Encodings, is_archive, is_revision, is_command_of, is_revision_of, command_rows, revision_rows,
  new_revisions, command_of_row, operations_of, journal_of, journal,
}
use apbra.Knowledge.Documents.Drafts.{DraftPayload, is_key, with_current, command_row, are_free}
use apbra.Knowledge.Documents.Apply.{revision_row, command_from, written}
use apbra.Knowledge.Documents.Lookup.{
  operations_of-grows, operations_of-append, new_revisions-row, operations_of-reuses,
}
use apbra.Knowledge.Documents.Rows.{
  IsFaithful, command_of_row-archive, command_of_row-brought, journal_of-extend,
}

module _ (e : Encodings) (faithful : IsFaithful e) (actor : Actor) (document : KnowledgeDocumentRow)
    (key : ℕ) (digest : String) (operation_id new_id : ℕ) (payload : DraftPayload) where
  abbrev row : Kind → ℕ → KnowledgeCommandRow
  row kind = command_row actor document kind key digest operation_id new_id payload

  abbrev command : Kind → Command
  command kind = command_from e actor document kind key digest operation_id new_id payload

  abbrev extended : Kind → Journal → Journal
  extended kind before =
      extend before (advance (command kind) (position before)) (new_operation actor (command kind))

  command_rows-written :
      (s : DispatchStore) (kind : Kind) (after : Journal)
      → (document.company_id == actor.company_id) ≡ true
      → command_rows
          (written e s actor document kind key digest operation_id new_id payload after)
          (with_current after document)
        ≡ command_rows s document ++ row kind (length after.operations) ∷ []
  unfolding command_rows written
  command_rows-written s kind after same =
      let r = row kind (length after.operations) in
      let mine : is_command_of document r ≡ true = ground arith in
      filter-append (is_command_of document) s.commands (r ∷ []) ∙ rw mine refl

  revision_rows-written :
      (s : DispatchStore) (kind : Kind) (after : Journal)
      → (document.company_id == actor.company_id) ≡ true
      → revision_rows
          (written e s actor document kind key digest operation_id new_id payload after)
          (with_current after document)
        ≡ revision_rows s document
          ++ (if is_archive kind then [] else revision_row e actor document new_id payload ∷ [])
  unfolding revision_rows written
  revision_rows-written s archive after same =
      sym (append-nil (filter (is_revision_of document) s.revisions))
  revision_rows-written s create after same =
      let r = revision_row e actor document new_id payload in
      let mine : is_revision_of document r ≡ true = ground arith in
      filter-append (is_revision_of document) s.revisions (r ∷ []) ∙ rw mine refl
  revision_rows-written s revision after same =
      let r = revision_row e actor document new_id payload in
      let mine : is_revision_of document r ≡ true = ground arith in
      filter-append (is_revision_of document) s.revisions (r ∷ []) ∙ rw mine refl

  -- The new command's row stands for the command.
  command_of_row-new :
      (s : DispatchStore) (kind : Kind) (sequence : ℕ) (xs : List Operation)
      → operations_of e (revision_rows s document) (command_rows s document) ≡ ok xs
      → action_preconditions
          (command kind)
          (new_revisions xs)
          document.current_revision_id
          actor.membership_id
        ≡ ok tt
      → are_free s kind document operation_id new_id ≡ true
      → command_of_row e
          (revision_rows s document
            ++ (if is_archive kind then [] else revision_row e actor document new_id payload ∷ []))
          (row kind sequence)
        ≡ ok (command kind)
  unfolding action_preconditions revision_rows
  command_of_row-new s archive sequence xs h pre free = rw (append-nil (revision_rows s document)) (
      command_of_row-archive e faithful actor document key digest operation_id new_id payload
        (revision_rows s document) sequence
        (new_revisions-row e (revision_rows s document) (command_rows s document) xs new_id h
          (ground arith)))
  command_of_row-new s create sequence xs h pre free =
      command_of_row-brought e faithful actor document key digest operation_id new_id payload
        (revision_rows s document) create sequence refl
        (any-filter (is_revision new_id) (is_revision_of document) s.revisions (ground arith))
  command_of_row-new s revision sequence xs h pre free =
      command_of_row-brought e faithful actor document key digest operation_id new_id payload
        (revision_rows s document) revision sequence refl
        (any-filter (is_revision new_id) (is_revision_of document) s.revisions (ground arith))

  operations_of-new :
      (s : DispatchStore) (kind : Kind) (sequence : ℕ) (xs : List Operation)
      → operations_of e (revision_rows s document) (command_rows s document) ≡ ok xs
      → action_preconditions
          (command kind)
          (new_revisions xs)
          document.current_revision_id
          actor.membership_id
        ≡ ok tt
      → are_free s kind document operation_id new_id ≡ true
      → operations_of e
          (revision_rows s document
            ++ (if is_archive kind then [] else revision_row e actor document new_id payload ∷ []))
          (command_rows s document ++ row kind sequence ∷ [])
        ≡ ok (xs ++ new_operation actor (command kind) ∷ [])
  operations_of-new s kind sequence xs h pre free =
      operations_of-append e _ (command_rows s document) xs (row kind sequence) (command kind)
        (operations_of-grows e (revision_rows s document) _ (command_rows s document) xs h)
        (command_of_row-new s kind sequence xs h pre free)

  journal-operations :
      (s : DispatchStore) (before : Journal)
      → journal e s document ≡ ok before
      → (xs : List Operation) × (operations_of e
            (revision_rows s document)
            (command_rows s document)
          ≡ ok xs)
        × (before ≡ journal_of document (command_rows s document) xs)
  unfolding journal
  journal-operations s before h =
      let (xs, read, last) =
        >>=-eq-ok (operations_of e (revision_rows s document) (command_rows s document)) _ h in
      (xs, read, ground (arith, last))

  -- No operation of the journal uses the identifier or the key of the new command.
  journal-reuses :
      (s : DispatchStore) (kind : Kind) (xs : List Operation)
      → operations_of e (revision_rows s document) (command_rows s document) ≡ ok xs
      → (document.company_id == actor.company_id) ≡ true
      → find (is_key actor key) s.commands ≡ none
      → are_free s kind document operation_id new_id ≡ true
      → any (reuses (command kind)) xs ≡ false
  unfolding command_rows
  journal-reuses s kind xs h same new_key free =
      operations_of-reuses e faithful.uuid_text-injective (revision_rows s document)
        (command_rows s document) xs (command kind) key refl h
        (any-filter (λ (old : KnowledgeCommandRow). old.id == operation_id) (is_command_of document)
          s.commands (ground arith))
        (find-filter (λ (old : KnowledgeCommandRow). old.command_key == key) (is_key actor key)
          (is_command_of document) s.commands (λ old mine named. ground arith) new_key)

  -- The command meets the preconditions that the rows before it set.
  journal-preconditions :
      (s : DispatchStore) (kind : Kind) (before : Journal) (result : Result) (xs : List Operation)
      → operations_of e (revision_rows s document) (command_rows s document) ≡ ok xs
      → before ≡ journal_of document (command_rows s document) xs
      → (document.company_id == actor.company_id) ≡ true
      → find (is_key actor key) s.commands ≡ none
      → are_free s kind document operation_id new_id ≡ true
      → begin_operation before actor (command kind) ≡ ok result
      → (action_preconditions
            (command kind)
            (new_revisions xs)
            document.current_revision_id
            actor.membership_id
          ≡ ok tt)
        × (result.journal ≡ extended kind (journal_of document (command_rows s document) xs))
  journal-preconditions s kind before result xs read split same new_key free begun =
      let fresh = journal-reuses s kind xs read same new_key free in
      let did = begin_operation-fresh before actor (command kind) result (rw split fresh) begun in
      (
        subst
            (λ j.
              action_preconditions (command kind) j.revisions j.current_revision_id
                actor.membership_id
              ≡ ok tt)
            split did.pre,
        ap (λ (r : Result). r.journal) did.result ∙ ap (extended kind) split,
      )

  -- The row of the command is read back as the command.
  pub command-written :
      (s : DispatchStore) (kind : Kind) (before : Journal) (result : Result)
      → (document.company_id == actor.company_id) ≡ true
      → journal e s document ≡ ok before
      → find (is_key actor key) s.commands ≡ none
      → are_free s kind document operation_id new_id ≡ true
      → begin_operation before actor (command kind) ≡ ok result
      → command_of_row e
          (revision_rows
            (written e s actor document kind key digest operation_id new_id payload result.journal)
            (with_current result.journal document))
          (row kind (length result.journal.operations))
        ≡ ok (command kind)
  command-written s kind before result same h new_key free begun =
      let (xs, read, split) = journal-operations s before h in
      let (pre, _) =
        journal-preconditions s kind before result xs read split same new_key free begun in
      rw (revision_rows-written s kind result.journal same)
        (command_of_row-new s kind (length result.journal.operations) xs read pre free)

  pub journal-written :
      (s : DispatchStore) (kind : Kind) (before : Journal) (result : Result)
      → (document.company_id == actor.company_id) ≡ true
      → journal e s document ≡ ok before
      → find (is_key actor key) s.commands ≡ none
      → are_free s kind document operation_id new_id ≡ true
      → begin_operation before actor (command kind) ≡ ok result
      → journal e
          (written e s actor document kind key digest operation_id new_id payload result.journal)
          (with_current result.journal document)
        ≡ ok result.journal
  unfolding journal
  journal-written s kind before result same h new_key free begun =
      let (xs, read, split) = journal-operations s before h in
      let (pre, after) =
        journal-preconditions s kind before result xs read split same new_key free begun in
      rw
        (
          revision_rows-written s kind result.journal same,
          command_rows-written s kind result.journal same,
        )
        (rw (operations_of-new s kind (length result.journal.operations) xs read pre free) (
          rw after (
            rw
              (journal_of-extend e faithful actor document key digest operation_id new_id payload
                kind (command_rows s document) xs _)
              refl)))
