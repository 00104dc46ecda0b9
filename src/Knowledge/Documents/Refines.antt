-- ===== src/Knowledge/Documents/Refines.antt =====
-- `apply` refines `begin_operation`: the rows that it writes are the journal that this returns.
use apbra.Prelude.{
  ℕ, length, ◌≡◌, sym, subst, true, Option, none, [], String, arith, ok, err, require,
  require-eq-ok, Fallible, >>=-eq-ok, >>-eq-ok, some_or, find,
}
use apbra.Domain.{Actor}
use apbra.Knowledge.Lifecycle.{
  Disposition, applied, FailureCode, Journal, Result, begin_operation, validate_journal,
}
use apbra.Knowledge.Lifecycle.Begin.{begin_operation-valid}
use apbra.Knowledge.Dispatch.Types.{
  Kind, KnowledgeDocumentRow, KnowledgeCommandRow, DispatchStore, integrity_error, invalid,
  lifecycle_conflict,
}
use apbra.Knowledge.Dispatch.Service.{document, command_outcome}
use apbra.Knowledge.Documents.Stored.{document-written, document_before-journal}
use apbra.Knowledge.Documents.Journal.{Encodings, command_rows, journal}
use apbra.Knowledge.Documents.Drafts.{
  DraftPayload, DocumentContext, command_row, Drawn, Applied, checked, target_id, is_key,
  with_current, are_free, blank_document,
}
use apbra.Knowledge.Documents.Apply.{
  command_from, document_before, document_context, written, apply_new, apply,
}
use apbra.Knowledge.Documents.Rows.{IsFaithful}
use apbra.Knowledge.Documents.Written.{journal-written}

checked-eq-ok :
    (m : Fallible FailureCode Result) (r : Result)
    → checked (λ code. err (lifecycle_conflict code)) m ≡ ok r
    → m ≡ ok r
checked-eq-ok (ok value) r h = ground (arith, h)
checked-eq-ok (err code) r h = cc

-- An answer of `apply` about a stored command.
abbrev pub answered : Disposition → DispatchStore → KnowledgeCommandRow → DocumentContext → Applied
answered disposition s command document = record {
  disposition = disposition;
  command = command;
  outcome = command_outcome s command.id;
  document = document;
}

module _ (e : Encodings) where
  -- What a call of `apply` with a new key has read, written and answered.
  pub record IsApplication (s : DispatchStore) (actor : Actor) (kind : Kind) (key : ℕ)
      (digest : String) (drawn : Drawn) (payload : DraftPayload) (row : KnowledgeDocumentRow)
      (before : Journal) (a : Applied) (s' : DispatchStore) : Type 0 where
    pub new_id : ℕ
    pub result : Result
    pub context : DocumentContext
    pub begun :
        begin_operation before actor
          (command_from e actor row kind key digest drawn.operation_id new_id payload)
        ≡ ok result
    pub free : are_free s kind row drawn.operation_id new_id ≡ true
    pub rows :
        s' ≡ written e s actor row kind key digest drawn.operation_id new_id payload result.journal
    pub shown : document_context e s' (with_current result.journal row) ≡ ok context
    pub answer :
        a
        ≡ answered applied s'
            (command_row actor row kind key digest drawn.operation_id new_id payload
              (length result.journal.operations))
            context

  pub apply_new-IsApplication :
      (s s' : DispatchStore) (actor : Actor) (kind : Kind) (key : ℕ) (row : KnowledgeDocumentRow)
      (before : Journal) (drawn : Drawn) (payload : DraftPayload) (digest : String) (a : Applied)
      → apply_new e s actor kind key row before drawn payload digest ≡ ok (a, s')
      → IsApplication s actor kind key digest drawn payload row before a s'
  unfolding apply_new
  apply_new-IsApplication s s' actor kind key row before drawn payload digest a h =
      let (new_id, _, h1) = >>=-eq-ok (some_or (target_id kind payload drawn) invalid) _ h in
      let (result, begun, h2) =
        >>=-eq-ok
          (checked (λ code. err (lifecycle_conflict code))
            (begin_operation before actor
              (command_from e actor row kind key digest drawn.operation_id new_id payload)))
          _ h1 in
      let (free, h3) =
        >>-eq-ok (require (are_free s kind row drawn.operation_id new_id) integrity_error) h2 in
      let t =
        written e s actor row kind key digest drawn.operation_id new_id payload result.journal in
      let after = with_current result.journal row in
      let command =
        command_row actor row kind key digest drawn.operation_id new_id payload
          (length result.journal.operations) in
      let (context, shown, last) = >>=-eq-ok (document_context e t after) _ h3 in
      let rows : t ≡ s' = ground (arith, last) in
      record {
        new_id = new_id;
        result = result;
        context = context;
        begun = checked-eq-ok _ result begun;
        free = require-eq-ok integrity_error free;
        rows = sym rows;
        shown = subst (λ x. document_context e x after ≡ ok context) rows shown;
        answer = subst (λ x. a ≡ answered applied x command context) rows (ground (arith, last));
      }

-- When a command key is new, no command refers to the identifier drawn for a new document, and UTF-8 and the texts of
-- UUIDs are faithful, a call of `apply` that returns has called `begin_operation` on the journal of the document
-- before; the document is then found in the store with the current revision and operation of the journal which that
-- returned, the rows of this stored document are, read back, exactly that journal, and this journal is valid.
pub apply-journal :
    (e : Encodings)
    → IsFaithful e
    → (command_digest : Kind → Option ℕ → DraftPayload → Actor → String) (s s' : DispatchStore)
      (actor : Actor) (kind : Kind) (key : ℕ) (document_id : Option ℕ) (drawn : Drawn)
      (payload : DraftPayload) (a : Applied)
    → find (is_key actor key) s.commands ≡ none
    → command_rows s (blank_document actor.company_id drawn.document_id) ≡ []
    → apply e command_digest s actor kind key document_id drawn payload ≡ ok (a, s')
    → (row : KnowledgeDocumentRow) × (before : Journal) × (new_id : ℕ) × (result : Result)
      × (document_before e s actor kind document_id drawn.document_id ≡ ok (row, before))
      × (begin_operation before actor (
            command_from e actor row kind key
              (command_digest kind document_id payload actor)
              drawn.operation_id
              new_id
              payload)
          ≡ ok result)
      × (document s' actor row.id ≡ ok (with_current result.journal row))
      × (journal e s' (with_current result.journal row) ≡ ok result.journal)
      × (validate_journal result.journal ≡ ok tt)
unfolding apply
apply-journal e faithful command_digest s s' actor kind key document_id drawn payload a new_key
      unused h =
    let digest = command_digest kind document_id payload actor in
    let ((row, before), at_first, h1) =
      >>=-eq-ok (document_before e s actor kind document_id drawn.document_id) _
        (rw (new_key, apply) at h) in
    let did = apply_new-IsApplication e s s' actor kind key row before drawn payload digest a h1 in
    let (read, same) =
      document_before-journal e s actor kind document_id drawn.document_id row before unused
        at_first in
    let after = with_current did.result.journal row in
    (
      row,
      before,
      did.new_id,
      did.result,
      at_first,
      did.begun,
      subst (λ t. document t actor row.id ≡ ok after) (sym did.rows)
          (document-written e s actor kind key digest drawn.operation_id did.new_id payload
            did.result.journal document_id drawn.document_id row before at_first same did.free),
      subst (λ t. journal e t after ≡ ok did.result.journal) (sym did.rows)
          (journal-written e faithful actor row key digest drawn.operation_id did.new_id payload s
            kind before did.result same read new_key did.free did.begun),
      begin_operation-valid before actor _ did.result did.begun,
    )
