-- ===== src/Knowledge/Documents/Repeat.antt =====
-- `apply` with a command key that an earlier call of it has stored.
use apbra.Prelude.{
  ℕ, ◌≡◌, refl, sym, ◌∙◌, subst, inl, inr, true, Option, none, some, [], ◌∷◌, String, str_eq, ◌==◌,
  ==_refl, Bool-cases, ok, err, find, find-append, length, >>=-eq-ok, if◌then◌else◌,
}
use apbra.Domain.{Actor}
use apbra.Knowledge.Lifecycle.{applied, replay, Command, Journal, begin_operation}
use apbra.Knowledge.Lifecycle.History.{begin_operation-replay}
use apbra.Knowledge.Dispatch.Types.{
  Kind, KnowledgeDocumentRow, KnowledgeCommandRow, DispatchStore, command_conflict,
}
use apbra.Knowledge.Dispatch.Service.{document}
use apbra.Knowledge.Documents.Journal.{
  Encodings, command_rows, revision_rows, command_of_row, journal,
}
use apbra.Knowledge.Documents.Drafts.{
  DraftPayload, Drawn, DocumentContext, Applied, is_key, with_current, blank_document, command_row,
}
use apbra.Knowledge.Documents.Apply.{
  command_from, document_before, document_context, written, apply_again, apply,
}
use apbra.Knowledge.Documents.Rows.{IsFaithful}
use apbra.Knowledge.Documents.Written.{command-written, journal-written}
use apbra.Knowledge.Documents.Stored.{document-written, document_before-journal}
use apbra.Knowledge.Documents.Refines.{answered, apply_new-IsApplication}

module _ (e : Encodings) where
  -- What a known key is answered where the rows of its command can be read.
  apply_again-answer :
      (s : DispatchStore) (actor : Actor) (existing : KnowledgeCommandRow) (digest : String)
      (row : KnowledgeDocumentRow) (j : Journal) (c : Command) (context : DocumentContext)
      → (existing.initiator_identity_id == actor.identity_id) ≡ true
      → (existing.initiator_membership_id == actor.membership_id) ≡ true
      → document s actor existing.document_id ≡ ok row
      → journal e s row ≡ ok j
      → command_of_row e (revision_rows s row) existing ≡ ok c
      → begin_operation j actor c ≡ ok (record { journal = j; disposition = replay })
      → document_context e s row ≡ ok context
      → apply_again e s actor existing digest ≡ (
          if str_eq existing.payload_digest digest
          then ok (answered replay s existing context, s)
          else err command_conflict)
  unfolding apply_again
  apply_again-answer s actor existing digest row j c context its theirs found read stands again
        shown =
      elim (Bool-cases (str_eq existing.payload_digest digest)) [
        | inl same ↦ rw (its, theirs, same, found, read, stands, again, shown) refl
        | inr other ↦ rw (its, theirs, other) refl
      ]

  find-command :
      (s : DispatchStore) (actor : Actor) (kind : Kind) (key : ℕ) (digest : String)
      (operation_id new_id : ℕ) (payload : DraftPayload) (row : KnowledgeDocumentRow)
      (after : Journal)
      → find (is_key actor key) s.commands ≡ none
      → find
          (is_key actor key)
          (written e s actor row kind key digest operation_id new_id payload after).commands
        ≡ some (
            command_row actor row kind key digest operation_id new_id payload
              (length after.operations))
  unfolding written
  find-command s actor kind key digest operation_id new_id payload row after new_key =
      let r =
        command_row actor row kind key digest operation_id new_id payload
          (length after.operations) in
      find-append (is_key actor key) s.commands (r ∷ []) new_key
      ∙ rw (==_refl actor.company_id, ==_refl key) refl

  apply-known :
      (command_digest : Kind → Option ℕ → DraftPayload → Actor → String) (s : DispatchStore)
      (actor : Actor) (kind : Kind) (key : ℕ) (document_id : Option ℕ) (drawn : Drawn)
      (payload : DraftPayload) (existing : KnowledgeCommandRow)
      → find (is_key actor key) s.commands ≡ some existing
      → apply e command_digest s actor kind key document_id drawn payload
        ≡ apply_again e s actor existing (command_digest kind document_id payload actor)
  unfolding apply
  apply-known command_digest s actor kind key document_id drawn payload existing known =
      rw (known, apply) refl

-- When a command key is new, no command refers to the identifier drawn for a new document, and UTF-8 and the texts of
-- UUIDs are faithful, a call of `apply` that returns is answered alike when it is repeated: a later call of the same
-- actor with the same key on the rows that it left, for any kind, document and payload, returns the first answer, as a
-- REPLAY, and the same rows where the digest of the command is the first one's, and is a command conflict otherwise.
pub apply-repeat :
    (e : Encodings)
    → IsFaithful e
    → (command_digest : Kind → Option ℕ → DraftPayload → Actor → String) (s s' : DispatchStore)
      (actor : Actor) (kind other : Kind) (key : ℕ) (document_id other_id : Option ℕ)
      (drawn other_drawn : Drawn) (payload other_payload : DraftPayload) (a : Applied)
    → find (is_key actor key) s.commands ≡ none
    → command_rows s (blank_document actor.company_id drawn.document_id) ≡ []
    → apply e command_digest s actor kind key document_id drawn payload ≡ ok (a, s')
    → apply e command_digest s' actor other key other_id other_drawn other_payload ≡ (
        if str_eq
          (command_digest kind document_id payload actor)
          (command_digest other other_id other_payload actor)
        then ok (record a { disposition = replay }, s')
        else err command_conflict)
unfolding apply
apply-repeat e faithful command_digest s s' actor kind other key document_id other_id drawn
      other_drawn payload other_payload a new_key unused h =
    let digest = command_digest kind document_id payload actor in
    let ((row, before), at_first, h1) =
      >>=-eq-ok (document_before e s actor kind document_id drawn.document_id) _
        (rw (new_key, apply) at h) in
    let did = apply_new-IsApplication e s s' actor kind key row before drawn payload digest a h1 in
    let (read, same) =
      document_before-journal e s actor kind document_id drawn.document_id row before unused
        at_first in
    let j = did.result.journal in
    let t = written e s actor row kind key digest drawn.operation_id did.new_id payload j in
    let c = command_from e actor row kind key digest drawn.operation_id did.new_id payload in
    let r =
      command_row actor row kind key digest drawn.operation_id did.new_id payload
        (length j.operations) in
    let again =
      apply_again-answer e t actor r (command_digest other other_id other_payload actor)
        (with_current j row) j c did.context (==_refl actor.identity_id)
        (==_refl actor.membership_id)
        (document-written e s actor kind key digest drawn.operation_id did.new_id payload j
          document_id drawn.document_id row before at_first same did.free)
        (journal-written e faithful actor row key digest drawn.operation_id did.new_id payload s
          kind before did.result same read new_key did.free did.begun)
        (command-written e faithful actor row key digest drawn.operation_id did.new_id payload s
          kind before did.result same read new_key did.free did.begun)
        (begin_operation-replay before actor c did.result did.begun)
        (subst (λ x. document_context e x (with_current j row) ≡ ok did.context) did.rows
          did.shown) in
    let first = subst (λ x. a ≡ answered applied x r did.context) did.rows did.answer in
    let second = command_digest other other_id other_payload actor in
    subst
      (λ x. apply e command_digest x actor other key other_id other_drawn other_payload ≡ (
        if str_eq digest second
        then ok (record a { disposition = replay }, x)
        else err command_conflict))
      (sym did.rows)
      (subst
        (λ (b : Applied).
          apply e command_digest t actor other key other_id other_drawn other_payload ≡ (
            if str_eq digest second
            then ok (record b { disposition = replay }, t)
            else err command_conflict))
        (sym first)
        (apply-known e command_digest t actor other key other_id other_drawn other_payload r (
            find-command e s actor kind key digest drawn.operation_id did.new_id payload row j
              new_key)
          ∙ again))
