-- ===== src/Knowledge/Documents/Apply.antt =====
-- `context`, `apply` and what they read, of `KnowledgeDocumentsService`. Identifiers are arguments.
use apbra.Prelude.{
  ℕ, ◌&&◌, Option, none, some, List, [], ◌∷◌, ◌++◌, String, str_eq, ◌==◌, ok, err, ◌>>=◌, ◌>>◌,
  require, some_or, find, length, modify_first, if◌then◌else◌,
}
use apbra.Domain.{Actor}
use apbra.Knowledge.Lifecycle.{Command, Journal, applied, replay, empty_journal, begin_operation}
use apbra.Knowledge.Dispatch.Types.{
  Kind, create, KnowledgeDocumentRow, KnowledgeRevisionRow, KnowledgeCommandRow, DispatchStore,
  unavailable, command_conflict, invalid, lifecycle_conflict, integrity_error, Dispatched,
}
use apbra.Knowledge.Dispatch.Service.{document, decode, command_outcome, revision_outcome}
use apbra.Knowledge.Documents.Journal.{
  Encodings, lifecycle_action, is_archive, command_rows, revision_rows, command_of_row, journal,
}
use apbra.Knowledge.Documents.Drafts.{
  DraftPayload, DocumentContext, is_current_revision, is_current_command, Applied, checked, is_key,
  Drawn, blank_document, target_id, brought_by, command_row, is_document, with_current,
  added_document, are_free,
}

module _ (e : Encodings) where
  unfoldable pub document_context :
      DispatchStore → KnowledgeDocumentRow → Dispatched DocumentContext
  document_context s document = do
    current ← some_or (find (is_current_revision document) (revision_rows s document)) unavailable
    latest ← some_or (find (is_current_command document) (command_rows s document)) unavailable
    (title, version, text) ← decode e.decode_utf8 e.sha256_hex current
    ok (record {
      document = document;
      current = current;
      title = title;
      source_version = version;
      revision_write_outcome = revision_outcome s current.id;
      is_archived = is_archive latest.kind;
      command_write_outcome = command_outcome s latest.id;
    })

  abbrev pub revision_row : Actor → KnowledgeDocumentRow → ℕ → DraftPayload → KnowledgeRevisionRow
  revision_row actor document new_id payload = record {
    id = new_id;
    document_id = document.id;
    company_id = actor.company_id;
    predecessor_revision_id = payload.expected_current_revision_id;
    creator_membership_id = actor.membership_id;
    creator_identity_id = actor.identity_id;
    title_original = e.encode_utf8 payload.title;
    source_version_original = e.encode_utf8 payload.source_version;
    text_original = e.encode_utf8 payload.text;
    text_sha256 = e.sha256_hex (e.encode_utf8 payload.text);
    text_byte_count = length (e.encode_utf8 payload.text);
  }

  abbrev pub added_revision :
      Kind
      → Actor
      → KnowledgeDocumentRow
      → ℕ
      → DraftPayload
      → List KnowledgeRevisionRow
      → List KnowledgeRevisionRow
  added_revision kind actor document new_id payload revisions =
      if is_archive kind
      then revisions
      else revisions ++ revision_row actor document new_id payload ∷ []

  abbrev pub command_from :
      Actor → KnowledgeDocumentRow → Kind → ℕ → String → ℕ → ℕ → DraftPayload → Command
  command_from actor document kind key digest operation_id new_id payload = record {
    operation_id = operation_id;
    command_key = e.uuid_text key;
    action = lifecycle_action kind;
    company_id = actor.company_id;
    document_id = document.id;
    target_revision_id = new_id;
    expected_current_revision_id = payload.expected_current_revision_id;
    body_fingerprint = digest;
    new_revision = brought_by kind actor document new_id payload;
  }

  -- The branch of a command key that is known.
  unfoldable pub apply_again :
      DispatchStore → Actor → KnowledgeCommandRow → String → Dispatched (Applied × DispatchStore)
  apply_again s actor existing digest = do
    require
        (existing.initiator_identity_id == actor.identity_id
          && existing.initiator_membership_id == actor.membership_id
          && str_eq existing.payload_digest digest)
        command_conflict
    document_row ← document s actor existing.document_id
    before ← journal e s document_row
    command ← command_of_row e (revision_rows s document_row) existing
    result ← checked (λ code. err unavailable) (begin_operation before actor command)
    context ← document_context s document_row
    ok (
      record {
        disposition = replay;
        command = existing;
        outcome = command_outcome s existing.id;
        document = context;
      },
      s,
    )

  unfoldable pub existing_document :
      DispatchStore → Actor → ℕ → Dispatched (KnowledgeDocumentRow × Journal)
  existing_document s actor id = do
    document_row ← document s actor id
    before ← journal e s document_row
    ok (document_row, before)

  -- The document of a command and its journal before it.
  unfoldable pub document_before :
      DispatchStore → Actor → Kind → Option ℕ → ℕ → Dispatched (KnowledgeDocumentRow × Journal)
  document_before s actor create document_id new_document_id = ok (
    blank_document actor.company_id new_document_id,
    empty_journal actor.company_id new_document_id,
  )
  document_before s actor kind none new_document_id = err invalid
  document_before s actor kind (some id) new_document_id = existing_document s actor id

  -- The rows that a command leaves.
  unfoldable pub written :
      DispatchStore
      → Actor
      → KnowledgeDocumentRow
      → Kind
      → ℕ
      → String
      → ℕ
      → ℕ
      → DraftPayload
      → Journal
      → DispatchStore
  written s actor document kind key digest operation_id new_id payload after = record s {
    documents =
        modify_first (is_document document) (with_current after)
          (added_document kind document s.documents);
    revisions = added_revision kind actor document new_id payload s.revisions;
    commands =
        s.commands
        ++ command_row actor document kind key digest operation_id new_id payload
            (length after.operations)
          ∷ [];
  }

  -- The branch of a command key that is new.
  unfoldable pub apply_new :
      DispatchStore
      → Actor
      → Kind
      → ℕ
      → KnowledgeDocumentRow
      → Journal
      → Drawn
      → DraftPayload
      → String
      → Dispatched (Applied × DispatchStore)
  apply_new s actor kind key document before drawn payload digest = do
    new_id ← some_or (target_id kind payload drawn) invalid
    result ←
        checked (λ code. err (lifecycle_conflict code))
          (begin_operation before actor
            (command_from actor document kind key digest drawn.operation_id new_id payload))
    require (are_free s kind document drawn.operation_id new_id) integrity_error
    let s' =
        written s actor document kind key digest drawn.operation_id new_id payload result.journal
    context ← document_context s' (with_current result.journal document)
    ok (
      record {
        disposition = applied;
        command =
            command_row actor document kind key digest drawn.operation_id new_id payload
              (length result.journal.operations);
        outcome = command_outcome s' drawn.operation_id;
        document = context;
      },
      s',
    )

  -- `command_digest` is the digest of the command's JSON text.
  unfoldable pub apply :
      (Kind → Option ℕ → DraftPayload → Actor → String)
      → DispatchStore
      → Actor
      → Kind
      → ℕ
      → Option ℕ
      → Drawn
      → DraftPayload
      → Dispatched (Applied × DispatchStore)
  apply command_digest s actor kind key document_id drawn payload =
      let digest = command_digest kind document_id payload actor in
      elim (find (is_key actor key) s.commands) [
        | some existing ↦ apply_again s actor existing digest
        | none ↦ do
          (document_row, before) ← document_before s actor kind document_id drawn.document_id
          apply_new s actor kind key document_row before drawn payload digest
      ]
