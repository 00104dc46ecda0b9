-- ===== src/Knowledge/Documents/Journal.antt =====
-- The journal that the stored rows of a document stand for: `_revision`, `_command`, `rows` and
-- `journal`.
use apbra.Prelude.{
  ℕ, Bool, true, false, not, ◌&&◌, Option, none, some, List, [], ◌∷◌, ◌++◌, String, ◌==◌, ok, ◌>>=◌,
  some_or, find, filter, contains, if◌then◌else◌,
}
use apbra.Knowledge.Lifecycle.{
  Action, upload, update, delete, Revision, Command, Operation, Journal, not_sent,
}
use apbra.Knowledge.Dispatch.Types.{
  Kind, create, revision, archive, KnowledgeDocumentRow, KnowledgeRevisionRow, KnowledgeCommandRow,
  DispatchStore, unavailable, Dispatched,
}
use apbra.Knowledge.Dispatch.Service.{decode}

abbrev pub lifecycle_action : Kind → Action
lifecycle_action create = upload
lifecycle_action revision = update
lifecycle_action archive = delete

abbrev pub is_archive : Kind → Bool
is_archive archive = true
is_archive _ = false

abbrev pub is_command_of : KnowledgeDocumentRow → KnowledgeCommandRow → Bool
is_command_of document row = row.company_id == document.company_id && row.document_id == document.id

abbrev pub is_revision_of : KnowledgeDocumentRow → KnowledgeRevisionRow → Bool
is_revision_of document row =
    row.company_id == document.company_id && row.document_id == document.id

unfoldable pub command_rows : DispatchStore → KnowledgeDocumentRow → List KnowledgeCommandRow
command_rows s document = filter (is_command_of document) s.commands

unfoldable pub revision_rows : DispatchStore → KnowledgeDocumentRow → List KnowledgeRevisionRow
revision_rows s document = filter (is_revision_of document) s.revisions

abbrev pub is_revision : ℕ → KnowledgeRevisionRow → Bool
is_revision id row = row.id == id

-- `operation.command.new_revision` of those that have one
abbrev pub new_revisions : List Operation → List Revision
new_revisions [] = []
new_revisions (operation ∷ operations) = elim operation.command.new_revision [
  | none ↦ new_revisions operations
  | some brought ↦ brought ∷ new_revisions operations
]

-- `tuple(dict.fromkeys(…))` of the targets of the archive commands, after those seen before
abbrev pub archived_from : List ℕ → List KnowledgeCommandRow → List ℕ
archived_from seen [] = seen
archived_from seen (row ∷ rows) =
    archived_from
      (if is_archive row.kind && not (contains row.target_revision_id seen)
        then seen ++ row.target_revision_id ∷ []
        else seen)
      rows

abbrev pub stored_command : (ℕ → String) → KnowledgeCommandRow → Option Revision → Command
stored_command uuid_text row new_revision = record {
  operation_id = row.id;
  command_key = uuid_text row.command_key;
  action = lifecycle_action row.kind;
  company_id = row.company_id;
  document_id = row.document_id;
  target_revision_id = row.target_revision_id;
  expected_current_revision_id = row.expected_current_revision_id;
  body_fingerprint = row.payload_digest;
  new_revision = new_revision;
}

abbrev pub stored_operation : KnowledgeCommandRow → Command → Operation
stored_operation row command = record {
  command = command;
  initiator_identity_id = row.initiator_identity_id;
  initiator_membership_id = row.initiator_membership_id;
  write_outcome = not_sent;
  observation_history = [];
}

abbrev pub journal_of : KnowledgeDocumentRow → List KnowledgeCommandRow → List Operation → Journal
journal_of document rows operations = record {
  company_id = document.company_id;
  document_id = document.id;
  revisions = new_revisions operations;
  operations = operations;
  current_revision_id = document.current_revision_id;
  current_operation_id = document.current_operation_id;
  pending_removal_revision_ids = archived_from [] rows;
}

-- What the code uses of Python's library: UTF-8, SHA-256 and `str` of a UUID.
pub record Encodings : Type 0 where
  pub decode_utf8 : List ℕ → Option String
  pub encode_utf8 : String → List ℕ
  pub sha256_hex : List ℕ → String
  pub uuid_text : ℕ → String

module _ (e : Encodings) where
  unfoldable pub revision_of : KnowledgeRevisionRow → Dispatched Revision
  revision_of row = do
    (title, version, text) ← decode e.decode_utf8 e.sha256_hex row
    ok (record {
      company_id = row.company_id;
      document_id = row.document_id;
      revision_id = row.id;
      source_version = version;
      owner_membership_id = row.creator_membership_id;
      predecessor_revision_id = row.predecessor_revision_id;
    })

  -- The new revision of a command: `by_id` is the list of the document's revisions.
  unfoldable pub new_revision_of :
      KnowledgeCommandRow → KnowledgeRevisionRow → Dispatched (Option Revision)
  new_revision_of row target =
      if is_archive row.kind then ok none else (do brought ← revision_of target; ok (some brought))

  unfoldable pub command_of_row :
      List KnowledgeRevisionRow → KnowledgeCommandRow → Dispatched Command
  command_of_row by_id row = do
    target ← some_or (find (is_revision row.target_revision_id) by_id) unavailable
    new_revision ← new_revision_of row target
    ok (stored_command e.uuid_text row new_revision)

  unfoldable pub operations_of :
      List KnowledgeRevisionRow → List KnowledgeCommandRow → Dispatched (List Operation)
  operations_of by_id [] = ok []
  operations_of by_id (row ∷ rows) = do
    command ← command_of_row by_id row
    operations ← operations_of by_id rows
    ok (stored_operation row command ∷ operations)

  unfoldable pub journal : DispatchStore → KnowledgeDocumentRow → Dispatched Journal
  journal s document = do
    operations ← operations_of (revision_rows s document) (command_rows s document)
    ok (journal_of document (command_rows s document) operations)
