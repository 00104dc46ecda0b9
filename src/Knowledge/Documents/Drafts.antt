-- ===== src/Knowledge/Documents/Drafts.antt =====
-- The values that `apply` of `KnowledgeDocumentsService` takes, builds and returns. Identifiers are
-- arguments.
use apbra.Prelude.{
  ℕ, Bool, true, false, not, ◌&&◌, ◌||◌, Option, none, some, List, [], ◌∷◌, ◌++◌, String, ◌==◌,
  opt_eq, ok, err, any, if◌then◌else◌,
}
use apbra.Domain.{Actor}
use apbra.Knowledge.Lifecycle.{Revision, Journal, Disposition, FailureCode, Checked}
use apbra.Knowledge.Dispatch.Types.{
  Kind, create, revision, archive, KnowledgeDocumentRow, KnowledgeRevisionRow, KnowledgeCommandRow,
  DispatchStore, ReceiptOutcome, Dispatched,
}
use apbra.Knowledge.Dispatch.Service.{document}
use apbra.Knowledge.Documents.Journal.{is_archive, is_revision}

pub record DraftPayload : Type 0 where
  pub title : String
  pub source_version : String
  pub text : String
  pub expected_current_revision_id : Option ℕ

-- What `context` reports.
pub record DocumentContext : Type 0 where
  pub document : KnowledgeDocumentRow
  pub current : KnowledgeRevisionRow
  pub title : String
  pub source_version : String
  pub revision_write_outcome : ReceiptOutcome
  pub is_archived : Bool
  pub command_write_outcome : ReceiptOutcome

abbrev pub is_current_revision : KnowledgeDocumentRow → KnowledgeRevisionRow → Bool
is_current_revision document row = opt_eq (some row.id) document.current_revision_id

abbrev pub is_current_command : KnowledgeDocumentRow → KnowledgeCommandRow → Bool
is_current_command document row = opt_eq (some row.id) document.current_operation_id

-- What `apply` returns.
pub record Applied : Type 0 where
  pub disposition : Disposition
  pub command : KnowledgeCommandRow
  pub outcome : ReceiptOutcome
  pub document : DocumentContext

-- `except KnowledgeLifecycleError`
abbrev pub checked {ℓ} : {A : Type ℓ} → (FailureCode → Dispatched A) → Checked A → Dispatched A
checked handle (ok value) = ok value
checked handle (err code) = handle code

abbrev pub is_key : Actor → ℕ → KnowledgeCommandRow → Bool
is_key actor key row = row.company_id == actor.company_id && row.command_key == key

-- The identifiers that a call draws.
pub record Drawn : Type 0 where
  pub document_id : ℕ
  pub revision_id : ℕ
  pub operation_id : ℕ

abbrev pub blank_document : ℕ → ℕ → KnowledgeDocumentRow
blank_document company_id id = record {
  id = id;
  company_id = company_id;
  current_revision_id = none;
  current_operation_id = none;
}

abbrev pub new_revision : Actor → KnowledgeDocumentRow → ℕ → DraftPayload → Revision
new_revision actor document new_id payload = record {
  company_id = actor.company_id;
  document_id = document.id;
  revision_id = new_id;
  source_version = payload.source_version;
  owner_membership_id = actor.membership_id;
  predecessor_revision_id = payload.expected_current_revision_id;
}

-- `payload.expected_current_revision_id if kind == "ARCHIVE" else uuid4()`
abbrev pub target_id : Kind → DraftPayload → Drawn → Option ℕ
target_id archive payload drawn = payload.expected_current_revision_id
target_id create payload drawn = some drawn.revision_id
target_id revision payload drawn = some drawn.revision_id

abbrev pub brought_by : Kind → Actor → KnowledgeDocumentRow → ℕ → DraftPayload → Option Revision
brought_by kind actor document new_id payload =
    if is_archive kind then none else some (new_revision actor document new_id payload)

abbrev pub command_row :
    Actor
    → KnowledgeDocumentRow
    → Kind
    → ℕ
    → String
    → ℕ
    → ℕ
    → DraftPayload
    → ℕ
    → KnowledgeCommandRow
command_row actor document kind key digest operation_id new_id payload sequence = record {
  id = operation_id;
  company_id = actor.company_id;
  document_id = document.id;
  command_key = key;
  initiator_identity_id = actor.identity_id;
  initiator_membership_id = actor.membership_id;
  kind = kind;
  target_revision_id = new_id;
  expected_current_revision_id = payload.expected_current_revision_id;
  payload_digest = digest;
  sequence = sequence;
}

abbrev pub is_create : Kind → Bool
is_create create = true
is_create _ = false

abbrev pub is_document : KnowledgeDocumentRow → KnowledgeDocumentRow → Bool
is_document document row = row.id == document.id && row.company_id == document.company_id

abbrev pub with_current : Journal → KnowledgeDocumentRow → KnowledgeDocumentRow
with_current after document = record document {
  current_revision_id = after.current_revision_id;
  current_operation_id = after.current_operation_id;
}

abbrev pub added_document :
    Kind → KnowledgeDocumentRow → List KnowledgeDocumentRow → List KnowledgeDocumentRow
added_document create document documents = documents ++ document ∷ []
added_document _ document documents = documents

-- The primary keys that the inserts must not meet.
abbrev pub are_free : DispatchStore → Kind → KnowledgeDocumentRow → ℕ → ℕ → Bool
are_free s kind document operation_id new_id =
    (not (is_create kind) || not (any (λ old. old.id == document.id) s.documents))
    && not (any (λ old. old.id == operation_id) s.commands)
    && (is_archive kind || not (any (is_revision new_id) s.revisions))
