-- ===== src/Knowledge/Dispatch/Types.antt =====
-- The rows of persistence.py and of knowledge_documents.py that a dispatch reads and writes. A table
-- lists its rows in the order of their creation, which for the dispatches of a document and the calls
-- of a dispatch is the order of `sequence`.
use apbra.Prelude.{ℕ, Bool, Option, List, String, Fallible}
use apbra.Store.Rows.{TenantSettingsCurrentRow, TenantSettingsVersionRow}
use apbra.Domain.{Actor}
use apbra.Knowledge.Lifecycle.{FailureCode}

-- the texts of `action`
pub data DispatchAction : Type 0 where
  upload update delete : DispatchAction

pub record Submission : Type 0 where
  pub operation_id : ℕ
  pub company_id : ℕ
  pub document_id : ℕ
  pub revision_id : ℕ
  pub settings_id : ℕ
  pub settings_version : ℕ
  pub action : DispatchAction
  pub title : String
  pub source_version : String
  pub text : String

pub record ProviderResult : Type 0 where
  pub operation_id : ℕ
  pub call_id : ℕ
  pub results : List (String × Bool)

-- The provider's planning: none where it raises.
pub record KnowledgeProvider : Type 0 where
  pub prepare : Submission → Option (List String)

pub data Kind : Type 0 where
  create revision archive : Kind

pub data CallKind : Type 0 where
  send reconcile : CallKind

-- The texts of `outcome`; `not_sent` is of a dispatch without a call.
pub data ReceiptOutcome : Type 0 where
  acknowledged failed partial unknown not_sent : ReceiptOutcome

pub data Reason : Type 0 where
  pending_receipt invalid_receipt per_key_acknowledgement : Reason

pub record KnowledgeDocumentRow : Type 0 where
  pub id : ℕ
  pub company_id : ℕ
  pub current_revision_id : Option ℕ
  pub current_operation_id : Option ℕ

-- The originals and their digest are bytes and the text of the digest.
pub record KnowledgeRevisionRow : Type 0 where
  pub id : ℕ
  pub document_id : ℕ
  pub company_id : ℕ
  pub predecessor_revision_id : Option ℕ
  pub creator_membership_id : ℕ
  pub creator_identity_id : ℕ
  pub title_original : List ℕ
  pub source_version_original : List ℕ
  pub text_original : List ℕ
  pub text_sha256 : String
  pub text_byte_count : ℕ

pub record KnowledgeCommandRow : Type 0 where
  pub id : ℕ
  pub company_id : ℕ
  pub document_id : ℕ
  pub command_key : ℕ
  pub initiator_identity_id : ℕ
  pub initiator_membership_id : ℕ
  pub kind : Kind
  pub target_revision_id : ℕ
  pub expected_current_revision_id : Option ℕ
  pub payload_digest : String
  pub sequence : ℕ

pub record KnowledgeDispatchRow : Type 0 where
  pub id : ℕ
  pub company_id : ℕ
  pub document_id : ℕ
  pub command_id : ℕ
  pub revision_id : ℕ
  pub settings_id : ℕ
  pub settings_version : ℕ
  pub command_key : ℕ
  pub initiator_identity_id : ℕ
  pub initiator_membership_id : ℕ
  pub action : DispatchAction
  pub payload_digest : String
  pub sequence : ℕ

pub record KnowledgeDispatchCallRow : Type 0 where
  pub id : ℕ
  pub company_id : ℕ
  pub document_id : ℕ
  pub dispatch_id : ℕ
  pub sequence : ℕ
  pub kind : CallKind
  pub manifest : List String

pub record KnowledgeDispatchReceiptRow : Type 0 where
  pub id : ℕ
  pub company_id : ℕ
  pub document_id : ℕ
  pub dispatch_id : ℕ
  pub call_id : ℕ
  pub outcome : ReceiptOutcome
  pub accepted : ℕ
  pub rejected : ℕ
  pub reason : Reason
  pub payload_digest : String

pub record DispatchStore : Type 0 where
  pub documents : List KnowledgeDocumentRow
  pub revisions : List KnowledgeRevisionRow
  pub commands : List KnowledgeCommandRow
  pub settings_current : List TenantSettingsCurrentRow
  pub settings_versions : List TenantSettingsVersionRow
  pub dispatches : List KnowledgeDispatchRow
  pub calls : List KnowledgeDispatchCallRow
  pub receipts : List KnowledgeDispatchReceiptRow

pub record DraftContext : Type 0 where
  pub actor : Actor
  pub session_id : ℕ
  pub maximum_request_bytes : ℕ

pub record Payload : Type 0 where
  pub expected_current_revision_id : ℕ
  pub expected_current_operation_id : ℕ
  pub expected_settings_version : ℕ
  pub retry_of : Option ℕ

-- The codes of `KnowledgeDocumentsError`, and the exceptions of domain.py and the database.
pub data DispatchError : Type 0 where
  protected_resource_not_found configuration_unavailable integrity_error : DispatchError
  unavailable provider_unconfigured command_conflict context_changed : DispatchError
  operation_exists nothing_sent prior_write_acknowledged prior_write_unknown : DispatchError
  receipt_conflict invalid : DispatchError
  lifecycle_conflict : FailureCode → DispatchError

abbrev pub Dispatched {ℓ} : Type ℓ → Type ℓ
Dispatched A = Fallible DispatchError A
