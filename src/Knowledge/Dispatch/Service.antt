-- ===== src/Knowledge/Dispatch/Service.antt =====
-- `KnowledgeDispatchService`, the queries it uses of `KnowledgeDocumentsService` and of
-- tenant_settings.py, and `_decode`. Each call is one transaction; identifiers are arguments.
use apbra.Prelude.{
  ℕ, ◌+◌, Bool, not, ◌&&◌, ◌||◌, Option, none, some, List, [], ◌∷◌, ◌++◌, String, str_eq, ◌==◌,
  opt_eq, is_none, ok, ◌>>=◌, ◌>>◌, require, some_or, find, filter, any, length, map,
}
use apbra.Domain.{Actor}
use apbra.Store.Rows.{TenantSettingsVersionRow}
use apbra.Knowledge.Dispatch.Types.{
  DispatchAction, upload, update, delete, Kind, create, revision, archive, ReceiptOutcome, not_sent,
  KnowledgeDocumentRow, KnowledgeRevisionRow, KnowledgeCommandRow, KnowledgeDispatchRow,
  DispatchStore, DraftContext, Payload, protected_resource_not_found, configuration_unavailable,
  integrity_error, unavailable, command_conflict, context_changed, operation_exists, Dispatched,
}
use apbra.Knowledge.Dispatch.Summary.{DispatchSummary, summary, is_failed, is_not_sent}

unfoldable pub document : DispatchStore → Actor → ℕ → Dispatched KnowledgeDocumentRow
document s actor document_id =
    some_or (find (λ row. row.id == document_id && row.company_id == actor.company_id) s.documents)
      protected_resource_not_found

-- The snapshot's identifier and version; the JSON text of the settings is left aside.
unfoldable pub current_settings : DispatchStore → ℕ → Dispatched TenantSettingsVersionRow
current_settings s company_id = do
  current ←
      some_or (find (λ row. row.company_id == company_id) s.settings_current)
        configuration_unavailable
  version ←
      some_or
        (find (λ row. row.id == current.version_id && row.company_id == company_id)
          s.settings_versions)
        configuration_unavailable
  require (version.version == current.version) configuration_unavailable
  ok version

module _ (decode_utf8 : List ℕ → Option String) (sha256_hex : List ℕ → String) where
  unfoldable pub decode : KnowledgeRevisionRow → Dispatched (String × String × String)
  decode row = do
    title ← some_or (decode_utf8 row.title_original) unavailable
    version ← some_or (decode_utf8 row.source_version_original) unavailable
    text ← some_or (decode_utf8 row.text_original) unavailable
    require
        (length row.text_original == row.text_byte_count
          && str_eq (sha256_hex row.text_original) row.text_sha256)
        unavailable
    ok (title, version, text)

abbrev pub is_dispatch_in : ℕ → ℕ → KnowledgeDispatchRow → Bool
is_dispatch_in company_id document_id row =
    row.company_id == company_id && row.document_id == document_id

unfoldable pub rows : DispatchStore → DraftContext → ℕ → Dispatched (List KnowledgeDispatchRow)
rows s context document_id = do
  document_row ← document s context.actor document_id
  ok (filter (is_dispatch_in context.actor.company_id document_id) s.dispatches)

abbrev pub is_dispatch_key : Actor → ℕ → KnowledgeDispatchRow → Bool
is_dispatch_key actor key row =
    row.company_id == actor.company_id
    && row.command_key == key
    && row.initiator_identity_id == actor.identity_id

unfoldable pub dispatch_by_key : DispatchStore → Actor → ℕ → Option KnowledgeDispatchRow
dispatch_by_key s actor key = find (is_dispatch_key actor key) s.dispatches

abbrev pub last_row : List KnowledgeDispatchRow → Option KnowledgeDispatchRow
last_row [] = none
last_row (x ∷ []) = some x
last_row (x ∷ y ∷ ys) = last_row (y ∷ ys)

abbrev pub outcome_of : DispatchStore → Option KnowledgeDispatchRow → ReceiptOutcome
outcome_of s none = not_sent
outcome_of s (some row) = (summary s row).provider_write_outcome

-- `order_by(sequence.desc()).limit(1)`
unfoldable pub command_outcome : DispatchStore → ℕ → ReceiptOutcome
command_outcome s command_id =
    outcome_of s (last_row (filter (λ row. row.command_id == command_id) s.dispatches))

unfoldable pub revision_outcome : DispatchStore → ℕ → ReceiptOutcome
revision_outcome s revision_id =
    outcome_of s (last_row (filter (λ row. row.revision_id == revision_id) s.dispatches))

unfoldable pub status : DispatchStore → DraftContext → ℕ → Dispatched (List DispatchSummary)
status s context document_id = do
  dispatches ← rows s context document_id
  settings ← current_settings s context.actor.company_id
  ok (map (summary s) dispatches)

unfoldable pub recover : DispatchStore → DraftContext → ℕ → Dispatched (Option DispatchSummary)
recover s context key = elim (dispatch_by_key s context.actor key) [
  | none ↦ ok none
  | some row ↦ do
    require (row.initiator_membership_id == context.actor.membership_id)
        protected_resource_not_found
    ok (some (summary s row))
]

abbrev pub action_of : Kind → DispatchAction
action_of create = upload
action_of revision = update
action_of archive = delete

-- May a further dispatch of the command be prepared, after the latest?
abbrev pub may_follow : DispatchStore → ℕ → Payload → Option KnowledgeDispatchRow → Bool
may_follow s settings_id payload none = is_none payload.retry_of
may_follow s settings_id payload (some latest) =
    let previous = (summary s latest).provider_write_outcome in
    let explicit_replacement = is_not_sent previous && not (latest.settings_id == settings_id) in
    opt_eq payload.retry_of (some latest.id) && (is_failed previous || explicit_replacement)

abbrev pub is_of_command : Option ℕ → KnowledgeDispatchRow → Bool
is_of_command command row = opt_eq (some row.command_id) command

abbrev pub command_of : DispatchStore → Option ℕ → Option KnowledgeCommandRow
command_of s none = none
command_of s (some id) = find (λ row. row.id == id) s.commands

-- `payload_sha256` is the digest of the JSON of the payload, the document and the membership.
module _ (payload_sha256 : Payload → ℕ → ℕ → String) where
  unfoldable pub prepare :
      DispatchStore
      → DraftContext
      → ℕ
      → ℕ
      → Payload
      → ℕ
      → Dispatched (DispatchSummary × DispatchStore)
  prepare s context document_id key payload new_id = do
    document_row ← document s context.actor document_id
    dispatches ← rows s context document_id
    let digest = payload_sha256 payload document_id context.actor.membership_id
    elim (dispatch_by_key s context.actor key) [
      | some existing ↦ do
        require (str_eq existing.payload_digest digest) command_conflict
        ok (summary s existing, s)
      | none ↦ do
        snapshot ← current_settings s context.actor.company_id
        require
            (opt_eq document_row.current_revision_id (some payload.expected_current_revision_id)
              && opt_eq document_row.current_operation_id
                  (some payload.expected_current_operation_id)
              && snapshot.version == payload.expected_settings_version)
            context_changed
        let latest = last_row (filter (is_of_command document_row.current_operation_id) dispatches)
        require (may_follow s snapshot.id payload latest) operation_exists
        command ← some_or (command_of s document_row.current_operation_id) unavailable
        let row : KnowledgeDispatchRow = record {
          id = new_id;
          company_id = context.actor.company_id;
          document_id = document_id;
          command_id = command.id;
          revision_id = command.target_revision_id;
          settings_id = snapshot.id;
          settings_version = snapshot.version;
          command_key = key;
          initiator_identity_id = context.actor.identity_id;
          initiator_membership_id = context.actor.membership_id;
          action = action_of command.kind;
          payload_digest = digest;
          sequence = length dispatches + 1;
        }
        require (not (any (λ old. old.id == new_id) s.dispatches)) integrity_error
        let s' = record s { dispatches = s.dispatches ++ row ∷ [] }
        ok (summary s' row, s')
    ]
