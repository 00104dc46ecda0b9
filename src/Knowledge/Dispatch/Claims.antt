-- ===== src/Knowledge/Dispatch/Claims.antt =====
-- `claim` and `complete` of `KnowledgeDispatchService`: a call of the provider is claimed before it is
-- made, and its result is received once.
use apbra.Prelude.{
  ℕ, ◌+◌, Bool, true, false, not, ◌&&◌, Option, none, some, List, [], ◌∷◌, ◌++◌, String, str_eq,
  ◌==◌, leb, opt_eq, ok, ◌>>=◌, ◌>>◌, require, some_or, find, filter, any, length, is_empty,
  if◌then◌else◌,
}
use apbra.Knowledge.Dispatch.Types.{
  Submission, ProviderResult, KnowledgeProvider, CallKind, send, reconcile, Reason,
  per_key_acknowledgement, KnowledgeDocumentRow, KnowledgeDispatchRow, KnowledgeDispatchCallRow,
  KnowledgeDispatchReceiptRow, DispatchStore, DraftContext, protected_resource_not_found,
  integrity_error, unavailable, provider_unconfigured, context_changed, nothing_sent,
  prior_write_acknowledged, prior_write_unknown, receipt_conflict, Dispatched,
}
use apbra.Knowledge.Dispatch.Summary.{
  calls, receipt, summary, is_acknowledged, is_unknown, Normalized, normalize,
}
use apbra.Knowledge.Dispatch.Service.{document, current_settings, decode, rows, last_row}

abbrev pub is_row : ℕ → KnowledgeDispatchRow → Bool
is_row id row = row.id == id

abbrev pub is_same_command : KnowledgeDispatchRow → KnowledgeDispatchRow → Bool
is_same_command row other = other.command_id == row.command_id

abbrev pub is_last : KnowledgeDispatchRow → Option KnowledgeDispatchRow → Bool
is_last row none = false
is_last row (some last) = last.id == row.id

abbrev pub is_prior_acknowledged :
    DispatchStore → KnowledgeDispatchRow → KnowledgeDispatchRow → Bool
is_prior_acknowledged s row other =
    not (other.id == row.id) && is_acknowledged (summary s other).provider_write_outcome

abbrev pub is_prior_unknown : DispatchStore → KnowledgeDispatchRow → KnowledgeDispatchRow → Bool
is_prior_unknown s row other =
    not (other.id == row.id) && is_unknown (summary s other).provider_write_outcome

-- What a send needs besides, and a reconciliation does not.
unfoldable pub may_send :
    DispatchStore
    → DraftContext
    → KnowledgeDocumentRow
    → List KnowledgeDispatchRow
    → KnowledgeDispatchRow
    → Dispatched (Unit {0})
may_send s context document_row dispatches row = do
  snapshot ← current_settings s context.actor.company_id
  require
      (snapshot.id == row.settings_id
        && opt_eq document_row.current_operation_id (some row.command_id)
        && opt_eq document_row.current_revision_id (some row.revision_id))
      context_changed
  let same_command = filter (is_same_command row) dispatches
  require
      (is_last row (last_row same_command) && not (any (is_prior_acknowledged s row) same_command))
      prior_write_acknowledged
  require (not (any (is_prior_unknown s row) dispatches)) prior_write_unknown

-- `len(set(keys)) == len(keys)`
abbrev pub are_distinct_keys : List String → Bool
are_distinct_keys [] = true
are_distinct_keys (key ∷ keys) =
    not (any (λ other. str_eq other key) keys) && are_distinct_keys keys

abbrev pub kind_of : Bool → CallKind
kind_of true = reconcile
kind_of false = send

abbrev pub submission_of : KnowledgeDispatchRow → String × String × String → Submission
submission_of row (title, version, text) = record {
  operation_id = row.id;
  company_id = row.company_id;
  document_id = row.document_id;
  revision_id = row.revision_id;
  settings_id = row.settings_id;
  settings_version = row.settings_version;
  action = row.action;
  title = title;
  source_version = version;
  text = text;
}

abbrev pub new_call :
    DispatchStore → KnowledgeDispatchRow → Bool → ℕ → List String → KnowledgeDispatchCallRow
new_call s row is_reconcile call_id keys = record {
  id = call_id;
  company_id = row.company_id;
  document_id = row.document_id;
  dispatch_id = row.id;
  sequence = length (calls s row) + 1;
  kind = kind_of is_reconcile;
  manifest = keys;
}

-- `json_size` is the number of bytes of the JSON of the keys.
module _ (json_size : List String → ℕ) where
  -- The keys of a first call are planned by the provider, those of a later one are the first one's.
  unfoldable pub keys_of :
      KnowledgeProvider
      → DraftContext
      → Submission
      → List KnowledgeDispatchCallRow
      → Dispatched (List String)
  keys_of provider context submission (first ∷ _) = ok first.manifest
  keys_of provider context submission [] = do
    keys ← some_or (provider.prepare submission) unavailable
    require
        (not (is_empty keys)
          && not (any (λ key. str_eq key "") keys)
          && are_distinct_keys keys
          && leb (json_size keys) context.maximum_request_bytes)
        unavailable
    ok keys

  module _ (decode_utf8 : List ℕ → Option String) (sha256_hex : List ℕ → String) where
    -- The claim of a call, once the checks on the dispatch have passed.
    unfoldable pub claim_call :
        DispatchStore
        → KnowledgeProvider
        → DraftContext
        → KnowledgeDispatchRow
        → Bool
        → ℕ
        → Dispatched (Option (Submission × ℕ × List String) × DispatchStore)
    claim_call s provider context row is_reconcile call_id = do
      revision_row ← some_or (find (λ r. r.id == row.revision_id) s.revisions) unavailable
      texts ← decode decode_utf8 sha256_hex revision_row
      let submission = submission_of row texts
      keys ← keys_of provider context submission (calls s row)
      require (not (any (λ old. old.id == call_id) s.calls)) integrity_error
      ok (
        some (submission, call_id, keys),
        record s { calls = s.calls ++ new_call s row is_reconcile call_id keys ∷ [] },
      )

    -- A call that is not one more send of a dispatch with calls.
    unfoldable pub claim_new :
        DispatchStore
        → KnowledgeProvider
        → DraftContext
        → ℕ
        → List KnowledgeDispatchRow
        → KnowledgeDispatchRow
        → Bool
        → ℕ
        → Dispatched (Option (Submission × ℕ × List String) × DispatchStore)
    claim_new s provider context document_id dispatches row is_reconcile call_id = do
      require (not (is_reconcile && is_empty (calls s row))) nothing_sent
      document_row ← document s context.actor document_id
      (if is_reconcile then ok tt else may_send s context document_row dispatches row)
      claim_call s provider context row is_reconcile call_id

    -- The first result is `None` where a send was claimed before.
    unfoldable pub claim :
        DispatchStore
        → Option KnowledgeProvider
        → DraftContext
        → ℕ
        → ℕ
        → Bool
        → ℕ
        → Dispatched (Option (Submission × ℕ × List String) × DispatchStore)
    claim s configured context document_id operation_id is_reconcile call_id = do
      dispatches ← rows s context document_id
      row ← some_or (find (is_row operation_id) dispatches) protected_resource_not_found
      provider ← some_or configured provider_unconfigured
      if not (is_empty (calls s row)) && not is_reconcile
          then ok (none, s)
          else claim_new s provider context document_id dispatches row is_reconcile call_id

abbrev pub new_receipt :
    ℕ
    → KnowledgeDispatchRow
    → KnowledgeDispatchCallRow
    → Normalized
    → String
    → KnowledgeDispatchReceiptRow
new_receipt new_id row call read digest = record {
  id = new_id;
  company_id = row.company_id;
  document_id = row.document_id;
  dispatch_id = row.id;
  call_id = call.id;
  outcome = read.outcome;
  accepted = read.accepted;
  rejected = read.rejected;
  reason = read.reason;
  payload_digest = digest;
}

-- `receipt_sha256` is the digest of the JSON of the outcome, the counts, the reason and, of an
-- acknowledgement for each key, the sorted results.
module _ (receipt_sha256 : Normalized → Option (List (String × Bool)) → String) where
  abbrev pub kept_results : Reason → Option ProviderResult → Option (List (String × Bool))
  kept_results per_key_acknowledgement (some result) = some result.results
  kept_results _ _ = none

  abbrev pub receipt_digest :
      KnowledgeDispatchRow → KnowledgeDispatchCallRow → Option ProviderResult → String
  receipt_digest row call result =
      let read = normalize row call result in receipt_sha256 read (kept_results read.reason result)

  unfoldable pub complete : DispatchStore → ℕ → Option ProviderResult → ℕ → Dispatched DispatchStore
  complete s call_id result new_id = do
    call ← some_or (find (λ c. c.id == call_id) s.calls) unavailable
    row ← some_or (find (is_row call.dispatch_id) s.dispatches) unavailable
    let digest = receipt_digest row call result
    elim (receipt s call) [
      | some existing ↦ do require (str_eq existing.payload_digest digest) receipt_conflict; ok s
      | none ↦ do
        let read = normalize row call result
        require
            (not (any (λ old. old.id == new_id) s.receipts)
              && not (any (λ old. old.call_id == call_id) s.receipts))
            integrity_error
        ok (record s { receipts = s.receipts ++ new_receipt new_id row call read digest ∷ [] })
    ]
