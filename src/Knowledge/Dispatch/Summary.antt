-- ===== src/Knowledge/Dispatch/Summary.antt =====
-- What the calls and receipts of a dispatch say of its outcome, and how a provider's result is read.
use apbra.Prelude.{
  ℕ, ◌-◌, Bool, true, false, not, ◌&&◌, ◌||◌, Option, none, some, List, [], ◌∷◌, String, str_eq,
  ◌==◌, map, find, filter, any, count, length, contains_text, if◌then◌else◌,
}
use apbra.Knowledge.Dispatch.Types.{
  ProviderResult, ReceiptOutcome, acknowledged, failed, partial, unknown, not_sent, Reason,
  pending_receipt, invalid_receipt, per_key_acknowledgement, CallKind, KnowledgeDispatchRow,
  KnowledgeDispatchCallRow, KnowledgeDispatchReceiptRow, DispatchStore,
}

abbrev pub is_call_of : KnowledgeDispatchRow → KnowledgeDispatchCallRow → Bool
is_call_of row call = call.dispatch_id == row.id && call.company_id == row.company_id

unfoldable pub calls : DispatchStore → KnowledgeDispatchRow → List KnowledgeDispatchCallRow
calls s row = filter (is_call_of row) s.calls

abbrev pub is_receipt_of : KnowledgeDispatchCallRow → KnowledgeDispatchReceiptRow → Bool
is_receipt_of call row = row.call_id == call.id && row.company_id == call.company_id

unfoldable pub receipt :
    DispatchStore → KnowledgeDispatchCallRow → Option KnowledgeDispatchReceiptRow
receipt s call = find (is_receipt_of call) s.receipts

-- one entry of `history`
pub record CallSummary : Type 0 where
  pub call_id : ℕ
  pub sequence : ℕ
  pub kind : CallKind
  pub outcome : ReceiptOutcome
  pub reason : Reason
  pub accepted : ℕ
  pub rejected : ℕ

abbrev pub call_summary :
    KnowledgeDispatchCallRow → Option KnowledgeDispatchReceiptRow → CallSummary
call_summary call none = record {
  call_id = call.id;
  sequence = call.sequence;
  kind = call.kind;
  outcome = unknown;
  reason = pending_receipt;
  accepted = 0;
  rejected = 0;
}
call_summary call (some result) = record {
  call_id = call.id;
  sequence = call.sequence;
  kind = call.kind;
  outcome = result.outcome;
  reason = result.reason;
  accepted = result.accepted;
  rejected = result.rejected;
}

unfoldable pub history : DispatchStore → KnowledgeDispatchRow → List CallSummary
history s row = map (λ call. call_summary call (receipt s call)) (calls s row)

abbrev pub is_acknowledged : ReceiptOutcome → Bool
is_acknowledged acknowledged = true
is_acknowledged _ = false

abbrev pub is_unknown : ReceiptOutcome → Bool
is_unknown unknown = true
is_unknown _ = false

abbrev pub is_failed : ReceiptOutcome → Bool
is_failed failed = true
is_failed _ = false

abbrev pub is_partial : ReceiptOutcome → Bool
is_partial partial = true
is_partial _ = false

abbrev pub is_not_sent : ReceiptOutcome → Bool
is_not_sent not_sent = true
is_not_sent _ = false

-- `history[-1]["outcome"]`
abbrev pub last_outcome : List CallSummary → ReceiptOutcome
last_outcome [] = not_sent
last_outcome (x ∷ []) = x.outcome
last_outcome (x ∷ y ∷ ys) = last_outcome (y ∷ ys)

abbrev pub was_acknowledged : CallSummary → Bool
was_acknowledged call = is_acknowledged call.outcome

abbrev pub is_contradictory : List CallSummary → Bool
is_contradictory calls =
    any was_acknowledged calls
    && (is_failed (last_outcome calls) || is_partial (last_outcome calls))

abbrev pub write_state : List CallSummary → ReceiptOutcome
write_state calls =
    if is_contradictory calls || is_partial (last_outcome calls)
    then unknown
    else last_outcome calls

pub record DispatchSummary : Type 0 where
  pub operation : KnowledgeDispatchRow
  pub provider_write_outcome : ReceiptOutcome
  pub is_conflicting : Bool
  pub receipt_outcome : ReceiptOutcome
  pub calls : List CallSummary

unfoldable pub summary : DispatchStore → KnowledgeDispatchRow → DispatchSummary
summary s row = record {
  operation = row;
  provider_write_outcome = write_state (history s row);
  is_conflicting = is_contradictory (history s row);
  receipt_outcome = last_outcome (history s row);
  calls = history s row;
}

-- no key of the tuple of results occurs twice
abbrev pub are_distinct : List (String × Bool) → Bool
are_distinct [] = true
are_distinct ((key, _) ∷ rest) = not (any (λ other. str_eq other.0 key) rest) && are_distinct rest

-- `set(outcomes) == set(keys)`
abbrev pub covers : List (String × Bool) → List String → Bool
covers results keys =
    not (any (λ entry. not (contains_text entry.0 keys)) results)
    && not (any (λ key. not (any (λ entry. str_eq entry.0 key) results)) keys)

abbrev pub accepted_count : List (String × Bool) → ℕ
accepted_count = count (λ entry. entry.1)

-- `len(keys) - accepted`, which are equal where nothing is rejected
abbrev pub state_of : ℕ → ℕ → ReceiptOutcome
state_of keys accepted =
    if keys == accepted then acknowledged else if accepted == 0 then failed else partial

pub record Normalized : Type 0 where
  pub outcome : ReceiptOutcome
  pub accepted : ℕ
  pub rejected : ℕ
  pub reason : Reason

abbrev pub invalid_result : Normalized
invalid_result = record { outcome = unknown; accepted = 0; rejected = 0; reason = invalid_receipt }

-- `keys` is the manifest of the call; `none` is a result that is no `ProviderResult`.
unfoldable pub normalize :
    KnowledgeDispatchRow → KnowledgeDispatchCallRow → Option ProviderResult → Normalized
normalize row call none = invalid_result
normalize row call (some result) =
    if not (result.operation_id == row.id) || not (result.call_id == call.id)
    then invalid_result
    else if not (are_distinct result.results)
    then invalid_result
    else if not (covers result.results call.manifest)
    then invalid_result
    else record {
      outcome = state_of (length call.manifest) (accepted_count result.results);
      accepted = accepted_count result.results;
      rejected = length call.manifest - accepted_count result.results;
      reason = per_key_acknowledgement;
    }
