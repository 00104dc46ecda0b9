-- ===== src/Store/Conversations.antt =====
-- The queries and writes of `ApplicationSession` for conversations, clarification cycles and
-- interpretations. Rows of one table stand in the order of their creation.
use Prim.Native.String.{count}
use apbra.Prelude.{
  ℕ, ◌+◌, Bool, true, false, not, ◌&&◌, Option, none, some, List, [], ◌∷◌, ◌++◌, String, str_eq,
  ◌==◌, ltb, is_none, ok, ◌>>◌, require, any, filter, find, modify_first, if◌then◌else◌,
}
use apbra.Domain.{Actor, integrity_error}
use apbra.Store.ConversationRows.{
  EventKind, clarification_cycle_started, EventPayload, ConversationEventRow, ClarificationCycleRow,
  InterpretationRow, Session, InterpretationState,
}
use apbra.Store.Rows.{CaseRow, Store, Outcome}
use apbra.Store.Query.{is_case}

abbrev pub advanced_context : ℕ → CaseRow → CaseRow
advanced_context now row = record row {
  semantic_context_version = row.semantic_context_version + 1;
  updated_at = now;
}

unfoldable pub advance_semantic_context : Store → ℕ → ℕ → Store
advance_semantic_context s now case_id = record s {
  cases = modify_first (is_case case_id) (advanced_context now) s.cases;
}

-- ck_conversation_event_kind
abbrev pub is_event_kind : EventKind → Bool
is_event_kind clarification_cycle_started = false
is_event_kind _ = true

abbrev pub is_event_of : ℕ → ConversationEventRow → Bool
is_event_of case_id row = row.case_id == case_id

-- `coalesce(max(sequence), 0)` over the events of a case
abbrev pub max_sequence : ℕ → List ConversationEventRow → ℕ
max_sequence case_id [] = 0
max_sequence case_id (row ∷ rows) =
    let rest = max_sequence case_id rows in
    if is_event_of case_id row && ltb rest row.sequence then row.sequence else rest

abbrev pub is_event_command : ℕ → ℕ → String → ConversationEventRow → Bool
is_event_command case_id membership_id key row =
    row.case_id == case_id
    && row.created_by_membership_id == membership_id
    && str_eq row.command_key key

unfoldable pub conversation_event_by_command : Store → ℕ → ℕ → String → Option ConversationEventRow
conversation_event_by_command s case_id membership_id key =
    find (is_event_command case_id membership_id key) s.conversation_events

unfoldable pub conversation_events : Store → ℕ → List ConversationEventRow
conversation_events s case_id = filter (is_event_of case_id) s.conversation_events

-- The constraints of case_conversation_events, with the length of `command_key`.
abbrev pub is_event_allowed : Store → ConversationEventRow → Bool
is_event_allowed s row =
    not (any (λ old. old.id == row.id) s.conversation_events)
    && not (
        any (λ old. old.case_id == row.case_id && old.sequence == row.sequence)
          s.conversation_events)
    && not (
        any (is_event_command row.case_id row.created_by_membership_id row.command_key)
          s.conversation_events)
    && is_event_kind row.kind
    && not (ltb 200 (count row.command_key))

abbrev pub new_event :
    Store → Actor → ℕ → ℕ → EventKind → EventPayload → String → String → ConversationEventRow
new_event s actor id case_id kind payload command_key payload_digest = record {
  id = id;
  case_id = case_id;
  company_id = actor.company_id;
  sequence = max_sequence case_id s.conversation_events + 1;
  kind = kind;
  payload = payload;
  command_key = command_key;
  payload_digest = payload_digest;
  created_by_membership_id = actor.membership_id;
}

abbrev pub with_event : ConversationEventRow → Store → Store
with_event row s = record s { conversation_events = s.conversation_events ++ row ∷ [] }

unfoldable pub append_conversation_event :
    Store
    → Actor
    → ℕ
    → ℕ
    → EventKind
    → EventPayload
    → String
    → String
    → Outcome (ConversationEventRow × Store)
append_conversation_event s actor id case_id kind payload command_key payload_digest = do
  let row = new_event s actor id case_id kind payload command_key payload_digest
  require (is_event_allowed s row) integrity_error
  ok (row, with_event row s)

abbrev pub is_cycle_of : ℕ → ClarificationCycleRow → Bool
is_cycle_of case_id row = row.case_id == case_id

unfoldable pub clarification_cycles : Store → ℕ → List ClarificationCycleRow
clarification_cycles s case_id = filter (is_cycle_of case_id) s.clarification_cycles

abbrev pub is_cycle_command : ℕ → ℕ → String → ClarificationCycleRow → Bool
is_cycle_command case_id membership_id key row =
    row.case_id == case_id
    && row.started_by_membership_id == membership_id
    && str_eq row.command_key key

unfoldable pub clarification_cycle_by_command :
    Store → ℕ → ℕ → String → Option ClarificationCycleRow
clarification_cycle_by_command s case_id membership_id key =
    find (is_cycle_command case_id membership_id key) s.clarification_cycles

-- `xs[-1] if xs else None`
abbrev pub last {ℓ} : {A : Type ℓ} → List A → Option A
last [] = none
last (x ∷ []) = some x
last (x ∷ y ∷ xs) = last (y ∷ xs)

-- The last row that passes, changed in place.
abbrev pub modify_last {ℓ} : {A : Type ℓ} → (A → Bool) → (A → A) → List A → List A
modify_last test f [] = []
modify_last test f (x ∷ xs) =
    let rest = modify_last test f xs in
    if any test xs then x ∷ rest else (if test x then f x ∷ xs else x ∷ xs)

-- `if prior and prior[-1].closed_at is None: prior[-1].closed_at = utcnow()`
abbrev pub closed_cycle : ℕ → ClarificationCycleRow → ClarificationCycleRow
closed_cycle now row = if is_none row.closed_at then record row { closed_at = some now } else row

abbrev pub next_number : Option ClarificationCycleRow → ℕ
next_number none = 1
next_number (some row) = row.cycle_number + 1

abbrev pub new_cycle : Store → Actor → ℕ → ℕ → ℕ → String → ClarificationCycleRow
new_cycle s actor id case_id settings_version_id command_key = record {
  id = id;
  company_id = actor.company_id;
  case_id = case_id;
  cycle_number = next_number (last (clarification_cycles s case_id));
  rounds_used = 0;
  settings_version_id = settings_version_id;
  started_by_membership_id = actor.membership_id;
  command_key = command_key;
  closed_at = none;
}

-- The constraints of case_clarification_cycles, with the length of `command_key`.
abbrev pub is_cycle_allowed : Store → ClarificationCycleRow → Bool
is_cycle_allowed s row =
    not (any (λ old. old.id == row.id) s.clarification_cycles)
    && not (
        any (λ old. old.case_id == row.case_id && old.cycle_number == row.cycle_number)
          s.clarification_cycles)
    && not (
        any (is_cycle_command row.case_id row.started_by_membership_id row.command_key)
          s.clarification_cycles)
    && not (ltb 200 (count row.command_key))

abbrev pub with_cycle : ℕ → ClarificationCycleRow → Store → Store
with_cycle now row s = record s {
  clarification_cycles =
      modify_last (is_cycle_of row.case_id) (closed_cycle now) s.clarification_cycles ++ row ∷ [];
}

unfoldable pub create_clarification_cycle :
    Store → Actor → ℕ → ℕ → ℕ → ℕ → String → Outcome (ClarificationCycleRow × Store)
unfolding clarification_cycles
create_clarification_cycle s actor now id case_id settings_version_id command_key = do
  let row = new_cycle s actor id case_id settings_version_id command_key
  require (is_cycle_allowed s row) integrity_error
  ok (row, with_cycle now row s)

abbrev pub is_interpretation_of : ℕ → InterpretationRow → Bool
is_interpretation_of case_id row = row.case_id == case_id

unfoldable pub latest_interpretation : Store → ℕ → Option InterpretationRow
latest_interpretation s case_id = last (filter (is_interpretation_of case_id) s.interpretations)

unfoldable pub interpretation_for_context : Store → ℕ → ℕ → Option InterpretationRow
interpretation_for_context s case_id context_version =
    find (λ row. row.case_id == case_id && row.context_version == context_version) s.interpretations

abbrev pub new_interpretation :
    Actor → ℕ → CaseRow → ℕ → Session → InterpretationState → Option ℕ → InterpretationRow
new_interpretation actor id row evidence_id session state settings_version_id = record {
  id = id;
  case_id = row.id;
  company_id = actor.company_id;
  request_version_id = row.current_request_version_id;
  settings_version_id = settings_version_id;
  evidence_id = some evidence_id;
  context_version = row.semantic_context_version;
  session = session;
  state = state;
  created_by_membership_id = actor.membership_id;
}

-- The primary key and uq_interpretation_case_context.
unfoldable pub add_interpretation : Store → InterpretationRow → Outcome Store
add_interpretation s row = do
  require
      (not (any (λ old. old.id == row.id) s.interpretations)
        && not (
            any (λ old. old.case_id == row.case_id && old.context_version == row.context_version)
              s.interpretations))
      integrity_error
  ok (record s { interpretations = s.interpretations ++ row ∷ [] })
