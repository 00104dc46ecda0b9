-- ===== src/Conversation/Events.antt =====
-- `list_events` and `append_event` of `ConversationService`. Identifiers and the time are arguments.
use Prim.Native.String.{count, ◌++◌ as str_append}
use apbra.Prelude.{
  ℕ, ◌+◌, Bool, true, false, not, Option, none, some, List, String, str_eq, ◌==◌, ltb, ok, ◌>>=◌,
  ◌>>◌, require, some_or, if◌then◌else◌,
}
use apbra.Domain.{Actor, forbidden, conflict, stale_version, idempotency_conflict, assertion_error}
use apbra.Store.ConversationRows.{
  EventKind, user_message, raw_answer, correction, alternative_accepted, alternative_declined,
  Field, missing, text, Answer, Decision, accept_suggestion, decline_suggestion, free_text,
  ExactAnswer, Alternative, EventPayload, client_payload, answer, exact_answer, alternative,
  ConversationEventRow,
}
use apbra.Store.Rows.{CaseRow, Store, Outcome, no_details}
use apbra.Store.Query.{locked_case}
use apbra.Store.Write.{add_audit}
use apbra.Store.Conversations.{
  advance_semantic_context, conversation_event_by_command, conversation_events,
  append_conversation_event,
}
use apbra.Cases.Authorization.{authorized_case_access}
use apbra.Conversation.Answers.{validated_answer}

unfoldable pub list_events : Store → Actor → ℕ → Outcome (List ConversationEventRow)
list_events s actor case_id = do
  (row, access) ← authorized_case_access s actor case_id false
  ok (conversation_events s case_id)

-- What a client sends: a JSON object that is read as an answer, or one of another kind as its text.
pub data Sent : Type 0 where
  message : EventKind → String → Sent
  raw : Answer → Sent

abbrev pub sent_kind : Sent → EventKind
sent_kind (message kind json) = kind
sent_kind (raw fields) = raw_answer

-- `_CLIENT_EVENT_KINDS`: an object of the kind RAW_ANSWER is always `raw`.
abbrev pub is_client_event : Sent → Bool
is_client_event (message user_message json) = true
is_client_event (message correction json) = true
is_client_event (message _ json) = false
is_client_event (raw fields) = true

abbrev pub or_text : String → Field → Field
or_text default missing = text default
or_text default field = field

abbrev pub normalized : Answer → Answer
normalized fields = record fields {
  suggestion_id = or_text "" fields.suggestion_id;
  decision = or_text "FREE_TEXT" fields.decision;
}

abbrev pub payload_of : Sent → EventPayload
payload_of (message kind json) = client_payload json
payload_of (raw fields) = answer (normalized fields)

abbrev pub alternative_of : ExactAnswer → Option String → Alternative
alternative_of exact label = record {
  question_id = exact.question_id;
  suggestion_id = exact.suggestion_id;
  label = elim label [
    | none ↦ "Supported choice declined"
    | some t ↦ if str_eq t "" then "Supported choice declined" else t
  ];
  request_version_id = exact.request_version_id;
  interpretation_id = exact.interpretation_id;
}

abbrev pub decision_kind : Decision → Option EventKind
decision_kind accept_suggestion = some alternative_accepted
decision_kind decline_suggestion = some alternative_declined
decision_kind free_text = none

pub record Appended : Type 0 where
  pub event : ConversationEventRow
  pub semantic_context_version : ℕ

-- The identifiers of the event and of the decision that may follow it.
pub record EventIds : Type 0 where
  pub event_id : ℕ
  pub decision_id : ℕ

-- The branch of a command that is known.
unfoldable pub appended_before :
    Store → ℕ → ConversationEventRow → String → Outcome (Appended × Store)
appended_before s case_id existing retry_digest = do
  require (str_eq existing.payload_digest retry_digest) idempotency_conflict
  current ← some_or (locked_case s case_id) assertion_error
  ok (record { event = existing; semantic_context_version = current.semantic_context_version }, s)

-- `encode` is the JSON text of a payload, `digest` the `canonical_payload` of its kind and itself.
module _ (encode : EventPayload → String) (digest : EventKind → EventPayload → String)
    (uuid_text : ℕ → String) where
  -- The second event, of a suggestion that is accepted or declined.
  unfoldable pub add_alternative :
      Store
      → Actor
      → ℕ
      → ℕ
      → ExactAnswer
      → Option String
      → String
      → Option EventKind
      → Outcome Store
  add_alternative s actor id case_id exact label command_key none = ok s
  add_alternative s actor id case_id exact label command_key (some kind) = do
    let payload = alternative (alternative_of exact label)
    (row, s') ←
        append_conversation_event s actor id case_id kind payload
          (str_append command_key ":decision") (digest kind payload)
    ok s'

  unfoldable pub add_decision :
      Store → Actor → ℕ → ℕ → EventPayload → Option String → String → Outcome Store
  add_decision s actor id case_id (exact_answer exact) label command_key =
      add_alternative s actor id case_id exact label command_key (decision_kind exact.decision)
  add_decision s actor id case_id payload label command_key = ok s

  -- The payload that is stored, with the label of a suggestion.
  unfoldable pub stored_payload :
      Store → CaseRow → Option ℕ → Sent → Outcome (EventPayload × Option String)
  stored_payload s case_row policy (message kind json) = ok (client_payload json, none)
  stored_payload s case_row policy (raw fields) = do
    (exact, label) ← validated_answer uuid_text s case_row policy (normalized fields)
    ok (exact_answer exact, label)

  -- The branch of a command that is new.
  unfoldable pub append_new :
      Store → Actor → ℕ → EventIds → ℕ → Option ℕ → Sent → ℕ → String → Outcome (Appended × Store)
  append_new s actor now ids case_id policy sent expected_context_version command_key = do
    case_row ← some_or (locked_case s case_id) stale_version
    require (case_row.semantic_context_version == expected_context_version) stale_version
    (payload, label) ← stored_payload s case_row policy sent
    require (not (ltb 20_000 (count (encode payload)))) conflict
    (row, s₁) ←
        append_conversation_event s actor ids.event_id case_id (sent_kind sent) payload command_key
          (digest (sent_kind sent) (payload_of sent))
    s₂ ← add_decision s₁ actor ids.decision_id case_id payload label command_key
    ok (
      record { event = row; semantic_context_version = case_row.semantic_context_version + 1 },
      add_audit (advance_semantic_context s₂ now case_id) actor "CONVERSATION_EVENT_ADDED"
          "REPORTING_CASE" case_id no_details,
    )

  -- The part of `append_event` after the authorization.
  unfoldable pub append_authorized :
      Store → Actor → ℕ → EventIds → ℕ → Option ℕ → Sent → ℕ → String → Outcome (Appended × Store)
  append_authorized s actor now ids case_id policy sent expected_context_version command_key =
      elim (conversation_event_by_command s case_id actor.membership_id command_key) [
        | some existing ↦
            appended_before s case_id existing (digest (sent_kind sent) (payload_of sent))
        | none ↦ append_new s actor now ids case_id policy sent expected_context_version command_key
      ]

  unfoldable pub append_event :
      Store → Actor → ℕ → EventIds → ℕ → Option ℕ → Sent → ℕ → String → Outcome (Appended × Store)
  append_event s actor now ids case_id policy sent expected_context_version command_key = do
    require (is_client_event sent) forbidden
    (row, access) ← authorized_case_access s actor case_id true
    append_authorized s actor now ids case_id policy sent expected_context_version command_key
