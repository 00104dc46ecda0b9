-- ===== src/Conversation/Tests.antt =====
-- A case whose conversation is opened, asked about and refined.
use apbra.Prelude.{
  ℕ, ◌≡◌, ◌≤◌, refl, true, none, some, String, [], ◌∷◌, ok, err, All, length, str_eq, if◌then◌else◌,
  strip, is_blank,
}
use apbra.Domain.{ApplicationError, idempotency_conflict}
use apbra.Store.ConversationRows.{
  EventKind, user_message, EventPayload, client_payload, text, ConversationEventRow,
  InterpretationRow, Session, needs_clarification,
}
use apbra.Store.Rows.{Store}
use apbra.Store.Query.{
  case_access, is_visible_case, opens_case, company_is_active, member_is_active, identity_is_active,
  locked_case, is_case, request_version,
}
use apbra.Store.Write.{add_audit}
use apbra.Store.Samples.{sample, owner_actor, value_or, shared_case, owner_row}
use apbra.Store.Conversations.{
  conversation_event_by_command, conversation_events, append_conversation_event,
  advance_semantic_context, new_event, new_interpretation, interpretation_for_context,
  create_clarification_cycle, clarification_cycles, add_interpretation,
  clarification_cycle_by_command,
}
use apbra.Store.Ends.{Numbered}
use apbra.Cases.Authorization.{authorized_case_access}
use apbra.Conversation.Events.{
  Sent, message, Appended, append_event, append_authorized, append_new, appended_before,
  add_decision, add_alternative, stored_payload,
}
use apbra.Conversation.Cycles.{
  ClarificationSettings, ClarificationState, clarification_state, start_refinement_cycle,
  start_cycle, started_before, rounds_overall,
}
use apbra.Conversation.Interpretations.{
  create_interpretation, interpret, prepared_cycle, open_cycle, charged,
}
use apbra.Conversation.Runs.{Services, Reached, started, called, appends, interprets, refines}
use apbra.Conversation.Numbers.{ClosedBefore, Reached-Ordered}
use apbra.Conversation.Rounds.{Reached-Within}
use apbra.Conversation.Retry.{append_event-retry}
use apbra.Conversation.Refinement.{start_refinement_cycle-blank}

abbrev limits : ClarificationSettings
limits = record {
  id = 70;
  clarification_enabled = true;
  max_rounds_per_cycle = 2;
  max_rounds_overall = 3;
  max_answer_characters = 100;
}

abbrev asking : Session
asking = record { rounds = some (record { id = text "q"; suggestions = [] } ∷ []) ∷ [] }

abbrev json_of : EventPayload → String
json_of (client_payload json) = json
json_of _ = "{}"

abbrev digest_of : EventKind → EventPayload → String
digest_of kind payload = json_of payload

abbrev services : Services
services = record {
  encode = json_of;
  digest = digest_of;
  uuid_text = λ id. "id";
  policies = λ case_id. some limits;
  analysis = record {
    is_validated = λ s row known. true;
    current_context = λ s row. ok 80;
    analysed = λ s row. ok (asking, needs_clarification);
    has_summary = λ session state. true;
    initial_key = λ case_id. "initial";
  };
}

abbrev hello : Sent
hello = message user_message "hello"

abbrev no_event : ConversationEventRow
no_event = new_event sample owner_actor 0 0 user_message (client_payload "") "" ""

abbrev said : Appended × Store
said =
    value_or (record { event = no_event; semantic_context_version = 0 }, sample)
      (append_event json_of digest_of services.uuid_text sample owner_actor 50
        (record { event_id = 90; decision_id = 91 }) 20 none hello 1 "key")

abbrev asked : InterpretationRow × Store
asked =
    value_or
      (new_interpretation owner_actor 0 shared_case 0 asking needs_clarification none, sample)
      (create_interpretation services.analysis said.1 owner_actor 60
        (record { interpretation_id = 92; cycle_id = 93 }) 20 (some limits) 2)

abbrev refined : ClarificationState × ℕ × Store
refined =
    value_or (clarification_state sample 20 none, 0, sample)
      (start_refinement_cycle digest_of asked.1 owner_actor 70
        (record { cycle_id = 94; event_id = 95 }) 20 (some limits) 2 "more" " a total ")

runs :
    (append_event json_of digest_of services.uuid_text sample owner_actor 50
        (record { event_id = 90; decision_id = 91 })
        20
        none
        hello
        1
        "key"
      ≡ ok said)
    × (create_interpretation services.analysis said.1 owner_actor 60
          (record { interpretation_id = 92; cycle_id = 93 })
          20
          (some limits)
          2
        ≡ ok asked)
    × (start_refinement_cycle digest_of asked.1 owner_actor 70
          (record { cycle_id = 94; event_id = 95 })
          20
          (some limits)
          2
          "more"
          " a total "
        ≡ ok refined)
    × (length (conversation_events refined.2 20) ≡ 2)
    × (length (clarification_cycles refined.2 20) ≡ 2)
    × (rounds_overall (clarification_cycles refined.2 20) ≡ 1)
    × (authorized_case_access said.1 owner_actor 20 true
        ≡ ok (record shared_case { semantic_context_version = 2; updated_at = 50 }, owner_row))
    × (clarification_cycle_by_command sample 20 10 "blank" ≡ none)
    × (is_blank (strip "") ≡ true)
unfolding append_event append_authorized append_new appended_before add_decision add_alternative
    stored_payload authorized_case_access case_access is_visible_case opens_case company_is_active
    member_is_active identity_is_active locked_case is_case conversation_event_by_command
    conversation_events append_conversation_event advance_semantic_context add_audit strip
    create_interpretation request_version interpretation_for_context interpret prepared_cycle
    open_cycle charged create_clarification_cycle clarification_cycles clarification_state
    add_interpretation start_refinement_cycle start_cycle started_before
    clarification_cycle_by_command
runs = (refl, refl, refl, refl, refl, refl, refl, refl, refl)

reached : Reached services refined.2
reached =
    called
      (called
        (called (started {s = sample} refl refl) (
          appends owner_actor 50 (record { event_id = 90; decision_id = 91 }) 20 none hello 1 "key"
            said.0 runs.0))
        (interprets owner_actor 60 (record { interpretation_id = 92; cycle_id = 93 }) 20 2 asked.0
          runs.1))
      (refines owner_actor 70 (record { cycle_id = 94; event_id = 95 }) 20 2 "more" " a total "
        refined.0 refined.1 runs.2)

Reached-Ordered_example :
    Numbered (λ row. row.sequence) 0 (conversation_events refined.2 20)
    × Numbered (λ row. row.cycle_number) 0 (clarification_cycles refined.2 20)
    × ClosedBefore (clarification_cycles refined.2 20)
Reached-Ordered_example = Reached-Ordered services refined.2 20 reached

Reached-Within_example :
    All (λ row. row.rounds_used ≤ 2) (clarification_cycles refined.2 20)
    × (rounds_overall (clarification_cycles refined.2 20) ≤ 3)
Reached-Within_example = Reached-Within services refined.2 20 limits refl reached

append_event-retry_example :
    append_event json_of digest_of services.uuid_text said.1 owner_actor 80
      (record { event_id = 96; decision_id = 97 })
      20
      none
      (message user_message "other")
      1
      "key"
    ≡ (if str_eq "hello" "other" then ok said else err idempotency_conflict)
append_event-retry_example =
    append_event-retry json_of digest_of services.uuid_text sample owner_actor 50
      (record { event_id = 90; decision_id = 91 }) 20 none hello 1 "key" said.0 said.1 80
      (record { event_id = 96; decision_id = 97 }) none (message user_message "other") 1
      (record shared_case { semantic_context_version = 2; updated_at = 50 }, owner_row) runs.0
      runs.6

start_refinement_cycle-blank_example :
    (e : ApplicationError) × (start_refinement_cycle digest_of sample owner_actor 70
        (record { cycle_id = 94; event_id = 95 })
        20
        (some limits)
        1
        "blank"
        ""
      ≡ err e)
start_refinement_cycle-blank_example =
    start_refinement_cycle-blank digest_of sample owner_actor 70
      (record { cycle_id = 94; event_id = 95 }) 20 (some limits) 1 "blank" "" runs.7 runs.8
