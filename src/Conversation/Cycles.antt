-- ===== src/Conversation/Cycles.antt =====
-- `clarification_state` and `start_refinement_cycle` of `AcceptanceService`.
use Prim.Native.String.{count, ◌++◌ as str_append}
use apbra.Prelude.{
  ℕ, ◌+◌, Bool, true, false, not, Option, none, some, List, [], ◌∷◌, String, ltb, leb, ok, ◌>>=◌,
  ◌>>◌, require, some_or, strip, is_blank, ◌==◌, if◌then◌else◌,
}
use apbra.Domain.{Actor, conflict, stale_version, configuration_unavailable, assertion_error}
use apbra.Store.ConversationRows.{
  EventKind, user_message, clarification_cycle_started, EventPayload, enhancement_text,
  cycle_number_payload, ClarificationCycleRow,
}
use apbra.Store.Rows.{Store, Outcome, no_details}
use apbra.Store.Query.{locked_case}
use apbra.Store.Write.{add_audit}
use apbra.Store.Conversations.{
  advance_semantic_context, append_conversation_event, last, clarification_cycles,
  clarification_cycle_by_command, create_clarification_cycle,
}
use apbra.Cases.Authorization.{authorized_case_access}

-- The snapshot of the tenant's settings, as far as clarification reads it.
pub record ClarificationSettings : Type 0 where
  pub id : ℕ
  pub clarification_enabled : Bool
  pub max_rounds_per_cycle : ℕ
  pub max_rounds_overall : ℕ
  pub max_answer_characters : ℕ

-- `sum(item.rounds_used for item in cycles)`
abbrev pub rounds_overall : List ClarificationCycleRow → ℕ
rounds_overall [] = 0
rounds_overall (row ∷ rows) = row.rounds_used + rounds_overall rows

pub record ClarificationState : Type 0 where
  pub current : Option ClarificationCycleRow
  pub rounds_used_overall : ℕ
  pub settings : Option ClarificationSettings
  pub clarification_enabled : Bool
  pub per_cycle_limit_reached : Bool
  pub overall_limit_reached : Bool

abbrev pub is_enabled : Option ClarificationSettings → Bool
is_enabled none = true
is_enabled (some settings) = settings.clarification_enabled

abbrev pub is_cycle_full : Option ClarificationCycleRow → Option ClarificationSettings → Bool
is_cycle_full (some row) (some settings) = leb settings.max_rounds_per_cycle row.rounds_used
is_cycle_full _ _ = false

abbrev pub is_all_used : ℕ → Option ClarificationSettings → Bool
is_all_used overall none = false
is_all_used overall (some settings) = leb settings.max_rounds_overall overall

unfoldable pub clarification_state : Store → ℕ → Option ClarificationSettings → ClarificationState
clarification_state s case_id settings =
    let cycles = clarification_cycles s case_id in
    record {
      current = last cycles;
      rounds_used_overall = rounds_overall cycles;
      settings = settings;
      clarification_enabled = is_enabled settings;
      per_cycle_limit_reached = is_cycle_full (last cycles) settings;
      overall_limit_reached = is_all_used (rounds_overall cycles) settings;
    }

abbrev pub cycle_event : String → EventKind
cycle_event enhancement =
    if is_blank (strip enhancement) then clarification_cycle_started else user_message

abbrev pub cycle_payload : String → ℕ → EventPayload
cycle_payload enhancement number =
    if is_blank (strip enhancement)
    then cycle_number_payload number
    else enhancement_text (strip enhancement)

-- The identifiers that a new cycle and its event draw.
pub record CycleIds : Type 0 where
  pub cycle_id : ℕ
  pub event_id : ℕ

module _ (digest : EventKind → EventPayload → String) where
  -- The branch of a command that is new.
  unfoldable pub start_cycle :
      Store
      → Actor
      → ℕ
      → CycleIds
      → ℕ
      → Option ClarificationSettings
      → ℕ
      → String
      → String
      → Outcome (ClarificationState × ℕ × Store)
  start_cycle s actor now ids case_id tenant_settings expected_context_version command_key
        enhancement =
      do
        case_row ← some_or (locked_case s case_id) stale_version
        require (case_row.semantic_context_version == expected_context_version) stale_version
        settings ← some_or tenant_settings configuration_unavailable
        require settings.clarification_enabled configuration_unavailable
        require (not (clarification_state s case_id tenant_settings).overall_limit_reached) conflict
        require (not (ltb settings.max_answer_characters (count enhancement))) conflict
        (cycle, s₁) ←
            create_clarification_cycle s actor now ids.cycle_id case_id settings.id command_key
        let payload = cycle_payload enhancement cycle.cycle_number
        (row, s₂) ←
            append_conversation_event s₁ actor ids.event_id case_id (cycle_event enhancement)
              payload (str_append command_key ":cycle") (digest (cycle_event enhancement) payload)
        let s₃ =
            add_audit (advance_semantic_context s₂ now case_id) actor "CLARIFICATION_CYCLE_STARTED"
              "REPORTING_CASE" case_id no_details
        ok (
          clarification_state s₃ case_id tenant_settings,
          case_row.semantic_context_version + 1,
          s₃,
        )

  unfoldable pub started_before :
      Store → ℕ → Option ClarificationSettings → Outcome (ClarificationState × ℕ × Store)
  started_before s case_id tenant_settings = do
    case_row ← some_or (locked_case s case_id) assertion_error
    ok (clarification_state s case_id tenant_settings, case_row.semantic_context_version, s)

  unfoldable pub start_refinement_cycle :
      Store
      → Actor
      → ℕ
      → CycleIds
      → ℕ
      → Option ClarificationSettings
      → ℕ
      → String
      → String
      → Outcome (ClarificationState × ℕ × Store)
  start_refinement_cycle s actor now ids case_id tenant_settings expected_context_version
        command_key enhancement =
      do
        (row, access) ← authorized_case_access s actor case_id true
        elim (clarification_cycle_by_command s case_id actor.membership_id command_key) [
          | some existing ↦ started_before s case_id tenant_settings
          | none ↦
              start_cycle s actor now ids case_id tenant_settings expected_context_version
                command_key enhancement
        ]
