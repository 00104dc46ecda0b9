-- ===== src/Conversation/Interpretations.antt =====
-- `create_interpretation` of `AcceptanceService`, with the budget of clarification rounds.
use apbra.Prelude.{
  ℕ, ◌+◌, Bool, true, false, not, ◌&&◌, ◌||◌, Option, none, some, List, [], ◌∷◌, String, ltb,
  is_none, is_empty, ok, ◌>>=◌, ◌>>◌, require, some_or, ◌==◌, if◌then◌else◌,
}
use apbra.Domain.{Actor, conflict, stale_version, semantic_validation_failed}
use apbra.Store.ConversationRows.{
  EventKind, raw_answer, alternative_accepted, alternative_declined, ConversationEventRow,
  ClarificationCycleRow, Session, InterpretationState, needs_clarification, ready_for_confirmation,
  InterpretationRow,
}
use apbra.Store.Rows.{CaseRow, Store, Outcome, no_details}
use apbra.Store.Query.{locked_case, request_version}
use apbra.Store.Write.{add_audit}
use apbra.Store.Conversations.{
  last, modify_last, is_cycle_of, clarification_cycles, create_clarification_cycle,
  conversation_events, interpretation_for_context, new_interpretation, add_interpretation,
}
use apbra.Cases.Authorization.{authorized_case_access}
use apbra.Conversation.Answers.{last_questions}
use apbra.Conversation.Cycles.{ClarificationSettings, rounds_overall, clarification_state}

-- What the call obtains from the objects of the case, from the model provider and from the bridge.
pub record Analysis : Type 0 where
  -- whether `_validated_interpretation_context` accepts a stored interpretation
  pub is_validated : Store → CaseRow → InterpretationRow → Bool
  -- `_current_context`: the last item of evidence
  pub current_context : Store → CaseRow → Outcome ℕ
  -- the session that the provider's answer or the simulation makes, with its state
  pub analysed : Store → CaseRow → Outcome (Session × InterpretationState)
  -- the readiness of a session, or its summary
  pub has_summary : Session → InterpretationState → Bool
  -- `f"initial:{case_id}"`
  pub initial_key : ℕ → String

abbrev pub is_raw_answer : EventKind → Bool
is_raw_answer raw_answer = true
is_raw_answer _ = false

abbrev pub is_decision : EventKind → Bool
is_decision alternative_accepted = true
is_decision alternative_declined = true
is_decision _ = false

-- `last_is_answer`
abbrev pub ends_in_answer : List ConversationEventRow → Bool
ends_in_answer [] = false
ends_in_answer (event ∷ []) = is_raw_answer event.kind
ends_in_answer (before ∷ event ∷ []) =
    is_raw_answer event.kind || is_decision event.kind && is_raw_answer before.kind
ends_in_answer (x ∷ y ∷ z ∷ events) = ends_in_answer (y ∷ z ∷ events)

abbrev pub asks : Session → Bool
asks session = elim (last_questions session) [
  | none ↦ false
  | some questions ↦ not (is_empty questions)
]

abbrev pub with_round : ClarificationCycleRow → ClarificationCycleRow
with_round row = record row { rounds_used = row.rounds_used + 1 }

-- The first cycle of a case, and the refusal of a further question.
unfoldable pub open_cycle :
    (ℕ → String) → Store → Actor → ℕ → ℕ → ℕ → ClarificationSettings → Outcome Store
open_cycle initial_key s actor now cycle_id case_id settings =
    if is_none (last (clarification_cycles s case_id))
    then (do
      (cycle, s') ←
          create_clarification_cycle s actor now cycle_id case_id settings.id (initial_key case_id)
      ok s')
    else ok s

unfoldable pub prepared_cycle :
    (ℕ → String) → Store → Actor → ℕ → ℕ → ℕ → Option ClarificationSettings → Outcome Store
prepared_cycle initial_key s actor now cycle_id case_id none = ok s
prepared_cycle initial_key s actor now cycle_id case_id (some settings) = do
  s' ← open_cycle initial_key s actor now cycle_id case_id settings
  require
      (not (clarification_state s' case_id (some settings)).overall_limit_reached
        || ends_in_answer (conversation_events s' case_id))
      conflict
  ok s'

abbrev pub has_budget : ClarificationSettings → List ClarificationCycleRow → Bool
has_budget settings cycles = elim (last cycles) [
  | none ↦ false
  | some current ↦
      ltb current.rounds_used settings.max_rounds_per_cycle
      && ltb (rounds_overall cycles) settings.max_rounds_overall
]

abbrev pub charged_store : Store → ℕ → Store
charged_store s case_id = record s {
  clarification_cycles = modify_last (is_cycle_of case_id) with_round s.clarification_cycles;
}

-- `current_cycle.rounds_used += 1`, where the session asks and the budget allows it.
unfoldable pub charged : Store → ℕ → Option ClarificationSettings → Session → Outcome Store
charged s case_id none session = ok s
charged s case_id (some settings) session =
    if asks session
    then (do
      require (has_budget settings (clarification_cycles s case_id)) semantic_validation_failed
      ok (charged_store s case_id))
    else ok s

abbrev pub settings_id : Option ClarificationSettings → Option ℕ
settings_id none = none
settings_id (some settings) = some settings.id

abbrev pub event_type : InterpretationState → String
event_type ready_for_confirmation = "INTERPRETATION_READY"
event_type needs_clarification = "CLARIFICATION_REQUIRED"

-- The identifiers that a call draws.
pub record InterpretationIds : Type 0 where
  pub interpretation_id : ℕ
  pub cycle_id : ℕ

module _ (a : Analysis) where
  -- The branch of a context without an interpretation.
  unfoldable pub interpret :
      Store
      → Actor
      → ℕ
      → InterpretationIds
      → CaseRow
      → Option ClarificationSettings
      → Outcome (InterpretationRow × Store)
  interpret s actor now ids case_row tenant_settings = do
    s₁ ← prepared_cycle a.initial_key s actor now ids.cycle_id case_row.id tenant_settings
    evidence_id ← a.current_context s₁ case_row
    (session, state) ← a.analysed s₁ case_row
    s₂ ← charged s₁ case_row.id tenant_settings session
    require (a.has_summary session state) semantic_validation_failed
    let row =
        new_interpretation actor ids.interpretation_id case_row evidence_id session state
          (settings_id tenant_settings)
    s₃ ← add_interpretation s₂ row
    ok (row, add_audit s₃ actor (event_type state) "REPORTING_CASE" case_row.id no_details)

  unfoldable pub create_interpretation :
      Store
      → Actor
      → ℕ
      → InterpretationIds
      → ℕ
      → Option ClarificationSettings
      → ℕ
      → Outcome (InterpretationRow × Store)
  create_interpretation s actor now ids case_id tenant_settings expected_context_version = do
    (seen, access) ← authorized_case_access s actor case_id true
    case_row ← some_or (locked_case s case_id) stale_version
    require (case_row.semantic_context_version == expected_context_version) stale_version
    request ←
        some_or (request_version s case_row.current_request_version_id) semantic_validation_failed
    elim (interpretation_for_context s case_id case_row.semantic_context_version) [
      | some existing ↦ do
        require (a.is_validated s case_row existing) semantic_validation_failed
        ok (existing, s)
      | none ↦ interpret s actor now ids case_row tenant_settings
    ]
