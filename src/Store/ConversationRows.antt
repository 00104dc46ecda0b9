-- ===== src/Store/ConversationRows.antt =====
-- The rows of a case's conversation, clarification cycles and interpretations. Where a column holds
-- JSON text, the row holds the value that the program encodes.
use apbra.Prelude.{ℕ, Bool, Option, List, String}

pub data EventKind : Type 0 where
  user_message raw_answer clarification_question ai_analysis correction : EventKind
  alternative_proposed alternative_accepted alternative_declined : EventKind
  clarification_cycle_started : EventKind

-- A value of a JSON object: the key is missing, a text, or a value of another type, by its `str`.
pub data Field : Type 0 where
  missing : Field
  text other : String → Field

pub record Answer : Type 0 where
  pub question_id : Field
  pub interpretation_id : Field
  pub raw_answer : Field
  pub suggestion_id : Field
  pub decision : Field
  pub has_more_keys : Bool

pub data Decision : Type 0 where
  accept_suggestion decline_suggestion free_text : Decision

-- What `_validated_answer` stores.
pub record ExactAnswer : Type 0 where
  pub question_id : String
  pub raw_answer : String
  pub suggestion_id : String
  pub decision : Decision
  pub submitted_text : String
  pub request_version_id : ℕ
  pub interpretation_id : ℕ
  pub interpretation_context_version : ℕ

pub record Alternative : Type 0 where
  pub question_id : String
  pub suggestion_id : String
  pub label : String
  pub request_version_id : ℕ
  pub interpretation_id : ℕ

pub data EventPayload : Type 0 where
  client_payload : String → EventPayload
  answer : Answer → EventPayload
  exact_answer : ExactAnswer → EventPayload
  alternative : Alternative → EventPayload
  enhancement_text : String → EventPayload
  cycle_number_payload : ℕ → EventPayload

pub record ConversationEventRow : Type 0 where
  pub id : ℕ
  pub case_id : ℕ
  pub company_id : ℕ
  pub sequence : ℕ
  pub kind : EventKind
  pub payload : EventPayload
  pub command_key : String
  pub payload_digest : String
  pub created_by_membership_id : ℕ

pub record ClarificationCycleRow : Type 0 where
  pub id : ℕ
  pub company_id : ℕ
  pub case_id : ℕ
  pub cycle_number : ℕ
  pub rounds_used : ℕ
  pub settings_version_id : ℕ
  pub started_by_membership_id : ℕ
  pub command_key : String
  pub closed_at : Option ℕ

pub record Suggestion : Type 0 where
  pub id : Field
  pub label : Field

pub record Question : Type 0 where
  pub id : Field
  pub suggestions : List Suggestion

-- The questions of a round, where they are a list.
pub record Session : Type 0 where
  pub rounds : List (Option (List Question))

pub data InterpretationState : Type 0 where
  needs_clarification ready_for_confirmation : InterpretationState

pub record InterpretationRow : Type 0 where
  pub id : ℕ
  pub case_id : ℕ
  pub company_id : ℕ
  pub request_version_id : ℕ
  pub settings_version_id : Option ℕ
  pub evidence_id : Option ℕ
  pub context_version : ℕ
  pub session : Session
  pub state : InterpretationState
  pub created_by_membership_id : ℕ
