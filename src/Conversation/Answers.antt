-- ===== src/Conversation/Answers.antt =====
-- `_validated_answer` of `ConversationService`. Items of a JSON list are objects.
use Prim.Native.String.{count}
use apbra.Prelude.{
  ℕ, Bool, true, false, not, ◌&&◌, ◌||◌, Option, none, some, List, String, str_eq, ◌==◌, ltb,
  is_some, ok, err, ◌>>=◌, ◌>>◌, require, some_or, find, strip, is_blank, if◌then◌else◌,
}
use apbra.Domain.{conflict, stale_version, configuration_unavailable}
use apbra.Store.ConversationRows.{
  Field, missing, text, other, Answer, Decision, accept_suggestion, decline_suggestion, free_text,
  ExactAnswer, Suggestion, Question, Session,
}
use apbra.Store.Rows.{CaseRow, Store, Outcome}
use apbra.Store.Conversations.{last, latest_interpretation}

abbrev pub text_of : Field → Option String
text_of (text t) = some t
text_of _ = none

-- `payload.get("suggestionId", "")`
abbrev pub suggestion_of : Field → Option String
suggestion_of missing = some ""
suggestion_of (text t) = some t
suggestion_of (other t) = none

abbrev pub named_decision : String → Option Decision
named_decision t =
    if str_eq t "ACCEPT"
    then some accept_suggestion
    else if str_eq t "DECLINE"
    then some decline_suggestion
    else if str_eq t "FREE_TEXT"
    then some free_text
    else none

-- `payload.get("decision", "FREE_TEXT")`
abbrev pub decision_of : Field → Option Decision
decision_of missing = some free_text
decision_of (text t) = named_decision t
decision_of (other t) = none

abbrev pub is_accept : Decision → Bool
is_accept accept_suggestion = true
is_accept _ = false

abbrev pub is_text : String → Field → Bool
is_text t (text u) = str_eq u t
is_text t _ = false

-- `questions` of the last round, where they are a list
abbrev pub last_questions : Session → Option (List Question)
last_questions session = elim (last session.rounds) [ none ↦ none | some questions ↦ questions ]

-- `str(suggestion.get("label"))`
abbrev pub label_text : Field → String
label_text missing = "None"
label_text (text t) = t
label_text (other t) = t

abbrev pub label_of : Option Suggestion → Option String
label_of none = none
label_of (some suggestion) = some (label_text suggestion.label)

-- The answer that is stored: the label of the suggestion that is accepted, else the text as it is.
abbrev pub answer_text : Decision → String → Option Suggestion → Outcome String
answer_text accept_suggestion raw none = err conflict
answer_text accept_suggestion raw (some suggestion) = do
  label ← some_or (text_of suggestion.label) conflict
  require (not (is_blank (strip label))) conflict
  ok label
answer_text _ raw suggestion = ok raw

abbrev pub is_given : String → Bool
is_given t = not (is_blank (strip t))

-- `uuid_text` is `str` of a UUID; the last argument but one is `max_answer_characters` of the policy.
module _ (uuid_text : ℕ → String) where
  unfoldable pub validated_answer :
      Store → CaseRow → Option ℕ → Answer → Outcome (ExactAnswer × Option String)
  validated_answer s case_row policy sent = do
    max_answer_characters ← some_or policy configuration_unavailable
    require (not sent.has_more_keys) conflict
    question_id ← some_or (text_of sent.question_id) conflict
    interpretation_id ← some_or (text_of sent.interpretation_id) conflict
    raw_answer ← some_or (text_of sent.raw_answer) conflict
    suggestion_id ← some_or (suggestion_of sent.suggestion_id) conflict
    decision ← some_or (decision_of sent.decision) conflict
    require
        (is_given question_id
          && is_given interpretation_id
          && is_given raw_answer
          && not (ltb max_answer_characters (count raw_answer)))
        conflict
    row ← some_or (latest_interpretation s case_row.id) stale_version
    require
        (str_eq interpretation_id (uuid_text row.id)
          && row.context_version == case_row.semantic_context_version)
        stale_version
    questions ← some_or (last_questions row.session) conflict
    question ← some_or (find (λ item. is_text question_id item.id) questions) conflict
    let suggestion = find (λ item. is_text suggestion_id item.id) question.suggestions
    require (not (is_accept decision) || is_some suggestion) conflict
    require (is_accept decision || is_blank suggestion_id) conflict
    answer ← answer_text decision raw_answer suggestion
    ok (
      record {
        question_id = question_id;
        raw_answer = answer;
        suggestion_id = suggestion_id;
        decision = decision;
        submitted_text = raw_answer;
        request_version_id = case_row.current_request_version_id;
        interpretation_id = row.id;
        interpretation_context_version = row.context_version;
      },
      label_of suggestion,
    )
