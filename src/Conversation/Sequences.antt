-- ===== src/Conversation/Sequences.antt =====
-- The sequence numbers of the events of a case.
use apbra.Prelude.{
  ℕ, ◌+◌, ◌≡◌, refl, sym, subst, ◌∙◌, List, [], ◌∷◌, ◌++◌, arith, ok, require, ltb, ◌==◌, is_empty,
  length, filter, Bool-cases, inl, inr, >>-eq-ok, if◌then◌else◌, String,
}
use apbra.Domain.{Actor, integrity_error}
use apbra.Store.ConversationRows.{EventKind, EventPayload, ConversationEventRow}
use apbra.Store.Rows.{Store}
use apbra.Store.Conversations.{
  is_event_of, max_sequence, conversation_events, is_event_allowed, new_event,
  append_conversation_event,
}
use apbra.Store.Ends.{Numbered, Numbered-append, filter-insert, filter-insert-other}

-- The highest sequence of the events of one case.
abbrev highest : List ConversationEventRow → ℕ
highest [] = 0
highest (row ∷ rows) =
    let rest = highest rows in if ltb rest row.sequence then row.sequence else rest

max_sequence-filter :
    (case_id : ℕ) (rows : List ConversationEventRow)
    → max_sequence case_id rows ≡ highest (filter (is_event_of case_id) rows)
max_sequence-filter case_id [] = refl
max_sequence-filter case_id (row ∷ rows) = elim (Bool-cases (is_event_of case_id row)) [
  | inl here ↦ rw (here, max_sequence-filter case_id rows) refl
  | inr there ↦ rw (there, max_sequence-filter case_id rows) refl
]

Numbered-highest :
    (before : ℕ) (rows : List ConversationEventRow)
    → Numbered (λ row. row.sequence) before rows
    → highest rows ≡ (if is_empty rows then 0 else before + length rows)
Numbered-highest before [] h = refl
Numbered-highest before (row ∷ []) h = ground (arith, h.0)
Numbered-highest before (row ∷ other ∷ rows) h =
    let rest = Numbered-highest (before + 1) (other ∷ rows) h.1 in ground (arith, rest, h.0)

next_sequence-length :
    (of_case case_id : ℕ) (rows : List ConversationEventRow)
    → of_case ≡ case_id
    → Numbered (λ row. row.sequence) 0 (filter (is_event_of case_id) rows)
    → max_sequence of_case rows ≡ length (filter (is_event_of case_id) rows)
next_sequence-length of_case case_id rows same h =
    let kept = filter (is_event_of case_id) rows in
    let is_length : highest kept ≡ length kept =
      elim kept as (λ xs. Numbered (λ row. row.sequence) 0 xs → highest xs ≡ length xs) [
        | [] ↦ λ _. refl
        | row ∷ more ↦ λ k. omega (arith, Numbered-highest 0 (row ∷ more) k)
      ]
        h in
    subst (λ c. max_sequence c rows ≡ length kept) (sym same)
      (max_sequence-filter case_id rows ∙ is_length)

pub event-Numbered :
    (s : Store) (actor : Actor) (id of_case : ℕ) (kind : EventKind) (payload : EventPayload)
    (key digest : String) (row : ConversationEventRow) (s' : Store) (case_id : ℕ)
    → append_conversation_event s actor id of_case kind payload key digest ≡ ok (row, s')
    → Numbered (λ row. row.sequence) 0 (conversation_events s case_id)
    → Numbered (λ row. row.sequence) 0 (conversation_events s' case_id)
unfolding append_conversation_event conversation_events
event-Numbered s actor id of_case kind payload key digest row s' case_id h k =
    let new = new_event s actor id of_case kind payload key digest in
    let (_, h1) = >>-eq-ok (require (is_event_allowed s new) integrity_error) h in
    let rows : s'.conversation_events ≡ s.conversation_events ++ new ∷ [] = ground arith in
    elim (Bool-cases (of_case == case_id)) [
      | inl its ↦
          let same : of_case ≡ case_id = ground arith in
          rw (rows, filter-insert (is_event_of case_id) s.conversation_events new its)
            (Numbered-append (λ row. row.sequence) 0
              (filter (is_event_of case_id) s.conversation_events) new k
              (omega (arith, next_sequence-length of_case case_id s.conversation_events same k)))
      | inr differs ↦
          rw (rows, filter-insert-other (is_event_of case_id) s.conversation_events new differs) k
    ]
