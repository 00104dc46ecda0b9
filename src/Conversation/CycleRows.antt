-- ===== src/Conversation/CycleRows.antt =====
-- The cycles of one case after a change of the table.
use apbra.Prelude.{
  ℕ, ◌≡◌, refl, sym, subst, ◌⊎◌, false, List, [], ◌∷◌, ◌++◌, arith, ok, require, ◌==◌, is_none,
  filter, Bool-cases, inl, inr, >>-eq-ok, String,
}
use apbra.Domain.{Actor, integrity_error}
use apbra.Store.ConversationRows.{
  EventKind, EventPayload, ConversationEventRow, ClarificationCycleRow,
}
use apbra.Store.Rows.{Store}
use apbra.Store.Conversations.{
  append_conversation_event, is_cycle_of, clarification_cycles, last, modify_last, closed_cycle,
  next_number, new_cycle, is_cycle_allowed, create_clarification_cycle,
}
use apbra.Store.Ends.{
  modify_end, filter-modify_last, filter-modify_last-other, filter-insert, filter-insert-other,
}
use apbra.Conversation.Interpretations.{with_round, charged_store}

closed_cycle-case :
    (now case_id : ℕ) (row : ClarificationCycleRow)
    → is_cycle_of case_id (closed_cycle now row) ≡ is_cycle_of case_id row
closed_cycle-case now case_id row = elim (Bool-cases (is_none row.closed_at)) [
  | inl yes_ ↦ rw yes_ refl
  | inr no_ ↦ rw no_ refl
]

pub closed_cycle-number :
    (now : ℕ) (row : ClarificationCycleRow) → (closed_cycle now row).cycle_number ≡ row.cycle_number
closed_cycle-number now row = elim (Bool-cases (is_none row.closed_at)) [
  | inl yes_ ↦ rw yes_ refl
  | inr no_ ↦ rw no_ refl
]

modified-cycles :
    (of_case case_id : ℕ) (f : ClarificationCycleRow → ClarificationCycleRow)
    (rows : List ClarificationCycleRow)
    → ((row : ClarificationCycleRow) → is_cycle_of case_id (f row) ≡ is_cycle_of case_id row)
    → ((of_case ≡ case_id)
        × (filter (is_cycle_of case_id) (modify_last (is_cycle_of of_case) f rows)
            ≡ modify_end f (filter (is_cycle_of case_id) rows)))
      ⊎ ((of_case == case_id) ≡ false)
        × (filter (is_cycle_of case_id) (modify_last (is_cycle_of of_case) f rows)
            ≡ filter (is_cycle_of case_id) rows)
modified-cycles of_case case_id f rows keep = elim (Bool-cases (of_case == case_id)) [
  | inl its ↦
      let same : of_case ≡ case_id = ground arith in
      inl (
        same,
        subst
            (λ c.
              filter (is_cycle_of case_id) (modify_last (is_cycle_of c) f rows)
              ≡ modify_end f (filter (is_cycle_of case_id) rows))
            (sym same) (filter-modify_last (is_cycle_of case_id) f rows keep),
      )
  | inr differs ↦ inr (
    differs,
    filter-modify_last-other (is_cycle_of case_id) (is_cycle_of of_case) f rows
        (λ x passes. ground arith) keep,
  )
]

pub created-cycles :
    (s : Store) (actor : Actor) (now id of_case settings_id : ℕ) (key : String)
    (row : ClarificationCycleRow) (s' : Store) (case_id : ℕ)
    → create_clarification_cycle s actor now id of_case settings_id key ≡ ok (row, s')
    → ((of_case ≡ case_id)
        × (row.cycle_number
            ≡ next_number (last (filter (is_cycle_of of_case) s.clarification_cycles)))
        × (row.rounds_used ≡ 0)
        × (clarification_cycles s' case_id
            ≡ modify_end (closed_cycle now) (clarification_cycles s case_id) ++ row ∷ []))
      ⊎ (clarification_cycles s' case_id ≡ clarification_cycles s case_id)
unfolding create_clarification_cycle clarification_cycles
created-cycles s actor now id of_case settings_id key row s' case_id h =
    let new = new_cycle s actor id of_case settings_id key in
    let (_, h1) = >>-eq-ok (require (is_cycle_allowed s new) integrity_error) h in
    let closed = modify_last (is_cycle_of of_case) (closed_cycle now) s.clarification_cycles in
    let rows : s'.clarification_cycles ≡ closed ++ row ∷ [] = ground arith in
    let its_case : row.case_id ≡ of_case = ground arith in
    elim (modified-cycles of_case case_id (closed_cycle now) s.clarification_cycles
      (closed_cycle-case now case_id)) [
        | inl (same, kept) ↦ inl (
          same,
          ground arith,
          ground arith,
          rw (rows, filter-insert (is_cycle_of case_id) closed row (ground arith), kept) refl,
        )
        | inr (differs, kept) ↦ inr (
            rw (rows, filter-insert-other (is_cycle_of case_id) closed row (ground arith), kept)
              refl)
      ]

pub charged-cycles :
    (s : Store) (of_case case_id : ℕ)
    → ((of_case ≡ case_id)
        × (clarification_cycles (charged_store s of_case) case_id
            ≡ modify_end with_round (clarification_cycles s case_id)))
      ⊎ (clarification_cycles (charged_store s of_case) case_id ≡ clarification_cycles s case_id)
unfolding clarification_cycles
charged-cycles s of_case case_id =
    elim (modified-cycles of_case case_id with_round s.clarification_cycles (λ row. refl)) [
      | inl (same, kept) ↦ inl (same, kept)
      | inr (differs, kept) ↦ inr kept
    ]

pub created-events :
    (s : Store) (actor : Actor) (now id case_id settings_id : ℕ) (key : String)
    (row : ClarificationCycleRow) (s' : Store)
    → create_clarification_cycle s actor now id case_id settings_id key ≡ ok (row, s')
    → s'.conversation_events ≡ s.conversation_events
unfolding create_clarification_cycle
created-events s actor now id case_id settings_id key row s' h = ground arith

pub appended-cycles :
    (s : Store) (actor : Actor) (id case_id : ℕ) (kind : EventKind) (payload : EventPayload)
    (key digest : String) (row : ConversationEventRow) (s' : Store)
    → append_conversation_event s actor id case_id kind payload key digest ≡ ok (row, s')
    → s'.clarification_cycles ≡ s.clarification_cycles
unfolding append_conversation_event
appended-cycles s actor id case_id kind payload key digest row s' h = ground arith
