-- ===== src/Conversation/Numbers.antt =====
-- The order of the events and of the cycles of a case.
use apbra.Prelude.{
  ℕ, ◌+◌, ◌≡◌, refl, sym, subst, false, Option, List, [], ◌∷◌, ◌++◌, arith, ok, is_none, is_empty,
  length, filter, Bool-cases, inl, inr, if◌then◌else◌, String,
}
use apbra.Domain.{Actor}
use apbra.Store.ConversationRows.{ClarificationCycleRow}
use apbra.Store.Rows.{Store}
use apbra.Store.Conversations.{
  conversation_events, is_cycle_of, clarification_cycles, last, closed_cycle, next_number,
  create_clarification_cycle,
}
use apbra.Conversation.Cycles.{ClarificationSettings}
use apbra.Conversation.Interpretations.{with_round}
use apbra.Conversation.Changes.{Changed, others, event, cycle, round, both}
use apbra.Conversation.CycleRows.{
  closed_cycle-number, created-cycles, charged-cycles, created-events, appended-cycles,
}
use apbra.Conversation.Sequences.{event-Numbered}
use apbra.Conversation.Runs.{Services, Reached, Reached-ind}
use apbra.Store.Ends.{modify_end, Numbered, Numbered-append, Numbered-modify_end, length-modify_end}

-- All cycles but the last are closed.
abbrev pub ClosedBefore : List ClarificationCycleRow → Type 0
ClosedBefore [] = Unit
ClosedBefore (row ∷ []) = Unit
ClosedBefore (row ∷ next ∷ rows) = (is_none row.closed_at ≡ false) × ClosedBefore (next ∷ rows)

closed_cycle-closed :
    (now : ℕ) (row : ClarificationCycleRow) → is_none (closed_cycle now row).closed_at ≡ false
closed_cycle-closed now row = elim (Bool-cases (is_none row.closed_at)) [
  | inl yes_ ↦ rw yes_ refl
  | inr no_ ↦ rw no_ no_
]

ClosedBefore-next :
    (now : ℕ) (rows : List ClarificationCycleRow) (new : ClarificationCycleRow)
    → ClosedBefore rows
    → ClosedBefore (modify_end (closed_cycle now) rows ++ new ∷ [])
ClosedBefore-next now [] new h = tt
ClosedBefore-next now (row ∷ []) new h = (closed_cycle-closed now row, tt)
ClosedBefore-next now (row ∷ next ∷ []) new h = (h.0, ClosedBefore-next now (next ∷ []) new h.1)
ClosedBefore-next now (row ∷ next ∷ third ∷ rows) new h =
    (h.0, ClosedBefore-next now (next ∷ third ∷ rows) new h.1)

ClosedBefore-charged :
    (rows : List ClarificationCycleRow)
    → ClosedBefore rows
    → ClosedBefore (modify_end with_round rows)
ClosedBefore-charged [] h = tt
ClosedBefore-charged (row ∷ []) h = tt
ClosedBefore-charged (row ∷ next ∷ []) h = (h.0, tt)
ClosedBefore-charged (row ∷ next ∷ third ∷ rows) h =
    (h.0, ClosedBefore-charged (next ∷ third ∷ rows) h.1)

next_number-Numbered :
    (before : ℕ) (rows : List ClarificationCycleRow)
    → Numbered (λ row. row.cycle_number) before rows
    → next_number (last rows) ≡ (if is_empty rows then 1 else before + length rows + 1)
next_number-Numbered before [] h = refl
next_number-Numbered before (row ∷ []) h = ground (arith, h.0)
next_number-Numbered before (row ∷ other ∷ rows) h =
    let rest = next_number-Numbered (before + 1) (other ∷ rows) h.1 in ground (arith, rest)

next_number-length :
    (of_case case_id : ℕ) (rows : List ClarificationCycleRow)
    → of_case ≡ case_id
    → Numbered (λ row. row.cycle_number) 0 (filter (is_cycle_of case_id) rows)
    → next_number (last (filter (is_cycle_of of_case) rows))
      ≡ length (filter (is_cycle_of case_id) rows) + 1
next_number-length of_case case_id rows same h =
    let kept = filter (is_cycle_of case_id) rows in
    let is_length : next_number (last kept) ≡ length kept + 1 =
      elim kept
          as (λ xs.
            Numbered (λ row. row.cycle_number) 0 xs → next_number (last xs) ≡ length xs + 1) [
              | [] ↦ λ _. refl
              | row ∷ more ↦ λ k. omega (arith, next_number-Numbered 0 (row ∷ more) k)
            ]
        h in
    subst (λ c. next_number (last (filter (is_cycle_of c) rows)) ≡ length kept + 1) (sym same)
      is_length

cycle-Ordered :
    (s : Store) (actor : Actor) (now id of_case settings_id : ℕ) (key : String)
    (row : ClarificationCycleRow) (s' : Store) (case_id : ℕ)
    → create_clarification_cycle s actor now id of_case settings_id key ≡ ok (row, s')
    → Numbered (λ row. row.cycle_number) 0 (clarification_cycles s case_id)
    → ClosedBefore (clarification_cycles s case_id)
    → Numbered (λ row. row.cycle_number) 0 (clarification_cycles s' case_id)
      × ClosedBefore (clarification_cycles s' case_id)
unfolding create_clarification_cycle clarification_cycles
cycle-Ordered s actor now id of_case settings_id key row s' case_id h k c =
    elim (created-cycles s actor now id of_case settings_id key row s' case_id h) [
      | inl (same, number, _, rows) ↦
          let old = clarification_cycles s case_id in
          let closed = modify_end (closed_cycle now) old in
          rw rows (
            Numbered-append (λ row. row.cycle_number) 0 closed row
                (Numbered-modify_end (λ row. row.cycle_number) (closed_cycle now) 0 old
                  (closed_cycle-number now) k)
                (omega (
                  arith,
                  number,
                  next_number-length of_case case_id s.clarification_cycles same k,
                  length-modify_end (closed_cycle now) old,
                )),
            ClosedBefore-next now old row c,
          )
      | inr rows ↦ rw rows (k, c)
    ]

-- The events of one case and its cycles stand in the order of their numbers, and its cycles before
-- the last are closed.
IsOrdered : Store → ℕ → Type 0
IsOrdered s case_id =
    Numbered (λ row. row.sequence) 0 (conversation_events s case_id)
    × Numbered (λ row. row.cycle_number) 0 (clarification_cycles s case_id)
    × ClosedBefore (clarification_cycles s case_id)

IsOrdered-step :
    (policies : ℕ → Option ClarificationSettings) (s s' : Store) (case_id : ℕ)
    → Changed policies s s'
    → IsOrdered s case_id
    → IsOrdered s' case_id
unfolding IsOrdered conversation_events clarification_cycles
IsOrdered-step policies s s' case_id (others events cycles) k = rw (events, cycles) k
IsOrdered-step policies s s' case_id (event actor id of_case kind payload key digest row h)
      (events, numbers, closed) =
    let kept = appended-cycles s actor id of_case kind payload key digest row s' h in
    (
      event-Numbered s actor id of_case kind payload key digest row s' case_id h events,
      rw kept numbers,
      rw kept closed,
    )
IsOrdered-step policies s s' case_id (cycle actor now id of_case settings_id key row h)
      (events, numbers, closed) =
    let next =
      cycle-Ordered s actor now id of_case settings_id key row s' case_id h numbers closed in
    (rw (created-events s actor now id of_case settings_id key row s' h) events, next.0, next.1)
IsOrdered-step policies s s' case_id (round of_case settings _ _) (events, numbers, closed) =
    elim (charged-cycles s of_case case_id) [
      | inl (_, rows) ↦ (
        events,
        rw rows (
            Numbered-modify_end (λ row. row.cycle_number) with_round 0
              (clarification_cycles s case_id) (λ row. refl) numbers),
        rw rows (ClosedBefore-charged (clarification_cycles s case_id) closed),
      )
      | inr rows ↦ (events, rw rows numbers, rw rows closed)
    ]
IsOrdered-step policies s s' case_id (both {t = t} first second) k =
    IsOrdered-step policies t s' case_id second (IsOrdered-step policies s t case_id first k)

-- In every state that is reached by appended events, started cycles and created interpretations, in
-- any order and between any other changes, the events of a case, as `list_events` reads them, are
-- numbered 1, 2, 3, … in the order of the list, so are its clarification cycles, and of these only
-- the last may be open.
pub Reached-Ordered :
    (v : Services) (s : Store) (case_id : ℕ)
    → Reached v s
    → Numbered (λ row. row.sequence) 0 (conversation_events s case_id)
      × Numbered (λ row. row.cycle_number) 0 (clarification_cycles s case_id)
      × ClosedBefore (clarification_cycles s case_id)
unfolding IsOrdered conversation_events clarification_cycles
Reached-Ordered v s case_id reached =
    Reached-ind v (λ t. IsOrdered t case_id) none_yet
      (λ t t' change. IsOrdered-step v.policies t t' case_id change) s reached
  where
    none_yet :
        (t : Store) → t.conversation_events ≡ [] → t.clarification_cycles ≡ [] → IsOrdered t case_id
    none_yet t events cycles = rw (events, cycles) (tt, tt, tt)
