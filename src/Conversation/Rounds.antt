-- ===== src/Conversation/Rounds.antt =====
-- The budget of clarification rounds.
use apbra.Prelude.{
  ℕ, ◌+◌, ◌≤◌, ◌≡◌, refl, sym, subst, ap, ◌∙◌, Option, some, List, [], ◌∷◌, ◌++◌, arith, ltb, All,
  is_none, Bool-cases, Option-cases, and_true, inl, inr, true,
}
use apbra.Store.ConversationRows.{ClarificationCycleRow}
use apbra.Store.Rows.{Store}
use apbra.Store.Conversations.{clarification_cycles, last, closed_cycle}
use apbra.Store.Ends.{modify_end}
use apbra.Conversation.Cycles.{ClarificationSettings, rounds_overall}
use apbra.Conversation.Interpretations.{with_round, has_budget}
use apbra.Conversation.Changes.{Changed, others, event, cycle, round, both}
use apbra.Conversation.CycleRows.{created-cycles, charged-cycles, appended-cycles}
use apbra.Conversation.Runs.{Services, Reached, Reached-ind}

IsWithin : ClarificationSettings → List ClarificationCycleRow → Type 0
IsWithin settings rows =
    All (λ row. row.rounds_used ≤ settings.max_rounds_per_cycle) rows
    × (rounds_overall rows ≤ settings.max_rounds_overall)

closed_cycle-rounds :
    (now : ℕ) (row : ClarificationCycleRow) → (closed_cycle now row).rounds_used ≡ row.rounds_used
closed_cycle-rounds now row = elim (Bool-cases (is_none row.closed_at)) [
  | inl yes_ ↦ rw yes_ refl
  | inr no_ ↦ rw no_ refl
]

next_cycle-All :
    (limit now : ℕ) (rows : List ClarificationCycleRow) (new : ClarificationCycleRow)
    → new.rounds_used ≡ 0
    → All (λ row. row.rounds_used ≤ limit) rows
    → All (λ row. row.rounds_used ≤ limit) (modify_end (closed_cycle now) rows ++ new ∷ [])
next_cycle-All limit now [] new unused h = (omega (arith, unused), tt)
next_cycle-All limit now (row ∷ []) new unused h =
    (omega (arith, closed_cycle-rounds now row, h.0), (omega (arith, unused), tt))
next_cycle-All limit now (row ∷ next ∷ rows) new unused h =
    (h.0, next_cycle-All limit now (next ∷ rows) new unused h.1)

next_cycle-overall :
    (now : ℕ) (rows : List ClarificationCycleRow) (new : ClarificationCycleRow)
    → new.rounds_used ≡ 0
    → rounds_overall (modify_end (closed_cycle now) rows ++ new ∷ []) ≡ rounds_overall rows
next_cycle-overall now [] new unused = omega (arith, unused)
next_cycle-overall now (row ∷ []) new unused = omega (arith, unused, closed_cycle-rounds now row)
next_cycle-overall now (row ∷ next ∷ rows) new unused =
    omega (arith, next_cycle-overall now (next ∷ rows) new unused)

next_cycle-Within :
    (settings : ClarificationSettings) (now : ℕ) (rows : List ClarificationCycleRow)
    (new : ClarificationCycleRow)
    → new.rounds_used ≡ 0
    → IsWithin settings rows
    → IsWithin settings (modify_end (closed_cycle now) rows ++ new ∷ [])
unfolding IsWithin
next_cycle-Within settings now rows new unused (each, overall) = (
  next_cycle-All settings.max_rounds_per_cycle now rows new unused each,
  omega (arith, overall, next_cycle-overall now rows new unused),
)

charged-All :
    (limit : ℕ) (rows : List ClarificationCycleRow) (current : ClarificationCycleRow)
    → last rows ≡ some current
    → ltb current.rounds_used limit ≡ true
    → All (λ row. row.rounds_used ≤ limit) rows
    → All (λ row. row.rounds_used ≤ limit) (modify_end with_round rows)
charged-All limit [] current its less h = tt
charged-All limit (row ∷ []) current its less h = (ground arith, tt)
charged-All limit (row ∷ next ∷ rows) current its less h =
    (h.0, charged-All limit (next ∷ rows) current its less h.1)

charged-overall :
    (rows : List ClarificationCycleRow) (current : ClarificationCycleRow)
    → last rows ≡ some current
    → rounds_overall (modify_end with_round rows) ≡ rounds_overall rows + 1
charged-overall [] current its = cc
charged-overall (row ∷ []) current its = omega arith
charged-overall (row ∷ next ∷ rows) current its =
    omega (arith, charged-overall (next ∷ rows) current its)

charged-Within :
    (settings : ClarificationSettings) (rows : List ClarificationCycleRow)
    → has_budget settings rows ≡ true
    → IsWithin settings rows
    → IsWithin settings (modify_end with_round rows)
unfolding IsWithin
charged-Within settings rows budget (each, overall) = elim (Option-cases (last rows)) [
  | inl nothing ↦ cc (rw (nothing, has_budget) at budget)
  | inr (current, its) ↦
      let (less, below) = and_true (rw (its, has_budget) at budget) in
      (
        charged-All settings.max_rounds_per_cycle rows current its less each,
        ground (arith, charged-overall rows current its),
      )
]

some_inj : {a b : ClarificationSettings} → some a ≡ some b → a ≡ b
some_inj e = ground arith

IsWithin-step :
    (policies : ℕ → Option ClarificationSettings) (s s' : Store) (case_id : ℕ)
    (settings : ClarificationSettings)
    → policies case_id ≡ some settings
    → Changed policies s s'
    → IsWithin settings (clarification_cycles s case_id)
    → IsWithin settings (clarification_cycles s' case_id)
unfolding clarification_cycles
IsWithin-step policies s s' case_id settings its (others events cycles) k = rw cycles k
IsWithin-step policies s s' case_id settings its
      (event actor id of_case kind payload key digest row h) k =
    rw (appended-cycles s actor id of_case kind payload key digest row s' h) k
IsWithin-step policies s s' case_id settings its (cycle actor now id of_case settings_id key row h)
      k =
    elim (created-cycles s actor now id of_case settings_id key row s' case_id h) [
      | inl (same, _, unused, rows) ↦
          rw rows (next_cycle-Within settings now (clarification_cycles s case_id) row unused k)
      | inr rows ↦ rw rows k
    ]
IsWithin-step policies s s' case_id settings its (round of_case held has budget) k =
    elim (charged-cycles s of_case case_id) [
      | inl (same, rows) ↦
          let alike : held ≡ settings = some_inj (sym has ∙ ap policies same ∙ its) in
          let budget' : has_budget settings (clarification_cycles s case_id) ≡ true =
            subst (λ b. has_budget b (clarification_cycles s case_id) ≡ true) alike
              (subst (λ c. has_budget held (clarification_cycles s c) ≡ true) same budget) in
          rw rows (charged-Within settings (clarification_cycles s case_id) budget' k)
      | inr rows ↦ rw rows k
    ]
IsWithin-step policies s s' case_id settings its (both {t = t} first second) k =
    IsWithin-step policies t s' case_id settings its second
      (IsWithin-step policies s t case_id settings its first k)

-- While the settings of the tenant of a case stay, in every state that is reached by appended events,
-- started cycles and created interpretations, in any order and between any other changes, no cycle of
-- the case has used more rounds than a cycle may, and all its cycles together have used at most the
-- rounds that a case may.
pub Reached-Within :
    (v : Services) (s : Store) (case_id : ℕ) (settings : ClarificationSettings)
    → v.policies case_id ≡ some settings
    → Reached v s
    → All (λ row. row.rounds_used ≤ settings.max_rounds_per_cycle) (clarification_cycles s case_id)
      × (rounds_overall (clarification_cycles s case_id) ≤ settings.max_rounds_overall)
unfolding IsWithin clarification_cycles
Reached-Within v s case_id settings its reached =
    Reached-ind v (λ t. IsWithin settings (clarification_cycles t case_id)) none_yet
      (λ t t' change. IsWithin-step v.policies t t' case_id settings its change) s reached
  where
    none_yet :
        (t : Store)
        → t.conversation_events ≡ []
        → t.clarification_cycles ≡ []
        → IsWithin settings (clarification_cycles t case_id)
    none_yet t events cycles = rw cycles (tt, omega arith)
