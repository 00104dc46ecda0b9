-- ===== src/Generation/Active.antt =====
-- However attempts are begun, finished and cancelled, a case has at most one that is active.
use apbra.Prelude.{
  ℕ, ◌+◌, ◌≤◌, ◌≡◌, refl, subst, Bool, true, false, Option, none, some, List, [], ◌∷◌, ◌++◌, String,
  arith, ok, ◌==◌, any, find, find-append, modify_first, count, count-modify_first, count-append,
  ==_refl, ==_iff, Bool-cases, Option-cases, inl, inr, if◌then◌else◌, ltb,
}
use apbra.Domain.{Actor}
use apbra.Store.Rows.{Outcome}
use apbra.Generation.Rows.{GenerationAttemptRow, GenerationStore}
use apbra.Generation.Query.{
  is_active, is_active_of, is_attempt, generation_attempt, active_generation_attempt,
  highest_attempt, is_attempt_allowed,
}
use apbra.Generation.Eligible.{Mode, Pipeline}
use apbra.Generation.Start.{started, begin_generation}
use apbra.Generation.Earlier.{AttemptIds}
use apbra.Generation.Finish.{Built, ArtifactObjects, Finishing, finish_generation}
use apbra.Generation.Access.{cancel}
use apbra.Generation.Written.{Written, kept, begun, ended, begin_generation-Written}
use apbra.Generation.FinishWritten.{finish_generation-Written, cancel-Written}

-- The stores that the calls reach, from one without attempts. A call on other tables is `elsewhere`.
pub data Generated (v : Pipeline) (o : ArtifactObjects) : GenerationStore → Type 0 where
  none_yet : {g : GenerationStore} → g.generation_attempts ≡ [] → Generated v o g
  begins :
      {g g' : GenerationStore} (actor : Actor) (now : ℕ) (ids : AttemptIds)
      (case_id contract_id : ℕ) (key : String) (mode : Mode) (source design : Option ℕ)
      (row : GenerationAttemptRow) (new : Bool)
      → Generated v o g
      → begin_generation v g actor now ids case_id contract_id key mode source design
        ≡ ok (row, new, g')
      → Generated v o g'
  finishes :
      {g g' : GenerationStore} (now : ℕ) (f : Finishing) (old : GenerationAttemptRow)
      (built : Outcome Built) (row : GenerationAttemptRow)
      → Generated v o g
      → finish_generation v o g now f old built ≡ ok (row, g')
      → Generated v o g'
  cancels :
      {g g' : GenerationStore} (actor : Actor) (now case_id attempt_id : ℕ)
      (row : GenerationAttemptRow)
      → Generated v o g
      → cancel g actor now case_id attempt_id ≡ ok (row, g')
      → Generated v o g'
  elsewhere :
      {g g' : GenerationStore}
      → Generated v o g
      → g'.generation_attempts ≡ g.generation_attempts
      → Generated v o g'

highest-none :
    (test : GenerationAttemptRow → Bool) (rows : List GenerationAttemptRow)
    → highest_attempt test rows ≡ none
    → count test rows ≡ 0
highest-none test [] h = refl
highest-none test (row ∷ rows) h = elim (Bool-cases (test row)) [
  | inl here ↦ elim (Option-cases (highest_attempt test rows)) [
    | inl nothing ↦ let never = rw (here, nothing) at h in cc
    | inr (other, more) ↦ elim (Bool-cases (ltb row.attempt_number other.attempt_number)) [
      | inl less ↦ let never = rw (here, more, less) at h in cc
      | inr most ↦ let never = rw (here, more, most) at h in cc
    ]
  ]
  | inr there ↦ rw (there, highest-none test rows (rw there at h)) refl
]

fresh-find :
    (case_id id : ℕ) (rows : List GenerationAttemptRow)
    → any (λ old. old.id == id) rows ≡ false
    → find (is_attempt case_id id) rows ≡ none
fresh-find case_id id [] h = refl
fresh-find case_id id (row ∷ rows) h = ground (arith, fresh-find case_id id rows)

begun-count :
    (row : GenerationAttemptRow) (now case_id : ℕ) (rows : List GenerationAttemptRow)
    → any (λ old. old.id == row.id) rows ≡ false
    → is_active row.status ≡ true
    → count
        (is_active_of case_id)
        (modify_first (is_attempt row.case_id row.id) (λ old. started now row) (rows ++ row ∷ []))
      ≡ count (is_active_of case_id) rows + (if row.case_id == case_id then 1 else 0)
begun-count row now case_id rows fresh active =
    let its : is_attempt row.case_id row.id row ≡ true =
      ground (arith, ==_refl row.case_id, ==_refl row.id) in
    let found : find (is_attempt row.case_id row.id) (rows ++ row ∷ []) ≡ some row =
      rw
        (
          find-append (is_attempt row.case_id row.id) rows (row ∷ [])
              (fresh-find row.case_id row.id rows fresh),
          its,
        )
        refl in
    let changed =
      count-modify_first (is_active_of case_id) (is_attempt row.case_id row.id)
        (λ old. started now row) (rows ++ row ∷ []) row found in
    let added = count-append (is_active_of case_id) rows (row ∷ []) in
    elim (Bool-cases (row.case_id == case_id)) [
      | inl here ↦ ground (arith, changed, added, active, here)
      | inr there ↦ ground (arith, changed, added, active, there)
    ]

AtMostOne-step :
    (g g' : GenerationStore) (case_id : ℕ)
    → Written g g'
    → count (is_active_of case_id) g.generation_attempts ≤ 1
    → count (is_active_of case_id) g'.generation_attempts ≤ 1
unfolding active_generation_attempt is_attempt_allowed generation_attempt
AtMostOne-step g g' case_id (kept rows) k = rw rows k
AtMostOne-step g g' case_id (begun row now idle allowed active rows) k =
    let fresh : any (λ old. old.id == row.id) g.generation_attempts ≡ false = ground arith in
    let counted = begun-count row now case_id g.generation_attempts fresh active in
    rw rows (elim (Bool-cases (row.case_id == case_id)) [
      | inl here ↦
          let same : row.case_id ≡ case_id = (==_iff row.case_id case_id).0 here in
          let none_before : count (is_active_of case_id) g.generation_attempts ≡ 0 =
            subst (λ c. count (is_active_of c) g.generation_attempts ≡ 0) same
              (highest-none (is_active_of row.case_id) g.generation_attempts idle) in
          ground (arith, counted, none_before, here)
      | inr there ↦ ground (arith, counted, there, k)
    ])
AtMostOne-step g g' case_id (ended current done found active over rows) k =
    let changed =
      count-modify_first (is_active_of case_id) (is_attempt current.case_id current.id)
        (λ old. done) g.generation_attempts current found in
    rw rows (ground (arith, changed, over, k))

-- In every store that is reached from one without attempts by beginning, finishing and cancelling
-- attempts, in any order, at any time and between any other changes, a case has at most one attempt
-- that is pending or running.
pub Generated-AtMostOne :
    (v : Pipeline) (o : ArtifactObjects) (g : GenerationStore) (case_id : ℕ)
    → Generated v o g
    → count (is_active_of case_id) g.generation_attempts ≤ 1
Generated-AtMostOne v o g case_id (none_yet none_) = rw none_ (omega arith)
Generated-AtMostOne v o g' case_id
      (begins {g} actor now ids of_case contract_id key mode source design row new before h) =
    AtMostOne-step g g' case_id
      (begin_generation-Written v g actor now ids of_case contract_id key mode source design row new
        g' h)
      (Generated-AtMostOne v o g case_id before)
Generated-AtMostOne v o g' case_id (finishes {g} now f old built row before h) =
    AtMostOne-step g g' case_id (finish_generation-Written v o g now f old built row g' h)
      (Generated-AtMostOne v o g case_id before)
Generated-AtMostOne v o g' case_id (cancels {g} actor now of_case attempt_id row before h) =
    AtMostOne-step g g' case_id (cancel-Written g actor now of_case attempt_id row g' h)
      (Generated-AtMostOne v o g case_id before)
Generated-AtMostOne v o g' case_id (elsewhere {g} before same) =
    rw same (Generated-AtMostOne v o g case_id before)
