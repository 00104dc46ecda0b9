-- ===== src/Generation/Written.antt =====
-- How the calls of the service change the table of attempts.
use apbra.Prelude.{
  ℕ, ◌≡◌, refl, sym, subst, Bool, true, false, Option, none, some, [], ◌∷◌, ◌++◌, String, arith, ok,
  require, some_or, str_eq, ◌==◌, is_none, find, find-passes, modify_first, >>=-eq-ok, >>-eq-ok,
  require-eq-ok, Option-cases, Bool-cases, inl, inr, if◌then◌else◌, and_true, ==_iff,
}
use apbra.Domain.{
  Actor, conflict, idempotency_conflict, generation_failed, reviewed_design_required,
}
use apbra.Generation.Rows.{GenerationAttemptRow, GenerationStore}
use apbra.Generation.Query.{
  is_active, is_attempt, generation_attempt, active_generation_attempt, is_attempt_allowed,
  equivalent_generation_attempt, generation_attempt_by_command,
}
use apbra.Generation.Eligible.{Mode, Pipeline, current_payload, eligible_design}
use apbra.Generation.Start.{
  new_attempt, add_attempt, started, begin_attempt, begin_new, begin_generation,
}
use apbra.Generation.Earlier.{
  StartCommand, AttemptIds, expected_digest, begun_before, is_build, historical, sources,
}

pub data Written : GenerationStore → GenerationStore → Type 0 where
  kept : {g g' : GenerationStore} → g'.generation_attempts ≡ g.generation_attempts → Written g g'
  begun :
      {g g' : GenerationStore} (row : GenerationAttemptRow) (now : ℕ)
      → active_generation_attempt g row.case_id ≡ none
      → is_attempt_allowed g row ≡ true
      → is_active row.status ≡ true
      → g'.generation_attempts
        ≡ modify_first
            (is_attempt row.case_id row.id)
            (λ old. started now row)
            (g.generation_attempts ++ row ∷ [])
      → Written g g'
  ended :
      {g g' : GenerationStore} (current done : GenerationAttemptRow)
      → generation_attempt g current.case_id current.id ≡ some current
      → is_active current.status ≡ true
      → is_active done.status ≡ false
      → g'.generation_attempts
        ≡ modify_first (is_attempt current.case_id current.id) (λ old. done) g.generation_attempts
      → Written g g'

-- A row that is found by its identifiers is found by those that it holds.
pub found_by_its_ids :
    (g : GenerationStore) (case_id id : ℕ) (row : GenerationAttemptRow)
    → generation_attempt g case_id id ≡ some row
    → generation_attempt g row.case_id row.id ≡ some row
unfolding generation_attempt
found_by_its_ids g case_id id row h =
    let (same_case, same_id) =
      and_true (find-passes (is_attempt case_id id) g.generation_attempts row h) in
    subst (λ c. find (is_attempt c row.id) g.generation_attempts ≡ some row)
      (sym ((==_iff row.case_id case_id).0 same_case))
      (subst (λ i. find (is_attempt case_id i) g.generation_attempts ≡ some row)
        (sym ((==_iff row.id id).0 same_id)) h)

none_of : (o : Option GenerationAttemptRow) → is_none o ≡ true → o ≡ none
none_of none h = refl
none_of (some row) h = cc

add_attempt-rows :
    (g : GenerationStore) (row : GenerationAttemptRow) (g' : GenerationStore)
    → add_attempt g row ≡ ok g'
    → (is_attempt_allowed g row ≡ true)
      × (g'.generation_attempts ≡ g.generation_attempts ++ row ∷ [])
unfolding add_attempt
add_attempt-rows g row g' h = (ground arith, ground arith)

module _ (v : Pipeline) where
  begin_attempt-Written :
      (g : GenerationStore) (actor : Actor) (now : ℕ) (ids : AttemptIds) (c : StartCommand)
      (row : GenerationAttemptRow) (new : Bool) (g' : GenerationStore)
      → begin_attempt v g actor now ids c ≡ ok (row, new, g')
      → Written g g'
  unfolding begin_attempt add_attempt
  begin_attempt-Written g actor now ids c row new g' h =
      let (has, _, h1) = >>=-eq-ok (v.geometry c.reviewed.design_json) _ h in
      let (_, h2) = >>-eq-ok (require has reviewed_design_required) h1 in
      let ((retry_of, supersedes), _, h3) = >>=-eq-ok (sources g c) _ h2 in
      let (idle, h4) =
        >>-eq-ok (require (is_none (active_generation_attempt g c.case_id)) conflict) h3 in
      let pending_row = new_attempt v g actor ids c retry_of supersedes in
      let (g₁, added, h5) = >>=-eq-ok (add_attempt g pending_row) _ h4 in
      let (allowed, rows) = add_attempt-rows g pending_row g₁ added in
      begun pending_row now
        (none_of (active_generation_attempt g c.case_id) (require-eq-ok conflict idle)) allowed refl
        (rw⁻¹ rows (ground arith))

  begin_new-Written :
      (g : GenerationStore) (actor : Actor) (now : ℕ) (ids : AttemptIds) (c : StartCommand)
      (row : GenerationAttemptRow) (new : Bool) (g' : GenerationStore)
      → begin_new v g actor now ids c ≡ ok (row, new, g')
      → Written g g'
  unfolding begin_new
  begin_new-Written g actor now ids c row new g' h =
      elim (Option-cases (
        if is_build c.mode
        then equivalent_generation_attempt g c.case_id c.input_digest
        else none)) [
          | inr (prior, known) ↦ let h1 = rw (known, begin_new) at h in kept (ground arith)
          | inl fresh ↦ elim (Bool-cases (c.schema_version == 1)) [
            | inl old ↦ elim (Option-cases (historical v g c)) [
              | inl missing ↦ let h1 = rw (fresh, begin_new, old, missing) at h in cc
              | inr (saved, known) ↦
                  let h1 = rw (fresh, begin_new, old, known) at h in kept (ground arith)
            ]
            | inr current ↦
                begin_attempt-Written g actor now ids c row new g'
                  (rw (fresh, begin_new, current) at h)
          ]
        ]

  begun_before-Written :
      (g : GenerationStore) (c : StartCommand) (existing row : GenerationAttemptRow) (new : Bool)
      (g' : GenerationStore)
      → begun_before v g c existing ≡ ok (row, new, g')
      → Written g g'
  unfolding begun_before
  begun_before-Written g c existing row new g' h =
      let (digest, _, h1) = >>=-eq-ok (expected_digest v c existing) _ h in
      let (_, h2) =
        >>-eq-ok (require (str_eq existing.command_payload_digest digest) idempotency_conflict)
          h1 in
      kept (ground arith)

  pub begin_generation-Written :
      (g : GenerationStore) (actor : Actor) (now : ℕ) (ids : AttemptIds) (case_id contract_id : ℕ)
      (key : String) (mode : Mode) (source design : Option ℕ) (row : GenerationAttemptRow)
      (new : Bool) (g' : GenerationStore)
      → begin_generation v g actor now ids case_id contract_id key mode source design
        ≡ ok (row, new, g')
      → Written g g'
  unfolding begin_generation
  begin_generation-Written g actor now ids case_id contract_id key mode source design row new g' h =
      let (pipeline, _, h1) = >>=-eq-ok (some_or v.bridge generation_failed) _ h in
      let ((payload, case_row, contract), _, h2) =
        >>=-eq-ok (current_payload v g actor case_id contract_id true) _ h1 in
      let (design_id, _, h3) = >>=-eq-ok (some_or design reviewed_design_required) _ h2 in
      let ((reviewed, version), _, h4) =
        >>=-eq-ok (eligible_design v g actor case_id contract_id design_id payload) _ h3 in
      elim (Option-cases (generation_attempt_by_command g actor case_id key)) [
        | inl fresh ↦ begin_new-Written g actor now ids _ row new g' (rw fresh at h4)
        | inr (existing, known) ↦ begun_before-Written g _ existing row new g' (rw known at h4)
      ]
