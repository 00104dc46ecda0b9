-- ===== src/Generation/Ends.antt =====
-- What an attempt that has ended looks like in the store.
use apbra.Prelude.{
  ℕ, ◌≡◌, refl, subst, true, false, some, arith, ok, str_eq, ◌==◌, find-passes, modify_first,
  Bool-cases, inl, inr, ◌⊎◌, find-modify_first, ◌≢◌, ◌||◌, ==_iff, ==_refl, and_true, any, find,
  find-append, [], ◌∷◌, ◌++◌, List, none,
}
use apbra.Generation.Query.{
  is_attempt, generation_attempt, add_generated_artifact, generated_artifact, is_artifact_allowed,
  is_running,
}
use apbra.Generation.Finish.{is_owned}
use apbra.Generation.Rows.{
  AttemptStatus, pending, running, succeeded, failed, cancelled, GenerationAttemptRow,
  GeneratedArtifactRow, GenerationStore,
}
use apbra.Generation.Written.{found_by_its_ids}

-- The attempt that a call writes is the one that is found from then on.
pub written-found :
    (g g' : GenerationStore) (case_id id : ℕ) (current done : GenerationAttemptRow)
    → generation_attempt g case_id id ≡ some current
    → done.case_id ≡ current.case_id
    → done.id ≡ current.id
    → g'.generation_attempts
      ≡ modify_first (is_attempt current.case_id current.id) (λ old. done) g.generation_attempts
    → generation_attempt g' case_id id ≡ some done
unfolding generation_attempt
written-found g g' case_id id current done found same_case same_id rows =
    let passes = find-passes (is_attempt case_id id) g.generation_attempts current found in
    let its : is_attempt case_id id done ≡ true = ground (arith, passes, same_case, same_id) in
    rw rows (
      find-modify_first (is_attempt case_id id) (is_attempt current.case_id current.id)
        (λ old. done) g.generation_attempts current found
        (found_by_its_ids g case_id id current found) its)

-- The attempt names an artifact that is stored and that is its own.
abbrev pub HasArtifact : GenerationStore → GenerationAttemptRow → Type 0
HasArtifact g row =
    (artifact : GeneratedArtifactRow) × (row.artifact_id ≡ some artifact.id)
    × (generated_artifact g artifact.id ≡ some artifact)
    × (artifact.attempt_id ≡ row.id)

-- How an attempt that a call owned has ended.
abbrev pub IsEnded :
    GenerationStore → GenerationAttemptRow → GenerationStore → GenerationAttemptRow → Type 0
IsEnded g current g' row =
    ((row.status ≡ succeeded) × HasArtifact g' row)
    ⊎ ((row.status ≡ failed)
        × (row.artifact_id ≡ current.artifact_id)
        × (g'.generated_artifacts ≡ g.generated_artifacts))

is_running-same : (status : AttemptStatus) → is_running status ≡ true → status ≡ running
is_running-same pending h = cc
is_running-same running h = refl
is_running-same succeeded h = cc
is_running-same failed h = cc
is_running-same cancelled h = cc

pub owned-parts :
    (fence : ℕ) (row : GenerationAttemptRow)
    → is_owned fence row ≡ true
    → (row.status ≡ running) × (row.fence_token ≡ fence)
owned-parts fence row h =
    let (runs, its) = and_true h in
    (is_running-same row.status runs, (==_iff row.fence_token fence).0 its)

is_running-other : (status : AttemptStatus) → is_running status ≡ false → status ≢ running
is_running-other status over e = cc (subst (λ s. is_running s ≡ false) e over)

pub other-parts :
    (fence : ℕ) (row : GenerationAttemptRow)
    → is_owned fence row ≡ false
    → (row.status ≢ running) ⊎ (row.fence_token ≢ fence)
other-parts fence row h = elim (Bool-cases (is_running row.status)) [
  | inr over ↦ inl (is_running-other row.status over)
  | inl runs ↦ inr (λ e.
      let same : (row.fence_token == fence) ≡ true = (==_iff row.fence_token fence).1 e in
      cc (rw (runs, same) at h))
]

fresh-artifact :
    (row : GeneratedArtifactRow) (rows : List GeneratedArtifactRow)
    → any
        (λ old.
          old.id == row.id
          || old.attempt_id == row.attempt_id
          || str_eq old.storage_key row.storage_key)
        rows
      ≡ false
    → find (λ old. old.id == row.id) rows ≡ none
fresh-artifact row [] h = refl
fresh-artifact row (old ∷ rows) h = ground (arith, fresh-artifact row rows)

pub add_artifact-found :
    (g : GenerationStore) (row : GeneratedArtifactRow) (g' : GenerationStore)
    → add_generated_artifact g row ≡ ok g'
    → generated_artifact g' row.id ≡ some row
unfolding add_generated_artifact is_artifact_allowed generated_artifact
add_artifact-found g row g' h =
    let rows : g'.generated_artifacts ≡ g.generated_artifacts ++ row ∷ [] = ground arith in
    let fresh : any
          (λ old.
            old.id == row.id
            || old.attempt_id == row.attempt_id
            || str_eq old.storage_key row.storage_key)
          g.generated_artifacts
        ≡ false =
      ground arith in
    rw
      (
        rows,
        find-append (λ old. old.id == row.id) g.generated_artifacts (row ∷ [])
            (fresh-artifact row g.generated_artifacts fresh),
        ==_refl row.id,
      )
      refl
