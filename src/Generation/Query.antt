-- ===== src/Generation/Query.antt =====
-- The queries and writes of `ApplicationSession` for generation attempts and their artifacts.
use Prim.Native.String.{count}
use apbra.Prelude.{
  ℕ, Bool, true, false, not, ◌&&◌, ◌||◌, Option, none, some, List, [], ◌∷◌, ◌++◌, String, str_eq,
  ◌==◌, ltb, ok, ◌>>◌, require, any, filter, find, modify_first, if◌then◌else◌,
}
use apbra.Domain.{Actor, integrity_error}
use apbra.Store.Rows.{Outcome}
use apbra.Generation.Rows.{
  ConfirmedContractRow, ReviewedReportDesignRow, AttemptStatus, pending, running,
  GenerationAttemptRow, GeneratedArtifactRow, GenerationStore,
}

unfoldable pub confirmed_contract_for_case : GenerationStore → ℕ → ℕ → Option ConfirmedContractRow
confirmed_contract_for_case g case_id contract_id =
    find (λ row. row.case_id == case_id && row.id == contract_id) g.confirmed_contracts

unfoldable pub reviewed_design : GenerationStore → ℕ → ℕ → Option ReviewedReportDesignRow
reviewed_design g case_id design_id =
    find (λ row. row.case_id == case_id && row.id == design_id) g.reviewed_designs

abbrev pub is_generation_command : Actor → ℕ → String → GenerationAttemptRow → Bool
is_generation_command actor case_id key row =
    row.case_id == case_id
    && row.company_id == actor.company_id
    && row.created_by_membership_id == actor.membership_id
    && str_eq row.command_key key

unfoldable pub generation_attempt_by_command :
    GenerationStore → Actor → ℕ → String → Option GenerationAttemptRow
generation_attempt_by_command g actor case_id key =
    find (is_generation_command actor case_id key) g.generation_attempts

-- `status in {"PENDING", "RUNNING"}`
abbrev pub is_active : AttemptStatus → Bool
is_active pending = true
is_active running = true
is_active _ = false

abbrev pub is_running : AttemptStatus → Bool
is_running running = true
is_running _ = false

-- The row with the highest number, among those that pass.
abbrev pub highest_attempt :
    (GenerationAttemptRow → Bool) → List GenerationAttemptRow → Option GenerationAttemptRow
highest_attempt test [] = none
highest_attempt test (row ∷ rows) =
    let rest = highest_attempt test rows in
    if test row
    then elim rest [
      | none ↦ some row
      | some other ↦ if ltb row.attempt_number other.attempt_number then some other else some row
    ]
    else rest

unfoldable pub equivalent_generation_attempt :
    GenerationStore → ℕ → String → Option GenerationAttemptRow
equivalent_generation_attempt g case_id input_digest =
    highest_attempt (λ row. row.case_id == case_id && str_eq row.input_digest input_digest)
      g.generation_attempts

abbrev pub is_active_of : ℕ → GenerationAttemptRow → Bool
is_active_of case_id row = row.case_id == case_id && is_active row.status

unfoldable pub active_generation_attempt : GenerationStore → ℕ → Option GenerationAttemptRow
active_generation_attempt g case_id = highest_attempt (is_active_of case_id) g.generation_attempts

abbrev pub is_attempt_of : ℕ → GenerationAttemptRow → Bool
is_attempt_of case_id row = row.case_id == case_id

abbrev pub is_attempt : ℕ → ℕ → GenerationAttemptRow → Bool
is_attempt case_id attempt_id row = row.case_id == case_id && row.id == attempt_id

unfoldable pub generation_attempt : GenerationStore → ℕ → ℕ → Option GenerationAttemptRow
generation_attempt g case_id attempt_id = find (is_attempt case_id attempt_id) g.generation_attempts

-- A row before the first of those with a lower number.
abbrev pub insert_descending :
    GenerationAttemptRow → List GenerationAttemptRow → List GenerationAttemptRow
insert_descending row [] = row ∷ []
insert_descending row (other ∷ rows) =
    let rest = insert_descending row rows in
    if ltb row.attempt_number other.attempt_number then other ∷ rest else row ∷ other ∷ rows

abbrev pub descending : List GenerationAttemptRow → List GenerationAttemptRow
descending [] = []
descending (row ∷ rows) = insert_descending row (descending rows)

unfoldable pub generation_attempts : GenerationStore → ℕ → List GenerationAttemptRow
generation_attempts g case_id = descending (filter (is_attempt_of case_id) g.generation_attempts)

-- `coalesce(max(attempt_number), 0)` over the attempts of a case
abbrev pub max_attempt : ℕ → List GenerationAttemptRow → ℕ
max_attempt case_id [] = 0
max_attempt case_id (row ∷ rows) =
    let rest = max_attempt case_id rows in
    if row.case_id == case_id && ltb rest row.attempt_number then row.attempt_number else rest

-- The unique constraints of generation_attempts, with the length of `command_key`.
unfoldable pub is_attempt_allowed : GenerationStore → GenerationAttemptRow → Bool
is_attempt_allowed g row =
    not (any (λ old. old.id == row.id) g.generation_attempts)
    && not (
        any
          (λ old.
            old.company_id == row.company_id
            && old.created_by_membership_id == row.created_by_membership_id
            && old.case_id == row.case_id
            && str_eq old.command_key row.command_key)
          g.generation_attempts)
    && not (
        any (λ old. old.case_id == row.case_id && old.attempt_number == row.attempt_number)
          g.generation_attempts)
    && not (ltb 200 (count row.command_key))

unfoldable pub generated_artifact : GenerationStore → ℕ → Option GeneratedArtifactRow
generated_artifact g artifact_id = find (λ row. row.id == artifact_id) g.generated_artifacts

-- The constraints of generated_artifacts.
unfoldable pub is_artifact_allowed : GenerationStore → GeneratedArtifactRow → Bool
is_artifact_allowed g row =
    not (
      any
        (λ old.
          old.id == row.id
          || old.attempt_id == row.attempt_id
          || str_eq old.storage_key row.storage_key)
        g.generated_artifacts)
    && ltb 0 row.byte_size

abbrev pub new_artifact :
    ℕ → GenerationAttemptRow → String → String → String → ℕ → Option String → GeneratedArtifactRow
new_artifact id attempt storage_key filename content_digest byte_size guide_digest = record {
  id = id;
  attempt_id = attempt.id;
  case_id = attempt.case_id;
  company_id = attempt.company_id;
  settings_version_id = attempt.settings_version_id;
  storage_key = storage_key;
  filename = filename;
  content_digest = content_digest;
  guide_digest = guide_digest;
  byte_size = byte_size;
}

-- The artifact of an attempt; the caller writes the attempt with its `artifact_id`.
unfoldable pub add_generated_artifact :
    GenerationStore → GeneratedArtifactRow → Outcome GenerationStore
add_generated_artifact g row = do
  require (is_artifact_allowed g row) integrity_error
  ok (record g { generated_artifacts = g.generated_artifacts ++ row ∷ [] })

-- The attempt that a query returned, changed in place.
abbrev pub write_attempt : GenerationStore → GenerationAttemptRow → GenerationStore
write_attempt g row = record g {
  generation_attempts =
      modify_first (is_attempt row.case_id row.id) (λ old. row) g.generation_attempts;
}
