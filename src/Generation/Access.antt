-- ===== src/Generation/Access.antt =====
-- `history`, `get`, `cancel` and `artifact` of `GenerationService`.
use apbra.Prelude.{
  ℕ, Bool, true, false, ◌&&◌, some, List, String, ◌==◌, ok, err, ◌>>=◌, ◌>>◌, require, some_or,
  if◌then◌else◌,
}
use apbra.Domain.{Actor, generation_unavailable, artifact_unavailable}
use apbra.Store.Rows.{Outcome}
use apbra.Cases.Authorization.{authorized_case_access}
use apbra.Generation.Rows.{
  AttemptStatus, succeeded, cancelled, GenerationAttemptRow, GeneratedArtifactRow, GenerationStore,
}
use apbra.Generation.Query.{
  is_active, generation_attempt, generation_attempts, generated_artifact, write_attempt,
}
use apbra.Generation.Start.{audited}
use apbra.Generation.Finish.{ArtifactObjects}

unfoldable pub attempt_history : GenerationStore → Actor → ℕ → Outcome (List GenerationAttemptRow)
attempt_history g actor case_id = do
  (row, access) ← authorized_case_access g.base actor case_id false
  ok (generation_attempts g case_id)

unfoldable pub get_attempt : GenerationStore → Actor → ℕ → ℕ → Outcome GenerationAttemptRow
get_attempt g actor case_id attempt_id = do
  (row, access) ← authorized_case_access g.base actor case_id false
  some_or (generation_attempt g case_id attempt_id) generation_unavailable

abbrev pub with_cancellation : ℕ → GenerationAttemptRow → GenerationAttemptRow
with_cancellation now row = record row {
  status = cancelled;
  cancelled_at = some now;
  completed_at = some now;
}

abbrev pub cancelled_attempt :
    GenerationStore → Actor → ℕ → GenerationAttemptRow → GenerationAttemptRow × GenerationStore
cancelled_attempt g actor now row =
    if is_active row.status
    then (
      with_cancellation now row,
      audited (write_attempt g (with_cancellation now row)) actor "GENERATION_CANCELLED" row.id,
    )
    else (row, g)

unfoldable pub cancel :
    GenerationStore → Actor → ℕ → ℕ → ℕ → Outcome (GenerationAttemptRow × GenerationStore)
cancel g actor now case_id attempt_id = do
  (case_row, access) ← authorized_case_access g.base actor case_id true
  row ← some_or (generation_attempt g case_id attempt_id) generation_unavailable
  ok (cancelled_attempt g actor now row)

abbrev pub is_succeeded : AttemptStatus → Bool
is_succeeded succeeded = true
is_succeeded _ = false

abbrev pub is_artifact_of : GeneratedArtifactRow → GenerationAttemptRow → Bool
is_artifact_of artifact row =
    artifact.attempt_id == row.id
    && artifact.case_id == row.case_id
    && artifact.company_id == row.company_id

abbrev pub or_unavailable : Outcome String → Outcome String
or_unavailable (ok content) = ok content
or_unavailable (err e) = err artifact_unavailable

unfoldable pub artifact :
    ArtifactObjects → GenerationStore → Actor → ℕ → ℕ → Outcome (String × String × String)
artifact o g actor case_id attempt_id = do
  (case_row, access) ← authorized_case_access g.base actor case_id false
  row ← some_or (generation_attempt g case_id attempt_id) artifact_unavailable
  require (is_succeeded row.status) artifact_unavailable
  id ← some_or row.artifact_id artifact_unavailable
  found ← some_or (generated_artifact g id) artifact_unavailable
  require (is_artifact_of found row) artifact_unavailable
  content ← or_unavailable (o.read_verified found.storage_key found.content_digest found.byte_size)
  ok (content, found.filename, found.content_digest)
