-- ===== src/Generation/Start.antt =====
-- `start` up to the commit of the running attempt.
use apbra.Prelude.{
  ℕ, ◌+◌, Bool, true, false, Option, none, some, [], ◌∷◌, ◌++◌, String, ◌==◌, is_none, ok, err,
  ◌>>=◌, ◌>>◌, require, some_or, if◌then◌else◌,
}
use apbra.Domain.{
  Actor, conflict, integrity_error, generation_failed, reviewed_design_required,
  ai_authored_geometry_required,
}
use apbra.Store.Rows.{Outcome, no_details}
use apbra.Store.Write.{add_audit}
use apbra.Generation.Rows.{pending, running, GenerationAttemptRow, GenerationStore}
use apbra.Generation.Query.{
  generation_attempt_by_command, equivalent_generation_attempt, active_generation_attempt,
  max_attempt, is_attempt_allowed, write_attempt,
}
use apbra.Generation.Eligible.{Mode, Pipeline, current_payload, eligible_design}
use apbra.Generation.Earlier.{StartCommand, AttemptIds, begun_before, is_build, historical, sources}

abbrev pub new_attempt :
    Pipeline
    → GenerationStore
    → Actor
    → AttemptIds
    → StartCommand
    → Option ℕ
    → Option ℕ
    → GenerationAttemptRow
new_attempt v g actor ids c retry_of supersedes = record {
  id = ids.attempt_id;
  case_id = c.case_id;
  company_id = actor.company_id;
  confirmed_contract_id = c.contract.id;
  reviewed_design_id = some c.reviewed.id;
  interpretation_id = c.contract.interpretation_id;
  request_version_id = c.row.current_request_version_id;
  settings_version_id = v.tenant_settings;
  created_by_membership_id = actor.membership_id;
  command_key = c.command_key;
  command_payload_digest = c.command_payload_digest;
  input_digest = c.input_digest;
  evidence_binding_digest = c.evidence_digest;
  status = pending;
  attempt_number = max_attempt c.case_id g.generation_attempts + 1;
  retry_of_attempt_id = retry_of;
  supersedes_attempt_id = supersedes;
  fence_token = ids.fence_token;
  pipeline_executable_digest = some c.pipeline_digest;
  is_validated = false;
  failure_code = none;
  artifact_id = none;
  started_at = none;
  completed_at = none;
  cancelled_at = none;
}

-- The insert of `create_generation_attempt`.
unfoldable pub add_attempt : GenerationStore → GenerationAttemptRow → Outcome GenerationStore
add_attempt g row = do
  require (is_attempt_allowed g row) integrity_error
  ok (record g { generation_attempts = g.generation_attempts ++ row ∷ [] })

abbrev pub started : ℕ → GenerationAttemptRow → GenerationAttemptRow
started now row = record row { status = running; started_at = some now }

abbrev pub audited : GenerationStore → Actor → String → ℕ → GenerationStore
audited g actor event id = record g {
  base = add_audit g.base actor event "GENERATION_ATTEMPT" id no_details;
}

unfoldable pub begin_attempt :
    Pipeline
    → GenerationStore
    → Actor
    → ℕ
    → AttemptIds
    → StartCommand
    → Outcome (GenerationAttemptRow × Bool × GenerationStore)
begin_attempt v g actor now ids c = do
  has_geometry ← v.geometry c.reviewed.design_json
  require has_geometry reviewed_design_required
  (retry_of, supersedes) ← sources g c
  require (is_none (active_generation_attempt g c.case_id)) conflict
  let row = new_attempt v g actor ids c retry_of supersedes
  g₁ ← add_attempt g row
  ok (
    started now row,
    true,
    audited (write_attempt g₁ (started now row)) actor "GENERATION_STARTED" row.id,
  )

-- The branch of a command that is new.
unfoldable pub begin_new :
    Pipeline
    → GenerationStore
    → Actor
    → ℕ
    → AttemptIds
    → StartCommand
    → Outcome (GenerationAttemptRow × Bool × GenerationStore)
begin_new v g actor now ids c =
    elim (if is_build c.mode
      then equivalent_generation_attempt g c.case_id c.input_digest
      else none) [
        | some prior ↦ ok (prior, false, g)
        | none ↦
            if c.schema_version == 1
            then (elim (historical v g c) [
              | some saved ↦ ok (saved, false, g)
              | none ↦ err ai_authored_geometry_required
            ])
            else begin_attempt v g actor now ids c
      ]

-- An attempt that answers the call, or one that is running and new, where the flag is true.
unfoldable pub begin_generation :
    Pipeline
    → GenerationStore
    → Actor
    → ℕ
    → AttemptIds
    → ℕ
    → ℕ
    → String
    → Mode
    → Option ℕ
    → Option ℕ
    → Outcome (GenerationAttemptRow × Bool × GenerationStore)
begin_generation v g actor now ids case_id contract_id command_key mode source_attempt_id
      reviewed_design_id =
    do
      pipeline ← some_or v.bridge generation_failed
      (payload, row, contract) ← current_payload v g actor case_id contract_id true
      design_id ← some_or reviewed_design_id reviewed_design_required
      (reviewed, version) ← eligible_design v g actor case_id contract_id design_id payload
      let semantic = v.designed payload.contents reviewed
      let input = v.input_digest semantic reviewed.id pipeline
      let c : StartCommand = record {
        case_id = case_id;
        command_key = command_key;
        mode = mode;
        source_attempt_id = source_attempt_id;
        reviewed = reviewed;
        schema_version = version;
        row = row;
        contract = contract;
        evidence_digest = payload.contents.evidence_digest;
        semantic_input_digest = semantic;
        pipeline_digest = pipeline;
        input_digest = input;
        command_payload_digest = v.command_digest input mode source_attempt_id;
      }
      elim (generation_attempt_by_command g actor case_id command_key) [
        | some existing ↦ begun_before v g c existing
        | none ↦ begin_new v g actor now ids c
      ]
