-- ===== src/Generation/Earlier.antt =====
-- What `start` finds of earlier attempts.
use apbra.Prelude.{
  ℕ, Bool, true, false, ◌&&◌, Option, none, some, List, [], ◌∷◌, String, str_eq, ◌==◌, ok, err,
  ◌>>=◌, ◌>>◌, require, some_or, find, if◌then◌else◌,
}
use apbra.Domain.{conflict, idempotency_conflict}
use apbra.Store.Rows.{CaseRow, Outcome}
use apbra.Generation.Rows.{
  ConfirmedContractRow, ReviewedReportDesignRow, AttemptStatus, failed, cancelled,
  GenerationAttemptRow, GenerationStore,
}
use apbra.Generation.Query.{generation_attempt, generation_attempts}
use apbra.Generation.Eligible.{Mode, build, retry, regenerate, other_mode, Pipeline}

-- What a call asks for, with what it has read and computed.
pub record StartCommand : Type 0 where
  pub case_id : ℕ
  pub command_key : String
  pub mode : Mode
  pub source_attempt_id : Option ℕ
  pub reviewed : ReviewedReportDesignRow
  pub schema_version : ℕ
  pub row : CaseRow
  pub contract : ConfirmedContractRow
  pub evidence_digest : String
  pub semantic_input_digest : String
  pub pipeline_digest : String
  pub input_digest : String
  pub command_payload_digest : String

pub record AttemptIds : Type 0 where
  pub attempt_id : ℕ
  pub fence_token : ℕ

-- The digest of the input under the executable that an attempt was built with.
abbrev pub historical_input : Pipeline → StartCommand → String → String
historical_input v c pipeline = v.input_digest c.semantic_input_digest c.reviewed.id pipeline

abbrev pub expected_digest : Pipeline → StartCommand → GenerationAttemptRow → Outcome String
expected_digest v c existing =
    if c.schema_version == 1
    then (do
      pipeline ← some_or existing.pipeline_executable_digest idempotency_conflict
      ok (v.command_digest (historical_input v c pipeline) c.mode c.source_attempt_id))
    else ok c.command_payload_digest

-- The branch of a command that is known.
unfoldable pub begun_before :
    Pipeline
    → GenerationStore
    → StartCommand
    → GenerationAttemptRow
    → Outcome (GenerationAttemptRow × Bool × GenerationStore)
begun_before v g c existing = do
  digest ← expected_digest v c existing
  require (str_eq existing.command_payload_digest digest) idempotency_conflict
  ok (existing, false, g)

abbrev pub is_build : Mode → Bool
is_build build = true
is_build _ = false

abbrev pub is_former_input : Pipeline → StartCommand → GenerationAttemptRow → Bool
is_former_input v c saved = elim saved.pipeline_executable_digest [
  | none ↦ false
  | some pipeline ↦ str_eq saved.input_digest (historical_input v c pipeline)
]

-- The attempt that answers a build of a design of the first schema.
abbrev pub historical : Pipeline → GenerationStore → StartCommand → Option GenerationAttemptRow
historical v g c =
    if is_build c.mode then find (is_former_input v c) (generation_attempts g c.case_id) else none

abbrev pub may_retry : AttemptStatus → Bool
may_retry failed = true
may_retry cancelled = true
may_retry _ = false

abbrev pub named_attempt : GenerationStore → ℕ → Option ℕ → Option GenerationAttemptRow
named_attempt g case_id none = none
named_attempt g case_id (some id) = generation_attempt g case_id id

abbrev pub first {ℓ} : {A : Type ℓ} → List A → Option A
first [] = none
first (x ∷ xs) = some x

abbrev pub id_of : Option GenerationAttemptRow → Option ℕ
id_of none = none
id_of (some row) = some row.id

-- `retry_of` and `supersedes`
unfoldable pub sources : GenerationStore → StartCommand → Outcome (Option ℕ × Option ℕ)
sources g c = elim c.mode [
  | build ↦ ok (none, none)
  | retry ↦ do
    source ← some_or (named_attempt g c.case_id c.source_attempt_id) conflict
    require (str_eq source.input_digest c.input_digest && may_retry source.status) conflict
    ok (some source.id, none)
  | regenerate ↦ elim c.source_attempt_id [
    | none ↦ ok (none, id_of (first (generation_attempts g c.case_id)))
    | some id ↦ do
      source ← some_or (generation_attempt g c.case_id id) conflict
      ok (none, some source.id)
  ]
  | other_mode ↦ err conflict
]
