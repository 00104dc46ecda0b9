-- ===== src/Generation/Finish.antt =====
-- `start` after the commit of the running attempt.
use apbra.Prelude.{
  ℕ, Bool, true, false, ◌&&◌, Option, none, some, String, str_eq, ◌==◌, ok, err, ◌>>=◌, ◌>>◌,
  require, some_or, if◌then◌else◌,
}
use apbra.Domain.{Actor, ApplicationError, generation_failed, artifact_unavailable}
use apbra.Store.Rows.{Outcome, of_artifact}
use apbra.Store.Write.{add_audit}
use apbra.Store.Query.{active_actor}
use apbra.Generation.Rows.{succeeded, failed, GenerationAttemptRow, GenerationStore}
use apbra.Generation.Query.{
  is_running, generation_attempt, new_artifact, add_generated_artifact, write_attempt,
}
use apbra.Generation.Eligible.{Pipeline, current_payload, eligible_design}
use apbra.Generation.Start.{audited}

-- What `bridge.generate` returns, and the archive that is made of its files, which may fail.
pub record Built : Type 0 where
  pub guide : Option String
  pub guide_digest : Option String
  pub content : Outcome String
  pub filename : String

-- The storage of artifacts, with the digest and the size of a content.
pub record ArtifactObjects : Type 0 where
  pub sha256 : String → String
  pub size : String → ℕ
  pub write : ℕ → ℕ → ℕ → String → Outcome (String × String × ℕ)
  pub read_verified : String → String → ℕ → Outcome String

abbrev pub is_guide_intact : ArtifactObjects → Built → Bool
is_guide_intact o built = elim built.guide [
  | none ↦ true
  | some guide ↦ elim built.guide_digest [
    | none ↦ false
    | some digest ↦ str_eq (o.sha256 guide) digest
  ]
]

abbrev pub stored_guide_digest : Built → Option String
stored_guide_digest built = elim built.guide [ none ↦ none | some guide ↦ built.guide_digest ]

abbrev pub is_owned : ℕ → GenerationAttemptRow → Bool
is_owned fence current = is_running current.status && current.fence_token == fence

abbrev pub with_success : ℕ → ℕ → GenerationAttemptRow → GenerationAttemptRow
with_success now artifact_id current = record current {
  artifact_id = some artifact_id;
  is_validated = true;
  status = succeeded;
  completed_at = some now;
}

abbrev pub failure_code : ApplicationError → String
failure_code generation_failed = "GENERATION_FAILED"
failure_code _ = "GENERATION_PIPELINE_FAILED"

abbrev pub with_failure : ℕ → ApplicationError → GenerationAttemptRow → GenerationAttemptRow
with_failure now error current = record current {
  status = failed;
  failure_code = some (failure_code error);
  completed_at = some now;
}

-- What the attempt is finished with: its owner, design and identifiers.
pub record Finishing : Type 0 where
  pub actor : Actor
  pub contract_id : ℕ
  pub design_id : ℕ
  pub artifact_id : ℕ
  pub fence : ℕ

module _ (v : Pipeline) (o : ArtifactObjects) where
  -- The artifact is written, read back and recorded.
  unfoldable pub record_artifact :
      GenerationStore
      → ℕ
      → Finishing
      → GenerationAttemptRow
      → Built
      → String
      → Outcome (GenerationAttemptRow × GenerationStore)
  record_artifact g now f current built content = do
    (storage_key, digest, size) ← o.write f.actor.company_id current.case_id current.id content
    require (str_eq (o.sha256 content) digest && size == o.size content) artifact_unavailable
    read ← o.read_verified storage_key digest size
    require (str_eq read content) artifact_unavailable
    g₁ ← add_generated_artifact g (
        new_artifact f.artifact_id current storage_key built.filename digest size
          (stored_guide_digest built))
    let done = with_success now f.artifact_id current
    let base =
        add_audit g.base f.actor "GENERATION_SUCCEEDED" "GENERATION_ATTEMPT" current.id
          (of_artifact f.artifact_id digest)
    ok (done, record (write_attempt g₁ done) { base = base })

  -- The inputs and the actor are validated again before the artifact is stored.
  unfoldable pub publish :
      GenerationStore
      → ℕ
      → Finishing
      → GenerationAttemptRow
      → Built
      → String
      → Outcome (GenerationAttemptRow × GenerationStore)
  publish g now f current built content = do
    active ←
        some_or (active_actor g.base f.actor.membership_id f.actor.identity_id) generation_failed
    require (active.company_id == f.actor.company_id) generation_failed
    (payload, row, contract) ← current_payload v g active current.case_id f.contract_id true
    (reviewed, version) ←
        eligible_design v g active current.case_id f.contract_id f.design_id payload
    record_artifact g now f current built content

  -- The body of `try`; `row` is the attempt that was committed as running.
  unfoldable pub finish_built :
      GenerationStore
      → ℕ
      → Finishing
      → GenerationAttemptRow
      → Outcome Built
      → Outcome (GenerationAttemptRow × GenerationStore)
  finish_built g now f row generated = do
    built ← generated
    require (is_guide_intact o built) generation_failed
    content ← built.content
    elim (generation_attempt g row.case_id row.id) [
      | none ↦ ok (row, g)
      | some current ↦
          if is_owned f.fence current
          then publish g now f current built content
          else ok (current, g)
    ]

  -- The handler of its exceptions, after the rollback.
  unfoldable pub finish_failed :
      GenerationStore
      → ℕ
      → Finishing
      → GenerationAttemptRow
      → ApplicationError
      → Outcome (GenerationAttemptRow × GenerationStore)
  finish_failed g now f row error = elim (generation_attempt g row.case_id row.id) [
    | none ↦ err error
    | some current ↦
        if is_owned f.fence current
        then (let done = with_failure now error current in
            ok (done, audited (write_attempt g done) f.actor "GENERATION_FAILED" current.id))
        else ok (current, g)
  ]

  unfoldable pub finish_generation :
      GenerationStore
      → ℕ
      → Finishing
      → GenerationAttemptRow
      → Outcome Built
      → Outcome (GenerationAttemptRow × GenerationStore)
  finish_generation g now f row generated = elim (finish_built g now f row generated) [
    | ok done ↦ ok done
    | err error ↦ finish_failed g now f row error
  ]
