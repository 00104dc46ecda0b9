-- ===== src/Generation/FinishWritten.antt =====
-- How `finish_generation` and `cancel` change the table of attempts.
use apbra.Prelude.{
  ℕ, ◌≡◌, refl, true, some, String, arith, ok, require, some_or, str_eq, ◌==◌, ◌&&◌, >>=-eq-ok,
  >>-eq-ok, Option-cases, Bool-cases, Fallible-cases, ◌∙◌, inl, inr, and_true,
}
use apbra.Domain.{
  Actor, ApplicationError, generation_failed, generation_unavailable, artifact_unavailable,
}
use apbra.Store.Rows.{Outcome}
use apbra.Store.Query.{active_actor}
use apbra.Cases.Authorization.{authorized_case_access}
use apbra.Generation.Rows.{
  AttemptStatus, pending, running, succeeded, failed, cancelled, GenerationAttemptRow,
  GeneratedArtifactRow, GenerationStore,
}
use apbra.Generation.Query.{is_active, is_running, generation_attempt, add_generated_artifact}
use apbra.Generation.Eligible.{Pipeline, current_payload, eligible_design}
use apbra.Generation.Finish.{
  Built, ArtifactObjects, is_guide_intact, is_owned, with_success, with_failure, Finishing,
  record_artifact, publish, finish_built, finish_failed, finish_generation,
}
use apbra.Generation.Access.{with_cancellation, cancel}
use apbra.Generation.Written.{Written, kept, ended, found_by_its_ids}

pub add_artifact-attempts :
    (g : GenerationStore) (row : GeneratedArtifactRow) (g' : GenerationStore)
    → add_generated_artifact g row ≡ ok g'
    → g'.generation_attempts ≡ g.generation_attempts
unfolding add_generated_artifact
add_artifact-attempts g row g' h = ground arith

owned-active :
    (fence : ℕ) (row : GenerationAttemptRow)
    → is_owned fence row ≡ true
    → is_active row.status ≡ true
owned-active fence row h = is_running-active row.status (and_true h).0
  where
    is_running-active :
        (status : AttemptStatus) → is_running status ≡ true → is_active status ≡ true
    is_running-active pending e = refl
    is_running-active running e = refl
    is_running-active succeeded e = cc
    is_running-active failed e = cc
    is_running-active cancelled e = cc

module _ (v : Pipeline) where
  module _ (o : ArtifactObjects) where
    record_artifact-Written :
        (g : GenerationStore) (now : ℕ) (f : Finishing) (current : GenerationAttemptRow)
        (built : Built) (content : String) (row : GenerationAttemptRow) (g' : GenerationStore)
        → generation_attempt g current.case_id current.id ≡ some current
        → is_active current.status ≡ true
        → record_artifact v o g now f current built content ≡ ok (row, g')
        → Written g g'
    unfolding record_artifact
    record_artifact-Written g now f current built content row g' found active h =
        let ((storage_key, digest, size), _, h1) =
          >>=-eq-ok (o.write f.actor.company_id current.case_id current.id content) _ h in
        let (_, h2) =
          >>-eq-ok
            (require (str_eq (o.sha256 content) digest && size == o.size content)
              artifact_unavailable)
            h1 in
        let (read, _, h3) = >>=-eq-ok (o.read_verified storage_key digest size) _ h2 in
        let (_, h4) = >>-eq-ok (require (str_eq read content) artifact_unavailable) h3 in
        let (g₁, added, h5) = >>=-eq-ok (add_generated_artifact g _) _ h4 in
        let rows = add_artifact-attempts g _ g₁ added in
        ended current (with_success now f.artifact_id current) found active refl
          (rw⁻¹ rows (ground arith))

    publish-Written :
        (g : GenerationStore) (now : ℕ) (f : Finishing) (current : GenerationAttemptRow)
        (built : Built) (content : String) (row : GenerationAttemptRow) (g' : GenerationStore)
        → generation_attempt g current.case_id current.id ≡ some current
        → is_active current.status ≡ true
        → publish v o g now f current built content ≡ ok (row, g')
        → Written g g'
    unfolding publish
    publish-Written g now f current built content row g' found active h =
        let (actor, _, h1) =
          >>=-eq-ok
            (some_or (active_actor g.base f.actor.membership_id f.actor.identity_id)
              generation_failed)
            _ h in
        let (_, h2) =
          >>-eq-ok (require (actor.company_id == f.actor.company_id) generation_failed) h1 in
        let (_, _, h3) =
          >>=-eq-ok (current_payload v g actor current.case_id f.contract_id true) _ h2 in
        let (_, _, h4) =
          >>=-eq-ok (eligible_design v g actor current.case_id f.contract_id f.design_id _) _ h3 in
        record_artifact-Written g now f current built content row g' found active h4

    finish_built-Written :
        (g : GenerationStore) (now : ℕ) (f : Finishing) (old : GenerationAttemptRow)
        (generated : Outcome Built) (row : GenerationAttemptRow) (g' : GenerationStore)
        → finish_built v o g now f old generated ≡ ok (row, g')
        → Written g g'
    unfolding finish_built
    finish_built-Written g now f old generated row g' h =
        let (built, _, h1) = >>=-eq-ok generated _ h in
        let (_, h2) = >>-eq-ok (require (is_guide_intact o built) generation_failed) h1 in
        let (content, _, h3) = >>=-eq-ok built.content _ h2 in
        elim (Option-cases (generation_attempt g old.case_id old.id)) [
          | inl gone ↦ let h4 = rw gone at h3 in kept (ground arith)
          | inr (current, found) ↦ elim (Bool-cases (is_owned f.fence current)) [
            | inl owned ↦
                publish-Written g now f current built content row g'
                  (found_by_its_ids g old.case_id old.id current found)
                  (owned-active f.fence current owned) (rw (found, owned) at h3)
            | inr other ↦ let h4 = rw (found, other) at h3 in kept (ground arith)
          ]
        ]

    finish_failed-Written :
        (g : GenerationStore) (now : ℕ) (f : Finishing) (old : GenerationAttemptRow)
        (error : ApplicationError) (row : GenerationAttemptRow) (g' : GenerationStore)
        → finish_failed v o g now f old error ≡ ok (row, g')
        → Written g g'
    unfolding finish_failed
    finish_failed-Written g now f old error row g' h =
        elim (Option-cases (generation_attempt g old.case_id old.id)) [
          | inl gone ↦ let h1 = rw (gone, finish_failed) at h in cc
          | inr (current, found) ↦ elim (Bool-cases (is_owned f.fence current)) [
            | inl owned ↦
                let h1 = rw (found, finish_failed, owned) at h in
                ended current (with_failure now error current)
                  (found_by_its_ids g old.case_id old.id current found)
                  (owned-active f.fence current owned) refl (ground arith)
            | inr other ↦ let h1 = rw (found, finish_failed, other) at h in kept (ground arith)
          ]
        ]

    pub finish_generation-Written :
        (g : GenerationStore) (now : ℕ) (f : Finishing) (old : GenerationAttemptRow)
        (generated : Outcome Built) (row : GenerationAttemptRow) (g' : GenerationStore)
        → finish_generation v o g now f old generated ≡ ok (row, g')
        → Written g g'
    unfolding finish_generation
    finish_generation-Written g now f old generated row g' h =
        elim (Fallible-cases (finish_built v o g now f old generated)) [
          | inl ((r, t), done) ↦
              finish_built-Written g now f old generated row g'
                (done ∙ rw (done, finish_generation) at h)
          | inr (error, raised) ↦
              finish_failed-Written g now f old error row g' (rw (raised, finish_generation) at h)
        ]

pub cancel-Written :
    (g : GenerationStore) (actor : Actor) (now case_id attempt_id : ℕ) (row : GenerationAttemptRow)
    (g' : GenerationStore)
    → cancel g actor now case_id attempt_id ≡ ok (row, g')
    → Written g g'
unfolding cancel
cancel-Written g actor now case_id attempt_id row g' h =
    let (_, _, h1) = >>=-eq-ok (authorized_case_access g.base actor case_id true) _ h in
    let (current, found, h2) =
      >>=-eq-ok (some_or (generation_attempt g case_id attempt_id) generation_unavailable) _ h1 in
    let its : generation_attempt g case_id attempt_id ≡ some current = ground arith in
    elim (Bool-cases (is_active current.status)) [
      | inl active ↦
          let h3 = rw active at h2 in
          ended current (with_cancellation now current)
            (found_by_its_ids g case_id attempt_id current its) active refl (ground arith)
      | inr over ↦ let h3 = rw over at h2 in kept (ground arith)
    ]
