-- ===== src/Generation/Ending.antt =====
-- How `start` leaves an attempt that it has committed as running.
use apbra.Prelude.{
  ℕ, ◌≡◌, refl, sym, subst, true, false, some, String, arith, ok, require, some_or, str_eq, ◌==◌,
  ◌&&◌, >>=-eq-ok, >>-eq-ok, Bool-cases, Fallible-cases, inl, inr, ◌⊎◌, ◌≢◌,
}
use apbra.Domain.{generation_failed, artifact_unavailable}
use apbra.Store.Rows.{Outcome}
use apbra.Store.Query.{active_actor}
use apbra.Generation.Query.{
  generation_attempt, add_generated_artifact, write_attempt, generated_artifact, new_artifact,
}
use apbra.Generation.Eligible.{Pipeline, current_payload, eligible_design}
use apbra.Generation.Start.{audited}
use apbra.Generation.Finish.{
  Built, ArtifactObjects, is_guide_intact, is_owned, with_success, with_failure, Finishing,
  record_artifact, publish, finish_built, finish_failed, finish_generation,
}
use apbra.Generation.Rows.{running, succeeded, GenerationAttemptRow, GenerationStore}
use apbra.Generation.Finish.{stored_guide_digest}
use apbra.Generation.FinishWritten.{add_artifact-attempts}
use apbra.Generation.Ends.{
  written-found, HasArtifact, IsEnded, owned-parts, other-parts, add_artifact-found,
}

module _ (v : Pipeline) (o : ArtifactObjects) where
  record_artifact-ends :
      (g : GenerationStore) (now : ℕ) (f : Finishing) (case_id id : ℕ)
      (current : GenerationAttemptRow) (built : Built) (content : String)
      (row : GenerationAttemptRow) (g' : GenerationStore)
      → generation_attempt g case_id id ≡ some current
      → record_artifact v o g now f current built content ≡ ok (row, g')
      → (generation_attempt g' case_id id ≡ some row)
        × (row.status ≡ succeeded)
        × HasArtifact g' row
  unfolding record_artifact generated_artifact
  record_artifact-ends g now f case_id id current built content row g' found h =
      let ((storage_key, digest, size), _, h1) =
        >>=-eq-ok (o.write f.actor.company_id current.case_id current.id content) _ h in
      let (_, h2) =
        >>-eq-ok
          (require (str_eq (o.sha256 content) digest && size == o.size content)
            artifact_unavailable)
          h1 in
      let (read, _, h3) = >>=-eq-ok (o.read_verified storage_key digest size) _ h2 in
      let (_, h4) = >>-eq-ok (require (str_eq read content) artifact_unavailable) h3 in
      let artifact =
        new_artifact f.artifact_id current storage_key built.filename digest size
          (stored_guide_digest built) in
      let (g₁, added, h5) = >>=-eq-ok (add_generated_artifact g artifact) _ h4 in
      let rows = add_artifact-attempts g artifact g₁ added in
      let stored : g'.generated_artifacts ≡ g₁.generated_artifacts = ground arith in
      let done : with_success now f.artifact_id current ≡ row = ground arith in
      (
        subst (λ r. generation_attempt g' case_id id ≡ some r) done
            (written-found g g' case_id id current (with_success now f.artifact_id current) found
              refl refl (rw⁻¹ rows (ground arith))),
        subst (λ r. r.status ≡ succeeded) done refl,
        subst (HasArtifact g') done
            (artifact, refl, rw stored (add_artifact-found g artifact g₁ added), refl),
      )

  finish_built-ends :
      (g : GenerationStore) (now : ℕ) (f : Finishing) (old : GenerationAttemptRow)
      (generated : Outcome Built) (current row : GenerationAttemptRow) (g' : GenerationStore)
      → generation_attempt g old.case_id old.id ≡ some current
      → is_owned f.fence current ≡ true
      → finish_built v o g now f old generated ≡ ok (row, g')
      → (generation_attempt g' old.case_id old.id ≡ some row)
        × (row.status ≡ succeeded)
        × HasArtifact g' row
  unfolding finish_built publish
  finish_built-ends g now f old generated current row g' found owned h =
      let (built, _, h1) = >>=-eq-ok generated _ h in
      let (_, h2) = >>-eq-ok (require (is_guide_intact o built) generation_failed) h1 in
      let (content, _, h3) = >>=-eq-ok built.content _ h2 in
      let published : publish v o g now f current built content ≡ ok (row, g') =
        rw (found, owned) at h3 in
      let (actor, _, h4) =
        >>=-eq-ok
          (some_or (active_actor g.base f.actor.membership_id f.actor.identity_id)
            generation_failed)
          _ published in
      let (_, h5) =
        >>-eq-ok (require (actor.company_id == f.actor.company_id) generation_failed) h4 in
      let (_, _, h6) =
        >>=-eq-ok (current_payload v g actor current.case_id f.contract_id true) _ h5 in
      let (_, _, h7) =
        >>=-eq-ok (eligible_design v g actor current.case_id f.contract_id f.design_id _) _ h6 in
      record_artifact-ends g now f old.case_id old.id current built content row g' found h7

  finish_built-other :
      (g : GenerationStore) (now : ℕ) (f : Finishing) (old : GenerationAttemptRow)
      (generated : Outcome Built) (current row : GenerationAttemptRow) (g' : GenerationStore)
      → generation_attempt g old.case_id old.id ≡ some current
      → is_owned f.fence current ≡ false
      → finish_built v o g now f old generated ≡ ok (row, g')
      → (row ≡ current) × (g' ≡ g)
  unfolding finish_built
  finish_built-other g now f old generated current row g' found other h =
      let (built, _, h1) = >>=-eq-ok generated _ h in
      let (_, h2) = >>-eq-ok (require (is_guide_intact o built) generation_failed) h1 in
      let (content, _, h3) = >>=-eq-ok built.content _ h2 in
      let h4 = rw (found, other) at h3 in (ground arith, ground arith)

  -- For an attempt that is found when the call that began it comes to its end: whatever the pipeline, the
  -- storage and the repeated checks return or raise, the call returns a row, which is the one stored
  -- for the attempt afterwards. If the attempt was still running under the call's fence, it has either
  -- succeeded, with an artifact of its own that is stored, or failed, with no artifact added. If not,
  -- it is returned as it was found and nothing changes. Writing the failure is taken to succeed.
  pub finish_generation-ends :
      (g : GenerationStore) (now : ℕ) (f : Finishing) (old : GenerationAttemptRow)
      (generated : Outcome Built) (current : GenerationAttemptRow)
      → generation_attempt g old.case_id old.id ≡ some current
      → (row : GenerationAttemptRow) × (g' : GenerationStore) × (finish_generation v o g now f old
            generated
          ≡ ok (row, g'))
        × (generation_attempt g' old.case_id old.id ≡ some row)
        × (((current.status ≡ running) × (current.fence_token ≡ f.fence) × IsEnded g current g' row)
            ⊎ (((current.status ≢ running) ⊎ (current.fence_token ≢ f.fence))
                × (row ≡ current)
                × (g' ≡ g)))
  unfolding finish_generation finish_failed
  finish_generation-ends g now f old generated current found =
      elim (Fallible-cases (finish_built v o g now f old generated)) [
        | inl ((row, g'), done) ↦ elim (Bool-cases (is_owned f.fence current)) [
          | inl owned ↦
              let (stored, over, has) =
                finish_built-ends g now f old generated current row g' found owned done in
              let (runs, its) = owned-parts f.fence current owned in
              (row, g', rw (done, finish_generation) refl, stored, inl (runs, its, inl (over, has)))
          | inr other ↦
              let (same, kept) =
                finish_built-other g now f old generated current row g' found other done in
              let stored =
                subst (λ r. generation_attempt g' old.case_id old.id ≡ some r) (sym same)
                  (subst (λ t. generation_attempt t old.case_id old.id ≡ some current) (sym kept)
                    found) in
              (
                row,
                g',
                rw (done, finish_generation) refl,
                stored,
                inr (other-parts f.fence current other, same, kept),
              )
        ]
        | inr (error, raised) ↦ elim (Bool-cases (is_owned f.fence current)) [
          | inl owned ↦
              let row = with_failure now error current in
              let g' = audited (write_attempt g row) f.actor "GENERATION_FAILED" current.id in
              let (runs, its) = owned-parts f.fence current owned in
              (
                row,
                g',
                rw (raised, finish_generation, found, finish_failed, owned) refl,
                written-found g g' old.case_id old.id current row found refl refl refl,
                inl (runs, its, inr (refl, refl, refl)),
              )
          | inr other ↦ (
            current,
            g,
            rw (raised, finish_generation, found, finish_failed, other) refl,
            found,
            inr (other-parts f.fence current other, refl, refl),
          )
        ]
      ]
