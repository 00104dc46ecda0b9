-- ===== src/Generation/Tests.antt =====
-- An attempt that is begun, and what it ends with.
use apbra.Prelude.{◌≡◌, ◌≤◌, ◌⊎◌, refl, true, false, none, some, [], ◌∷◌, ok, count}
use apbra.Store.ConversationRows.{InterpretationRow, ready_for_confirmation}
use apbra.Store.Rows.{Outcome}
use apbra.Store.Query.{
  case_access, is_visible_case, opens_case, company_is_active, member_is_active, identity_is_active,
  locked_case, is_case,
}
use apbra.Store.Write.{add_audit}
use apbra.Store.Samples.{sample, owner_actor, value_or}
use apbra.Store.Conversations.{latest_interpretation}
use apbra.Cases.Authorization.{authorized_case_access}
use apbra.Generation.Rows.{
  ConfirmedContractRow, ReviewedReportDesignRow, auto_eligible, failed, GenerationAttemptRow,
  GenerationStore,
}
use apbra.Generation.Query.{
  confirmed_contract_for_case, reviewed_design, generation_attempt_by_command,
  equivalent_generation_attempt, is_active_of, active_generation_attempt, generation_attempt,
  is_attempt_allowed,
}
use apbra.Generation.Eligible.{
  build, Pipeline, same_settings, current_payload, is_origin_eligible, eligible_design,
}
use apbra.Generation.Start.{add_attempt, begin_attempt, begin_new, begin_generation}
use apbra.Generation.Earlier.{sources}
use apbra.Generation.Finish.{Built, ArtifactObjects, Finishing, finish_generation}
use apbra.Generation.Access.{cancel}
use apbra.Generation.Active.{Generated, none_yet, begins, cancels, Generated-AtMostOne}
use apbra.Generation.Ends.{IsEnded}
use apbra.Generation.Ending.{finish_generation-ends}
use apbra.Generation.Rows.{running}
use apbra.Prelude.{◌≢◌}

abbrev ready : InterpretationRow
ready = record {
  id = 92;
  case_id = 20;
  company_id = 3;
  request_version_id = 30;
  settings_version_id = none;
  evidence_id = none;
  context_version = 1;
  session = record { rounds = [] };
  state = ready_for_confirmation;
  created_by_membership_id = 10;
}

abbrev confirmed : ConfirmedContractRow
confirmed = record {
  id = 100;
  case_id = 20;
  company_id = 3;
  interpretation_id = 92;
  settings_version_id = none;
  contract_json = "{}";
}

abbrev design : ReviewedReportDesignRow
design = record {
  id = 110;
  company_id = 3;
  case_id = 20;
  confirmed_contract_id = 100;
  interpretation_id = 92;
  request_version_id = 30;
  semantic_context_version = 1;
  binding_json = "binding";
  binding_digest = "binding";
  semantic_input_digest = "semantic";
  evidence_binding_digest = "evidence";
  design_json = "design";
  content_digest = "design";
  reviewer_membership_id = none;
  reviewer_identity_id = none;
  reviewer_role = none;
  origin = auto_eligible;
  design_attempt_id = some 1;
  eligibility_validation_json = some "PASS";
}

abbrev confirmed_store : GenerationStore
confirmed_store = record {
  base = record sample { interpretations = ready ∷ [] };
  confirmed_contracts = confirmed ∷ [];
  reviewed_designs = design ∷ [];
  generation_attempts = [];
  generated_artifacts = [];
}

abbrev pipeline : Pipeline
pipeline = record {
  bridge = some "pipeline";
  tenant_settings = none;
  is_same_material = λ g company version. ok true;
  contents = λ g row contract latest. ok (record {
    semantic_input_digest = "semantic";
    evidence_digest = "evidence";
    binding_digest = "binding";
  });
  sha256 = λ text. text;
  has_passed = λ json. true;
  schema_version = λ json. some 2;
  geometry = λ json. ok true;
  designed = λ contents row. "designed";
  input_digest = λ semantic reviewed executable. "input";
  command_digest = λ input mode source. "command";
}

abbrev objects : ArtifactObjects
objects = record {
  sha256 = λ text. text;
  size = λ text. 1;
  write = λ company case_id attempt content. ok ("key", content, 1);
  read_verified = λ key digest size. ok digest;
}

abbrev finishing : Finishing
finishing = record {
  actor = owner_actor;
  contract_id = 100;
  design_id = 110;
  artifact_id = 120;
  fence = 7;
}

abbrev no_attempt : GenerationAttemptRow
no_attempt = record {
  id = 0;
  case_id = 0;
  company_id = 0;
  confirmed_contract_id = 0;
  reviewed_design_id = none;
  interpretation_id = 0;
  request_version_id = 0;
  settings_version_id = none;
  created_by_membership_id = 0;
  command_key = "";
  command_payload_digest = "";
  input_digest = "";
  evidence_binding_digest = "";
  status = failed;
  attempt_number = 0;
  retry_of_attempt_id = none;
  supersedes_attempt_id = none;
  fence_token = 0;
  pipeline_executable_digest = none;
  is_validated = false;
  failure_code = none;
  artifact_id = none;
  started_at = none;
  completed_at = none;
  cancelled_at = none;
}

abbrev running_attempt : GenerationAttemptRow × GenerationStore
running_attempt =
    let (row, new, g) =
      value_or (no_attempt, false, confirmed_store)
        (begin_generation pipeline confirmed_store owner_actor 50
          (record { attempt_id = 130; fence_token = 7 }) 20 100 "key" build none (some 110)) in
    (row, g)

abbrev cancelled_run : GenerationAttemptRow × GenerationStore
cancelled_run =
    value_or (no_attempt, confirmed_store) (cancel running_attempt.1 owner_actor 60 20 130)

runs :
    (begin_generation pipeline confirmed_store owner_actor 50
        (record { attempt_id = 130; fence_token = 7 })
        20
        100
        "key"
        build
        none
        (some 110)
      ≡ ok (running_attempt.0, true, running_attempt.1))
    × (cancel running_attempt.1 owner_actor 60 20 130 ≡ ok cancelled_run)
    × (count (is_active_of 20) running_attempt.1.generation_attempts ≡ 1)
    × (generation_attempt running_attempt.1 running_attempt.0.case_id running_attempt.0.id
        ≡ some running_attempt.0)
unfolding begin_generation current_payload same_settings authorized_case_access case_access
    is_visible_case opens_case company_is_active member_is_active identity_is_active locked_case
    is_case confirmed_contract_for_case latest_interpretation eligible_design reviewed_design
    is_origin_eligible generation_attempt_by_command begin_new equivalent_generation_attempt
    begin_attempt sources active_generation_attempt add_attempt is_attempt_allowed
    generation_attempt cancel add_audit
runs = (refl, refl, refl, refl)

reached : Generated pipeline objects cancelled_run.1
reached =
    cancels owner_actor 60 20 130 cancelled_run.0
      (begins owner_actor 50 (record { attempt_id = 130; fence_token = 7 }) 20 100 "key" build none
        (some 110) running_attempt.0 true (none_yet {g = confirmed_store} refl) runs.0)
      runs.1

Generated-AtMostOne_example : count (is_active_of 20) cancelled_run.1.generation_attempts ≤ 1
Generated-AtMostOne_example = Generated-AtMostOne pipeline objects cancelled_run.1 20 reached

abbrev zip : Outcome Built
zip = ok (record {
  guide = none;
  guide_digest = none;
  content = ok "zip";
  filename = "Report.candidate.zip";
})

finish_generation-ends_example :
    (row : GenerationAttemptRow) × (g' : GenerationStore) × (finish_generation pipeline objects
        running_attempt.1 70 finishing running_attempt.0 zip
      ≡ ok (row, g'))
    × (generation_attempt g' running_attempt.0.case_id running_attempt.0.id ≡ some row)
    × (((running_attempt.0.status ≡ running)
          × (running_attempt.0.fence_token ≡ 7)
          × IsEnded running_attempt.1 running_attempt.0 g' row)
        ⊎ (((running_attempt.0.status ≢ running) ⊎ (running_attempt.0.fence_token ≢ 7))
            × (row ≡ running_attempt.0)
            × (g' ≡ running_attempt.1)))
finish_generation-ends_example =
    finish_generation-ends pipeline objects running_attempt.1 70 finishing running_attempt.0 zip
      running_attempt.0 runs.3
