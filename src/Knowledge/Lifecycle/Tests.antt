-- ===== src/Knowledge/Lifecycle/Tests.antt =====
-- Runs of the journal on concrete commands, and the theorems at inputs that meet their hypotheses.
use apbra.Prelude.{◌≡◌, refl, none, some, [], ◌∷◌, ok, err, All, map}
use apbra.Domain.{Actor, company_owner, member}
use apbra.Knowledge.Lifecycle.Types.{
  Command, upload, delete, Observation, write_acknowledged, Revision, Result, applied, replay,
  Journal, empty_journal, acknowledged, not_sent, admin_required, Operation, revision_eq,
}
use apbra.Knowledge.Lifecycle.Replay.{
  position, validate_journal, replay_operations, replay_operation, action_preconditions,
  add_observations, observed_outcome, advance, position_eq, admission, not_indexed,
}
use apbra.Knowledge.Lifecycle.Shapes.{
  journal_shape, uuid, revision_shape, command_shape, observation_shape, actor_shape,
  operation_shape,
}
use apbra.Knowledge.Lifecycle.Commands.{
  begin_operation, record_observation, new_operation, find_replay, find_observation, find_target,
}
use apbra.Knowledge.Lifecycle.Begin.{begin_operation-valid}
use apbra.Knowledge.Lifecycle.Observe.{record_observation-valid}
use apbra.Knowledge.Lifecycle.History.{
  begin_operation-replay, record_observation-keeps, validate_journal-outcomes, last_write,
  outcome_or,
}

abbrev admin : Actor
admin = record {
  identity_id = 1;
  membership_id = 2;
  company_id = 3;
  issuer = "issuer";
  subject = "subject";
  display_name = "Admin";
  role = company_owner;
  provider_profile_id = "local-test";
}

abbrev first_revision : Revision
first_revision = record {
  company_id = 3;
  document_id = 4;
  revision_id = 5;
  source_version = "v1";
  owner_membership_id = 2;
  predecessor_revision_id = none;
}

abbrev first_upload : Command
first_upload = record {
  operation_id = 6;
  command_key = "key-1";
  action = upload;
  company_id = 3;
  document_id = 4;
  target_revision_id = 5;
  expected_current_revision_id = none;
  body_fingerprint = "f1";
  new_revision = some first_revision;
}

abbrev removal : Command
removal = record {
  operation_id = 7;
  command_key = "key-2";
  action = delete;
  company_id = 3;
  document_id = 4;
  target_revision_id = 5;
  expected_current_revision_id = some 5;
  body_fingerprint = "f2";
  new_revision = none;
}

abbrev acknowledgement : Observation
acknowledgement = record {
  observation_id = 8;
  company_id = 3;
  document_id = 4;
  revision_id = 5;
  operation_id = 6;
  kind = write_acknowledged;
  failure_code = none;
}

abbrev start : Journal
start = empty_journal 3 4

abbrev uploaded : Journal
uploaded = record start {
  revisions = first_revision ∷ [];
  operations = new_operation admin first_upload ∷ [];
  current_revision_id = some 5;
  current_operation_id = some 6;
}

abbrev confirmed : Journal
confirmed = record uploaded {
  operations =
      record (new_operation admin first_upload) {
        write_outcome = acknowledged;
        observation_history = acknowledgement ∷ [];
      }
      ∷ [];
}

abbrev upload_result : Result
upload_result = record { journal = uploaded; disposition = applied }

abbrev confirm_result : Result
confirm_result = record { journal = confirmed; disposition = applied }

begin-upload : begin_operation start admin first_upload ≡ ok upload_result
unfolding begin_operation record_observation validate_journal journal_shape uuid revision_shape
    command_shape observation_shape actor_shape operation_shape replay_operations replay_operation
    action_preconditions add_observations observed_outcome advance position_eq revision_eq admission
    not_indexed find_replay find_observation find_target
begin-upload = refl

record-acknowledgement : record_observation uploaded acknowledgement ≡ ok confirm_result
unfolding begin_operation record_observation validate_journal journal_shape uuid revision_shape
    command_shape observation_shape actor_shape operation_shape replay_operations replay_operation
    action_preconditions add_observations observed_outcome advance position_eq revision_eq admission
    not_indexed find_replay find_observation find_target
record-acknowledgement = refl

-- A member who is no administrator is refused.
begin-member :
    begin_operation start (record admin { role = member }) first_upload ≡ err admin_required
unfolding begin_operation record_observation validate_journal journal_shape uuid revision_shape
    command_shape observation_shape actor_shape operation_shape replay_operations replay_operation
    action_preconditions add_observations observed_outcome advance position_eq revision_eq admission
    not_indexed find_replay find_observation find_target
begin-member = refl

begin_operation-valid_example : validate_journal uploaded ≡ ok tt
begin_operation-valid_example =
    begin_operation-valid start admin first_upload upload_result begin-upload

record_observation-valid_example : validate_journal confirmed ≡ ok tt
record_observation-valid_example =
    record_observation-valid uploaded acknowledgement confirm_result record-acknowledgement

begin_operation-replay_example :
    begin_operation uploaded admin first_upload
    ≡ ok (record { journal = uploaded; disposition = replay })
begin_operation-replay_example =
    begin_operation-replay start admin first_upload upload_result begin-upload

record_observation-keeps_example :
    (position confirmed ≡ position uploaded)
    × (map Operation.command confirmed.operations ≡ map Operation.command uploaded.operations)
record_observation-keeps_example =
    record_observation-keeps uploaded acknowledgement confirm_result record-acknowledgement

validate_journal-outcomes_example :
    All
      (λ x. x.write_outcome ≡ outcome_or not_sent (last_write x.observation_history))
      confirmed.operations
validate_journal-outcomes_example =
    validate_journal-outcomes confirmed
      (record_observation-valid uploaded acknowledgement confirm_result record-acknowledgement)
