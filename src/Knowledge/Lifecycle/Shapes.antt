-- ===== src/Knowledge/Lifecycle/Shapes.antt =====
-- The shape checks that run before any comparison. Of a UUID's integer they check the range.
use apbra.Prelude.{ℕ, ◌^◌, Option, none, some, ok, require, ◌>>◌, ltb, is_none, each}
use apbra.Domain.{Actor, can_invite}
use apbra.Knowledge.Lifecycle.Types.{
  ObservationKind, definitive_failure, FailureCode, admin_required, knowledge_scope_mismatch,
  knowledge_observation_invalid, Revision, Command, Observation, Operation, Journal, Verdict,
}

abbrev pub uuid_limit : ℕ
uuid_limit = 2 ^ 128

unfoldable pub uuid : ℕ → Verdict
uuid value = require (ltb value uuid_limit) knowledge_scope_mismatch

-- `_uuid(value, optional=True)`
abbrev pub optional_uuid : Option ℕ → Verdict
optional_uuid none = ok tt
optional_uuid (some value) = uuid value

unfoldable pub revision_shape : Revision → Verdict
revision_shape value = do
  uuid value.company_id
  uuid value.document_id
  uuid value.revision_id
  uuid value.owner_membership_id
  optional_uuid value.predecessor_revision_id

abbrev pub new_revision_shape : Option Revision → Verdict
new_revision_shape none = ok tt
new_revision_shape (some revision) = revision_shape revision

unfoldable pub command_shape : Command → Verdict
command_shape value = do
  uuid value.operation_id
  uuid value.company_id
  uuid value.document_id
  uuid value.target_revision_id
  optional_uuid value.expected_current_revision_id
  new_revision_shape value.new_revision

-- Only a definitive failure may carry a failure code.
abbrev pub failure_shape : ObservationKind → Option FailureCode → Verdict
failure_shape definitive_failure code = ok tt
failure_shape _ code = require (is_none code) knowledge_observation_invalid

unfoldable pub observation_shape : Observation → Verdict
observation_shape value = do
  uuid value.observation_id
  uuid value.company_id
  uuid value.document_id
  uuid value.revision_id
  uuid value.operation_id
  failure_shape value.kind value.failure_code

unfoldable pub actor_shape : Actor → Verdict
actor_shape actor = do
  uuid actor.identity_id
  uuid actor.membership_id
  uuid actor.company_id
  require (can_invite actor.role) admin_required

-- one round of the loop over `journal.operations` in `_validate_journal`
unfoldable pub operation_shape : Operation → Verdict
operation_shape operation = do
  command_shape operation.command
  uuid operation.initiator_identity_id
  uuid operation.initiator_membership_id
  each observation_shape operation.observation_history

-- the part of `_validate_journal` before the replay
unfoldable pub journal_shape : Journal → Verdict
journal_shape journal = do
  uuid journal.company_id
  uuid journal.document_id
  optional_uuid journal.current_revision_id
  optional_uuid journal.current_operation_id
  each revision_shape journal.revisions
  each operation_shape journal.operations
  each uuid journal.pending_removal_revision_ids
