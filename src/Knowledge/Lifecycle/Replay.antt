-- ===== src/Knowledge/Lifecycle/Replay.antt =====
-- `_action_preconditions`, `_observed_outcome`, and the replay by which `_validate_journal` checks
-- that the journal is what its operations make of an empty one.
use apbra.Prelude.{
  ℕ, Bool, true, false, not, ◌&&◌, Option, none, some, List, [], ◌∷◌, ◌++◌, String, ok, err, ◌>>=◌,
  ◌>>◌, require, ◌==◌, opt_eq, is_none, is_some, is_empty, any, each, contains, contains_text,
  lookup, if◌then◌else◌,
}
use apbra.Knowledge.Lifecycle.Types.{
  Action, upload, delete, WriteOutcome, not_sent, acknowledged, unknown, definitively_failed,
  ObservationKind, write_acknowledged, write_outcome_unknown, definitive_failure, indexing_observed,
  knowledge_scope_mismatch, knowledge_revision_conflict, knowledge_command_conflict,
  knowledge_observation_conflict, knowledge_observation_invalid, Revision, Command, Observation,
  Operation, Journal, Checked, Verdict, outcome_eq, revision_eq,
}
use apbra.Knowledge.Lifecycle.Shapes.{journal_shape}

-- What the commands so far have made of the document.
pub record Position : Type 0 where
  pub revisions : List Revision
  pub current : Option ℕ
  pub current_operation : Option ℕ
  pub tombstones : List ℕ

abbrev pub position : Journal → Position
position journal = record {
  revisions = journal.revisions;
  current = journal.current_revision_id;
  current_operation = journal.current_operation_id;
  tombstones = journal.pending_removal_revision_ids;
}

-- a == b == c on tuples
abbrev pub revisions_eq : List Revision → List Revision → Bool
revisions_eq [] [] = true
revisions_eq [] (s ∷ ss) = false
revisions_eq (r ∷ rs) [] = false
revisions_eq (r ∷ rs) (s ∷ ss) = revision_eq r s && revisions_eq rs ss

abbrev pub ids_eq : List ℕ → List ℕ → Bool
ids_eq [] [] = true
ids_eq [] (y ∷ ys) = false
ids_eq (x ∷ xs) [] = false
ids_eq (x ∷ xs) (y ∷ ys) = x == y && ids_eq xs ys

unfoldable pub position_eq : Position → Position → Bool
position_eq p q =
    revisions_eq p.revisions q.revisions
    && opt_eq p.current q.current
    && opt_eq p.current_operation q.current_operation
    && ids_eq p.tombstones q.tombstones

abbrev pub is_delete : Action → Bool
is_delete delete = true
is_delete _ = false

abbrev pub is_upload : Action → Bool
is_upload upload = true
is_upload _ = false

-- the part of `_action_preconditions` for a command that brings a revision
unfoldable pub revision_preconditions : Command → Revision → List Revision → Option ℕ → ℕ → Verdict
revision_preconditions command revision revisions current owner = do
  require (revision.company_id == command.company_id && revision.document_id == command.document_id)
      knowledge_scope_mismatch
  require
      (revision.owner_membership_id == owner
        && revision.revision_id == command.target_revision_id
        && opt_eq revision.predecessor_revision_id current)
      knowledge_revision_conflict
  require (not (any (λ old. old.revision_id == revision.revision_id) revisions))
      knowledge_revision_conflict
  if is_upload command.action
      then require (is_none current && is_empty revisions) knowledge_revision_conflict
      else require (is_some current) knowledge_revision_conflict

abbrev pub with_revision : Command → Option Revision → List Revision → Option ℕ → ℕ → Verdict
with_revision command none revisions current owner = err knowledge_revision_conflict
with_revision command (some revision) revisions current owner =
    revision_preconditions command revision revisions current owner

unfoldable pub action_preconditions : Command → List Revision → Option ℕ → ℕ → Verdict
unfolding revision_preconditions
action_preconditions command revisions current owner = do
  require (opt_eq command.expected_current_revision_id current) knowledge_revision_conflict
  if is_delete command.action
      then require
          (is_none command.new_revision
            && any (λ revision. revision.revision_id == command.target_revision_id) revisions)
          knowledge_revision_conflict
      else with_revision command command.new_revision revisions current owner

-- the effect of a command on the document, in `_validate_journal` and in `begin_operation`
abbrev pub bring : Command → Position → Option Revision → Position
bring command p (some revision) = record p {
  revisions = p.revisions ++ revision ∷ [];
  current = some command.target_revision_id;
  current_operation = some command.operation_id;
}
bring command p none = record p {
  tombstones =
      if contains command.target_revision_id p.tombstones
      then p.tombstones
      else p.tombstones ++ command.target_revision_id ∷ [];
  current_operation =
      if opt_eq (some command.target_revision_id) p.current
      then some command.operation_id
      else p.current_operation;
}

unfoldable pub advance : Command → Position → Position
advance command p = bring command p command.new_revision

-- The outcome after one more observation: only assertions about the write change it.
abbrev pub next_outcome : ObservationKind → WriteOutcome → WriteOutcome
next_outcome write_acknowledged outcome = acknowledged
next_outcome write_outcome_unknown outcome = unknown
next_outcome definitive_failure outcome = definitively_failed
next_outcome _ outcome = outcome

abbrev pub is_about : Command → Observation → Bool
is_about command observation =
    observation.company_id == command.company_id
    && observation.document_id == command.document_id
    && observation.operation_id == command.operation_id
    && observation.revision_id == command.target_revision_id

unfoldable pub outcome_from : Command → WriteOutcome → List Observation → Checked WriteOutcome
outcome_from command outcome [] = ok outcome
outcome_from command outcome (observation ∷ history) =
    require (is_about command observation) knowledge_observation_invalid
    >> outcome_from command (next_outcome observation.kind outcome) history

unfoldable pub observed_outcome : Operation → Checked WriteOutcome
unfolding outcome_from
observed_outcome operation = outcome_from operation.command not_sent operation.observation_history

-- The local variables of the loop in `_validate_journal`.
pub record Progress : Type 0 where
  pub at : Position
  pub operation_ids : List ℕ
  pub command_keys : List String
  pub observation_ids : List ℕ
  pub membership_identities : List (ℕ × ℕ)

abbrev pub beginning : Progress
beginning = record {
  at = record { revisions = []; current = none; current_operation = none; tombstones = [] };
  operation_ids = [];
  command_keys = [];
  observation_ids = [];
  membership_identities = [];
}

-- the inner loop over `operation.observation_history`
unfoldable pub add_observations : List ℕ → List Observation → Checked (List ℕ)
add_observations seen [] = ok seen
add_observations seen (observation ∷ history) =
    require (not (contains observation.observation_id seen)) knowledge_observation_conflict
    >> add_observations (observation.observation_id ∷ seen) history

abbrev pub agrees : Option ℕ → ℕ → Bool
agrees none identity = true
agrees (some known) identity = known == identity

unfoldable pub replay_operation : ℕ → ℕ → Progress → Operation → Checked Progress
replay_operation company document s operation = do
  let command = operation.command
  require
      (agrees (lookup operation.initiator_membership_id s.membership_identities)
        operation.initiator_identity_id)
      knowledge_command_conflict
  require (command.company_id == company && command.document_id == document)
      knowledge_scope_mismatch
  require
      (not (contains command.operation_id s.operation_ids)
        && not (contains_text command.command_key s.command_keys))
      knowledge_command_conflict
  action_preconditions command s.at.revisions s.at.current operation.initiator_membership_id
  observation_ids ← add_observations s.observation_ids operation.observation_history
  outcome ← observed_outcome operation
  require (outcome_eq operation.write_outcome outcome) knowledge_observation_invalid
  ok (record {
    at = advance command s.at;
    operation_ids = command.operation_id ∷ s.operation_ids;
    command_keys = command.command_key ∷ s.command_keys;
    observation_ids = observation_ids;
    membership_identities =
        (operation.initiator_membership_id, operation.initiator_identity_id)
        ∷ s.membership_identities;
  })

unfoldable pub replay_operations : ℕ → ℕ → Progress → List Operation → Checked Progress
replay_operations company document s [] = ok s
replay_operations company document s (operation ∷ operations) =
    replay_operation company document s operation >>= λ s'.
    replay_operations company document s' operations

abbrev pub is_indexing : Observation → Bool
is_indexing observation = elim observation.kind [ indexing_observed ↦ true | _ ↦ false ]

-- one round of the last loop of `_validate_journal`
unfoldable pub not_indexed : Option ℕ → Operation → Verdict
not_indexed current_operation operation =
    if opt_eq (some operation.command.operation_id) current_operation
    then require (not (any is_indexing operation.observation_history)) knowledge_observation_invalid
    else ok tt

abbrev pub contains_opt : Option ℕ → List ℕ → Bool
contains_opt none xs = false
contains_opt (some x) xs = contains x xs

unfoldable pub admission : Position → List Operation → Verdict
admission p operations =
    if contains_opt p.current p.tombstones
    then each (not_indexed p.current_operation) operations
    else ok tt

unfoldable pub validate_journal : Journal → Verdict
validate_journal journal = do
  journal_shape journal
  s ← replay_operations journal.company_id journal.document_id beginning journal.operations
  require (position_eq (position journal) s.at) knowledge_revision_conflict
  admission s.at journal.operations
