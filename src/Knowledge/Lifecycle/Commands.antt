-- ===== src/Knowledge/Lifecycle/Commands.antt =====
-- `begin_operation` and `record_observation`, the two operations of a journal.
use apbra.Prelude.{
  Bool, true, false, not, ◌&&◌, ◌||◌, Option, none, some, List, [], ◌∷◌, ◌++◌, map, ok, err, ◌>>=◌,
  ◌>>◌, require, ◌==◌, opt_eq, str_eq, contains, if◌then◌else◌,
}
use apbra.Domain.{Actor}
use apbra.Knowledge.Lifecycle.Types.{
  not_sent, knowledge_scope_mismatch, knowledge_command_conflict, knowledge_observation_conflict,
  knowledge_observation_invalid, applied, replay, historical_only, Command, Observation, Operation,
  Journal, Result, Checked, command_eq, observation_eq,
}
use apbra.Knowledge.Lifecycle.Shapes.{actor_shape, command_shape, observation_shape}
use apbra.Knowledge.Lifecycle.Replay.{
  Position, position, action_preconditions, advance, observed_outcome, is_indexing,
  validate_journal,
}

-- the test by which an operation is a use of the command's key or identifier
abbrev pub reuses : Command → Operation → Bool
reuses command operation =
    str_eq operation.command.command_key command.command_key
    || operation.command.operation_id == command.operation_id

abbrev pub is_initiator : Actor → Operation → Bool
is_initiator actor operation =
    operation.initiator_identity_id == actor.identity_id
    && operation.initiator_membership_id == actor.membership_id

-- The loop over `journal.operations` in `begin_operation`: `true` is the return with REPLAY.
unfoldable pub find_replay : Actor → Command → List Operation → Checked Bool
find_replay actor command [] = ok false
find_replay actor command (operation ∷ operations) =
    let rest = find_replay actor command operations in
    do
      require
          (not (operation.initiator_membership_id == actor.membership_id)
            || operation.initiator_identity_id == actor.identity_id)
          knowledge_command_conflict
      if reuses command operation
          then (do
            require (command_eq operation.command command && is_initiator actor operation)
                knowledge_command_conflict
            ok true)
          else rest

-- `Operation(command, actor.identity_id, actor.membership_id)`
abbrev pub new_operation : Actor → Command → Operation
new_operation actor command = record {
  command = command;
  initiator_identity_id = actor.identity_id;
  initiator_membership_id = actor.membership_id;
  write_outcome = not_sent;
  observation_history = [];
}

abbrev pub extend : Journal → Position → Operation → Journal
extend journal p operation = record journal {
  revisions = p.revisions;
  operations = journal.operations ++ operation ∷ [];
  current_revision_id = p.current;
  current_operation_id = p.current_operation;
  pending_removal_revision_ids = p.tombstones;
}

unfoldable pub begin_operation : Journal → Actor → Command → Checked Result
begin_operation journal actor command = do
  validate_journal journal
  actor_shape actor
  command_shape command
  require
      (actor.company_id == journal.company_id
        && journal.company_id == command.company_id
        && command.document_id == journal.document_id)
      knowledge_scope_mismatch
  replayed ← find_replay actor command journal.operations
  if replayed then ok (record { journal = journal; disposition = replay }) else do
    action_preconditions command journal.revisions journal.current_revision_id actor.membership_id
    ok (record {
      journal = extend journal (advance command (position journal)) (new_operation actor command);
      disposition = applied;
    })

-- The inner loop of `record_observation`: whether this history holds the observation already.
unfoldable pub find_observation : Observation → List Observation → Checked Bool
find_observation observation [] = ok false
find_observation observation (old ∷ history) =
    let rest = find_observation observation history in
    if old.observation_id == observation.observation_id
    then require (observation_eq old observation) knowledge_observation_conflict >> ok true
    else rest

-- What the outer loop ends with: a return with REPLAY, or the last operation that is meant.
pub data Search : Type 0 where
  seen : Search
  target : Option Operation → Search

unfoldable pub find_target : Observation → Option Operation → List Operation → Checked Search
find_target observation found [] = ok (target found)
find_target observation found (operation ∷ operations) =
    let rest =
      find_target observation
        (if operation.command.operation_id == observation.operation_id
          then some operation
          else found)
        operations in
    find_observation observation operation.observation_history >>= λ already.
    if already then ok seen else rest

-- `replace(target, observation_history=target.observation_history + (observation,))`
abbrev pub observe : Observation → Operation → Operation
observe observation operation = record operation {
  observation_history = operation.observation_history ++ observation ∷ [];
}

-- `changed if operation is target else operation`: the operations of a valid journal are told
-- apart by their identifiers.
abbrev pub replace_operation : Operation → Operation → Operation
replace_operation changed operation =
    if operation.command.operation_id == changed.command.operation_id then changed else operation

abbrev pub is_historical : Observation → Journal → Bool
is_historical observation journal =
    not (opt_eq (some observation.operation_id) journal.current_operation_id)

abbrev retain : Journal → Observation → Search → Checked Result
retain journal observation seen = ok (record { journal = journal; disposition = replay })
retain journal observation (target none) = err knowledge_observation_invalid
retain journal observation (target (some operation)) = do
  require
      (not (is_indexing observation && not (is_historical observation journal))
        || not (contains observation.revision_id journal.pending_removal_revision_ids))
      knowledge_observation_invalid
  let changed = observe observation operation
  outcome ← observed_outcome changed
  ok (record {
    journal = record journal {
      operations =
          map (replace_operation (record changed { write_outcome = outcome })) journal.operations;
    };
    disposition = if is_historical observation journal then historical_only else applied;
  })

unfoldable pub record_observation : Journal → Observation → Checked Result
record_observation journal observation = do
  validate_journal journal
  observation_shape observation
  require
      (observation.company_id == journal.company_id
        && observation.document_id == journal.document_id)
      knowledge_scope_mismatch
  found ← find_target observation none journal.operations
  retain journal observation found
