-- ===== src/Knowledge/Documents/Tests.antt =====
-- A document that is created and then revised.
use apbra.Prelude.{ℕ, ◌≡◌, refl, true, some, none, Option, [], ok, String, find}
use apbra.Domain.{Actor}
use apbra.Store.Samples.{owner_actor, value_or}
use apbra.Knowledge.Lifecycle.{
  uuid, applied, replay, begin_operation, validate_journal, replay_operations, replay_operation,
  find_replay, journal_shape, actor_shape, command_shape, operation_shape, revision_shape,
  action_preconditions, revision_preconditions, advance, add_observations, observed_outcome,
  outcome_from, admission, position_eq, revision_eq, Journal, Result,
}
use apbra.Knowledge.Dispatch.Types.{
  KnowledgeDocumentRow, Kind, create, revision, not_sent, DispatchStore, Dispatched,
}
use apbra.Knowledge.Dispatch.Service.{document, decode, revision_outcome, command_outcome}
use apbra.Knowledge.Documents.Journal.{
  revision_of, new_revision_of, command_of_row, operations_of, journal, command_rows, revision_rows,
}
use apbra.Knowledge.Documents.Drafts.{
  DraftPayload, Drawn, Applied, is_key, blank_document, with_current, command_row,
}
use apbra.Knowledge.Documents.Apply.{
  command_from, revision_row, document_before, existing_document, written, document_context,
  apply_new, apply,
}
use apbra.Knowledge.Documents.Codes.{codes, codes-IsFaithful}
use apbra.Knowledge.Documents.Refines.{apply-journal}
use apbra.Knowledge.Documents.Repeat.{apply-repeat}

abbrev digest : Kind → Option ℕ → DraftPayload → Actor → String
digest kind document_id payload actor = payload.text

abbrev no_rows : DispatchStore
no_rows = record {
  documents = [];
  revisions = [];
  commands = [];
  settings_current = [];
  settings_versions = [];
  dispatches = [];
  calls = [];
  receipts = [];
}

abbrev first_draft : DraftPayload
first_draft = record {
  title = "Rates";
  source_version = "1";
  text = "ten";
  expected_current_revision_id = none;
}

abbrev second_draft : DraftPayload
second_draft = record {
  title = "Rates";
  source_version = "2";
  text = "six";
  expected_current_revision_id = some 6;
}

abbrev first_ids : Drawn
first_ids = record { document_id = 5; revision_id = 6; operation_id = 7 }

abbrev second_ids : Drawn
second_ids = record { document_id = 15; revision_id = 16; operation_id = 17 }

abbrev first_call : Dispatched (Applied × DispatchStore)
first_call = apply codes digest no_rows owner_actor create 8 none first_ids first_draft

abbrev no_result : Applied × DispatchStore
no_result = (
  record {
    disposition = applied;
    command = command_row owner_actor (blank_document 3 5) create 8 "" 7 6 first_draft 0;
    outcome = not_sent;
    document = record {
      document = blank_document 3 5;
      current = revision_row codes owner_actor (blank_document 3 5) 6 first_draft;
      title = "";
      source_version = "";
      revision_write_outcome = not_sent;
      is_archived = true;
      command_write_outcome = not_sent;
    };
  },
  no_rows,
)

abbrev created : DispatchStore
created = (value_or no_result first_call).1

abbrev second_call : Dispatched (Applied × DispatchStore)
second_call = apply codes digest created owner_actor revision 18 (some 5) second_ids second_draft

abbrev revised : Applied × DispatchStore
revised = value_or no_result second_call

apply_codes :
    (find (is_key owner_actor 18) created.commands ≡ none)
    × (command_rows created (blank_document 3 15) ≡ [])
    × (second_call ≡ ok revised)
unfolding uuid find_replay begin_operation validate_journal replay_operations replay_operation
    journal_shape actor_shape command_shape operation_shape revision_shape action_preconditions
    revision_preconditions advance add_observations observed_outcome outcome_from admission
    position_eq revision_eq document decode revision_outcome command_outcome revision_of
    new_revision_of command_of_row operations_of journal command_rows revision_rows document_before
    existing_document written document_context apply_new apply
apply_codes = (refl, refl, refl)

apply-journal_example :
    (row : KnowledgeDocumentRow) × (before : Journal) × (new_id : ℕ) × (result : Result)
    × (document_before codes created owner_actor revision (some 5) 15 ≡ ok (row, before))
    × (begin_operation before owner_actor
          (command_from codes owner_actor row revision 18 "six" 17 new_id second_draft)
        ≡ ok result)
    × (document revised.1 owner_actor row.id ≡ ok (with_current result.journal row))
    × (journal codes revised.1 (with_current result.journal row) ≡ ok result.journal)
    × (validate_journal result.journal ≡ ok tt)
apply-journal_example =
    apply-journal codes codes-IsFaithful digest created revised.1 owner_actor revision 18 (some 5)
      second_ids second_draft revised.0 apply_codes.0 apply_codes.1 apply_codes.2

apply-repeat_example :
    apply codes digest revised.1 owner_actor create 18 none first_ids second_draft
    ≡ ok (record revised.0 { disposition = replay }, revised.1)
apply-repeat_example =
    apply-repeat codes codes-IsFaithful digest created revised.1 owner_actor revision create 18
      (some 5) none second_ids first_ids second_draft second_draft revised.0 apply_codes.0
      apply_codes.1 apply_codes.2
