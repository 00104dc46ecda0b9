-- ===== src/Knowledge/Dispatch/Tests.antt =====
-- A dispatch that is prepared, claimed for a send, and completed, and the theorems at that run.
use apbra.Prelude.{
  ℕ, ◌≡◌, refl, Bool, true, false, some, none, Option, List, [], ◌∷◌, ok, err, String, str_eq,
  if◌then◌else◌,
}
use apbra.Store.Samples.{owner_actor, member_actor, value_or}
use apbra.Knowledge.Dispatch.Types.{
  ProviderResult, KnowledgeProvider, Submission, create, upload, DispatchStore, DraftContext,
  Payload, KnowledgeDispatchRow, KnowledgeDispatchCallRow, receipt_conflict, send,
}
use apbra.Knowledge.Dispatch.Summary.{
  calls, receipt, normalize, summary, history, Normalized, DispatchSummary,
}
use apbra.Knowledge.Dispatch.Service.{
  document, rows, current_settings, prepare, decode, dispatch_by_key,
}
use apbra.Knowledge.Dispatch.Claims.{
  claim, claim_new, claim_call, keys_of, may_send, complete, receipt_digest,
}
use apbra.Knowledge.Dispatch.Sends.{
  AtMostOneSend, DispatchReach, here, next, prepared, claimed, completed,
  DispatchReach-AtMostOneSend,
}
use apbra.Knowledge.Dispatch.Repeat.{claim-repeat}
use apbra.Knowledge.Dispatch.Receipts.{complete-repeat}

abbrev bytes_text : List ℕ → Option String
bytes_text bytes = some "text"

abbrev bytes_digest : List ℕ → String
bytes_digest bytes = "digest"

abbrev no_size : List String → ℕ
no_size keys = 2

abbrev payload_text : Payload → ℕ → ℕ → String
payload_text payload document_id membership_id = "payload"

abbrev outcome_text : Normalized → Option (List (String × Bool)) → String
outcome_text read none = "invalid"
outcome_text read (some results) = "received"

abbrev provider : KnowledgeProvider
provider = record { prepare = λ submission. some ("key" ∷ []) }

abbrev context : DraftContext
context = record { actor = owner_actor; session_id = 70; maximum_request_bytes = 100 }

abbrev colleague : DraftContext
colleague = record { actor = member_actor; session_id = 71; maximum_request_bytes = 100 }

abbrev drafted : DispatchStore
drafted = record {
  documents =
      record {
        id = 80;
        company_id = 3;
        current_revision_id = some 81;
        current_operation_id = some 82;
      }
      ∷ [];
  revisions =
      record {
        id = 81;
        document_id = 80;
        company_id = 3;
        predecessor_revision_id = none;
        creator_membership_id = 10;
        creator_identity_id = 1;
        title_original = [];
        source_version_original = [];
        text_original = [];
        text_sha256 = "digest";
        text_byte_count = 0;
      }
      ∷ [];
  commands =
      record {
        id = 82;
        company_id = 3;
        document_id = 80;
        command_key = 84;
        initiator_identity_id = 1;
        initiator_membership_id = 10;
        kind = create;
        target_revision_id = 81;
        expected_current_revision_id = none;
        payload_digest = "command";
        sequence = 1;
      }
      ∷ [];
  settings_current = record { company_id = 3; version_id = 90; version = 1 } ∷ [];
  settings_versions = record { id = 90; company_id = 3; version = 1 } ∷ [];
  dispatches = [];
  calls = [];
  receipts = [];
}

abbrev payload : Payload
payload = record {
  expected_current_revision_id = 81;
  expected_current_operation_id = 82;
  expected_settings_version = 1;
  retry_of = none;
}

abbrev dispatch : KnowledgeDispatchRow
dispatch = record {
  id = 100;
  company_id = 3;
  document_id = 80;
  command_id = 82;
  revision_id = 81;
  settings_id = 90;
  settings_version = 1;
  command_key = 83;
  initiator_identity_id = 1;
  initiator_membership_id = 10;
  action = upload;
  payload_digest = "payload";
  sequence = 1;
}

abbrev ready : DispatchStore
ready = record drafted { dispatches = dispatch ∷ [] }

abbrev call : KnowledgeDispatchCallRow
call = record {
  id = 110;
  company_id = 3;
  document_id = 80;
  dispatch_id = 100;
  sequence = 1;
  kind = send;
  manifest = "key" ∷ [];
}

abbrev sent : DispatchStore
sent = record ready { calls = call ∷ [] }

abbrev submission : Submission
submission = record {
  operation_id = 100;
  company_id = 3;
  document_id = 80;
  revision_id = 81;
  settings_id = 90;
  settings_version = 1;
  action = upload;
  title = "text";
  source_version = "text";
  text = "text";
}

abbrev result : ProviderResult
result = record { operation_id = 100; call_id = 110; results = ("key", true) ∷ [] }

abbrev done : DispatchStore
done = value_or sent (complete outcome_text sent 110 (some result) 120)

abbrev prepared_summary : DispatchSummary
prepared_summary = summary ready dispatch

prepare-drafted :
    prepare payload_text drafted context 80 83 payload 100 ≡ ok (prepared_summary, ready)
unfolding prepare document rows current_settings dispatch_by_key
prepare-drafted = refl

claim-ready :
    claim no_size bytes_text bytes_digest ready (some provider) context 80 100 false 110
    ≡ ok (some (submission, 110, "key" ∷ []), sent)
unfolding claim rows document claim_new claim_call keys_of may_send current_settings decode calls
    summary history
claim-ready = refl

complete-sent : complete outcome_text sent 110 (some result) 120 ≡ ok done
unfolding complete receipt normalize
complete-sent = refl

reached : DispatchReach drafted done
reached =
    next
      (next
        (next here (
          prepared payload_text drafted context 80 83 payload 100 prepared_summary ready
            prepare-drafted))
        (claimed no_size bytes_text bytes_digest ready (some provider) context 80 100 false 110
          (some (submission, 110, "key" ∷ [])) sent claim-ready))
      (completed outcome_text sent 110 (some result) 120 done complete-sent)

DispatchReach-AtMostOneSend_example : AtMostOneSend done
DispatchReach-AtMostOneSend_example = DispatchReach-AtMostOneSend drafted done refl reached

claim-repeat_example :
    claim no_size bytes_text bytes_digest sent (some provider) colleague 80 100 false 111
    ≡ ok (none, sent)
claim-repeat_example =
    claim-repeat no_size bytes_text bytes_digest ready (some provider) context 80 100 false 110
      (submission, 110, "key" ∷ []) sent provider colleague 111 claim-ready refl

complete-repeat_example : complete outcome_text done 110 none 121 ≡ (
    if str_eq
      (receipt_digest outcome_text dispatch call (some result))
      (receipt_digest outcome_text dispatch call none)
    then ok done
    else err receipt_conflict)
complete-repeat_example =
    complete-repeat outcome_text sent 110 (some result) 120 done call dispatch none 121 refl refl
      refl complete-sent
