-- ===== src/Conversation/Recorded.antt =====
-- What a successful call of `append_event` records.
use Prim.Native.String.{count}
use apbra.Prelude.{
  ℕ, ◌+◌, ◌≡◌, refl, subst, ◌∙◌, Option, none, some, String, str_eq, eq_iff, arith, ok, true,
  require, some_or, not, ltb, ◌==◌, ==_refl, find-append, find-append-some, find-modify_first,
  find-passes, modify_first, ◌++◌, ◌∷◌, [], >>=-eq-ok, >>-eq-ok, require-eq-ok,
}
use apbra.Domain.{
  Actor, assertion_error, integrity_error, stale_version, conflict, idempotency_conflict,
}
use apbra.Store.ConversationRows.{
  EventKind, ConversationEventRow, ExactAnswer, EventPayload, client_payload, answer, exact_answer,
  alternative, enhancement_text, cycle_number_payload,
}
use apbra.Store.Rows.{CaseRow, Store, no_details}
use apbra.Store.Query.{locked_case, is_case}
use apbra.Store.Write.{add_audit}
use apbra.Store.Conversations.{
  append_conversation_event, is_event_allowed, new_event, conversation_event_by_command,
  is_event_command, advance_semantic_context, advanced_context,
}
use apbra.Conversation.Events.{
  Sent, sent_kind, payload_of, add_alternative, decision_kind, Appended, EventIds, appended_before,
  add_decision, stored_payload, append_new,
}

-- What the rows of the store have after the call.
pub record IsRecorded (s' : Store) (actor : Actor) (case_id : ℕ) (key sum : String)
    (done : Appended) : Type 0 where
  pub current : CaseRow
  pub locked : locked_case s' case_id ≡ some current
  pub version : current.semantic_context_version ≡ done.semantic_context_version
  pub recorded : conversation_event_by_command s' case_id actor.membership_id key ≡ some done.event
  pub digest : done.event.payload_digest ≡ sum

finished-Recorded :
    (s : Store) (actor : Actor) (now case_id : ℕ) (key sum : String) (row : CaseRow)
    (new : ConversationEventRow) (u : Store) (done : Appended) (s' : Store)
    → locked_case s case_id ≡ some row
    → u.cases ≡ s.cases
    → conversation_event_by_command u case_id actor.membership_id key ≡ some new
    → new.payload_digest ≡ sum
    → done.event ≡ new
    → done.semantic_context_version ≡ row.semantic_context_version + 1
    → s'
      ≡ add_audit
          (advance_semantic_context u now case_id)
          actor
          "CONVERSATION_EVENT_ADDED"
          "REPORTING_CASE"
          case_id
          no_details
    → IsRecorded s' actor case_id key sum done
unfolding advance_semantic_context add_audit locked_case conversation_event_by_command is_case
finished-Recorded s actor now case_id key sum row new u done s' found same there its event version
      end =
    let cases : s'.cases ≡ modify_first (is_case case_id) (advanced_context now) u.cases =
      ground arith in
    record {
      current = advanced_context now row;
      locked =
          rw (cases, same)
            (find-modify_first (is_case case_id) (is_case case_id) (advanced_context now) s.cases
              row found found (find-passes (is_case case_id) s.cases row found));
      version = ground arith;
      recorded = ground arith;
      digest = ground arith;
    }

pub known-Recorded :
    (s : Store) (actor : Actor) (case_id : ℕ) (key sum : String) (known : ConversationEventRow)
    (done : Appended) (s' : Store)
    → conversation_event_by_command s case_id actor.membership_id key ≡ some known
    → appended_before s case_id known sum ≡ ok (done, s')
    → IsRecorded s' actor case_id key sum done
unfolding appended_before
known-Recorded s actor case_id key sum known done s' found h =
    let (agree, h1) = >>-eq-ok (require (str_eq known.payload_digest sum) idempotency_conflict) h in
    let (row, locked, h2) = >>=-eq-ok (some_or (locked_case s case_id) assertion_error) _ h1 in
    let same : s ≡ s' = ground arith in
    let its : known ≡ done.event = ground arith in
    record {
      current = row;
      locked = subst (λ t. locked_case t case_id ≡ some row) same (ground arith);
      version = ground arith;
      recorded =
          subst
            (λ t. conversation_event_by_command t case_id actor.membership_id key ≡ some done.event)
            same (ground arith);
      digest =
          subst (λ e. e.payload_digest ≡ sum) its
            ((eq_iff known.payload_digest sum).0 (require-eq-ok idempotency_conflict agree));
    }

module _ (encode : EventPayload → String) (digest : EventKind → EventPayload → String)
    (uuid_text : ℕ → String) where
  add_alternative-keeps :
      (s : Store) (actor : Actor) (id case_id : ℕ) (exact : ExactAnswer) (label : Option String)
      (key : String) (decided : Option EventKind) (s' : Store) (row : ConversationEventRow)
      → add_alternative encode digest uuid_text s actor id case_id exact label key decided ≡ ok s'
      → conversation_event_by_command s case_id actor.membership_id key ≡ some row
      → (s'.cases ≡ s.cases)
        × (conversation_event_by_command s' case_id actor.membership_id key ≡ some row)
  unfolding add_alternative append_conversation_event conversation_event_by_command
  add_alternative-keeps s actor id case_id exact label key none s' row h found =
      (ground arith, ground arith)
  add_alternative-keeps s actor id case_id exact label key (some kind) s' row h found =
      let ((new, t), appended, h1) =
        >>=-eq-ok (append_conversation_event s actor id case_id kind _ _ _) _ h in
      let events : s'.conversation_events ≡ s.conversation_events ++ new ∷ [] = ground arith in
      (
        ground arith,
        rw events (
            find-append-some (is_event_command case_id actor.membership_id key)
              s.conversation_events (new ∷ []) row found),
      )

  add_decision-keeps :
      (s : Store) (actor : Actor) (id case_id : ℕ) (payload : EventPayload) (label : Option String)
      (key : String) (s' : Store) (row : ConversationEventRow)
      → add_decision encode digest uuid_text s actor id case_id payload label key ≡ ok s'
      → conversation_event_by_command s case_id actor.membership_id key ≡ some row
      → (s'.cases ≡ s.cases)
        × (conversation_event_by_command s' case_id actor.membership_id key ≡ some row)
  unfolding add_decision conversation_event_by_command
  add_decision-keeps s actor id case_id (client_payload json) label key s' row h found =
      (ground arith, ground arith)
  add_decision-keeps s actor id case_id (answer fields) label key s' row h found =
      (ground arith, ground arith)
  add_decision-keeps s actor id case_id (alternative fields) label key s' row h found =
      (ground arith, ground arith)
  add_decision-keeps s actor id case_id (enhancement_text words) label key s' row h found =
      (ground arith, ground arith)
  add_decision-keeps s actor id case_id (cycle_number_payload number) label key s' row h found =
      (ground arith, ground arith)
  add_decision-keeps s actor id case_id (exact_answer exact) label key s' row h found =
      add_alternative-keeps s actor id case_id exact label key (decision_kind exact.decision) s' row
        h found

  appended-found :
      (s : Store) (actor : Actor) (id case_id : ℕ) (kind : EventKind) (payload : EventPayload)
      (key sum : String) (row : ConversationEventRow) (s' : Store)
      → append_conversation_event s actor id case_id kind payload key sum ≡ ok (row, s')
      → conversation_event_by_command s case_id actor.membership_id key ≡ none
      → (s'.cases ≡ s.cases)
        × (row.payload_digest ≡ sum)
        × (conversation_event_by_command s' case_id actor.membership_id key ≡ some row)
  unfolding append_conversation_event conversation_event_by_command
  appended-found s actor id case_id kind payload key sum row s' h fresh =
      let new = new_event s actor id case_id kind payload key sum in
      let (_, h1) = >>-eq-ok (require (is_event_allowed s new) integrity_error) h in
      let same : new ≡ row = ground arith in
      let events : s'.conversation_events ≡ s.conversation_events ++ row ∷ [] = ground arith in
      let its : is_event_command case_id actor.membership_id key row ≡ true =
        subst (λ r. is_event_command case_id actor.membership_id key r ≡ true) same
          (ground (arith, ==_refl case_id, ==_refl actor.membership_id, (eq_iff key key).1 refl)) in
      (
        ground arith,
        ground arith,
        rw
            (
              events,
              find-append (is_event_command case_id actor.membership_id key) s.conversation_events
                  (row ∷ []) fresh,
              its,
            )
            refl,
      )

  pub append_new-Recorded :
      (s : Store) (actor : Actor) (now : ℕ) (ids : EventIds) (case_id : ℕ) (policy : Option ℕ)
      (sent : Sent) (expected : ℕ) (key : String) (done : Appended) (s' : Store)
      → conversation_event_by_command s case_id actor.membership_id key ≡ none
      → append_new encode digest uuid_text s actor now ids case_id policy sent expected key
        ≡ ok (done, s')
      → IsRecorded s' actor case_id key (digest (sent_kind sent) (payload_of sent)) done
  unfolding append_new advance_semantic_context add_audit locked_case conversation_event_by_command
  append_new-Recorded s actor now ids case_id policy sent expected key done s' fresh h =
      let (row, locked, h1) = >>=-eq-ok (some_or (locked_case s case_id) stale_version) _ h in
      let (_, h2) =
        >>-eq-ok (require (row.semantic_context_version == expected) stale_version) h1 in
      let ((payload, label), _, h3) =
        >>=-eq-ok (stored_payload encode digest uuid_text s row policy sent) _ h2 in
      let (_, h4) = >>-eq-ok (require (not (ltb 20_000 (count (encode payload)))) conflict) h3 in
      let ((new, t), appended, h5) =
        >>=-eq-ok
          (append_conversation_event s actor ids.event_id case_id (sent_kind sent) payload key _) _
          h4 in
      let (u, decided, h6) =
        >>=-eq-ok
          (add_decision encode digest uuid_text t actor ids.decision_id case_id payload label key) _
          h5 in
      let (cases, sum, there) =
        appended-found s actor ids.event_id case_id (sent_kind sent) payload key
          (digest (sent_kind sent) (payload_of sent)) new t appended fresh in
      let (kept, still) =
        add_decision-keeps t actor ids.decision_id case_id payload label key u new decided there in
      finished-Recorded s actor now case_id key (digest (sent_kind sent) (payload_of sent)) row new
        u done s' (ground arith) (kept ∙ cases) still sum (ground arith) (ground arith)
        (ground arith)
