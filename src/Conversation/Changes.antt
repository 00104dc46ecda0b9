-- ===== src/Conversation/Changes.antt =====
-- What the operations of a conversation do to the rows of its events and its cycles, as a sequence of
-- inserts and of charged rounds.
use Prim.Native.String.{count}
use apbra.Prelude.{
  ℕ, ◌≡◌, true, Option, none, some, String, arith, ok, require, some_or, not, ltb, ◌==◌, >>=-eq-ok,
  >>-eq-ok, Option-cases, inl, inr, str_eq, subst,
}
use apbra.Domain.{Actor, assertion_error, stale_version, conflict, forbidden, idempotency_conflict}
use apbra.Store.ConversationRows.{
  EventKind, ConversationEventRow, ExactAnswer, ClarificationCycleRow, EventPayload, client_payload,
  answer, exact_answer, alternative, enhancement_text, cycle_number_payload,
}
use apbra.Store.Rows.{Store}
use apbra.Store.Query.{locked_case}
use apbra.Store.Write.{add_audit}
use apbra.Store.Conversations.{
  append_conversation_event, create_clarification_cycle, clarification_cycles,
  conversation_event_by_command, advance_semantic_context,
}
use apbra.Cases.Authorization.{authorized_case_access}
use apbra.Conversation.Cycles.{ClarificationSettings}
use apbra.Conversation.Interpretations.{has_budget, charged_store}
use apbra.Conversation.Events.{
  Sent, sent_kind, is_client_event, add_alternative, decision_kind, Appended, EventIds,
  appended_before, add_decision, stored_payload, append_new, append_authorized, append_event,
}

-- `policies` has the settings of the tenant that a case belongs to.
pub data Changed (policies : ℕ → Option ClarificationSettings) : Store → Store → Type 0 where
  others :
      {s s' : Store}
      → s'.conversation_events ≡ s.conversation_events
      → s'.clarification_cycles ≡ s.clarification_cycles
      → Changed policies s s'
  event :
      {s s' : Store} (actor : Actor) (id case_id : ℕ) (kind : EventKind) (payload : EventPayload)
      (key digest : String) (row : ConversationEventRow)
      → append_conversation_event s actor id case_id kind payload key digest ≡ ok (row, s')
      → Changed policies s s'
  cycle :
      {s s' : Store} (actor : Actor) (now id case_id settings_id : ℕ) (key : String)
      (row : ClarificationCycleRow)
      → create_clarification_cycle s actor now id case_id settings_id key ≡ ok (row, s')
      → Changed policies s s'
  round :
      {s : Store} (case_id : ℕ) (settings : ClarificationSettings)
      → policies case_id ≡ some settings
      → has_budget settings (clarification_cycles s case_id) ≡ true
      → Changed policies s (charged_store s case_id)
  both : {s t u : Store} → Changed policies s t → Changed policies t u → Changed policies s u

module _ (policies : ℕ → Option ClarificationSettings) where
  pub unchanged : (s s' : Store) → s ≡ s' → Changed policies s s'
  unchanged s s' h = others (ground arith) (ground arith)

  module _ (encode : EventPayload → String) (digest : EventKind → EventPayload → String)
      (uuid_text : ℕ → String) where
    add_alternative-Changed :
        (s : Store) (actor : Actor) (id case_id : ℕ) (exact : ExactAnswer) (label : Option String)
        (key : String) (decided : Option EventKind) (s' : Store)
        → add_alternative encode digest uuid_text s actor id case_id exact label key decided ≡ ok s'
        → Changed policies s s'
    unfolding add_alternative
    add_alternative-Changed s actor id case_id exact label key none s' h =
        unchanged s s' (ground arith)
    add_alternative-Changed s actor id case_id exact label key (some kind) s' h =
        let ((row, t), appended, h1) =
          >>=-eq-ok (append_conversation_event s actor id case_id kind _ _ _) _ h in
        let same : t ≡ s' = ground arith in
        subst (Changed policies s) same (event actor id case_id kind _ _ _ row appended)

    add_decision-Changed :
        (s : Store) (actor : Actor) (id case_id : ℕ) (payload : EventPayload)
        (label : Option String) (key : String) (s' : Store)
        → add_decision encode digest uuid_text s actor id case_id payload label key ≡ ok s'
        → Changed policies s s'
    unfolding add_decision
    add_decision-Changed s actor id case_id (client_payload json) label key s' h =
        unchanged s s' (ground arith)
    add_decision-Changed s actor id case_id (answer fields) label key s' h =
        unchanged s s' (ground arith)
    add_decision-Changed s actor id case_id (alternative fields) label key s' h =
        unchanged s s' (ground arith)
    add_decision-Changed s actor id case_id (enhancement_text words) label key s' h =
        unchanged s s' (ground arith)
    add_decision-Changed s actor id case_id (cycle_number_payload number) label key s' h =
        unchanged s s' (ground arith)
    add_decision-Changed s actor id case_id (exact_answer exact) label key s' h =
        add_alternative-Changed s actor id case_id exact label key (decision_kind exact.decision) s'
          h

    append_new-Changed :
        (s : Store) (actor : Actor) (now : ℕ) (ids : EventIds) (case_id : ℕ) (policy : Option ℕ)
        (sent : Sent) (expected : ℕ) (key : String) (done : Appended) (s' : Store)
        → append_new encode digest uuid_text s actor now ids case_id policy sent expected key
          ≡ ok (done, s')
        → Changed policies s s'
    unfolding append_new advance_semantic_context add_audit
    append_new-Changed s actor now ids case_id policy sent expected key done s' h =
        let (row, _, h1) = >>=-eq-ok (some_or (locked_case s case_id) stale_version) _ h in
        let (_, h2) =
          >>-eq-ok (require (row.semantic_context_version == expected) stale_version) h1 in
        let ((payload, label), _, h3) =
          >>=-eq-ok (stored_payload encode digest uuid_text s row policy sent) _ h2 in
        let (_, h4) = >>-eq-ok (require (not (ltb 20_000 (count (encode payload)))) conflict) h3 in
        let ((new, t), appended, h5) =
          >>=-eq-ok
            (append_conversation_event s actor ids.event_id case_id (sent_kind sent) payload key _)
            _ h4 in
        let (u, decided, h6) =
          >>=-eq-ok
            (add_decision encode digest uuid_text t actor ids.decision_id case_id payload label key)
            _ h5 in
        both (event actor ids.event_id case_id (sent_kind sent) payload key _ new appended) (
          both (add_decision-Changed t actor ids.decision_id case_id payload label key u decided)
            (others (ground arith) (ground arith)))

    pub append_event-Changed :
        (s : Store) (actor : Actor) (now : ℕ) (ids : EventIds) (case_id : ℕ) (policy : Option ℕ)
        (sent : Sent) (expected : ℕ) (key : String) (done : Appended) (s' : Store)
        → append_event encode digest uuid_text s actor now ids case_id policy sent expected key
          ≡ ok (done, s')
        → Changed policies s s'
    unfolding append_event append_authorized appended_before
    append_event-Changed s actor now ids case_id policy sent expected key done s' h =
        let (_, h1) = >>-eq-ok (require (is_client_event sent) forbidden) h in
        let (_, _, h2) = >>=-eq-ok (authorized_case_access s actor case_id true) _ h1 in
        elim (Option-cases (conversation_event_by_command s case_id actor.membership_id key)) [
          | inl fresh ↦
              append_new-Changed s actor now ids case_id policy sent expected key done s'
                (rw (fresh, append_authorized) at h2)
          | inr (known, found) ↦
              let h3 = rw (found, append_authorized) at h2 in
              let (_, h4) =
                >>-eq-ok (require (str_eq known.payload_digest _) idempotency_conflict) h3 in
              let (_, _, h5) = >>=-eq-ok (some_or (locked_case s case_id) assertion_error) _ h4 in
              unchanged s s' (ground arith)
        ]
