-- ===== src/Conversation/Refinement.antt =====
-- The event of a refinement cycle that is started without an enhancement.
use Prim.Native.String.{count}
use apbra.Prelude.{
  ℕ, ◌≡◌, refl, true, Option, none, String, ok, err, require, some_or, not, ltb, ◌==◌, strip,
  is_blank, >>=-eq-ok, >>-eq-ok, require-eq-ok, and_true, Fallible-cases, inl, inr,
}
use apbra.Domain.{
  Actor, ApplicationError, integrity_error, stale_version, conflict, configuration_unavailable,
}
use apbra.Store.ConversationRows.{
  EventKind, clarification_cycle_started, EventPayload, ConversationEventRow,
}
use apbra.Store.Rows.{Store}
use apbra.Store.Query.{locked_case}
use apbra.Store.Conversations.{
  append_conversation_event, is_event_allowed, is_event_kind, new_event, create_clarification_cycle,
  clarification_cycle_by_command,
}
use apbra.Cases.Authorization.{authorized_case_access}
use apbra.Conversation.Cycles.{
  ClarificationSettings, ClarificationState, CycleIds, clarification_state, cycle_event,
  start_cycle, start_refinement_cycle,
}

appended-kind :
    (s : Store) (actor : Actor) (id case_id : ℕ) (kind : EventKind) (payload : EventPayload)
    (key sum : String) (row : ConversationEventRow) (s' : Store)
    → append_conversation_event s actor id case_id kind payload key sum ≡ ok (row, s')
    → is_event_kind kind ≡ true
unfolding append_conversation_event
appended-kind s actor id case_id kind payload key sum row s' h =
    let (allowed, _) =
      >>-eq-ok
        (require (is_event_allowed s (new_event s actor id case_id kind payload key sum))
          integrity_error)
        h in
    let (front, _) = and_true (require-eq-ok integrity_error allowed) in (and_true front).1

module _ (digest : EventKind → EventPayload → String) where
  start_cycle-kind :
      (s : Store) (actor : Actor) (now : ℕ) (ids : CycleIds) (case_id : ℕ)
      (tenant : Option ClarificationSettings) (expected : ℕ) (key enhancement : String)
      (done : ClarificationState × ℕ × Store)
      → start_cycle digest s actor now ids case_id tenant expected key enhancement ≡ ok done
      → is_event_kind (cycle_event enhancement) ≡ true
  unfolding start_cycle
  start_cycle-kind s actor now ids case_id tenant expected key enhancement done h =
      let (row, _, h1) = >>=-eq-ok (some_or (locked_case s case_id) stale_version) _ h in
      let (_, h2) =
        >>-eq-ok (require (row.semantic_context_version == expected) stale_version) h1 in
      let (settings, _, h3) = >>=-eq-ok (some_or tenant configuration_unavailable) _ h2 in
      let (_, h4) =
        >>-eq-ok (require settings.clarification_enabled configuration_unavailable) h3 in
      let (_, h5) =
        >>-eq-ok
          (require (not (clarification_state s case_id tenant).overall_limit_reached) conflict)
          h4 in
      let (_, h6) =
        >>-eq-ok (require (not (ltb settings.max_answer_characters (count enhancement))) conflict)
          h5 in
      let ((new, t), _, h7) =
        >>=-eq-ok (create_clarification_cycle s actor now ids.cycle_id case_id settings.id key) _
          h6 in
      let ((said, u), appended, _) =
        >>=-eq-ok
          (append_conversation_event t actor ids.event_id case_id (cycle_event enhancement) _ _ _) _
          h7 in
      appended-kind t actor ids.event_id case_id (cycle_event enhancement) _ _ _ said u appended

  -- A refinement cycle that is requested with a command key no cycle has, and with an enhancement that
  -- is blank, is always refused, whatever the state of the case, the actor and the settings are.
  pub start_refinement_cycle-blank :
      (s : Store) (actor : Actor) (now : ℕ) (ids : CycleIds) (case_id : ℕ)
      (tenant : Option ClarificationSettings) (expected : ℕ) (key enhancement : String)
      → clarification_cycle_by_command s case_id actor.membership_id key ≡ none
      → is_blank (strip enhancement) ≡ true
      → (e : ApplicationError) × (start_refinement_cycle digest s actor now ids case_id tenant
            expected key enhancement
          ≡ err e)
  unfolding start_refinement_cycle
  start_refinement_cycle-blank s actor now ids case_id tenant expected key enhancement fresh blank =
      elim (Fallible-cases
        (start_refinement_cycle digest s actor now ids case_id tenant expected key enhancement)) [
          | inl (done, h) ↦
              let (_, _, h1) = >>=-eq-ok (authorized_case_access s actor case_id true) _ h in
              let kind =
                start_cycle-kind s actor now ids case_id tenant expected key enhancement done
                  (rw fresh at h1) in
              let started : cycle_event enhancement ≡ clarification_cycle_started = rw blank refl in
              let never = rw started at kind in cc
          | inr refused ↦ refused
        ]
