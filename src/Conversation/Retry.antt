-- ===== src/Conversation/Retry.antt =====
-- A second call of `append_event` with a command key that an event has.
use apbra.Prelude.{
  ℕ, ◌≡◌, refl, Option, String, str_eq, ok, err, true, require, >>=-eq-ok, >>-eq-ok, Option-cases,
  Bool-cases, inl, inr, if◌then◌else◌,
}
use apbra.Domain.{Actor, forbidden, idempotency_conflict}
use apbra.Store.ConversationRows.{EventKind, EventPayload}
use apbra.Store.Rows.{CaseRow, CaseAccessRow, Store}
use apbra.Store.Conversations.{conversation_event_by_command}
use apbra.Cases.Authorization.{authorized_case_access}
use apbra.Conversation.Events.{
  Sent, sent_kind, payload_of, is_client_event, Appended, EventIds, appended_before,
  append_authorized, append_event,
}
use apbra.Conversation.Recorded.{IsRecorded, known-Recorded, append_new-Recorded}

module _ (encode : EventPayload → String) (digest : EventKind → EventPayload → String)
    (uuid_text : ℕ → String) where
  append_event-Recorded :
      (s : Store) (actor : Actor) (now : ℕ) (ids : EventIds) (case_id : ℕ) (policy : Option ℕ)
      (sent : Sent) (expected : ℕ) (key : String) (done : Appended) (s' : Store)
      → append_event encode digest uuid_text s actor now ids case_id policy sent expected key
        ≡ ok (done, s')
      → IsRecorded s' actor case_id key (digest (sent_kind sent) (payload_of sent)) done
  unfolding append_event append_authorized
  append_event-Recorded s actor now ids case_id policy sent expected key done s' h =
      let (_, h1) = >>-eq-ok (require (is_client_event sent) forbidden) h in
      let (_, _, h2) = >>=-eq-ok (authorized_case_access s actor case_id true) _ h1 in
      elim (Option-cases (conversation_event_by_command s case_id actor.membership_id key)) [
        | inl fresh ↦
            append_new-Recorded encode digest uuid_text s actor now ids case_id policy sent expected
              key done s' fresh (rw (fresh, append_authorized) at h2)
        | inr (known, found) ↦
            known-Recorded s actor case_id key (digest (sent_kind sent) (payload_of sent)) known
              done s' found (rw (found, append_authorized) at h2)
      ]

  recorded_again :
      (s : Store) (actor : Actor) (later : ℕ) (ids : EventIds) (case_id : ℕ) (policy : Option ℕ)
      (sent : Sent) (expected : ℕ) (key sum : String) (done : Appended)
      → IsRecorded s actor case_id key sum done
      → append_authorized encode digest uuid_text s actor later ids case_id policy sent expected key
        ≡ (if str_eq sum (digest (sent_kind sent) (payload_of sent))
            then ok (done, s)
            else err idempotency_conflict)
  unfolding append_authorized appended_before
  recorded_again s actor later ids case_id policy sent expected key sum done r =
      rw (r.recorded, append_authorized, r.digest)
        (elim (Bool-cases (str_eq sum (digest (sent_kind sent) (payload_of sent)))) [
          | inl same ↦ rw (same, r.locked, r.version) refl
          | inr differs ↦ rw differs refl
        ])

  -- After a successful call, whatever the actor who may still edit the case sends next with the same
  -- command key, at whatever time and with whatever expected version: what is not of a client's kind
  -- is forbidden; otherwise, if the digests agree, the first answer is returned again and the store
  -- stays as it is, and the call is refused as an idempotency conflict if they do not.
  pub append_event-retry :
      (s : Store) (actor : Actor) (now : ℕ) (ids : EventIds) (case_id : ℕ) (policy : Option ℕ)
      (sent : Sent) (expected : ℕ) (key : String) (done : Appended) (s' : Store) (later : ℕ)
      (other_ids : EventIds) (other_policy : Option ℕ) (other : Sent) (other_expected : ℕ)
      (seen : CaseRow × CaseAccessRow)
      → append_event encode digest uuid_text s actor now ids case_id policy sent expected key
        ≡ ok (done, s')
      → authorized_case_access s' actor case_id true ≡ ok seen
      → append_event encode digest uuid_text s' actor later other_ids case_id other_policy other
          other_expected key
        ≡ (if is_client_event other
            then (if str_eq
                  (digest (sent_kind sent) (payload_of sent))
                  (digest (sent_kind other) (payload_of other))
                then ok (done, s')
                else err idempotency_conflict)
            else err forbidden)
  unfolding append_event
  append_event-retry s actor now ids case_id policy sent expected key done s' later other_ids
        other_policy other other_expected seen h may =
      let r = append_event-Recorded s actor now ids case_id policy sent expected key done s' h in
      elim (Bool-cases (is_client_event other)) [
        | inr never ↦ rw never refl
        | inl client ↦
            rw (client, may)
              (recorded_again s' actor later other_ids case_id other_policy other other_expected key
                (digest (sent_kind sent) (payload_of sent)) done r)
      ]
