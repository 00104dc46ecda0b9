-- ===== src/Conversation/Runs.antt =====
-- The states that the operations of a conversation reach, and what each of them keeps.
use apbra.Prelude.{ℕ, ◌≡◌, Option, String, [], ok}
use apbra.Domain.{Actor}
use apbra.Store.ConversationRows.{EventKind, EventPayload, InterpretationRow}
use apbra.Store.Rows.{Store}
use apbra.Conversation.Events.{Sent, Appended, EventIds, append_event}
use apbra.Conversation.Cycles.{
  ClarificationSettings, ClarificationState, CycleIds, start_refinement_cycle,
}
use apbra.Conversation.Interpretations.{Analysis, InterpretationIds, create_interpretation}
use apbra.Conversation.Changes.{Changed, others, append_event-Changed}
use apbra.Conversation.CycleChanges.{start_refinement_cycle-Changed, create_interpretation-Changed}

-- What the calls depend on: texts and digests of payloads, the settings of the tenant of a case, and
-- the analysis of a case.
pub record Services : Type 0 where
  pub encode : EventPayload → String
  pub digest : EventKind → EventPayload → String
  pub uuid_text : ℕ → String
  pub policies : ℕ → Option ClarificationSettings
  pub analysis : Analysis

-- A call that returns, or any other one, which leaves the events and the cycles.
pub data Called (v : Services) : Store → Store → Type 0 where
  appends :
      {s s' : Store} (actor : Actor) (now : ℕ) (ids : EventIds) (case_id : ℕ) (policy : Option ℕ)
      (sent : Sent) (expected : ℕ) (key : String) (done : Appended)
      → append_event v.encode v.digest v.uuid_text s actor now ids case_id policy sent expected key
        ≡ ok (done, s')
      → Called v s s'
  refines :
      {s s' : Store} (actor : Actor) (now : ℕ) (ids : CycleIds) (case_id expected : ℕ)
      (key enhancement : String) (done : ClarificationState) (version : ℕ)
      → start_refinement_cycle v.digest s actor now ids case_id
          (v.policies case_id)
          expected
          key
          enhancement
        ≡ ok (done, version, s')
      → Called v s s'
  interprets :
      {s s' : Store} (actor : Actor) (now : ℕ) (ids : InterpretationIds) (case_id expected : ℕ)
      (new : InterpretationRow)
      → create_interpretation v.analysis s actor now ids case_id (v.policies case_id) expected
        ≡ ok (new, s')
      → Called v s s'
  elsewhere :
      {s s' : Store}
      → s'.conversation_events ≡ s.conversation_events
      → s'.clarification_cycles ≡ s.clarification_cycles
      → Called v s s'

pub data Reached (v : Services) : Store → Type 0 where
  started : {s : Store} → s.conversation_events ≡ [] → s.clarification_cycles ≡ [] → Reached v s
  called : {s s' : Store} → Reached v s → Called v s s' → Reached v s'

Called-Changed : (v : Services) (s s' : Store) → Called v s s' → Changed v.policies s s'
Called-Changed v s s' (appends actor now ids case_id policy sent expected key done h) =
    append_event-Changed v.policies v.encode v.digest v.uuid_text s actor now ids case_id policy
      sent expected key done s' h
Called-Changed v s s' (refines actor now ids case_id expected key enhancement done version h) =
    start_refinement_cycle-Changed v.policies v.digest s actor now ids case_id (v.policies case_id)
      expected key enhancement done version s' h
Called-Changed v s s' (interprets actor now ids case_id expected new h) =
    create_interpretation-Changed v.policies v.analysis s actor now ids case_id expected new s' h
Called-Changed v s s' (elsewhere events cycles) = others events cycles

-- What holds without events and cycles and is kept by every change holds in the states reached.
pub Reached-ind :
    (v : Services) (P : Store → Type 0)
    → ((s : Store) → s.conversation_events ≡ [] → s.clarification_cycles ≡ [] → P s)
    → ((s s' : Store) → Changed v.policies s s' → P s → P s')
    → (s : Store) → Reached v s
    → P s
Reached-ind v P base keep s (started events cycles) = base s events cycles
Reached-ind v P base keep s' (called {s} before call) =
    keep s s' (Called-Changed v s s' call) (Reached-ind v P base keep s before)
