-- ===== src/Conversation/CycleChanges.antt =====
-- What `start_refinement_cycle` and `create_interpretation` do to the events and the cycles.
use Prim.Native.String.{count}
use apbra.Prelude.{
  ℕ, ◌≡◌, true, Option, none, some, String, arith, ok, require, some_or, not, ltb, ◌==◌, >>=-eq-ok,
  >>-eq-ok, require-eq-ok, Option-cases, Bool-cases, inl, inr, is_none, subst, find-passes,
}
use apbra.Domain.{
  Actor, assertion_error, stale_version, conflict, configuration_unavailable,
  semantic_validation_failed,
}
use apbra.Store.ConversationRows.{EventKind, Session, InterpretationRow, EventPayload}
use apbra.Store.Rows.{CaseRow, Store}
use apbra.Store.Query.{locked_case, is_case, request_version}
use apbra.Store.Write.{add_audit}
use apbra.Store.Conversations.{
  append_conversation_event, create_clarification_cycle, clarification_cycles,
  clarification_cycle_by_command, advance_semantic_context, last, add_interpretation,
  interpretation_for_context,
}
use apbra.Cases.Authorization.{authorized_case_access}
use apbra.Conversation.Cycles.{
  ClarificationSettings, CycleIds, ClarificationState, clarification_state, cycle_event,
  start_cycle, started_before, start_refinement_cycle,
}
use apbra.Conversation.Interpretations.{
  Analysis, asks, has_budget, charged_store, open_cycle, prepared_cycle, charged, interpret,
  InterpretationIds, create_interpretation,
}
use apbra.Conversation.Changes.{Changed, others, event, cycle, round, both, unchanged}

module _ (policies : ℕ → Option ClarificationSettings) where
  module _ (digest : EventKind → EventPayload → String) where
    start_cycle-Changed :
        (s : Store) (actor : Actor) (now : ℕ) (ids : CycleIds) (case_id : ℕ)
        (tenant : Option ClarificationSettings) (expected : ℕ) (key enhancement : String)
        (done : ClarificationState) (version : ℕ) (s' : Store)
        → start_cycle digest s actor now ids case_id tenant expected key enhancement
          ≡ ok (done, version, s')
        → Changed policies s s'
    unfolding start_cycle advance_semantic_context add_audit
    start_cycle-Changed s actor now ids case_id tenant expected key enhancement done version s' h =
        let (row, _, h1) = >>=-eq-ok (some_or (locked_case s case_id) stale_version) _ h in
        let (_, h2) =
          >>-eq-ok (require (row.semantic_context_version == expected) stale_version) h1 in
        let (settings, _, h3) = >>=-eq-ok (some_or tenant configuration_unavailable) _ h2 in
        let (_, h4) =
          >>-eq-ok (require settings.clarification_enabled configuration_unavailable) h3 in
        let (_, h5) =
          >>-eq-ok
            (require (not (clarification_state s case_id tenant).overall_limit_reached) conflict)
            h4 in
        let (_, h6) =
          >>-eq-ok (require (not (ltb settings.max_answer_characters (count enhancement))) conflict)
            h5 in
        let ((new, t), created, h7) =
          >>=-eq-ok (create_clarification_cycle s actor now ids.cycle_id case_id settings.id key) _
            h6 in
        let ((said, u), appended, h8) =
          >>=-eq-ok
            (append_conversation_event t actor ids.event_id case_id (cycle_event enhancement) _ _ _)
            _ h7 in
        both (cycle actor now ids.cycle_id case_id settings.id key new created) (
          both (event actor ids.event_id case_id (cycle_event enhancement) _ _ _ said appended)
            (others (ground arith) (ground arith)))

    pub start_refinement_cycle-Changed :
        (s : Store) (actor : Actor) (now : ℕ) (ids : CycleIds) (case_id : ℕ)
        (tenant : Option ClarificationSettings) (expected : ℕ) (key enhancement : String)
        (done : ClarificationState) (version : ℕ) (s' : Store)
        → start_refinement_cycle digest s actor now ids case_id tenant expected key enhancement
          ≡ ok (done, version, s')
        → Changed policies s s'
    unfolding start_refinement_cycle started_before
    start_refinement_cycle-Changed s actor now ids case_id tenant expected key enhancement done
          version s' h =
        let (_, _, h1) = >>=-eq-ok (authorized_case_access s actor case_id true) _ h in
        elim (Option-cases (clarification_cycle_by_command s case_id actor.membership_id key)) [
          | inl fresh ↦
              start_cycle-Changed s actor now ids case_id tenant expected key enhancement done
                version s' (rw fresh at h1)
          | inr (known, found) ↦
              let (_, _, h2) =
                >>=-eq-ok (some_or (locked_case s case_id) assertion_error) _ (rw found at h1) in
              unchanged policies s s' (ground arith)
        ]

  open_cycle-Changed :
      (initial_key : ℕ → String) (s : Store) (actor : Actor) (now id case_id : ℕ)
      (settings : ClarificationSettings) (s' : Store)
      → open_cycle initial_key s actor now id case_id settings ≡ ok s'
      → Changed policies s s'
  unfolding open_cycle
  open_cycle-Changed initial_key s actor now id case_id settings s' h =
      elim (Bool-cases (is_none (last (clarification_cycles s case_id)))) [
        | inl first ↦
            let ((new, u), created, h1) =
              >>=-eq-ok
                (create_clarification_cycle s actor now id case_id settings.id
                  (initial_key case_id))
                _ (rw (first, open_cycle) at h) in
            let end : u ≡ s' = ground arith in
            subst (Changed policies s) end
              (cycle actor now id case_id settings.id (initial_key case_id) new created)
        | inr later ↦ let h1 = rw (later, open_cycle) at h in unchanged policies s s' (ground arith)
      ]

  prepared_cycle-Changed :
      (initial_key : ℕ → String) (s : Store) (actor : Actor) (now id case_id : ℕ)
      (tenant : Option ClarificationSettings) (s' : Store)
      → prepared_cycle initial_key s actor now id case_id tenant ≡ ok s'
      → Changed policies s s'
  unfolding prepared_cycle
  prepared_cycle-Changed initial_key s actor now id case_id none s' h =
      unchanged policies s s' (ground arith)
  prepared_cycle-Changed initial_key s actor now id case_id (some settings) s' h =
      let (t, opened, h1) =
        >>=-eq-ok (open_cycle initial_key s actor now id case_id settings) _ h in
      let same : t ≡ s' = ground arith in
      subst (Changed policies s) same
        (open_cycle-Changed initial_key s actor now id case_id settings t opened)

  charged-Changed :
      (s : Store) (case_id : ℕ) (session : Session) (s' : Store)
      → charged s case_id (policies case_id) session ≡ ok s'
      → Changed policies s s'
  unfolding charged
  charged-Changed s case_id session s' h = elim (Option-cases (policies case_id)) [
    | inl none_ ↦ let h1 = rw (none_, charged) at h in unchanged policies s s' (ground arith)
    | inr (settings, has) ↦ elim (Bool-cases (asks session)) [
      | inl asked ↦
          let (within, h1) =
            >>-eq-ok
              (require (has_budget settings (clarification_cycles s case_id))
                semantic_validation_failed)
              (rw (has, charged, asked) at h) in
          let end : charged_store s case_id ≡ s' = ground arith in
          subst (Changed policies s) end
            (round case_id settings has (require-eq-ok semantic_validation_failed within))
      | inr quiet ↦ let h1 = rw (has, charged, quiet) at h in unchanged policies s s' (ground arith)
    ]
  ]

  add_interpretation-Changed :
      (s : Store) (row : InterpretationRow) (s' : Store)
      → add_interpretation s row ≡ ok s'
      → Changed policies s s'
  unfolding add_interpretation
  add_interpretation-Changed s row s' h = others (ground arith) (ground arith)

  module _ (a : Analysis) where
    interpret-Changed :
        (s : Store) (actor : Actor) (now : ℕ) (ids : InterpretationIds) (row : CaseRow)
        (new : InterpretationRow) (s' : Store)
        → interpret a s actor now ids row (policies row.id) ≡ ok (new, s')
        → Changed policies s s'
    unfolding interpret add_audit
    interpret-Changed s actor now ids row new s' h =
        let (t, prepared, h1) =
          >>=-eq-ok (prepared_cycle a.initial_key s actor now ids.cycle_id row.id (policies row.id))
            _ h in
        let (item, _, h2) = >>=-eq-ok (a.current_context t row) _ h1 in
        let ((session, state), _, h3) = >>=-eq-ok (a.analysed t row) _ h2 in
        let (u, paid, h4) = >>=-eq-ok (charged t row.id (policies row.id) session) _ h3 in
        let (_, h5) =
          >>-eq-ok (require (a.has_summary session state) semantic_validation_failed) h4 in
        let (v, added, h6) = >>=-eq-ok (add_interpretation u _) _ h5 in
        both
          (prepared_cycle-Changed a.initial_key s actor now ids.cycle_id row.id (policies row.id) t
            prepared)
          (both (charged-Changed t row.id session u paid)
            (both (add_interpretation-Changed u _ v added) (others (ground arith) (ground arith))))

    pub create_interpretation-Changed :
        (s : Store) (actor : Actor) (now : ℕ) (ids : InterpretationIds) (case_id expected : ℕ)
        (new : InterpretationRow) (s' : Store)
        → create_interpretation a s actor now ids case_id (policies case_id) expected ≡ ok (new, s')
        → Changed policies s s'
    unfolding create_interpretation locked_case is_case
    create_interpretation-Changed s actor now ids case_id expected new s' h =
        let (_, _, h1) = >>=-eq-ok (authorized_case_access s actor case_id true) _ h in
        let (row, locked, h2) = >>=-eq-ok (some_or (locked_case s case_id) stale_version) _ h1 in
        let (_, h3) =
          >>-eq-ok (require (row.semantic_context_version == expected) stale_version) h2 in
        let (_, _, h4) =
          >>=-eq-ok
            (some_or (request_version s row.current_request_version_id) semantic_validation_failed)
            _ h3 in
        elim (Option-cases (interpretation_for_context s case_id row.semantic_context_version)) [
          | inl fresh ↦
              let its : case_id ≡ row.id =
                ground (arith, find-passes (is_case case_id) s.cases row (ground arith)) in
              interpret-Changed s actor now ids row new s' (
                subst (λ c. interpret a s actor now ids row (policies c) ≡ ok (new, s')) its
                  (rw fresh at h4))
          | inr (known, found) ↦
              let (_, h5) =
                >>-eq-ok (require (a.is_validated s row known) semantic_validation_failed)
                  (rw found at h4) in
              unchanged policies s s' (ground arith)
        ]
