-- ===== src/Knowledge/Documents/Stored.antt =====
-- The document of a knowledge command in the store, before and after the command is written.
use apbra.Prelude.{
  ℕ, ◌≡◌, refl, sym, ◌∙◌, ap, subst, inl, inr, true, ◌&&◌, Option, none, some, [], String, ◌==◌,
  ==_refl, Option-cases, arith, ok, >>=-eq-ok, find, find-passes, find-append, find-modify_first,
  and_true, ==_iff, any, false, List, ◌∷◌,
}
use apbra.Domain.{Actor}
use apbra.Knowledge.Lifecycle.{empty_journal, Journal}
use apbra.Knowledge.Dispatch.Types.{
  Kind, create, revision, archive, KnowledgeDocumentRow, DispatchStore,
}
use apbra.Knowledge.Dispatch.Service.{document}
use apbra.Knowledge.Documents.Journal.{Encodings, command_rows, operations_of, journal}
use apbra.Knowledge.Documents.Drafts.{
  DraftPayload, is_create, is_document, added_document, with_current, are_free, blank_document,
}
use apbra.Knowledge.Documents.Apply.{existing_document, document_before, written}

module _ (e : Encodings) where
  -- A document that is found among the rows to change is found as it is changed.
  found-written :
      (s : DispatchStore) (actor : Actor) (kind : Kind) (key : ℕ) (digest : String)
      (operation_id new_id : ℕ) (payload : DraftPayload) (after : Journal)
      (row : KnowledgeDocumentRow)
      → find (is_document row) (added_document kind row s.documents) ≡ some row
      → (row.company_id == actor.company_id) ≡ true
      → document
          (written e s actor row kind key digest operation_id new_id payload after)
          actor
          row.id
        ≡ ok (with_current after row)
  unfolding document written
  found-written s actor kind key digest operation_id new_id payload after row found own =
      let company = (==_iff row.company_id actor.company_id).0 own in
      rw
        (
          sym company,
          find-modify_first (is_document row) (is_document row) (with_current after)
              (added_document kind row s.documents) row found found
              (rw (==_refl row.id, ==_refl row.company_id) refl),
        )
        refl

  document-found :
      (s : DispatchStore) (actor : Actor) (id : ℕ) (row : KnowledgeDocumentRow)
      → document s actor id ≡ ok row
      → find (is_document row) s.documents ≡ some row
  unfolding document
  document-found s actor id row h =
      elim (Option-cases
        (find (λ row'. row'.id == id && row'.company_id == actor.company_id) s.documents)) [
          | inl nothing ↦ cc (rw nothing at h)
          | inr (d, found) ↦
              let (same_id, same_company) = and_true (
                find-passes
                  (λ (row' : KnowledgeDocumentRow).
                    row'.id == id && row'.company_id == actor.company_id)
                  s.documents d found) in
              let same : d ≡ row = ground (arith, found) in
              let its : find (is_document d) s.documents ≡ some d =
                subst
                  (λ i.
                    find (λ (r : KnowledgeDocumentRow). r.id == i && r.company_id == d.company_id)
                      s.documents
                    ≡ some d)
                  (sym ((==_iff d.id id).0 same_id))
                  (subst
                    (λ c.
                      find (λ (r : KnowledgeDocumentRow). r.id == id && r.company_id == c)
                        s.documents
                      ≡ some d)
                    (sym ((==_iff d.company_id actor.company_id).0 same_company)) found) in
              subst (λ (d' : KnowledgeDocumentRow). find (is_document d') s.documents ≡ some d')
                same its
        ]

  is_document-none :
      (document : KnowledgeDocumentRow) (rows : List KnowledgeDocumentRow)
      → any (λ old. old.id == document.id) rows ≡ false
      → find (is_document document) rows ≡ none
  is_document-none document [] h = refl
  is_document-none document (old ∷ rows) h = ground (arith, is_document-none document rows)

  document-company :
      (s : DispatchStore) (actor : Actor) (id : ℕ) (row : KnowledgeDocumentRow)
      → document s actor id ≡ ok row
      → (row.company_id == actor.company_id) ≡ true
  unfolding document
  document-company s actor id row h =
      elim (Option-cases
        (find (λ row'. row'.id == id && row'.company_id == actor.company_id) s.documents)) [
          | inl nothing ↦ cc (rw nothing at h)
          | inr (d, found) ↦
              let passes =
                find-passes
                  (λ (row' : KnowledgeDocumentRow).
                    row'.id == id && row'.company_id == actor.company_id)
                  s.documents d found in
              let same : d ≡ row = ground (arith, found) in
              subst (λ (d' : KnowledgeDocumentRow). (d'.company_id == actor.company_id) ≡ true) same
                (ground arith)
        ]

  existing-journal :
      (s : DispatchStore) (actor : Actor) (id : ℕ) (row : KnowledgeDocumentRow) (before : Journal)
      → existing_document e s actor id ≡ ok (row, before)
      → (journal e s row ≡ ok before) × ((row.company_id == actor.company_id) ≡ true)
  unfolding existing_document
  existing-journal s actor id row before h =
      let (d, found, h1) = >>=-eq-ok (document s actor id) _ h in
      let (j, read, last) = >>=-eq-ok (journal e s d) _ h1 in
      let same : d ≡ row = ground (arith, last) in
      let same' : j ≡ before = ground (arith, last) in
      (
        subst (λ x. journal e s x ≡ ok before) same (read ∙ ap ok same'),
        subst (λ (x : KnowledgeDocumentRow). (x.company_id == actor.company_id) ≡ true) same
            (document-company s actor id d found),
      )

  added-found :
      (s : DispatchStore) (kind : Kind) (row : KnowledgeDocumentRow) (operation_id new_id : ℕ)
      → are_free s kind row operation_id new_id ≡ true
      → (is_create kind ≡ false → find (is_document row) s.documents ≡ some row)
      → find (is_document row) (added_document kind row s.documents) ≡ some row
  added-found s create row operation_id new_id free found =
      let fresh : any (λ old. old.id == row.id) s.documents ≡ false = ground arith in
      rw
        (
          find-append (is_document row) s.documents (row ∷ [])
              (is_document-none row s.documents fresh),
          ==_refl row.id,
          ==_refl row.company_id,
        )
        refl
  added-found s revision row operation_id new_id free found = found refl
  added-found s archive row operation_id new_id free found = found refl

  existing-found :
      (s : DispatchStore) (actor : Actor) (id : ℕ) (row : KnowledgeDocumentRow) (before : Journal)
      → existing_document e s actor id ≡ ok (row, before)
      → find (is_document row) s.documents ≡ some row
  unfolding existing_document
  existing-found s actor id row before h =
      let (d, found, h1) = >>=-eq-ok (document s actor id) _ h in
      let (j, read, last) = >>=-eq-ok (journal e s d) _ h1 in
      let same : d ≡ row = ground (arith, last) in
      subst (λ (x : KnowledgeDocumentRow). find (is_document x) s.documents ≡ some x) same
        (document-found s actor id d found)

  document_before-found :
      (s : DispatchStore) (actor : Actor) (kind : Kind) (document_id : Option ℕ)
      (new_document_id : ℕ) (row : KnowledgeDocumentRow) (before : Journal)
      → document_before e s actor kind document_id new_document_id ≡ ok (row, before)
      → is_create kind ≡ false
      → find (is_document row) s.documents ≡ some row
  unfolding document_before
  document_before-found s actor create id new row before h other = cc
  document_before-found s actor revision none new row before h other = cc
  document_before-found s actor archive none new row before h other = cc
  document_before-found s actor revision (some id) new row before h other =
      existing-found s actor id row before h
  document_before-found s actor archive (some id) new row before h other =
      existing-found s actor id row before h

  journal-blank :
      (s : DispatchStore) (company_id id : ℕ)
      → command_rows s (blank_document company_id id) ≡ []
      → journal e s (blank_document company_id id) ≡ ok (empty_journal company_id id)
  unfolding journal operations_of
  journal-blank s company_id id unused = rw unused refl

  pub document_before-journal :
      (s : DispatchStore) (actor : Actor) (kind : Kind) (document_id : Option ℕ)
      (new_document_id : ℕ) (row : KnowledgeDocumentRow) (before : Journal)
      → command_rows s (blank_document actor.company_id new_document_id) ≡ []
      → document_before e s actor kind document_id new_document_id ≡ ok (row, before)
      → (journal e s row ≡ ok before) × ((row.company_id == actor.company_id) ≡ true)
  unfolding document_before
  document_before-journal s actor create id new row before unused h =
      let same : blank_document actor.company_id new ≡ row = ground (arith, h) in
      let same' : empty_journal actor.company_id new ≡ before = ground (arith, h) in
      (
        subst (λ x. journal e s x ≡ ok before) same
            (journal-blank s actor.company_id new unused ∙ ap ok same'),
        subst (λ (x : KnowledgeDocumentRow). (x.company_id == actor.company_id) ≡ true) same
            (==_refl actor.company_id),
      )
  document_before-journal s actor revision none new row before unused h = cc
  document_before-journal s actor archive none new row before unused h = cc
  document_before-journal s actor revision (some id) new row before unused h =
      existing-journal s actor id row before h
  document_before-journal s actor archive (some id) new row before unused h =
      existing-journal s actor id row before h

  pub document-written :
      (s : DispatchStore) (actor : Actor) (kind : Kind) (key : ℕ) (digest : String)
      (operation_id new_id : ℕ) (payload : DraftPayload) (after : Journal) (document_id : Option ℕ)
      (new_document_id : ℕ) (row : KnowledgeDocumentRow) (before : Journal)
      → document_before e s actor kind document_id new_document_id ≡ ok (row, before)
      → (row.company_id == actor.company_id) ≡ true
      → are_free s kind row operation_id new_id ≡ true
      → document
          (written e s actor row kind key digest operation_id new_id payload after)
          actor
          row.id
        ≡ ok (with_current after row)
  document-written s actor kind key digest operation_id new_id payload after document_id
        new_document_id row before at_first own free =
      found-written s actor kind key digest operation_id new_id payload after row
        (added-found s kind row operation_id new_id free
          (document_before-found s actor kind document_id new_document_id row before at_first))
        own
