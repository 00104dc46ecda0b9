-- ===== src/Knowledge/Documents/Rows.antt =====
-- The rows that a command writes, read back as a journal.
use apbra.Prelude.{
  append-nil, ℕ, ◌≡◌, refl, ◌∙◌, inl, inr, true, false, some, List, [], ◌∷◌, ◌++◌, String, eq_iff,
  ==_refl, Bool-cases, Option-cases, is_some, any, any-find, contains, arith, ok, find, find-append,
}
use apbra.Domain.{Actor}
use apbra.Knowledge.Lifecycle.{
  Command, Journal, Operation, new_operation, extend, advance, position,
}
use apbra.Knowledge.Dispatch.Types.{
  Kind, create, revision, archive, KnowledgeDocumentRow, KnowledgeRevisionRow, KnowledgeCommandRow,
}
use apbra.Knowledge.Dispatch.Service.{decode}
use apbra.Knowledge.Documents.Journal.{
  Encodings, is_archive, is_revision, new_revisions, archived_from, revision_of, new_revision_of,
  command_of_row, journal_of,
}
use apbra.Knowledge.Documents.Drafts.{DraftPayload, with_current, command_row}
use apbra.Knowledge.Documents.Apply.{revision_row, command_from}
use apbra.Knowledge.Documents.Lookup.{archived_from-append, new_revisions-append}

-- What the library promises of the encodings.
pub record IsFaithful (e : Encodings) : Type 0 where
  pub decode-encode : (t : String) → e.decode_utf8 (e.encode_utf8 t) ≡ some t
  pub uuid_text-injective : (a b : ℕ) → e.uuid_text a ≡ e.uuid_text b → a ≡ b

module _ (e : Encodings) (faithful : IsFaithful e) (actor : Actor) (document : KnowledgeDocumentRow)
    (key : ℕ) (digest : String) (operation_id new_id : ℕ) (payload : DraftPayload) where
  abbrev row : Kind → ℕ → KnowledgeCommandRow
  row kind = command_row actor document kind key digest operation_id new_id payload

  abbrev command : Kind → Command
  command kind = command_from e actor document kind key digest operation_id new_id payload

  pub command_of_row-archive :
      (by_id : List KnowledgeRevisionRow) (sequence : ℕ)
      → is_some (find (is_revision new_id) by_id) ≡ true
      → command_of_row e by_id (row archive sequence) ≡ ok (command archive)
  unfolding command_of_row new_revision_of
  command_of_row-archive by_id sequence h = elim (Option-cases (find (is_revision new_id) by_id)) [
    | inl nothing ↦ cc
    | inr (target, found) ↦ rw found refl
  ]

  revision_of-new :
      revision_of e (revision_row e actor document new_id payload)
      ≡ ok (record {
        company_id = actor.company_id;
        document_id = document.id;
        revision_id = new_id;
        source_version = payload.source_version;
        owner_membership_id = actor.membership_id;
        predecessor_revision_id = payload.expected_current_revision_id;
      })
  unfolding revision_of decode
  revision_of-new =
      rw
        (
          faithful.decode-encode payload.title,
          faithful.decode-encode payload.source_version,
          faithful.decode-encode payload.text,
        )
        (ground (
          arith,
          eq_iff (e.sha256_hex (e.encode_utf8 payload.text))
              (e.sha256_hex (e.encode_utf8 payload.text)),
        ))

  find-new_revision :
      (by_id : List KnowledgeRevisionRow)
      → any (is_revision new_id) by_id ≡ false
      → find (is_revision new_id) (by_id ++ revision_row e actor document new_id payload ∷ [])
        ≡ some (revision_row e actor document new_id payload)
  find-new_revision by_id h =
      find-append (is_revision new_id) by_id (revision_row e actor document new_id payload ∷ [])
        (any-find (is_revision new_id) by_id h)
      ∙ rw (==_refl new_id) refl

  pub command_of_row-brought :
      (by_id : List KnowledgeRevisionRow) (kind : Kind) (sequence : ℕ)
      → is_archive kind ≡ false
      → any (is_revision new_id) by_id ≡ false
      → command_of_row e
          (by_id ++ revision_row e actor document new_id payload ∷ [])
          (row kind sequence)
        ≡ ok (command kind)
  unfolding command_of_row new_revision_of
  command_of_row-brought by_id create sequence k h =
      rw (find-new_revision by_id h) (rw revision_of-new refl)
  command_of_row-brought by_id revision sequence k h =
      rw (find-new_revision by_id h) (rw revision_of-new refl)
  command_of_row-brought by_id archive sequence k h = cc

  abbrev extended : Kind → Journal → Journal
  extended kind before =
      extend before (advance (command kind) (position before)) (new_operation actor (command kind))

  -- The document's row and commands after the command stand for the extended journal.
  pub journal_of-extend :
      (kind : Kind) (rows : List KnowledgeCommandRow) (xs : List Operation) (sequence : ℕ)
      → journal_of
          (with_current (extended kind (journal_of document rows xs)) document)
          (rows ++ row kind sequence ∷ [])
          (xs ++ new_operation actor (command kind) ∷ [])
        ≡ extended kind (journal_of document rows xs)
  unfolding advance
  journal_of-extend create rows xs sequence =
      rw
        (
          new_revisions-append xs (new_operation actor (command create)),
          archived_from-append rows (row create sequence) [],
        )
        refl
  journal_of-extend revision rows xs sequence =
      rw
        (
          new_revisions-append xs (new_operation actor (command revision)),
          archived_from-append rows (row revision sequence) [],
        )
        refl
  journal_of-extend archive rows xs sequence =
      elim (Bool-cases (contains new_id (archived_from [] rows))) [
        | inl known ↦
            rw
              (
                new_revisions-append xs (new_operation actor (command archive)),
                archived_from-append rows (row archive sequence) [],
                known,
              )
              (rw (append-nil (new_revisions xs)) refl)
        | inr other ↦
            rw
              (
                new_revisions-append xs (new_operation actor (command archive)),
                archived_from-append rows (row archive sequence) [],
                other,
              )
              (rw (append-nil (new_revisions xs)) refl)
      ]
