-- ===== src/Knowledge/Dispatch/Repeat.antt =====
-- What a further request to send is answered.
use apbra.Prelude.{
  ℕ, ◌≡◌, sym, subst, Bool, false, not, ◌&&◌, Option, none, some, List, [], ◌∷◌, ◌++◌, String, ◌==◌,
  ==_refl, arith, ok, ◌>>=◌, some_or, >>=-eq-ok, Bool-cases, inl, inr, find, filter, is_empty,
}
use apbra.Knowledge.Dispatch.Types.{
  Submission, KnowledgeProvider, KnowledgeDispatchRow, KnowledgeDispatchCallRow, DispatchStore,
  DraftContext, provider_unconfigured, protected_resource_not_found,
}
use apbra.Knowledge.Dispatch.Summary.{calls, is_call_of}
use apbra.Knowledge.Dispatch.Service.{rows, document, is_dispatch_in}
use apbra.Knowledge.Dispatch.Claims.{claim, is_row, new_call}
use apbra.Knowledge.Dispatch.Claimed.{claim_new-appends}

-- The same company lists the same dispatches, whatever calls are added.
rows-kept :
    (s : DispatchStore) (context other : DraftContext) (document_id : ℕ)
    (dispatches : List KnowledgeDispatchRow) (added : List KnowledgeDispatchCallRow)
    → other.actor.company_id ≡ context.actor.company_id
    → rows s context document_id ≡ ok dispatches
    → rows (record s { calls = added }) other document_id ≡ ok dispatches
unfolding rows document
rows-kept s context other document_id dispatches added same h =
    subst
      (λ company.
        (some_or (find (λ row. row.id == document_id && row.company_id == company) s.documents)
            protected_resource_not_found
          >>= λ _. ok (filter (is_dispatch_in company document_id) s.dispatches))
        ≡ ok dispatches)
      (sym same) h

calls-added :
    (s : DispatchStore) (row : KnowledgeDispatchRow) (is_reconcile : Bool) (call_id : ℕ)
    (keys : List String) (xs : List KnowledgeDispatchCallRow)
    → is_empty (filter (is_call_of row) (xs ++ new_call s row is_reconcile call_id keys ∷ []))
      ≡ false
calls-added s row is_reconcile call_id keys [] =
    ground (arith, ==_refl row.id, ==_refl row.company_id)
calls-added s row is_reconcile call_id keys (x ∷ xs) =
    ground (arith, calls-added s row is_reconcile call_id keys xs)

-- After a call of a dispatch was claimed, for a send or a reconciliation, whoever of the same company
-- asks next to send the dispatch, with a provider configured, is answered by `None`, and the store
-- stays as it is.
pub claim-repeat :
    (json_size : List String → ℕ) (decode_utf8 : List ℕ → Option String)
    (sha256_hex : List ℕ → String) (s : DispatchStore) (configured : Option KnowledgeProvider)
    (context : DraftContext) (document_id operation_id : ℕ) (is_reconcile : Bool) (call_id : ℕ)
    (result : Submission × ℕ × List String) (s' : DispatchStore) (provider : KnowledgeProvider)
    (other : DraftContext) (other_id : ℕ)
    → claim json_size decode_utf8 sha256_hex s configured context document_id operation_id
        is_reconcile call_id
      ≡ ok (some result, s')
    → other.actor.company_id ≡ context.actor.company_id
    → claim json_size decode_utf8 sha256_hex s'
        (some provider)
        other
        document_id
        operation_id
        false
        other_id
      ≡ ok (none, s')
unfolding claim calls
claim-repeat json_size decode_utf8 sha256_hex s configured context document_id operation_id
      is_reconcile call_id result s' provider other other_id h same =
    let (dispatches, listed, h1) = >>=-eq-ok (rows s context document_id) _ h in
    let (row, found, h2) =
      >>=-eq-ok (some_or (find (is_row operation_id) dispatches) protected_resource_not_found) _
        h1 in
    let (given, _, h3) = >>=-eq-ok (some_or configured provider_unconfigured) _ h2 in
    elim (Bool-cases (not (is_empty (calls s row)) && not is_reconcile)) [
      | inl sent ↦ absurd (ground (arith, sent, h3))
      | inr unsent ↦
          let (keys, _, after) =
            claim_new-appends json_size decode_utf8 sha256_hex s given context document_id
              dispatches row is_reconcile call_id (some result) s' (ground (arith, unsent, h3)) in
          subst
            (λ t.
              claim json_size decode_utf8 sha256_hex t (some provider) other document_id
                operation_id false other_id
              ≡ ok (none, t))
            (sym after)
            (ground (
              arith,
              rows-kept s context other document_id dispatches
                  (s.calls ++ new_call s row is_reconcile call_id keys ∷ []) same listed,
              found,
              calls-added s row is_reconcile call_id keys s.calls,
            ))
    ]
