-- ===== src/Knowledge/Dispatch/Claimed.antt =====
-- What a successful claim adds to the ledger.
use apbra.Prelude.{
  ℕ, ◌≡◌, subst, Bool, true, not, ◌&&◌, Option, some, List, [], ◌∷◌, ◌++◌, String, ◌==◌, arith, ok,
  require, some_or, >>=-eq-ok, Bool-cases, inl, inr, ◌⊎◌, find, filter, any, is_empty, is_some,
  if◌then◌else◌,
}
use apbra.Knowledge.Dispatch.Types.{
  Submission, KnowledgeProvider, KnowledgeDispatchRow, DispatchStore, DraftContext,
  provider_unconfigured, protected_resource_not_found, integrity_error, nothing_sent,
}
use apbra.Knowledge.Dispatch.Summary.{calls}
use apbra.Knowledge.Dispatch.Service.{rows, document, decode, is_dispatch_in}
use apbra.Knowledge.Dispatch.Claims.{
  claim, claim_call, keys_of, is_row, new_call, may_send, claim_new, submission_of,
}

-- What a claim that is made adds.
pub record IsClaim (s : DispatchStore) (company_id document_id operation_id : ℕ)
    (is_reconcile : Bool) (s' : DispatchStore) : Type 0 where
  pub row : KnowledgeDispatchRow
  pub call_id : ℕ
  pub keys : List String
  pub found :
      find (is_row operation_id) (filter (is_dispatch_in company_id document_id) s.dispatches)
      ≡ some row
  pub first : (is_reconcile ≡ true) ⊎ (is_empty (calls s row) ≡ true)
  pub after : s' ≡ record s { calls = s.calls ++ new_call s row is_reconcile call_id keys ∷ [] }

module _ (json_size : List String → ℕ) (decode_utf8 : List ℕ → Option String)
    (sha256_hex : List ℕ → String) where
  claim_call-appends :
      (s : DispatchStore) (provider : KnowledgeProvider) (context : DraftContext)
      (row : KnowledgeDispatchRow) (is_reconcile : Bool) (call_id : ℕ)
      (claimed : Option (Submission × ℕ × List String)) (s' : DispatchStore)
      → claim_call json_size decode_utf8 sha256_hex s provider context row is_reconcile call_id
        ≡ ok (claimed, s')
      → (keys : List String) × (is_some claimed ≡ true)
        × (s' ≡ record s { calls = s.calls ++ new_call s row is_reconcile call_id keys ∷ [] })
  unfolding claim_call
  claim_call-appends s provider context row is_reconcile call_id claimed s' h =
      let (revision_row, _, h1) =
        >>=-eq-ok (some_or (find (λ r. r.id == row.revision_id) s.revisions) _) _ h in
      let (texts, _, h2) = >>=-eq-ok (decode decode_utf8 sha256_hex revision_row) _ h1 in
      let (keys, _, h3) =
        >>=-eq-ok (keys_of json_size provider context (submission_of row texts) (calls s row)) _
          h2 in
      let (_, _, h4) =
        >>=-eq-ok (require (not (any (λ old. old.id == call_id) s.calls)) integrity_error) _ h3 in
      (keys, ground (arith, h4), ground (arith, h4))

  pub claim_new-appends :
      (s : DispatchStore) (provider : KnowledgeProvider) (context : DraftContext) (document_id : ℕ)
      (dispatches : List KnowledgeDispatchRow) (row : KnowledgeDispatchRow) (is_reconcile : Bool)
      (call_id : ℕ) (claimed : Option (Submission × ℕ × List String)) (s' : DispatchStore)
      → claim_new json_size decode_utf8 sha256_hex s provider context document_id dispatches row
          is_reconcile call_id
        ≡ ok (claimed, s')
      → (keys : List String) × (is_some claimed ≡ true)
        × (s' ≡ record s { calls = s.calls ++ new_call s row is_reconcile call_id keys ∷ [] })
  unfolding claim_new
  claim_new-appends s provider context document_id dispatches row is_reconcile call_id claimed s'
        h =
      let (_, _, h1) =
        >>=-eq-ok (require (not (is_reconcile && is_empty (calls s row))) nothing_sent) _ h in
      let (document_row, _, h2) = >>=-eq-ok (document s context.actor document_id) _ h1 in
      let (_, _, h3) =
        >>=-eq-ok (if is_reconcile then ok tt else may_send s context document_row dispatches row) _
          h2 in
      claim_call-appends s provider context row is_reconcile call_id claimed s' h3

  pub claim-IsClaim :
      (s : DispatchStore) (configured : Option KnowledgeProvider) (context : DraftContext)
      (document_id operation_id : ℕ) (is_reconcile : Bool) (call_id : ℕ)
      (claimed : Submission × ℕ × List String) (s' : DispatchStore)
      → claim json_size decode_utf8 sha256_hex s configured context document_id operation_id
          is_reconcile call_id
        ≡ ok (some claimed, s')
      → IsClaim s context.actor.company_id document_id operation_id is_reconcile s'
  unfolding claim rows
  claim-IsClaim s configured context document_id operation_id is_reconcile call_id claimed s' h =
      let (dispatches, listed, h1) = >>=-eq-ok (rows s context document_id) _ h in
      let (row, found, h2) =
        >>=-eq-ok (some_or (find (is_row operation_id) dispatches) protected_resource_not_found) _
          h1 in
      let (provider, _, h3) = >>=-eq-ok (some_or configured provider_unconfigured) _ h2 in
      let its : dispatches
          ≡ filter (is_dispatch_in context.actor.company_id document_id) s.dispatches =
        ground (arith, listed) in
      let found' : find (is_row operation_id)
            (filter (is_dispatch_in context.actor.company_id document_id) s.dispatches)
          ≡ some row =
        subst (λ ds. find (is_row operation_id) ds ≡ some row) its (ground (arith, found)) in
      elim (Bool-cases (not (is_empty (calls s row)) && not is_reconcile)) [
        | inl sent ↦ absurd (ground (arith, sent, h3))
        | inr unsent ↦
            let (keys, _, after) =
              claim_new-appends s provider context document_id dispatches row is_reconcile call_id
                (some claimed) s' (ground (arith, unsent, h3)) in
            record {
              row = row;
              call_id = call_id;
              keys = keys;
              found = found';
              first = elim (Bool-cases is_reconcile) [
                | inl yes_ ↦ inl yes_
                | inr no_ ↦ inr (ground (arith, unsent, no_))
              ];
              after = after;
            }
      ]
