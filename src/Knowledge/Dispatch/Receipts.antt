-- ===== src/Knowledge/Dispatch/Receipts.antt =====
-- What is received once stays received.
use apbra.Prelude.{
  ℕ, ◌≡◌, refl, sym, ◌∙◌, subst, Bool, true, Option, some, List, [], ◌∷◌, ◌++◌, String, str_eq,
  eq_iff, ◌==◌, ==_refl, arith, ok, err, Bool-cases, Option-cases, inl, inr, find, find-append,
  if◌then◌else◌,
}
use apbra.Knowledge.Dispatch.Types.{
  ProviderResult, KnowledgeDispatchRow, KnowledgeDispatchCallRow, KnowledgeDispatchReceiptRow,
  DispatchStore, receipt_conflict,
}
use apbra.Knowledge.Dispatch.Summary.{receipt, is_receipt_of, Normalized, normalize}
use apbra.Knowledge.Dispatch.Claims.{complete, is_row, new_receipt, receipt_digest}

module _ (receipt_sha256 : Normalized → Option (List (String × Bool)) → String) where
  -- A completion leaves the one receipt of its call, with the digest of a result that it accepted.
  complete-receipt :
      (s : DispatchStore) (call_id : ℕ) (result : Option ProviderResult) (new_id : ℕ)
      (s' : DispatchStore) (call : KnowledgeDispatchCallRow) (row : KnowledgeDispatchRow)
      → find (λ c. c.id == call_id) s.calls ≡ some call
      → find (is_row call.dispatch_id) s.dispatches ≡ some row
      → row.company_id ≡ call.company_id
      → complete receipt_sha256 s call_id result new_id ≡ ok s'
      → (received : KnowledgeDispatchReceiptRow) × (receipt s' call ≡ some received)
        × (received.payload_digest ≡ receipt_digest receipt_sha256 row call result)
        × (s'.calls ≡ s.calls)
        × (s'.dispatches ≡ s.dispatches)
  unfolding complete receipt
  complete-receipt s call_id result new_id s' call row found listed scoped h =
      elim (Option-cases (receipt s call)) [
        | inr (existing, received) ↦
            let same : s' ≡ s = ground arith in
            let agrees : str_eq existing.payload_digest
                  (receipt_digest receipt_sha256 row call result)
                ≡ true =
              ground arith in
            (
              existing,
              subst (λ (t : DispatchStore). find (is_receipt_of call) t.receipts ≡ some existing)
                  (sym same) received,
              (eq_iff _ _).0 agrees,
              cc,
              cc,
            )
        | inl none_yet ↦
            let new =
              new_receipt new_id row call (normalize row call result)
                (receipt_digest receipt_sha256 row call result) in
            let after : s' ≡ record s { receipts = s.receipts ++ new ∷ [] } =
              ground (arith, none_yet, found, listed, h) in
            (
              new,
              subst (λ (t : DispatchStore). find (is_receipt_of call) t.receipts ≡ some new)
                  (sym after)
                  (find-append (is_receipt_of call) s.receipts (new ∷ []) none_yet
                    ∙ ground (arith, ==_refl call.id, scoped)),
              refl,
              cc,
              cc,
            )
      ]

  -- A result is received once: with the call and its dispatch of one company, completing the call again
  -- changes nothing where the result has the digest of the first, and is refused as a conflict otherwise.
  pub complete-repeat :
      (s : DispatchStore) (call_id : ℕ) (result : Option ProviderResult) (new_id : ℕ)
      (s' : DispatchStore) (call : KnowledgeDispatchCallRow) (row : KnowledgeDispatchRow)
      (other : Option ProviderResult) (other_id : ℕ)
      → find (λ c. c.id == call_id) s.calls ≡ some call
      → find (is_row call.dispatch_id) s.dispatches ≡ some row
      → row.company_id ≡ call.company_id
      → complete receipt_sha256 s call_id result new_id ≡ ok s'
      → complete receipt_sha256 s' call_id other other_id ≡ (
          if str_eq
            (receipt_digest receipt_sha256 row call result)
            (receipt_digest receipt_sha256 row call other)
          then ok s'
          else err receipt_conflict)
  unfolding complete
  complete-repeat s call_id result new_id s' call row other other_id found listed scoped h =
      let (received, stored, digest, kept_calls, kept_rows) =
        complete-receipt s call_id result new_id s' call row found listed scoped h in
      let found' =
        subst (λ cs. find (λ c. c.id == call_id) cs ≡ some call) (sym kept_calls) found in
      let listed' =
        subst (λ ds. find (is_row call.dispatch_id) ds ≡ some row) (sym kept_rows) listed in
      subst
        (λ d. complete receipt_sha256 s' call_id other other_id ≡ (
          if str_eq d (receipt_digest receipt_sha256 row call other)
          then ok s'
          else err receipt_conflict))
        digest
        (elim (Bool-cases
          (str_eq received.payload_digest (receipt_digest receipt_sha256 row call other))) [
            | inl same ↦ ground (arith, found', listed', stored, same)
            | inr other_ ↦ ground (arith, found', listed', stored, other_)
          ])
