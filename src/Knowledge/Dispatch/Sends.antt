-- ===== src/Knowledge/Dispatch/Sends.antt =====
-- No dispatch is sent twice.
use apbra.Prelude.{
  ℕ, ◌≤◌, ◌≡◌, refl, sym, subst, Bool, true, false, not, ◌&&◌, Option, none, some, List, [], ◌∷◌,
  ◌++◌, String, ◌==◌, arith, ok, some_or, >>=-eq-ok, Bool-cases, Option-cases, inl, inr, ◌⊎◌, find,
  filter, count, count-append, is_empty,
}
use apbra.Knowledge.Dispatch.Types.{
  Submission, ProviderResult, KnowledgeProvider, CallKind, send, reconcile, KnowledgeDispatchRow,
  KnowledgeDispatchCallRow, DispatchStore, DraftContext, Payload, provider_unconfigured,
  protected_resource_not_found,
}
use apbra.Knowledge.Dispatch.Summary.{calls, receipt, is_call_of, DispatchSummary, Normalized}
use apbra.Knowledge.Dispatch.Service.{rows, document, dispatch_by_key, prepare}
use apbra.Knowledge.Dispatch.Claims.{claim, complete, is_row, new_call}
use apbra.Knowledge.Dispatch.Claimed.{claim_new-appends, claim-IsClaim}

abbrev pub is_send : CallKind → Bool
is_send send = true
is_send reconcile = false

abbrev pub is_send_of : ℕ → ℕ → KnowledgeDispatchCallRow → Bool
is_send_of dispatch_id company_id call =
    call.dispatch_id == dispatch_id && call.company_id == company_id && is_send call.kind

abbrev pub AtMostOneSend : DispatchStore → Type 0
AtMostOneSend s =
    (dispatch_id company_id : ℕ) → count (is_send_of dispatch_id company_id) s.calls ≤ 1

no_calls-no_sends :
    (row : KnowledgeDispatchRow) (xs : List KnowledgeDispatchCallRow)
    → is_empty (filter (is_call_of row) xs) ≡ true
    → count (is_send_of row.id row.company_id) xs ≡ 0
no_calls-no_sends row [] h = refl
no_calls-no_sends row (x ∷ xs) h = elim (Bool-cases (is_call_of row x)) [
  | inl its ↦ cc (rw its at h)
  | inr other ↦
      let rest = no_calls-no_sends row xs (rw other at h) in
      let no_send : is_send_of row.id row.company_id x ≡ false = ground arith in
      ground (arith, rest, no_send)
]

-- The sends of a dispatch after a claim.
new_call-sends :
    (s : DispatchStore) (row : KnowledgeDispatchRow) (is_reconcile : Bool) (call_id : ℕ)
    (keys : List String) (dispatch_id company_id : ℕ)
    → (is_reconcile ≡ true) ⊎ (is_empty (calls s row) ≡ true)
    → count (is_send_of dispatch_id company_id) s.calls ≤ 1
    → count
        (is_send_of dispatch_id company_id)
        (s.calls ++ new_call s row is_reconcile call_id keys ∷ [])
      ≤ 1
unfolding calls
new_call-sends s row is_reconcile call_id keys dispatch_id company_id (inl again) most =
    let total =
      count-append (is_send_of dispatch_id company_id) s.calls
        (new_call s row is_reconcile call_id keys ∷ []) in
    ground (arith, total, again, most)
new_call-sends s row is_reconcile call_id keys dispatch_id company_id (inr unsent) most =
    let total =
      count-append (is_send_of dispatch_id company_id) s.calls
        (new_call s row is_reconcile call_id keys ∷ []) in
    let zero_sends = no_calls-no_sends row s.calls unsent in
    elim (Bool-cases (row.id == dispatch_id && row.company_id == company_id)) [
      | inl its ↦
          let same_id : row.id ≡ dispatch_id = ground arith in
          let same_company : row.company_id ≡ company_id = ground arith in
          let zero_here : count (is_send_of dispatch_id company_id) s.calls ≡ 0 =
            subst (λ d. count (is_send_of d company_id) s.calls ≡ 0) same_id
              (subst (λ c. count (is_send_of row.id c) s.calls ≡ 0) same_company zero_sends) in
          ground (arith, total, zero_here)
      | inr other ↦ ground (arith, total, other, most)
    ]

-- One committed call of a service: what the provider, the clock and the digests give is free.
pub data DispatchStep : DispatchStore → DispatchStore → Type 0 where
  prepared :
      (payload_sha256 : Payload → ℕ → ℕ → String) (s : DispatchStore) (context : DraftContext)
      (document_id key : ℕ) (payload : Payload) (new_id : ℕ) (result : DispatchSummary)
      (s' : DispatchStore)
      → prepare payload_sha256 s context document_id key payload new_id ≡ ok (result, s')
      → DispatchStep s s'
  claimed :
      (json_size : List String → ℕ) (decode_utf8 : List ℕ → Option String)
      (sha256_hex : List ℕ → String) (s : DispatchStore) (configured : Option KnowledgeProvider)
      (context : DraftContext) (document_id operation_id : ℕ) (is_reconcile : Bool) (call_id : ℕ)
      (result : Option (Submission × ℕ × List String)) (s' : DispatchStore)
      → claim json_size decode_utf8 sha256_hex s configured context document_id operation_id
          is_reconcile call_id
        ≡ ok (result, s')
      → DispatchStep s s'
  completed :
      (receipt_sha256 : Normalized → Option (List (String × Bool)) → String) (s : DispatchStore)
      (call_id : ℕ) (result : Option ProviderResult) (new_id : ℕ) (s' : DispatchStore)
      → complete receipt_sha256 s call_id result new_id ≡ ok s'
      → DispatchStep s s'

pub data DispatchReach (s : DispatchStore) : DispatchStore → Type 0 where
  here : DispatchReach s s
  next : {t u : DispatchStore} → DispatchReach s t → DispatchStep t u → DispatchReach s u

prepare-calls :
    (payload_sha256 : Payload → ℕ → ℕ → String) (s : DispatchStore) (context : DraftContext)
    (document_id key : ℕ) (payload : Payload) (new_id : ℕ) (result : DispatchSummary)
    (s' : DispatchStore)
    → prepare payload_sha256 s context document_id key payload new_id ≡ ok (result, s')
    → s'.calls ≡ s.calls
unfolding prepare
prepare-calls payload_sha256 s context document_id key payload new_id result s' h =
    let (document_row, _, h1) = >>=-eq-ok (document s context.actor document_id) _ h in
    let (dispatches, _, h2) = >>=-eq-ok (rows s context document_id) _ h1 in
    elim (Option-cases (dispatch_by_key s context.actor key)) [
      | inr (existing, found) ↦ ground (arith, h2, found)
      | inl fresh ↦ ground (arith, h2, fresh)
    ]

complete-calls :
    (receipt_sha256 : Normalized → Option (List (String × Bool)) → String) (s : DispatchStore)
    (call_id : ℕ) (result : Option ProviderResult) (new_id : ℕ) (s' : DispatchStore)
    → complete receipt_sha256 s call_id result new_id ≡ ok s'
    → s'.calls ≡ s.calls
unfolding complete
complete-calls receipt_sha256 s call_id result new_id s' h =
    elim (Option-cases (find (λ c. c.id == call_id) s.calls)) [
      | inl missing ↦ absurd (ground arith)
      | inr (call, found) ↦ elim (Option-cases (find (is_row call.dispatch_id) s.dispatches)) [
        | inl missing ↦ absurd (ground arith)
        | inr (row, listed) ↦ elim (Option-cases (receipt s call)) [
          | inl none_yet ↦ ground arith
          | inr (existing, received) ↦ ground arith
        ]
      ]
    ]

-- A claim that is answered by `None` changes nothing.
claim-none :
    (json_size : List String → ℕ) (decode_utf8 : List ℕ → Option String)
    (sha256_hex : List ℕ → String) (s : DispatchStore) (configured : Option KnowledgeProvider)
    (context : DraftContext) (document_id operation_id : ℕ) (is_reconcile : Bool) (call_id : ℕ)
    (s' : DispatchStore)
    → claim json_size decode_utf8 sha256_hex s configured context document_id operation_id
        is_reconcile call_id
      ≡ ok (none, s')
    → s'.calls ≡ s.calls
unfolding claim
claim-none json_size decode_utf8 sha256_hex s configured context document_id operation_id
      is_reconcile call_id s' h =
    let (dispatches, _, h1) = >>=-eq-ok (rows s context document_id) _ h in
    let (row, _, h2) =
      >>=-eq-ok (some_or (find (is_row operation_id) dispatches) protected_resource_not_found) _
        h1 in
    let (provider, _, h3) = >>=-eq-ok (some_or configured provider_unconfigured) _ h2 in
    elim (Bool-cases (not (is_empty (calls s row)) && not is_reconcile)) [
      | inl sent ↦ ground (arith, sent, h3)
      | inr unsent ↦
          let (_, made, _) =
            claim_new-appends json_size decode_utf8 sha256_hex s provider context document_id
              dispatches row is_reconcile call_id none s' (ground (arith, unsent, h3)) in
          cc
    ]

-- Every call of the services leaves at most one send of each dispatch.
step-AtMostOneSend : {s s' : DispatchStore} → AtMostOneSend s → DispatchStep s s' → AtMostOneSend s'
step-AtMostOneSend most (prepared f s context document_id key payload new_id result s' h) d co =
    subst (λ cs. count (is_send_of d co) cs ≤ 1)
      (sym (prepare-calls f s context document_id key payload new_id result s' h)) (most d co)
step-AtMostOneSend most (completed f s call_id result new_id s' h) d co =
    subst (λ cs. count (is_send_of d co) cs ≤ 1)
      (sym (complete-calls f s call_id result new_id s' h)) (most d co)
step-AtMostOneSend most
      (claimed f g k s configured context document_id operation_id is_reconcile call_id none s' h) d
      co =
    subst (λ cs. count (is_send_of d co) cs ≤ 1)
      (sym
        (claim-none f g k s configured context document_id operation_id is_reconcile call_id s' h))
      (most d co)
step-AtMostOneSend most
      (claimed f g k s configured context document_id operation_id is_reconcile call_id
        (some x)
        s'
        h)
      d co =
    let c =
      claim-IsClaim f g k s configured context document_id operation_id is_reconcile call_id x s'
        h in
    subst (λ t. count (is_send_of d co) t.calls ≤ 1) (sym c.after)
      (new_call-sends s c.row is_reconcile c.call_id c.keys d co c.first (most d co))

-- In every store that the services reach from one without calls, each dispatch has been claimed for
-- a send at most once.
pub DispatchReach-AtMostOneSend :
    (s t : DispatchStore) → s.calls ≡ [] → DispatchReach s t → AtMostOneSend t
DispatchReach-AtMostOneSend s t empty here d co =
    subst (λ cs. count (is_send_of d co) cs ≤ 1) (sym empty) (omega arith)
DispatchReach-AtMostOneSend s t empty (next before step) d co =
    step-AtMostOneSend (DispatchReach-AtMostOneSend s _ empty before) step d co
