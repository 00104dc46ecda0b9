-- ===== src/Foundry/Report/Sound.antt =====
-- Whatever the order of the calls, an approval is not exceeded.
use apbra.Prelude.{
  ℕ, ◌+◌, ◌≤◌, ◌<◌, ◌≡◌, refl, sym, ◌∙◌, subst, Option, none, some, arith, ok, >>=-eq-ok,
  Bool-cases, Option-cases, inl, inr, ◌⊎◌, length, opt_eq, opt_eq_iff, String,
}
use apbra.Foundry.Report.Types.{
  Stage, Slot, ProviderProfile, ReportApproval, ReportState, Operation, requirement_analysis,
  report_design,
}
use apbra.Foundry.Report.Approval.{Decimals, IsCeiling, finite, cap, same_input}
use apbra.Foundry.Report.Reservations.{
  Reservations, Reading, fresh, open_reservations, item, bump, claim, may_claim, finish, close,
  learned, expect, advanced,
}
use apbra.Foundry.Report.Budget.{
  WithinSlots, no_attempts-WithinSlots, ZeroBeyond, no_attempts-ZeroBeyond, bump-ZeroBeyond,
  ZeroBeyond-next, bump-WithinSlots, spent, spent-allowed, committed, finite-allowed,
}

-- The reservations of an approval while its calls are made: no slot is exceeded, and a slot is owned
-- only while it is open.
pub record IsSound (approval : ReportApproval) (r : Reservations) : Type 0 where
  pub same : r.approval ≡ approval
  pub within : WithinSlots approval.slots r.attempts
  pub cursor : r.cursor ≤ length approval.slots
  pub owned : (r.owner ≡ none) ⊎ (r.cursor < length approval.slots)
  pub beyond : ZeroBeyond r.cursor r.attempts
  pub counted : length r.finished ≡ r.cursor

fresh-IsSound : (approval : ReportApproval) → IsSound approval (fresh approval)
fresh-IsSound approval = record {
  same = refl;
  within = no_attempts-WithinSlots approval.slots;
  cursor = omega arith;
  owned = inl refl;
  beyond = no_attempts-ZeroBeyond approval.slots;
  counted = refl;
}

-- What a claim that succeeds has found and written.
pub record IsClaim (r : Reservations) (operation : Operation) (r' : Reservations) : Type 0 where
  pub slot : Slot
  pub attempts : ℕ
  pub here : item r.cursor r.approval.slots ≡ some slot
  pub count : item r.cursor r.attempts ≡ some attempts
  pub less : attempts < slot.attempts
  pub left : r.cursor < length r.approval.slots
  pub after : r' ≡ record r { owner = some operation.nonce; attempts = bump r.cursor r.attempts }

pub claim-IsClaim :
    (r : Reservations) (reading : Reading) (operation : Operation) (company : ℕ)
    (profile : ProviderProfile) (r' : Reservations)
    → claim r reading (some operation) company profile ≡ ok r'
    → IsClaim r operation r'
unfolding claim may_claim
claim-IsClaim r reading operation company profile r' h =
    elim (Option-cases (item r.cursor r.approval.slots)) [
      | inl missing ↦ absurd (ground arith)
      | inr (slot, here) ↦ elim (Option-cases (item r.cursor r.attempts)) [
        | inl missing ↦ absurd (ground arith)
        | inr (n, count) ↦ record {
          slot = slot;
          attempts = n;
          here = here;
          count = count;
          less = ground arith;
          left = ground arith;
          after = ground arith;
        }
      ]
    ]

claim-IsSound :
    (approval : ReportApproval) (r : Reservations) (operation : Operation) (r' : Reservations)
    → IsSound approval r
    → IsClaim r operation r'
    → IsSound approval r'
claim-IsSound approval r operation r' s c =
    let here : item r.cursor approval.slots ≡ some c.slot =
      subst (λ a. item r.cursor a.slots ≡ some c.slot) s.same c.here in
    let left : r.cursor < length approval.slots =
      subst (λ a. r.cursor < length a.slots) s.same c.left in
    subst (IsSound approval) (sym c.after) (record {
      same = s.same;
      within =
          bump-WithinSlots r.cursor approval.slots r.attempts c.slot c.attempts s.within here
            c.count c.less;
      cursor = s.cursor;
      owned = inr left;
      beyond = bump-ZeroBeyond r.cursor r.attempts s.beyond;
      counted = s.counted;
    })

expect-IsSound :
    (approval : ReportApproval) (r : Reservations) (loaded : Option ReportState)
    → IsSound approval r
    → IsSound approval (expect r loaded)
expect-IsSound approval r none s = record {
  same = s.same;
  within = s.within;
  cursor = s.cursor;
  owned = s.owned;
  beyond = s.beyond;
  counted = s.counted;
}
expect-IsSound approval r (some state) s = elim (Bool-cases (same_input r.approval state)) [
  | inl same ↦ rw same (record {
    same = s.same;
    within = s.within;
    cursor = s.cursor;
    owned = s.owned;
    beyond = s.beyond;
    counted = s.counted;
  })
  | inr other ↦ rw other s
]

expect-owner : (r : Reservations) (loaded : Option ReportState) → (expect r loaded).owner ≡ r.owner
expect-owner r none = refl
expect-owner r (some state) = ground arith

learned-IsSound :
    (approval : ReportApproval) (stage : Stage) (r : Reservations) (loaded : Option ReportState)
    → IsSound approval r
    → IsSound approval (learned stage r loaded) × ((learned stage r loaded).owner ≡ r.owner)
learned-IsSound approval requirement_analysis r loaded s =
    (expect-IsSound approval r loaded s, expect-owner r loaded)
learned-IsSound approval report_design r loaded s = (s, refl)

advanced-IsSound :
    (approval : ReportApproval) (q : Reservations) (operation : Operation) (n : ℕ)
    → IsSound approval q
    → q.owner ≡ some n
    → IsSound approval (advanced q operation)
advanced-IsSound approval q operation n s owner = record {
  same = s.same;
  within = s.within;
  cursor = elim s.owned [ inl none_ ↦ cc | inr left ↦ omega (arith, left) ];
  owned = inl refl;
  beyond = ZeroBeyond-next q.cursor q.attempts s.beyond;
  counted = omega (arith, s.counted);
}

finish-IsSound :
    (approval : ReportApproval) (r : Reservations) (reading : Reading) (operation : Operation)
    → IsSound approval r
    → IsSound approval (finish r reading operation).0
unfolding finish
finish-IsSound approval r reading operation s =
    elim (Bool-cases (opt_eq r.owner (some operation.nonce))) [
      | inr other ↦ rw other s
      | inl its ↦
          let (sound, owner) = learned-IsSound approval operation.stage r reading.loaded s in
          rw its (
            advanced-IsSound approval (learned operation.stage r reading.loaded) operation
              operation.nonce sound (owner ∙ (opt_eq_iff r.owner (some operation.nonce)).0 its))
    ]

-- One call, by whoever holds the lock.
pub data ReservationStep : Reservations → Reservations → Type 0 where
  claimed :
      (r : Reservations) (reading : Reading) (operation : Operation) (company : ℕ)
      (profile : ProviderProfile) (r' : Reservations)
      → claim r reading (some operation) company profile ≡ ok r'
      → ReservationStep r r'
  finished :
      (r : Reservations) (reading : Reading) (operation : Operation)
      → ReservationStep r (finish r reading operation).0
  closed : (r : Reservations) → ReservationStep r (close r)

pub data ReservationReach (r : Reservations) : Reservations → Type 0 where
  here : ReservationReach r r
  next : {q t : Reservations} → ReservationReach r q → ReservationStep q t → ReservationReach r t

step-IsSound :
    {r t : Reservations} (approval : ReportApproval)
    → IsSound approval r
    → ReservationStep r t
    → IsSound approval t
unfolding close
step-IsSound approval s (claimed r reading operation company profile r' h) =
    claim-IsSound approval r operation r' s (claim-IsClaim r reading operation company profile r' h)
step-IsSound approval s (finished r reading operation) =
    finish-IsSound approval r reading operation s
step-IsSound approval s (closed r) = record {
  same = s.same;
  within = s.within;
  cursor = s.cursor;
  owned = s.owned;
  beyond = s.beyond;
  counted = s.counted;
}

reach-IsSound :
    {r t : Reservations} (approval : ReportApproval)
    → IsSound approval r
    → ReservationReach r t
    → IsSound approval t
reach-IsSound approval s here = s
reach-IsSound approval s (next before step) =
    step-IsSound approval (reach-IsSound approval s before) step

-- Where decimal arithmetic rounds up, and measured in a unit that is fine enough, the attempts that the
-- reservations of a validated approval have claimed cost, at the approval's own bounds and together
-- with the posted, exposed and outstanding amounts, no more than the cap of 10.00.
pub ReservationReach-cap :
    (D : Decimals) (units : D.Amount → ℕ) (month : ℕ → String) (now : ℕ) (approval : ReportApproval)
    (opened r : Reservations)
    → IsCeiling D units
    → open_reservations D month now approval ≡ ok opened
    → ReservationReach opened r
    → spent D units approval.slots r.attempts + committed D units approval ≤ units (cap D)
unfolding open_reservations
ReservationReach-cap D units month now approval opened r ceiling h reach =
    let (_, valid, h1) = >>=-eq-ok (finite D month now approval) _ h in
    let is_fresh : fresh approval ≡ opened = ground arith in
    let s =
      reach-IsSound approval (subst (IsSound approval) is_fresh (fresh-IsSound approval)) reach in
    let a = finite-allowed D units ceiling month now approval valid in
    let b = spent-allowed D units approval.slots r.attempts s.within in omega (arith, a, b)
