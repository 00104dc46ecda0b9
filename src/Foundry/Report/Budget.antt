-- ===== src/Foundry/Report/Budget.antt =====
-- What an approval can cost.
use apbra.Prelude.{
  ℕ, zero, suc, ◌+◌, ◌*◌, ◌≤◌, ◌<◌, ◌≡◌, refl, sym, subst, ◌&&◌, some, List, [], ◌∷◌, arith, ok,
  require, >>=-eq-ok, map, String,
}
use native.Mathlib.Nat.{mul-le-mul_right}
use apbra.Foundry.Report.Types.{Slot, ReportApproval, authorization_unavailable}
use apbra.Foundry.Report.Approval.{
  Decimals, IsCeiling, money, planned_from, total_of, finite, cap, is_positive, is_planned_report,
  most_attempts,
}
use apbra.Foundry.Report.Reservations.{item, bump, no_attempt}

-- Each slot has been claimed at most as often as it allows.
abbrev pub WithinSlots : List Slot → List ℕ → Type 0
WithinSlots [] [] = Unit
WithinSlots (slot ∷ slots) (n ∷ ns) = (n ≤ slot.attempts) × WithinSlots slots ns
WithinSlots [] (n ∷ ns) = ⊥
WithinSlots (slot ∷ slots) [] = ⊥

pub no_attempts-WithinSlots : (slots : List Slot) → WithinSlots slots (map no_attempt slots)
no_attempts-WithinSlots [] = tt
no_attempts-WithinSlots (slot ∷ slots) = (omega arith, no_attempts-WithinSlots slots)

pub bump-WithinSlots :
    (i : ℕ) (slots : List Slot) (ns : List ℕ) (slot : Slot) (n : ℕ)
    → WithinSlots slots ns
    → item i slots ≡ some slot
    → item i ns ≡ some n
    → n < slot.attempts
    → WithinSlots slots (bump i ns)
bump-WithinSlots i [] ns slot n w hs hn less = cc
bump-WithinSlots i (s ∷ ss) [] slot n w hs hn less = absurd w
bump-WithinSlots zero (s ∷ ss) (m ∷ ms) slot n w hs hn less =
    let same : s ≡ slot = ground arith in
    let same_n : m ≡ n = ground arith in
    (subst (λ t. m + 1 ≤ t.attempts) (sym same) (omega arith), w.1)
bump-WithinSlots (suc i) (s ∷ ss) (m ∷ ms) slot n w hs hn less =
    (w.0, bump-WithinSlots i ss ms slot n w.1 hs hn less)

abbrev pub AllZero : List ℕ → Type 0
AllZero [] = Unit
AllZero (n ∷ ns) = (n ≡ 0) × AllZero ns

-- The slots after the cursor have not been claimed.
abbrev pub ZeroBeyond : ℕ → List ℕ → Type 0
ZeroBeyond cursor [] = Unit
ZeroBeyond zero (n ∷ ns) = AllZero ns
ZeroBeyond (suc cursor) (n ∷ ns) = ZeroBeyond cursor ns

no_attempts-AllZero : (slots : List Slot) → AllZero (map no_attempt slots)
no_attempts-AllZero [] = tt
no_attempts-AllZero (slot ∷ slots) = (refl, no_attempts-AllZero slots)

pub no_attempts-ZeroBeyond : (slots : List Slot) → ZeroBeyond 0 (map no_attempt slots)
no_attempts-ZeroBeyond [] = tt
no_attempts-ZeroBeyond (slot ∷ slots) = no_attempts-AllZero slots

pub bump-ZeroBeyond : (i : ℕ) (ns : List ℕ) → ZeroBeyond i ns → ZeroBeyond i (bump i ns)
bump-ZeroBeyond i [] h = tt
bump-ZeroBeyond zero (n ∷ ns) h = h
bump-ZeroBeyond (suc i) (n ∷ ns) h = bump-ZeroBeyond i ns h

AllZero-ZeroBeyond : (ns : List ℕ) → AllZero ns → ZeroBeyond 0 ns
AllZero-ZeroBeyond [] h = tt
AllZero-ZeroBeyond (n ∷ ns) h = h.1

pub ZeroBeyond-next : (i : ℕ) (ns : List ℕ) → ZeroBeyond i ns → ZeroBeyond (i + 1) ns
ZeroBeyond-next i [] h = tt
ZeroBeyond-next zero (n ∷ ns) h = AllZero-ZeroBeyond ns h
ZeroBeyond-next (suc i) (n ∷ ns) h =
    let same : suc (i + 1) ≡ suc i + 1 = omega arith in
    subst (λ k. ZeroBeyond k (n ∷ ns)) same (ZeroBeyond-next i ns h)

module _ (D : Decimals) (units : D.Amount → ℕ) where
  -- The most that the attempts of the slots may have cost, by the bounds that the approval states.
  abbrev pub spent : List Slot → List ℕ → ℕ
  spent [] ns = 0
  spent (slot ∷ slots) [] = 0
  spent (slot ∷ slots) (n ∷ ns) = n * units (D.of_text slot.all_in_attempt_aud) + spent slots ns

  abbrev pub allowed : List Slot → ℕ
  allowed [] = 0
  allowed (slot ∷ slots) = slot.attempts * units (D.of_text slot.all_in_attempt_aud) + allowed slots

  pub spent-allowed :
      (slots : List Slot) (ns : List ℕ) → WithinSlots slots ns → spent slots ns ≤ allowed slots
  spent-allowed [] ns w = omega arith
  spent-allowed (slot ∷ slots) [] w = omega arith
  spent-allowed (slot ∷ slots) (n ∷ ns) w =
      let here = mul-le-mul_right (units (D.of_text slot.all_in_attempt_aud)) w.0 in
      let rest = spent-allowed slots ns w.1 in omega (arith, here, rest)

  abbrev pub committed : ReportApproval → ℕ
  committed approval =
      units (D.of_text approval.posted_aud)
      + units (D.of_text approval.unposted_exposure_aud)
      + units (D.of_text approval.outstanding_reserves_aud)

  module _ (ceiling : IsCeiling D units) where
    -- The plan covers what the slots allow.
    planned-allowed :
        (maximum : ℕ) (planned total : D.Amount) (slots : List Slot)
        → planned_from D maximum planned slots ≡ ok total
        → units planned + allowed slots ≤ units total
    unfolding planned_from money
    planned-allowed maximum planned total [] h =
        let same : planned ≡ total = ground arith in
        subst (λ t. units planned + 0 ≤ units t) same (omega arith)
    planned-allowed maximum planned total (slot ∷ slots) h =
        let bound = D.of_text slot.all_in_attempt_aud in
        let rest =
          planned-allowed maximum (D.add planned (D.times bound slot.attempts)) total slots
            (ground arith) in
        let sum = ceiling.add_units planned (D.times bound slot.attempts) in
        let product = ceiling.times_units bound slot.attempts in omega (arith, rest, sum, product)

    total_of-units :
        (approval : ReportApproval) (reserve total : D.Amount)
        → total_of D approval reserve ≡ ok total
        → committed approval + units reserve ≤ units total
    unfolding total_of money
    total_of-units approval reserve total h =
        let posted = D.of_text approval.posted_aud in
        let exposure = D.of_text approval.unposted_exposure_aud in
        let outstanding = D.of_text approval.outstanding_reserves_aud in
        let a = ceiling.add_units D.zero posted in
        let b = ceiling.add_units (D.add D.zero posted) exposure in
        let c = ceiling.add_units (D.add (D.add D.zero posted) exposure) outstanding in
        let d =
          ceiling.add_units (D.add (D.add (D.add D.zero posted) exposure) outstanding) reserve in
        let same : D.add (D.add (D.add (D.add D.zero posted) exposure) outstanding) reserve
            ≡ total =
          ground arith in
        subst (λ t. committed approval + units reserve ≤ units t) same (omega (arith, a, b, c, d))

    -- What a validated approval plans, reserves and counts besides is within the cap.
    pub finite-allowed :
        (month : ℕ → String) (now : ℕ) (approval : ReportApproval)
        → finite D month now approval ≡ ok tt
        → allowed approval.slots + committed approval ≤ units (cap D)
    unfolding finite
    finite-allowed month now approval h =
        let (_, _, h6) =
          >>=-eq-ok (require (is_planned_report D month now approval) authorization_unavailable) _
            h in
        let (planned, is_planned, h7) =
          >>=-eq-ok (planned_from D (most_attempts D approval) D.zero approval.slots) _ h6 in
        let (reserve, is_reserve, h8) = >>=-eq-ok (money D approval.chain_reserve_aud) _ h7 in
        let (_, covers, h9) =
          >>=-eq-ok
            (require (D.le planned reserve && is_positive D reserve) authorization_unavailable) _
            h8 in
        let (total, is_total, h10) = >>=-eq-ok (total_of D approval reserve) _ h9 in
        let a =
          planned-allowed (most_attempts D approval) D.zero planned approval.slots is_planned in
        let b = ceiling.le_units planned reserve (ground arith) in
        let c = total_of-units approval reserve total is_total in
        let d = ceiling.le_units total (cap D) (ground arith) in
        omega (arith, a, b, c, d, ceiling.zero_units)
