-- ===== src/Foundry/Report/Approval.antt =====
-- `money`, the validator `finite` of `ReportApproval`, and `same_input`.
use apbra.Prelude.{
  ℕ, ◌+◌, ◌*◌, ◌≤◌, ◌≡◌, Bool, true, false, not, ◌&&◌, ◌||◌, List, [], ◌∷◌, String, str_eq, ◌==◌,
  ltb, leb, is_none, is_some, ok, ◌>>=◌, ◌>>◌, require, if◌then◌else◌, is_blank,
}
use apbra.Foundry.Report.Types.{
  requirement_analysis, report_design, profile_eq, Slot, confirmed, owner_confirm_pending,
  after_analysis, ReportApproval, ReportState, authorization_unavailable, Report,
}
use Prim.Native.Char.{code}

-- Python's `decimal` under `ROUND_CEILING`: `of_text` is `Decimal` of a text of digits, `le a b` is
-- `a <= b`, and `times a n` is `a * n`.
pub record Decimals : Type 1 where
  pub Amount : Type 0
  pub zero : Amount
  pub of_text : String → Amount
  pub add : Amount → Amount → Amount
  pub times : Amount → ℕ → Amount
  pub le : Amount → Amount → Bool

-- Amounts measured in a unit fine enough for all of them: comparison is exact, and what is rounded up
-- is no less than the exact sum or product.
pub record IsCeiling (D : Decimals) (units : D.Amount → ℕ) : Type 0 where
  pub zero_units : units D.zero ≡ 0
  pub le_units : (a b : D.Amount) → D.le a b ≡ true → units a ≤ units b
  pub add_units : (a b : D.Amount) → units a + units b ≤ units (D.add a b)
  pub times_units : (a : D.Amount) (n : ℕ) → n * units a ≤ units (D.times a n)

abbrev pub is_digit : ℕ → Bool
is_digit c = leb 48 c && leb c 57

-- `[0-9]*` to the end
abbrev pub are_digits : String → Bool
are_digits String.[] = true
are_digits (String.◌∷◌ c s) = is_digit (code c) && are_digits s

-- `[0-9]*(?:\.[0-9]+)?` to the end
abbrev pub is_money_rest : String → Bool
is_money_rest String.[] = true
is_money_rest (String.◌∷◌ c s) =
    let rest = is_money_rest s in
    if is_digit (code c) then rest else (code c == 46 && not (is_blank s) && are_digits s)

-- `re.fullmatch(r"[0-9]+(?:\.[0-9]+)?", value)`
unfoldable pub is_money : String → Bool
is_money String.[] = false
is_money (String.◌∷◌ c s) = is_digit (code c) && is_money_rest s

abbrev pub period : String
period = "2026-10"

-- 2026-11-01 in UTC
abbrev pub budget_end : ℕ
budget_end = 1_793_491_200

module _ (D : Decimals) where
  unfoldable pub money : String → Report D.Amount
  money value = do require (is_money value) authorization_unavailable; ok (D.of_text value)

  abbrev pub is_positive : D.Amount → Bool
  is_positive a = not (D.le a D.zero)

  -- The loop over the slots, with what is planned so far.
  unfoldable pub planned_from : ℕ → D.Amount → List Slot → Report D.Amount
  planned_from maximum planned [] = ok planned
  planned_from maximum planned (slot ∷ slots) = do
    require (leb slot.attempts maximum) authorization_unavailable
    bound ← money slot.all_in_attempt_aud
    require (is_positive bound) authorization_unavailable
    planned_from maximum (D.add planned (D.times bound slot.attempts)) slots

  -- `sequence == ("REPORT_DESIGN",)`
  abbrev pub is_design_only : List Slot → Bool
  is_design_only (slot ∷ []) = elim slot.stage [
    | requirement_analysis ↦ false
    | report_design ↦ true
  ]
  is_design_only _ = false

  abbrev pub is_analysis_first : List Slot → Bool
  is_analysis_first (slot ∷ []) = elim slot.stage [
    | requirement_analysis ↦ true
    | report_design ↦ false
  ]
  is_analysis_first (first ∷ second ∷ []) = elim first.stage [
    | report_design ↦ false
    | requirement_analysis ↦ elim second.stage [
      | requirement_analysis ↦ false
      | report_design ↦ true
    ]
  ]
  is_analysis_first _ = false

  abbrev pub is_mode_allowed : ReportApproval → Bool
  is_mode_allowed approval = elim approval.confirmation_mode [
    | confirmed ↦
        is_some approval.confirmed_contract_id && is_some approval.confirmed_contract_digest
    | owner_confirm_pending ↦
        is_none approval.confirmed_contract_id && is_none approval.confirmed_contract_digest
    | after_analysis ↦ false
  ]

  abbrev pub is_after_analysis : ReportApproval → Bool
  is_after_analysis approval = elim approval.confirmation_mode [
    | after_analysis ↦
        is_none approval.confirmed_contract_id
        && is_none approval.confirmed_contract_digest
        && is_none approval.expected_interpretation_id
        && is_none approval.expected_interpretation_digest
    | _ ↦ false
  ]

  abbrev pub has_expected : ReportApproval → Bool
  has_expected approval =
      is_some approval.expected_interpretation_id && is_some approval.expected_interpretation_digest

  abbrev pub minimum : ℕ → ℕ → ℕ
  minimum a b = if leb a b then a else b

  -- What is posted, exposed, reserved elsewhere and reserved here, added from zero.
  unfoldable pub total_of : ReportApproval → D.Amount → Report D.Amount
  total_of approval reserve = do
    posted ← money approval.posted_aud
    exposure ← money approval.unposted_exposure_aud
    outstanding ← money approval.outstanding_reserves_aud
    ok (D.add (D.add (D.add (D.add D.zero posted) exposure) outstanding) reserve)

  abbrev pub cap : D.Amount
  cap = D.of_text "10.00"

  -- The conditions before the money; `month now` is `time.strftime("%Y-%m", time.gmtime())`.
  unfoldable pub is_planned_report : (ℕ → String) → ℕ → ReportApproval → Bool
  is_planned_report month now approval =
      approval.binding.manual_authentication_approved
      && ltb now approval.binding.authorization_deadline
      && (str_eq approval.ledger_period period && str_eq (month now) period)
      && leb approval.binding.authorization_deadline budget_end
      && (is_design_only approval.slots || is_analysis_first approval.slots)
      && (if is_design_only approval.slots
          then has_expected approval && is_mode_allowed approval
          else is_after_analysis approval)

  abbrev pub most_attempts : ReportApproval → ℕ
  most_attempts approval =
      minimum approval.binding.provider_profile.max_calls_per_operation
        (approval.binding.provider_profile.retry_limit + 1)

  unfoldable pub finite : (ℕ → String) → ℕ → ReportApproval → Report (Unit {0})
  finite month now approval = do
    require (is_planned_report month now approval) authorization_unavailable
    planned ← planned_from (most_attempts approval) D.zero approval.slots
    reserve ← money approval.chain_reserve_aud
    require (D.le planned reserve && is_positive reserve) authorization_unavailable
    total ← total_of approval reserve
    require (D.le total cap) authorization_unavailable

unfoldable pub same_input : ReportApproval → ReportState → Bool
unfolding profile_eq
same_input approval state =
    state.settings_id == approval.settings_id
    && str_eq state.settings_digest approval.settings_digest
    && state.company_id == approval.binding.company_id
    && profile_eq state.profile approval.binding.provider_profile
    && is_none state.secret_reference_id
    && state.case_id == approval.case_id
    && state.request_version_id == approval.request_version_id
    && state.semantic_context_version == approval.semantic_context_version
    && str_eq state.input_digest approval.input_digest
