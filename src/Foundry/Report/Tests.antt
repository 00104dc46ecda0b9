-- ===== src/Foundry/Report/Tests.antt =====
-- An approval of an analysis and a design, a run of its reservations, and the theorems at that run.
use apbra.Prelude.{
  ℕ, ◌+◌, ◌*◌, ◌≤◌, ◌≡◌, refl, true, false, none, some, [], ◌∷◌, arith, ok, String, leb, ◌-◌,
}
use Prim.Native.Char.{code}
use apbra.Store.Samples.{value_or}
use apbra.Foundry.Report.Types.{
  requirement_analysis, report_design, ProviderProfile, profile_eq, after_analysis, ReportApproval,
  ReportState, Operation,
}
use apbra.Foundry.Report.Approval.{
  Decimals, IsCeiling, money, is_money, planned_from, total_of, is_planned_report, finite,
  same_input, cap,
}
use apbra.Foundry.Report.Reservations.{
  Reservations, Reading, fresh, open_reservations, claim, may_claim, is_stage_ready, finish,
}
use apbra.Foundry.Report.Budget.{spent, committed}
use apbra.Foundry.Report.Sound.{
  ReservationReach, here, next, claimed, finished, ReservationReach-cap,
}

-- Amounts with two decimals, as cents.
abbrev cents_from : ℕ → String → ℕ
cents_from n String.[] = n
cents_from n (String.◌∷◌ c s) = elim (leb 48 (code c)) [
  | true ↦ cents_from (n * 10 + code c - 48) s
  | false ↦ cents_from n s
]

abbrev cents : Decimals
cents = record {
  Amount = ℕ;
  zero = 0;
  of_text = cents_from 0;
  add = ◌+◌;
  times = λ a n. n * a;
  le = leb;
}

abbrev same : ℕ → ℕ
same n = n

cents-IsCeiling : IsCeiling cents same
cents-IsCeiling = record {
  zero_units = refl;
  le_units = λ a b h. ground arith;
  add_units = λ a b. omega arith;
  times_units = λ a n. omega arith;
}

abbrev profile : ProviderProfile
profile = record {
  profile_id = "p";
  protocol = "FOUNDRY_AGENT_RESPONSES";
  endpoint = "e";
  model_or_deployment = "m";
  api_version = "v1";
  agent_version = none;
  region = "r";
  prompt_version = "1";
  configuration_id = "c";
  capabilities = record { structured_output = true; vision = false };
  max_calls_per_operation = 2;
  max_input_characters = 1000;
  max_output_tokens = 128;
  time_budget_seconds = 10;
  request_timeout_seconds = 5;
  retry_limit = 1;
}

abbrev approval : ReportApproval
approval = record {
  binding = record {
    company_id = 3;
    tenant_id = 4;
    client_id = 5;
    provider_profile = profile;
    manual_authentication_approved = true;
    authorization_deadline = 1_793_000_000;
  };
  case_id = 20;
  settings_id = 90;
  settings_digest = "s";
  request_version_id = 30;
  semantic_context_version = 1;
  input_digest = "i";
  confirmed_contract_id = none;
  confirmed_contract_digest = none;
  expected_interpretation_id = none;
  expected_interpretation_digest = none;
  confirmation_mode = after_analysis;
  authorization_id = "a";
  ledger_period = "2026-10";
  ledger_evidence_digest = "l";
  posted_aud = "1.00";
  unposted_exposure_aud = "0.50";
  outstanding_reserves_aud = "0.00";
  chain_reserve_aud = "8.00";
  slots =
      record {
        stage = requirement_analysis;
        attempts = 2;
        all_in_attempt_aud = "2.00";
        bound_evidence_digest = "b";
      }
      ∷ record {
        stage = report_design;
        attempts = 1;
        all_in_attempt_aud = "3.00";
        bound_evidence_digest = "b";
      }
      ∷ [];
}

abbrev october : ℕ → String
october now = "2026-10"

abbrev before_analysis : ReportState
before_analysis = record {
  settings_id = 90;
  settings_digest = "s";
  company_id = 3;
  profile = profile;
  secret_reference_id = none;
  case_id = 20;
  request_version_id = 30;
  semantic_context_version = 1;
  input_digest = "i";
  interpretation_id = none;
  interpretation_digest = none;
  confirmed_contract_id = none;
  confirmed_interpretation_id = none;
  confirmed_digest = none;
  confirmed_contract_digest = none;
}

abbrev analysed : ReportState
analysed = record before_analysis { interpretation_id = some 40; interpretation_digest = some "d" }

abbrev confirmed_state : ReportState
confirmed_state = record analysed {
  confirmed_contract_id = some 50;
  confirmed_interpretation_id = some 40;
  confirmed_digest = some "d";
  confirmed_contract_digest = some "k";
}

abbrev reading : ReportState → Reading
reading state = record { now = 1_792_000_000; month = "2026-10"; valid = true; loaded = some state }

abbrev analysis : Operation
analysis = record { case_id = 20; stage = requirement_analysis; nonce = 1; completed = false }

abbrev design : Operation
design = record { case_id = 20; stage = report_design; nonce = 2; completed = false }

abbrev opened : Reservations
opened = fresh approval

abbrev paid : Reservations
paid = value_or opened (claim opened (reading before_analysis) (some analysis) 3 profile)

abbrev learned_state : Reservations
learned_state = (finish paid (reading analysed) analysis).0

abbrev designed : Reservations
designed = value_or opened (claim learned_state (reading confirmed_state) (some design) 3 profile)

open-approval : open_reservations cents october 1_792_000_000 approval ≡ ok opened
unfolding open_reservations finite is_planned_report planned_from total_of money is_money
open-approval = refl

claim-analysis : claim opened (reading before_analysis) (some analysis) 3 profile ≡ ok paid
unfolding claim may_claim is_stage_ready same_input profile_eq
claim-analysis = refl

claim-confirmed :
    claim learned_state (reading confirmed_state) (some design) 3 profile ≡ ok designed
unfolding claim may_claim is_stage_ready same_input profile_eq finish
claim-confirmed = refl

reached : ReservationReach opened designed
reached =
    next
      (next
        (next here
          (claimed opened (reading before_analysis) analysis 3 profile paid claim-analysis))
        (finished paid (reading analysed) analysis))
      (claimed learned_state (reading confirmed_state) design 3 profile designed claim-confirmed)

ReservationReach-cap_example :
    spent cents same approval.slots designed.attempts + committed cents same approval ≤ cap cents
ReservationReach-cap_example =
    ReservationReach-cap cents same october 1_792_000_000 approval opened designed cents-IsCeiling
      open-approval reached

same_input-analysed : same_input approval analysed ≡ true
unfolding same_input profile_eq
same_input-analysed = refl
