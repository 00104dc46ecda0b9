-- ===== src/Foundry/Report/Reservations.antt =====
-- `Reservations`: one object that every call changes under its lock, so each call is a step. The
-- callbacks `valid` and `state_loader` and the clock are read at each call; a loader that raises is
-- `none`.
use apbra.Prelude.{
  ℕ, zero, suc, ◌+◌, Bool, true, false, not, ◌&&◌, ◌||◌, Option, none, some, List, [], ◌∷◌, String,
  str_eq, ◌==◌, ltb, opt_eq, is_none, is_some, ok, ◌>>=◌, ◌>>◌, require, some_or, contains, length,
  map, if◌then◌else◌,
}
use apbra.Foundry.Report.Types.{
  Stage, requirement_analysis, report_design, stage_eq, ProviderProfile, profile_eq, opt_str_eq,
  Slot, ReportApproval, ReportState, Operation, authorization_unavailable, Report,
}
use apbra.Foundry.Report.Approval.{same_input, period, Decimals, finite}

pub record Reservations : Type 0 where
  pub approval : ReportApproval
  pub expected_interpretation : Option ℕ
  pub expected_digest : Option String
  pub closed : Bool
  pub cursor : ℕ
  pub owner : Option ℕ
  pub attempts : List ℕ
  pub finished : List ℕ

-- What a call reads of its surroundings.
pub record Reading : Type 0 where
  pub now : ℕ
  pub month : String
  pub valid : Bool
  pub loaded : Option ReportState

abbrev pub no_attempt : Slot → ℕ
no_attempt slot = 0

abbrev pub fresh : ReportApproval → Reservations
fresh approval = record {
  approval = approval;
  expected_interpretation = approval.expected_interpretation_id;
  expected_digest = approval.expected_interpretation_digest;
  closed = false;
  cursor = 0;
  owner = none;
  attempts = map no_attempt approval.slots;
  finished = [];
}

-- The constructor validates the approval once more.
unfoldable pub open_reservations :
    (D : Decimals) → (ℕ → String) → ℕ → ReportApproval → Report Reservations
open_reservations D month now approval = do finite D month now approval; ok (fresh approval)

-- `xs[i]`
abbrev pub item {ℓ} : {A : Type ℓ} → ℕ → List A → Option A
item i [] = none
item zero (x ∷ xs) = some x
item (suc i) (x ∷ xs) = item i xs

-- `xs[i] += 1`
abbrev pub bump : ℕ → List ℕ → List ℕ
bump i [] = []
bump zero (x ∷ xs) = (x + 1) ∷ xs
bump (suc i) (x ∷ xs) = x ∷ bump i xs

abbrev pub is_same_input : ReportApproval → Option ReportState → Bool
is_same_input approval none = false
is_same_input approval (some state) = same_input approval state

unfoldable pub current_state : Reservations → Reading → Bool
current_state r reading =
    not r.closed
    && str_eq reading.month period
    && ltb reading.now r.approval.binding.authorization_deadline
    && reading.valid
    && is_same_input r.approval reading.loaded

unfoldable pub connected : Reservations → Reading → Bool
unfolding current_state
connected r reading = current_state r reading

unfoldable pub ready : Reservations → Reading → Bool
unfolding current_state
ready r reading = ltb r.cursor (length r.approval.slots) && current_state r reading

-- the first condition of `claim`
unfoldable pub may_claim : Reservations → Reading → Operation → ℕ → ProviderProfile → Bool
may_claim r reading operation company profile =
    not r.closed
    && reading.valid
    && str_eq reading.month period
    && ltb reading.now r.approval.binding.authorization_deadline
    && company == r.approval.binding.company_id
    && profile_eq profile r.approval.binding.provider_profile
    && operation.case_id == r.approval.case_id
    && not operation.completed
    && not (contains operation.nonce r.finished)
    && ltb r.cursor (length r.approval.slots)

-- what the state must show for a claim of the stage
unfoldable pub is_stage_ready : Reservations → Stage → ReportState → Bool
is_stage_ready r requirement_analysis state = is_none state.interpretation_id
is_stage_ready r report_design state =
    is_some r.expected_interpretation
    && is_some r.expected_digest
    && opt_eq state.interpretation_id r.expected_interpretation
    && opt_str_eq state.interpretation_digest r.expected_digest
    && opt_eq state.confirmed_interpretation_id r.expected_interpretation
    && opt_str_eq state.confirmed_digest r.expected_digest
    && is_some state.confirmed_contract_id
    && is_some state.confirmed_contract_digest
    && (is_none r.approval.confirmed_contract_id
        || opt_eq state.confirmed_contract_id r.approval.confirmed_contract_id
          && opt_str_eq state.confirmed_contract_digest r.approval.confirmed_contract_digest)

abbrev pub may_own : Option ℕ → Operation → Bool
may_own owner operation = is_none owner || opt_eq owner (some operation.nonce)

-- `CURRENT.get()` is the operation, where there is one.
unfoldable pub claim :
    Reservations → Reading → Option Operation → ℕ → ProviderProfile → Report Reservations
claim r reading context company profile = do
  operation ← some_or context authorization_unavailable
  require (may_claim r reading operation company profile) authorization_unavailable
  slot ← some_or (item r.cursor r.approval.slots) authorization_unavailable
  require (stage_eq operation.stage slot.stage) authorization_unavailable
  state ← some_or reading.loaded authorization_unavailable
  require (same_input r.approval state) authorization_unavailable
  require (is_stage_ready r slot.stage state) authorization_unavailable
  require (may_own r.owner operation) authorization_unavailable
  attempts ← some_or (item r.cursor r.attempts) authorization_unavailable
  require (ltb attempts slot.attempts) authorization_unavailable
  ok (record r { owner = some operation.nonce; attempts = bump r.cursor r.attempts })

-- After an analysis its stored interpretation is the one that a design must use.
abbrev pub expect : Reservations → Option ReportState → Reservations
expect r none = record r { closed = true }
expect r (some state) =
    if same_input r.approval state
    then record r {
      expected_interpretation = state.interpretation_id;
      expected_digest = state.interpretation_digest;
    }
    else r

abbrev pub learned : Stage → Reservations → Option ReportState → Reservations
learned requirement_analysis r loaded = expect r loaded
learned report_design r loaded = r

abbrev pub retired : Operation → Operation
retired operation = record operation { completed = true }

abbrev pub advanced : Reservations → Operation → Reservations
advanced r operation = record r {
  finished = operation.nonce ∷ r.finished;
  owner = none;
  cursor = r.cursor + 1;
}

unfoldable pub finish : Reservations → Reading → Operation → Reservations × Operation
finish r reading operation = (
  (if opt_eq r.owner (some operation.nonce)
      then advanced (learned operation.stage r reading.loaded) operation
      else r),
  retired operation,
)

unfoldable pub close : Reservations → Reservations
close r = record r { closed = true }

pub record Receipt : Type 0 where
  pub is_closed : Bool
  pub attempts_consumed : ℕ
  pub operations_consumed : ℕ

abbrev pub sum : List ℕ → ℕ
sum [] = 0
sum (x ∷ xs) = x + sum xs

unfoldable pub receipt : Reservations → Receipt
receipt r = record {
  is_closed = r.closed;
  attempts_consumed = sum r.attempts;
  operations_consumed = r.cursor;
}
