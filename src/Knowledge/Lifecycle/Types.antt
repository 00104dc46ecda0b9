-- ===== src/Knowledge/Lifecycle/Types.antt =====
-- The enumerations and frozen dataclasses of knowledge_lifecycle.py. An identifier is the integer
-- of its UUID; fields whose Python type the program checks carry that type here.
use apbra.Prelude.{
  ℕ, ◌≡◌, ◌↔◌, Bool, true, false, ◌&&◌, Option, none, some, List, [], String, arith, str_eq, eq_iff,
  ◌==◌, opt_eq, opt_eq_iff, Fallible,
}

pub data Action : Type 0 where
  upload update replace delete : Action

pub data WriteOutcome : Type 0 where
  not_sent acknowledged unknown definitively_failed : WriteOutcome

pub data ObservationKind : Type 0 where
  write_acknowledged write_outcome_unknown definitive_failure : ObservationKind
  indexing_observed removal_observed : ObservationKind

pub data FailureCode : Type 0 where
  admin_required knowledge_scope_mismatch knowledge_revision_conflict knowledge_command_conflict :
      FailureCode
  knowledge_observation_conflict knowledge_observation_invalid : FailureCode

pub data Disposition : Type 0 where
  applied replay historical_only : Disposition

pub record Revision : Type 0 where
  pub company_id : ℕ
  pub document_id : ℕ
  pub revision_id : ℕ
  pub source_version : String
  pub owner_membership_id : ℕ
  pub predecessor_revision_id : Option ℕ

pub record Command : Type 0 where
  pub operation_id : ℕ
  pub command_key : String
  pub action : Action
  pub company_id : ℕ
  pub document_id : ℕ
  pub target_revision_id : ℕ
  pub expected_current_revision_id : Option ℕ
  pub body_fingerprint : String
  pub new_revision : Option Revision

pub record Observation : Type 0 where
  pub observation_id : ℕ
  pub company_id : ℕ
  pub document_id : ℕ
  pub revision_id : ℕ
  pub operation_id : ℕ
  pub kind : ObservationKind
  pub failure_code : Option FailureCode

pub record Operation : Type 0 where
  pub command : Command
  pub initiator_identity_id : ℕ
  pub initiator_membership_id : ℕ
  pub write_outcome : WriteOutcome
  pub observation_history : List Observation

pub record Journal : Type 0 where
  pub company_id : ℕ
  pub document_id : ℕ
  pub revisions : List Revision
  pub operations : List Operation
  pub current_revision_id : Option ℕ
  pub current_operation_id : Option ℕ
  pub pending_removal_revision_ids : List ℕ

pub record Result : Type 0 where
  pub journal : Journal
  pub disposition : Disposition

-- What a function of the module returns, or the `KnowledgeLifecycleError` that it raises.
abbrev pub Checked {ℓ} : Type ℓ → Type ℓ
Checked A = Fallible FailureCode A

abbrev pub Verdict : Type 0
Verdict = Checked (Unit {0})

-- `Journal(company_id, document_id)`
abbrev pub empty_journal : ℕ → ℕ → Journal
empty_journal company document = record {
  company_id = company;
  document_id = document;
  revisions = [];
  operations = [];
  current_revision_id = none;
  current_operation_id = none;
  pending_removal_revision_ids = [];
}

-- The equality that the frozen dataclasses and enumerations have, field by field.
abbrev action_eq : Action → Action → Bool
action_eq upload upload = true
action_eq update update = true
action_eq replace replace = true
action_eq delete delete = true
action_eq _ _ = false

abbrev pub outcome_eq : WriteOutcome → WriteOutcome → Bool
outcome_eq not_sent not_sent = true
outcome_eq acknowledged acknowledged = true
outcome_eq unknown unknown = true
outcome_eq definitively_failed definitively_failed = true
outcome_eq _ _ = false

abbrev kind_code : ObservationKind → ℕ
kind_code write_acknowledged = 0
kind_code write_outcome_unknown = 1
kind_code definitive_failure = 2
kind_code indexing_observed = 3
kind_code removal_observed = 4

abbrev failure_number : FailureCode → ℕ
failure_number admin_required = 0
failure_number knowledge_scope_mismatch = 1
failure_number knowledge_revision_conflict = 2
failure_number knowledge_command_conflict = 3
failure_number knowledge_observation_conflict = 4
failure_number knowledge_observation_invalid = 5

abbrev failure_eq : Option FailureCode → Option FailureCode → Bool
failure_eq none none = true
failure_eq none (some _) = false
failure_eq (some _) none = false
failure_eq (some a) (some b) = failure_number a == failure_number b

unfoldable pub revision_eq : Revision → Revision → Bool
revision_eq r s =
    r.company_id == s.company_id
    && r.document_id == s.document_id
    && r.revision_id == s.revision_id
    && str_eq r.source_version s.source_version
    && r.owner_membership_id == s.owner_membership_id
    && opt_eq r.predecessor_revision_id s.predecessor_revision_id

abbrev new_revision_eq : Option Revision → Option Revision → Bool
new_revision_eq none none = true
new_revision_eq none (some _) = false
new_revision_eq (some _) none = false
new_revision_eq (some r) (some s) = revision_eq r s

unfoldable pub command_eq : Command → Command → Bool
unfolding revision_eq
command_eq c d =
    c.operation_id == d.operation_id
    && str_eq c.command_key d.command_key
    && action_eq c.action d.action
    && c.company_id == d.company_id
    && c.document_id == d.document_id
    && c.target_revision_id == d.target_revision_id
    && opt_eq c.expected_current_revision_id d.expected_current_revision_id
    && str_eq c.body_fingerprint d.body_fingerprint
    && new_revision_eq c.new_revision d.new_revision

unfoldable pub observation_eq : Observation → Observation → Bool
observation_eq a b =
    a.observation_id == b.observation_id
    && a.company_id == b.company_id
    && a.document_id == b.document_id
    && a.revision_id == b.revision_id
    && a.operation_id == b.operation_id
    && kind_code a.kind == kind_code b.kind
    && failure_eq a.failure_code b.failure_code

pub outcome_eq_iff : (a b : WriteOutcome) → (outcome_eq a b ≡ true) ↔ (a ≡ b)
outcome_eq_iff a b = ground arith

pub revision_eq_iff : (r s : Revision) → (revision_eq r s ≡ true) ↔ (r ≡ s)
unfolding revision_eq
revision_eq_iff r s = ground (
  arith,
  eq_iff r.source_version s.source_version,
  opt_eq_iff r.predecessor_revision_id s.predecessor_revision_id,
)

new_revision_eq_iff : (r s : Option Revision) → (new_revision_eq r s ≡ true) ↔ (r ≡ s)
new_revision_eq_iff none none = ground arith
new_revision_eq_iff none (some s) = ground arith
new_revision_eq_iff (some r) none = ground arith
new_revision_eq_iff (some r) (some s) = ground (arith, revision_eq_iff r s)

action_eq_iff : (a b : Action) → (action_eq a b ≡ true) ↔ (a ≡ b)
action_eq_iff a b = ground arith

pub command_eq_refl : (c : Command) → command_eq c c ≡ true
unfolding command_eq
command_eq_refl c = ground (
  arith,
  eq_iff c.command_key c.command_key,
  eq_iff c.body_fingerprint c.body_fingerprint,
  action_eq_iff c.action c.action,
  new_revision_eq_iff c.new_revision c.new_revision,
  opt_eq_iff c.expected_current_revision_id c.expected_current_revision_id,
)
