-- ===== src/Generation/Eligible.antt =====
-- `_current_payload` and `_eligible_design`: what an attempt is built from.
use apbra.Prelude.{
  ℕ, Bool, true, false, ◌&&◌, ◌||◌, Option, none, some, String, str_eq, ◌==◌, is_some, ok, err,
  ◌>>=◌, ◌>>◌, require, some_or,
}
use apbra.Domain.{
  Role, expert, Actor, generation_unavailable, stale_version, reviewed_design_required,
}
use apbra.Store.ConversationRows.{InterpretationRow}
use apbra.Store.Rows.{CaseRow, Outcome}
use apbra.Store.Query.{role_eq, active_actor, locked_case}
use apbra.Store.Conversations.{latest_interpretation}
use apbra.Cases.Authorization.{authorized_case_access}
use apbra.Generation.Rows.{
  ConfirmedContractRow, ReviewedReportDesignRow, expert_reviewed, auto_eligible, GenerationStore,
}
use apbra.Generation.Query.{confirmed_contract_for_case, reviewed_design}

pub data Mode : Type 0 where
  build retry regenerate other_mode : Mode

-- The digests of the tables, references and settings that a payload holds.
pub record Contents : Type 0 where
  pub semantic_input_digest : String
  pub evidence_digest : String
  pub binding_digest : String

-- The ids of the binding, with the digests.
pub record GenerationPayload : Type 0 where
  pub contents : Contents
  pub interpretation_id : ℕ
  pub request_version_id : ℕ
  pub semantic_context_version : ℕ

-- What the service reads outside the database, and the digests that it computes.
pub record Pipeline : Type 0 where
  -- the digest of the executable, where a bridge is configured
  pub bridge : Option String
  pub tenant_settings : Option ℕ
  -- whether a former version of the settings is the current one in what matters
  pub is_same_material : GenerationStore → ℕ → ℕ → Outcome Bool
  pub contents :
      GenerationStore → CaseRow → ConfirmedContractRow → InterpretationRow → Outcome Contents
  pub sha256 : String → String
  -- an object whose status is PASS
  pub has_passed : String → Bool
  -- the version of a design, where it is an object with an integer version
  pub schema_version : String → Option ℕ
  -- refuses what cannot be represented, and tells whether the geometry is there
  pub geometry : String → Outcome Bool
  pub designed : Contents → ReviewedReportDesignRow → String
  pub input_digest : String → ℕ → String → String
  pub command_digest : String → Mode → Option ℕ → String

-- Passes where no settings are bound.
unfoldable pub same_settings :
    Pipeline → GenerationStore → Actor → ConfirmedContractRow → Outcome (Unit {0})
same_settings v g actor contract = elim v.tenant_settings [
  | none ↦ ok tt
  | some current ↦ elim contract.settings_version_id [
    | none ↦ ok tt
    | some version ↦ do
      same ← v.is_same_material g actor.company_id version
      require same stale_version
  ]
]

unfoldable pub current_payload :
    Pipeline
    → GenerationStore
    → Actor
    → ℕ
    → ℕ
    → Bool
    → Outcome (GenerationPayload × CaseRow × ConfirmedContractRow)
current_payload v g actor case_id contract_id require_edit = do
  (seen, access) ← authorized_case_access g.base actor case_id require_edit
  row ← some_or (locked_case g.base case_id) generation_unavailable
  contract ← some_or (confirmed_contract_for_case g case_id contract_id) generation_unavailable
  latest ← some_or (latest_interpretation g.base case_id) generation_unavailable
  require
      (latest.id == contract.interpretation_id
        && latest.context_version == row.semantic_context_version
        && latest.request_version_id == row.current_request_version_id)
      stale_version
  same_settings v g actor contract
  contents ← v.contents g row contract latest
  ok (
    record {
      contents = contents;
      interpretation_id = latest.id;
      request_version_id = row.current_request_version_id;
      semantic_context_version = row.semantic_context_version;
    },
    row,
    contract,
  )

abbrev pub is_bound : Pipeline → ReviewedReportDesignRow → Actor → ℕ → ℕ → GenerationPayload → Bool
is_bound v row actor case_id contract_id payload =
    row.company_id == actor.company_id
    && row.case_id == case_id
    && row.confirmed_contract_id == contract_id
    && row.interpretation_id == payload.interpretation_id
    && row.request_version_id == payload.request_version_id
    && row.semantic_context_version == payload.semantic_context_version
    && str_eq row.evidence_binding_digest payload.contents.evidence_digest
    && str_eq row.semantic_input_digest payload.contents.semantic_input_digest
    && str_eq row.binding_digest payload.contents.binding_digest
    && str_eq row.binding_digest (v.sha256 row.binding_json)

abbrev pub is_expert : Option Role → Bool
is_expert none = false
is_expert (some role) = role_eq role expert

-- `except ProtectedResourceNotFound`, which is all that the authorization raises
abbrev pub or_required {ℓ} : {A : Type ℓ} → Outcome A → Outcome (Unit {0})
or_required (ok a) = ok tt
or_required (err e) = err reviewed_design_required

unfoldable pub reviewed_by :
    GenerationStore → Actor → ℕ → ReviewedReportDesignRow → Outcome (Unit {0})
reviewed_by g actor case_id row = do
  membership ← some_or row.reviewer_membership_id reviewed_design_required
  identity ← some_or row.reviewer_identity_id reviewed_design_required
  require (is_expert row.reviewer_role) reviewed_design_required
  reviewer ← some_or (active_actor g.base membership identity) reviewed_design_required
  require (reviewer.company_id == actor.company_id && role_eq reviewer.role expert)
      reviewed_design_required
  or_required (authorized_case_access g.base reviewer case_id true)

abbrev pub is_eligible_automatically : Pipeline → ReviewedReportDesignRow → Bool
is_eligible_automatically v row =
    is_some row.design_attempt_id
    && (elim row.eligibility_validation_json [ none ↦ false | some json ↦ v.has_passed json ])

unfoldable pub is_origin_eligible :
    Pipeline → GenerationStore → Actor → ℕ → ReviewedReportDesignRow → Outcome (Unit {0})
is_origin_eligible v g actor case_id row = elim row.origin [
  | expert_reviewed ↦ reviewed_by g actor case_id row
  | auto_eligible ↦ require (is_eligible_automatically v row) reviewed_design_required
]

-- The row with the version of its design.
unfoldable pub eligible_design :
    Pipeline
    → GenerationStore
    → Actor
    → ℕ
    → ℕ
    → ℕ
    → GenerationPayload
    → Outcome (ReviewedReportDesignRow × ℕ)
eligible_design v g actor case_id contract_id design_id payload = do
  row ← some_or (reviewed_design g case_id design_id) reviewed_design_required
  require (is_bound v row actor case_id contract_id payload) reviewed_design_required
  is_origin_eligible v g actor case_id row
  version ← some_or (v.schema_version row.design_json) reviewed_design_required
  require (version == 1 || version == 2) reviewed_design_required
  require (str_eq row.content_digest (v.sha256 row.design_json)) reviewed_design_required
  ok (row, version)
