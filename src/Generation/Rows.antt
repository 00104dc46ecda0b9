-- ===== src/Generation/Rows.antt =====
-- The rows of report generation. Where a column holds JSON text, the row holds the value that the
-- program encodes, as far as the service reads it.
use apbra.Prelude.{ℕ, Bool, Option, List, String}
use apbra.Domain.{Role}
use apbra.Store.Rows.{Store}

pub record ConfirmedContractRow : Type 0 where
  pub id : ℕ
  pub case_id : ℕ
  pub company_id : ℕ
  pub interpretation_id : ℕ
  pub settings_version_id : Option ℕ
  pub contract_json : String

pub data DesignOrigin : Type 0 where
  expert_reviewed auto_eligible : DesignOrigin

pub record ReviewedReportDesignRow : Type 0 where
  pub id : ℕ
  pub company_id : ℕ
  pub case_id : ℕ
  pub confirmed_contract_id : ℕ
  pub interpretation_id : ℕ
  pub request_version_id : ℕ
  pub semantic_context_version : ℕ
  pub binding_json : String
  pub binding_digest : String
  pub semantic_input_digest : String
  pub evidence_binding_digest : String
  pub design_json : String
  pub content_digest : String
  pub reviewer_membership_id : Option ℕ
  pub reviewer_identity_id : Option ℕ
  pub reviewer_role : Option Role
  pub origin : DesignOrigin
  pub design_attempt_id : Option ℕ
  pub eligibility_validation_json : Option String

pub data AttemptStatus : Type 0 where
  pending running succeeded failed cancelled : AttemptStatus

pub record GenerationAttemptRow : Type 0 where
  pub id : ℕ
  pub case_id : ℕ
  pub company_id : ℕ
  pub confirmed_contract_id : ℕ
  pub reviewed_design_id : Option ℕ
  pub interpretation_id : ℕ
  pub request_version_id : ℕ
  pub settings_version_id : Option ℕ
  pub created_by_membership_id : ℕ
  pub command_key : String
  pub command_payload_digest : String
  pub input_digest : String
  pub evidence_binding_digest : String
  pub status : AttemptStatus
  pub attempt_number : ℕ
  pub retry_of_attempt_id : Option ℕ
  pub supersedes_attempt_id : Option ℕ
  pub fence_token : ℕ
  -- `pipelineExecutableDigest` of the provenance, where it is a text
  pub pipeline_executable_digest : Option String
  pub is_validated : Bool
  pub failure_code : Option String
  pub artifact_id : Option ℕ
  pub started_at : Option ℕ
  pub completed_at : Option ℕ
  pub cancelled_at : Option ℕ

pub record GeneratedArtifactRow : Type 0 where
  pub id : ℕ
  pub attempt_id : ℕ
  pub case_id : ℕ
  pub company_id : ℕ
  pub settings_version_id : Option ℕ
  pub storage_key : String
  pub filename : String
  pub content_digest : String
  pub guide_digest : Option String
  pub byte_size : ℕ

pub record GenerationStore : Type 0 where
  pub base : Store
  pub confirmed_contracts : List ConfirmedContractRow
  pub reviewed_designs : List ReviewedReportDesignRow
  pub generation_attempts : List GenerationAttemptRow
  pub generated_artifacts : List GeneratedArtifactRow
