-- ===== src/Foundry/Report/Types.antt =====
-- The records of foundry_report_runtime.py, of config.py and of model_provider.py that an approval
-- holds. A time is a number of seconds; a nonce is an identifier.
use apbra.Prelude.{
  ℕ, Bool, true, false, not, ◌&&◌, Option, none, some, List, String, str_eq, ◌==◌, Fallible,
}

pub data Stage : Type 0 where
  requirement_analysis report_design : Stage

abbrev pub stage_eq : Stage → Stage → Bool
stage_eq requirement_analysis requirement_analysis = true
stage_eq report_design report_design = true
stage_eq _ _ = false

pub record ProviderCapabilities : Type 0 where
  pub structured_output : Bool
  pub vision : Bool

pub record ProviderProfile : Type 0 where
  pub profile_id : String
  pub protocol : String
  pub endpoint : String
  pub model_or_deployment : String
  pub api_version : String
  pub agent_version : Option String
  pub region : String
  pub prompt_version : String
  pub configuration_id : String
  pub capabilities : ProviderCapabilities
  pub max_calls_per_operation : ℕ
  pub max_input_characters : ℕ
  pub max_output_tokens : ℕ
  pub time_budget_seconds : ℕ
  pub request_timeout_seconds : ℕ
  pub retry_limit : ℕ

abbrev pub opt_str_eq : Option String → Option String → Bool
opt_str_eq none none = true
opt_str_eq (some a) (some b) = str_eq a b
opt_str_eq _ _ = false

abbrev pub bool_eq : Bool → Bool → Bool
bool_eq true b = b
bool_eq false b = not b

unfoldable pub profile_eq : ProviderProfile → ProviderProfile → Bool
profile_eq p q =
    str_eq p.profile_id q.profile_id
    && str_eq p.protocol q.protocol
    && str_eq p.endpoint q.endpoint
    && str_eq p.model_or_deployment q.model_or_deployment
    && str_eq p.api_version q.api_version
    && opt_str_eq p.agent_version q.agent_version
    && str_eq p.region q.region
    && str_eq p.prompt_version q.prompt_version
    && str_eq p.configuration_id q.configuration_id
    && bool_eq p.capabilities.structured_output q.capabilities.structured_output
    && bool_eq p.capabilities.vision q.capabilities.vision
    && p.max_calls_per_operation == q.max_calls_per_operation
    && p.max_input_characters == q.max_input_characters
    && p.max_output_tokens == q.max_output_tokens
    && p.time_budget_seconds == q.time_budget_seconds
    && p.request_timeout_seconds == q.request_timeout_seconds
    && p.retry_limit == q.retry_limit

-- The fields of the binding that the runtime reads.
pub record FoundryHostBinding : Type 0 where
  pub company_id : ℕ
  pub tenant_id : ℕ
  pub client_id : ℕ
  pub provider_profile : ProviderProfile
  pub manual_authentication_approved : Bool
  pub authorization_deadline : ℕ

pub record Slot : Type 0 where
  pub stage : Stage
  pub attempts : ℕ
  pub all_in_attempt_aud : String
  pub bound_evidence_digest : String

pub data ConfirmationMode : Type 0 where
  confirmed owner_confirm_pending after_analysis : ConfirmationMode

pub record ReportApproval : Type 0 where
  pub binding : FoundryHostBinding
  pub case_id : ℕ
  pub settings_id : ℕ
  pub settings_digest : String
  pub request_version_id : ℕ
  pub semantic_context_version : ℕ
  pub input_digest : String
  pub confirmed_contract_id : Option ℕ
  pub confirmed_contract_digest : Option String
  pub expected_interpretation_id : Option ℕ
  pub expected_interpretation_digest : Option String
  pub confirmation_mode : ConfirmationMode
  pub authorization_id : String
  pub ledger_period : String
  pub ledger_evidence_digest : String
  pub posted_aud : String
  pub unposted_exposure_aud : String
  pub outstanding_reserves_aud : String
  pub chain_reserve_aud : String
  pub slots : List Slot

pub record ReportState : Type 0 where
  pub settings_id : ℕ
  pub settings_digest : String
  pub company_id : ℕ
  pub profile : ProviderProfile
  pub secret_reference_id : Option ℕ
  pub case_id : ℕ
  pub request_version_id : ℕ
  pub semantic_context_version : ℕ
  pub input_digest : String
  pub interpretation_id : Option ℕ
  pub interpretation_digest : Option String
  pub confirmed_contract_id : Option ℕ
  pub confirmed_interpretation_id : Option ℕ
  pub confirmed_digest : Option String
  pub confirmed_contract_digest : Option String

pub record Operation : Type 0 where
  pub case_id : ℕ
  pub stage : Stage
  pub nonce : ℕ
  pub completed : Bool

-- `ProviderConfigurationError(ERROR)`
pub data ReportError : Type 0 where
  authorization_unavailable : ReportError

abbrev pub Report {ℓ} : Type ℓ → Type ℓ
Report A = Fallible ReportError A
