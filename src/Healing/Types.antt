-- ===== src/Healing/Types.antt =====
-- types.go and l1l2.go: the data of the healing engine. Times are seconds; a confidence and a pass
-- rate are given in ten-thousandths. The reason of a refusal is a constructor in place of its text.
use forge_eng_fabric.Prelude.{ℕ, String, Bool, List, String-discrete, Eq, discrete_eq}
use forge_eng_fabric.Prelude.Int.{ℤ}
use forge_eng_fabric.Prelude.Value.{Fields}

-- An open string type: `unlisted s` is a string that is none of the constants.
pub data Level : Type 0 where
  l1 l2 l3 l4 l5 : Level
  unlisted : String → Level

unfoldable pub Level-discrete : Discrete Level
Level-discrete = hlevel String-discrete

instance abbrev pub level_eq : Eq Level
level_eq = discrete_eq Level-discrete

pub data Outcome : Type 0 where
  no_outcome notified suggested waiting_approval executed failed rolled_back suppressed : Outcome
  degraded_by_envelope blocked_by_rate_limit : Outcome

pub data Reason : Type 0 where
  no_reason kill_switch envelope_cap action_env_cap rate_limit : Reason
  approvals_unreachable approval_wait_failed workflow_execute_failed rollback_failed :
      String → Reason
  approval_denied_or_timeout non_reversible_action_at_l5 verify_failed_auto_rollback : Reason

pub record Envelope : Type 0 where
  pub id : String
  pub tenant_id : String
  pub workspace_id : String
  pub capability : String
  pub asset_pattern : String
  pub environment : String
  pub criticality : String
  pub default_level : Level
  pub allowed_levels : List Level
  pub time_windows : List String
  pub max_actions_per_hour : ℤ
  pub kill_switch : Bool
  pub updated_at : ℕ

-- A nil map of levels is an empty one, which reads the same.
pub record Action : Type 0 where
  pub id : String
  pub risk : String
  pub reversible : Bool
  pub blast_radius : String
  pub allowed_levels_by_env : List (String × List Level)
  pub workflow_ref : String
  pub runbook_url : String
  pub eval_suite_id : String
  pub parameters : Fields

pub record PromotionRequest : Type 0 where
  pub action_id : String
  pub environment : String
  pub target_level : Level
  pub requested_by : String
  pub platform_admin_ok : Bool
  pub security_ok : Bool

pub record PromotionMetrics : Type 0 where
  pub eval_pass_rate : ℤ
  pub successful_l3_runs : ℤ
  pub days_since_last_postmortem : ℤ

pub record HealingDecision : Type 0 where
  pub id : String
  pub incident_id : String
  pub action_id : String
  pub level : Level
  pub requested_level : Level
  pub outcome : Outcome
  pub reason : Reason
  pub workflow_run_id : String
  pub approval_id : String
  pub synthetic : Bool
  pub created_at : ℕ

pub record IncidentInput : Type 0 where
  pub incident_id : String
  pub app_id : String
  pub tenant_id : String
  pub workspace_id : String
  pub service : String
  pub environment : String
  pub capability : String
  pub criticality : String
  pub synthetic : Bool
  pub signature_hash : String
  pub suggested_actions : List String

pub data SignalSource : Type 0 where
  prometheus ci_failed deploy_failed alert_threshold incident_created : SignalSource

pub record Hypothesis : Type 0 where
  pub id : String
  pub description : String
  pub confidence : ℤ
  pub evidence : List String
  pub affected_files : List String

pub record DetectionInput : Type 0 where
  pub app_id : String
  pub tenant_id : String
  pub workspace_id : String
  pub correlation_id : String
  pub signal_source : SignalSource
  pub signal_payload : Fields
  pub candidate_hypotheses : List Hypothesis
  pub candidate_actions : List String
  pub blast_radius_estimate : String

pub record DiagnosisReport : Type 0 where
  pub app_id : String
  pub signal_source : SignalSource
  pub hypotheses : List Hypothesis
  pub candidate_actions : List String
  pub blast_radius_estimate : String
  pub generated_at : ℕ

pub record ProposeFixInput : Type 0 where
  pub app_id : String
  pub tenant_id : String
  pub workspace_id : String
  pub correlation_id : String
  pub top_hypothesis : Hypothesis
  pub diff_type : String
  pub protected_paths : List String
  pub size_budget_lines : ℤ

pub record FileDiff : Type 0 where
  pub path : String
  pub before : String
  pub after : String
  pub lines_changed : ℤ

pub record ProposedFix : Type 0 where
  pub id : String
  pub app_id : String
  pub diff_type : String
  pub file_diffs : List FileDiff
  pub citations : List String
  pub blast_radius_estimate : String

-- The verdict of the safety gate, with what it found.
pub data SafetyEvalResult : Type 0 where
  passed : SafetyEvalResult
  size_budget_exceeded : ℤ → ℤ → SafetyEvalResult
  protected_path_violation : String → String → SafetyEvalResult
  secret_reference_detected : String → String → SafetyEvalResult

pub record L1Detection : Type 0 where
  pub id : String
  pub app_id : String
  pub tenant_id : String
  pub correlation_id : String
  pub signal : SignalSource
  pub diagnosis : DiagnosisReport
  pub created_at : ℕ

pub data SuggestionStatus : Type 0 where
  pending rejected : SuggestionStatus

pub record L2Suggestion : Type 0 where
  pub id : String
  pub app_id : String
  pub tenant_id : String
  pub correlation_id : String
  pub detection : L1Detection
  pub fix : ProposedFix
  pub safety : SafetyEvalResult
  pub approval_id : String
  pub status : SuggestionStatus
  pub created_at : ℕ

pub data Error : Type 0 where
  incident_id_required app_id_required : Error
  envelope_not_found action_not_found promotion_approval_missing invalid_level : Error
  promotion_prerequisites_unmet : PromotionMetrics → Error
