-- ===== src/Sdlc/Types.antt =====
-- types.go: the data of the SDLC orchestrator. `Phase` and `TargetPolicy` are open string types:
-- `unknown s` and `other s` stand for a string that is none of the constants. A time is a number,
-- and 0 is the zero time.
use forge_eng_fabric.Prelude.{ℕ, Bool, String, Option, List, Eq, discrete_eq, String-discrete}
use forge_eng_fabric.Prelude.Int.{ℤ}
use forge_eng_fabric.Prelude.Value.{Fields}

pub data Phase : Type 0 where
  product architecture design development qa security devops infrastructure : Phase
  sre finops observability done : Phase
  unknown : String → Phase

unfoldable pub Phase-discrete : Discrete Phase
Phase-discrete = hlevel String-discrete

instance abbrev pub phase_eq : Eq Phase
phase_eq = discrete_eq Phase-discrete

pub data TargetPolicy : Type 0 where
  required optional opt_in skipped : TargetPolicy
  other : String → TargetPolicy

unfoldable pub TargetPolicy-discrete : Discrete TargetPolicy
TargetPolicy-discrete = hlevel String-discrete

instance abbrev pub policy_eq : Eq TargetPolicy
policy_eq = discrete_eq TargetPolicy-discrete

pub data PhaseStatus : Type 0 where
  not_started in_progress gate_pending status_passed status_failed : PhaseStatus
  status_skipped overridden blocked : PhaseStatus

pub data GateOutcome : Type 0 where
  gate_passed gate_failed gate_skipped : GateOutcome

pub record GateResult : Type 0 where
  pub id : String
  pub initiative_id : String
  pub phase : Phase
  pub gate : String
  pub outcome : GateOutcome
  pub reason : String
  pub evaluated_at : ℕ
  pub detail : Fields

pub record Blocker : Type 0 where
  pub id : String
  pub initiative_id : String
  pub phase : Phase
  pub gate : String
  pub reason : String
  pub created_at : ℕ
  pub resolved_at : Option ℕ

pub record PhaseState : Type 0 where
  pub initiative_id : String
  pub phase : Phase
  pub status : PhaseStatus
  pub entered_at : Option ℕ
  pub completed_at : Option ℕ
  pub gates : List GateResult
  pub blockers : List Blocker

-- A Go map from phases to policies; `none` is the nil map.
abbrev pub Targets : Type 0
Targets = List (Phase × TargetPolicy)

pub record Initiative : Type 0 where
  pub id : String
  pub workspace_id : String
  pub open_spec_root : String
  pub jira_epic_key : String
  pub criticality : String
  pub current_phase : Phase
  pub phase_states : List PhaseState
  pub targets : Option Targets
  pub created_at : ℕ
  pub updated_at : ℕ

pub record CreateInitiativeRequest : Type 0 where
  pub workspace_id : String
  pub open_spec_root : String
  pub jira_epic_key : String
  pub criticality : String
  pub actor : String
  pub tenant_id : String
  pub correlation_id : String
  pub targets : Option Targets
  pub targets_override : Option Targets
  pub include : List Phase

pub record OverrideInput : Type 0 where
  pub id : String
  pub approved : Bool
  pub approved_by : String
  pub approver_role : String
  pub reason : String
  pub ttl_seconds : ℤ

pub record CompletePhaseRequest : Type 0 where
  pub actor : String
  pub tenant_id : String
  pub correlation_id : String
  pub evidence : Fields
  pub override : Option OverrideInput

pub record BusEvent : Type 0 where
  pub event_type : String
  pub subject : String
  pub tenant_id : String
  pub workspace_id : String
  pub actor : String
  pub correlation_id : String
  pub content : Fields

-- The errors of service.go, and `ErrCannotRelaxRequired`.
pub data Error : Type 0 where
  initiative_not_found invalid_phase missing_open_spec missing_workspace : Error
  invalid_override initiative_id_required : Error
  phase_mismatch : Phase → Phase → Error
  cannot_relax_required : Phase → TargetPolicy → TargetPolicy → Error
  gate_error : String → Error

pub data Result {ℓ} (A : Type ℓ) : Type ℓ where
  ok : A → Result A
  err : Error → Result A
