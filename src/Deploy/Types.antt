-- ===== src/Deploy/Types.antt =====
-- types.go, and the types of pkg/deployers/deployer.go and pkg/runtimes that the service hands on.
-- Times are seconds; a duration is not kept, since it is the difference of two times that are.
use forge_eng_fabric.Prelude.{ℕ, String, Bool, List, Option}
use forge_eng_fabric.Prelude.Int.{ℤ}
use forge_eng_fabric.Prelude.Value.{Fields}

pub data Status : Type 0 where
  pending running completed failed rolled_back pending_approval blocked : Status

pub data Stage : Type 0 where
  requested preflight policy image_verify render apply verify notify rollback : Stage

abbrev pub stage_name : Stage → String
stage_name requested = "requested"
stage_name preflight = "preflight"
stage_name policy = "policy"
stage_name image_verify = "image_verify"
stage_name render = "render"
stage_name apply = "apply"
stage_name verify = "verify"
stage_name notify = "notify"
stage_name rollback = "rollback"

pub data StageOutcome : Type 0 where
  started done broken denied skipped : StageOutcome

pub record Deployment : Type 0 where
  pub id : String
  pub request_id : String
  pub workspace_id : String
  pub tenant_id : String
  pub asset_id : String
  pub env : String
  pub criticality : String
  pub data_classification : String
  pub runtime_id : String
  pub image : String
  pub image_digest : String
  pub manifest_sha : String
  pub revision_id : String
  pub source_revision_id : String
  pub rollback_of : String
  pub openspec_ids : List String
  pub pr_sha : String
  pub strategy : String
  pub canary_percent : ℤ
  pub rollback_plan : String
  pub auto_rollback : Bool
  pub status : Status
  pub status_reason : String
  pub verified_signature : Bool
  pub verified_attestation : Bool
  pub correlation_id : String
  pub actor : String
  pub created_at : ℕ
  pub completed_at : Option ℕ

pub record DeploymentEvent : Type 0 where
  pub id : String
  pub deployment_id : String
  pub stage : Stage
  pub outcome : StageOutcome
  pub reason : String
  pub detail : Fields
  pub started_at : ℕ
  pub ended_at : ℕ

pub record ImageVerificationResult : Type 0 where
  pub id : String
  pub deployment_id : String
  pub outcome : String
  pub reason : String
  pub identity : String
  pub digest : String
  pub signature_verified : Bool
  pub attestation_verified : Bool
  pub override_id : String
  pub created_at : ℕ

pub record RollbackRecord : Type 0 where
  pub id : String
  pub deployment_id : String
  pub source_revision_id : String
  pub restored_revision_id : String
  pub reason : String
  pub trigger : String
  pub approved : Bool
  pub created_at : ℕ

pub record RollbackRequest : Type 0 where
  pub reason : String
  pub approved : Bool
  pub actor : String
  pub manual : Bool

pub record DeployResponse : Type 0 where
  pub deployment : Option Deployment
  pub status : Status
  pub reason : String
  pub created : Bool

pub data Error : Type 0 where
  deployment_not_found runtime_required no_previous_revision : Error
  non_reversible_rollback_blocked : Error

-- The fields of `Runtime` that the service reads.
pub record Runtime : Type 0 where
  pub id : String
  pub workspace_id : String
  pub type : String
  pub visibility : String
  pub revoked : Bool

pub record Manifest : Type 0 where
  pub app_name : String
  pub namespace : String
  pub image : String
  pub image_digest : String
  pub replicas : ℤ
  pub helm_chart : String
  pub helm_values : Fields
  pub k8s_yaml : String
  pub cloud_run_image : String
  pub health_check_url : String
  pub env : List (String × String)
  pub labels : List (String × String)

pub record Params : Type 0 where
  pub strategy : String
  pub canary_percent : ℤ
  pub rollout_timeout : ℕ
  pub health_timeout : ℕ
  pub rollback_plan : String
  pub openspec_ids : List String
  pub pr_sha : String
  pub revision_id : String
  pub prev_revision_id : String

pub record RenderedArtifacts : Type 0 where
  pub files : List (String × String)
  pub manifest_sha : String
  pub notes : List String

pub record PreflightResult : Type 0 where
  pub passed : Bool
  pub reason : String

-- With the text of the error that comes with it, if any.
pub record VerifyResult : Type 0 where
  pub error : Option String
  pub healthy : Bool
  pub detail : Fields
  pub fail_reason : String
