-- ===== src/Deploy/Policies.antt =====
-- policy.go: the built-in policies. The zero time is 0.
use forge_eng_fabric.Prelude.{
  ℕ, String, Bool, not, ◌&&◌, ◌||◌, List, [], ◌∷◌, ltb, ◌==◌, nat_eq, string_eq, if◌then◌else◌,
}
use forge_eng_fabric.Prelude.Text.{to_lower, trim_space, equal_fold, ◌+s◌}
use forge_eng_fabric.Prelude.Int.{ℤ}
use forge_eng_fabric.Deploy.Types.{Manifest}
use forge_eng_fabric.Deploy.Freeze.{FreezeWindow, Moment, is_in}

-- An open string type: `unlisted s` is a string that is none of the constants.
pub data Decision : Type 0 where
  allow requires_approval deny : Decision
  unlisted : String → Decision

pub record PolicyDecision : Type 0 where
  pub policy_id : String
  pub decision : Decision
  pub rationale : String
  pub reason : String
  pub required_approvers : List String

pub record DeployRequest : Type 0 where
  pub request_id : String
  pub workspace_id : String
  pub tenant_id : String
  pub asset_id : String
  pub runtime_id : String
  pub env : String
  pub criticality : String
  pub data_classification : String
  pub image : String
  pub image_digest : String
  pub openspec_ids : List String
  pub pr_sha : String
  pub strategy : String
  pub canary_percent : ℤ
  pub rollback_plan : String
  pub auto_rollback : Bool
  pub actor : String
  pub manifest : Manifest

pub record PolicyContext : Type 0 where
  pub has_approval : Bool
  pub approval_revision_id : String
  pub approval_expires_at : ℕ
  pub now : Moment
  pub freeze_windows : List FreezeWindow
  pub override_allow_unsigned_ttl : ℕ
  pub override_allow_unsigned_active : Bool

-- The built-in policies; `DeploymentPolicy` is the interface that they implement.
pub data DeploymentPolicy : Type 0 where
  require_signed_image require_approval_prod freeze_window : DeploymentPolicy
  require_canary require_rollback_plan : DeploymentPolicy

abbrev pub policy_id : DeploymentPolicy → String
policy_id require_signed_image = "require-signed-image"
policy_id require_approval_prod = "require-approval-prod"
policy_id freeze_window = "freeze-window"
policy_id require_canary = "require-canary"
policy_id require_rollback_plan = "require-rollback-plan"

abbrev pub allowed : DeploymentPolicy → String → PolicyDecision
allowed p rationale = record {
  policy_id = policy_id p;
  decision = allow;
  rationale = rationale;
  reason = "";
  required_approvers = [];
}

abbrev pub denied : DeploymentPolicy → String → String → PolicyDecision
denied p reason rationale = record {
  policy_id = policy_id p;
  decision = deny;
  rationale = rationale;
  reason = reason;
  required_approvers = [];
}

unfoldable pub is_high_criticality : String → Bool
is_high_criticality c = let lower = to_lower c in lower == "high" || lower == "critical"

unfoldable pub evaluate_signed_image : PolicyContext → PolicyDecision
evaluate_signed_image ctx =
    if ctx.override_allow_unsigned_active && ltb ctx.now.instant ctx.override_allow_unsigned_ttl
    then allowed require_signed_image "override-allow-unsigned-image active"
    else allowed require_signed_image "active by default"

unfoldable pub evaluate_approval_prod : DeployRequest → PolicyContext → PolicyDecision
evaluate_approval_prod req ctx =
    if not (equal_fold req.env "prod")
    then allowed require_approval_prod "env not prod"
    else if not ctx.has_approval
    then record {
      policy_id = "require-approval-prod";
      decision = requires_approval;
      rationale = "production deploys require release-manager approval tied to revision";
      reason = "pending_approval";
      required_approvers = "release-manager" ∷ [];
    }
    else if not (ctx.approval_revision_id == "")
        && not (req.image_digest == "")
        && not (equal_fold ctx.approval_revision_id req.image_digest)
    then denied require_approval_prod "approval_revision_mismatch"
        "approval is bound to a different revision"
    else if not (ctx.approval_expires_at == 0) && ltb ctx.approval_expires_at ctx.now.instant
    then denied require_approval_prod "approval_expired" "approval TTL exceeded (max 8h)"
    else allowed require_approval_prod "approval valid"

-- The loop of the freeze policy: the first window of the environment that holds the moment.
unfoldable pub evaluate_freeze : DeployRequest → PolicyContext → List FreezeWindow → PolicyDecision
evaluate_freeze req ctx [] = allowed freeze_window "no freeze window active"
evaluate_freeze req ctx (w ∷ ws) =
    let rest = evaluate_freeze req ctx ws in
    if not (w.env == "") && not (equal_fold w.env req.env)
    then rest
    else if is_in w ctx.now
    then denied freeze_window "freeze_window_active" ("freeze window in effect for env=" +s req.env)
    else rest

unfoldable pub evaluate_canary : DeployRequest → PolicyDecision
evaluate_canary req =
    if not (equal_fold req.env "prod") || not (is_high_criticality req.criticality)
    then allowed require_canary "policy not applicable"
    else if req.strategy == "canary" || req.strategy == "blue_green"
    then allowed require_canary "canary or blue/green selected"
    else denied require_canary "strategy_not_allowed_for_criticality"
        ("criticality=" +s req.criticality +s " and env=prod require canary or blue/green strategy")

unfoldable pub evaluate_rollback_plan : DeployRequest → PolicyDecision
evaluate_rollback_plan req =
    if not (is_high_criticality req.criticality)
    then allowed require_rollback_plan "criticality below high"
    else if trim_space req.rollback_plan == ""
    then denied require_rollback_plan "rollback_plan_missing"
        ("criticality=" +s req.criticality +s " requires explicit rollback plan")
    else allowed require_rollback_plan "rollback plan present"

unfoldable pub evaluate : DeploymentPolicy → DeployRequest → PolicyContext → PolicyDecision
evaluate require_signed_image req ctx = evaluate_signed_image ctx
evaluate require_approval_prod req ctx = evaluate_approval_prod req ctx
evaluate freeze_window req ctx = evaluate_freeze req ctx ctx.freeze_windows
evaluate require_canary req ctx = evaluate_canary req
evaluate require_rollback_plan req ctx = evaluate_rollback_plan req

abbrev pub default_policies : List DeploymentPolicy
default_policies =
    require_signed_image ∷ require_approval_prod ∷ freeze_window ∷ require_canary
    ∷ require_rollback_plan ∷ []
