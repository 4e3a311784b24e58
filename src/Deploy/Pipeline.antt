-- ===== src/Deploy/Pipeline.antt =====
-- service.go: `Deploy`, a deployment through its stages.
pub mod Frames
pub mod StageFrames
pub mod Guards
pub mod FailClosed
pub mod Idempotence
pub mod Laws
use forge_eng_fabric.Prelude.{
  ℕ, String, Bool, true, false, not, ◌&&◌, ◌||◌, List, [], ◌∷◌, Option, none, some, ◌==◌, string_eq,
  if◌then◌else◌,
}
use forge_eng_fabric.Prelude.Int.{pos}
use forge_eng_fabric.Prelude.State.{pure, bind, get, ◌>>=◌, ◌>>◌}
use forge_eng_fabric.Prelude.Assoc.{lookup}
use forge_eng_fabric.Prelude.Text.{◌+s◌}
use forge_eng_fabric.Prelude.Value.{str, end, field}
use forge_eng_fabric.Deploy.Policies.{PolicyDecision, DeployRequest}
use forge_eng_fabric.Deploy.Decide
use forge_eng_fabric.Deploy.Decide.{goes_on, policy_outcome}
use forge_eng_fabric.Deploy.Types
use forge_eng_fabric.Deploy.Types.{
  pending, completed, failed, requested, preflight, image_verify, render, apply, verify, notify,
  started, done, broken, Deployment, DeployResponse, Manifest, Params, RenderedArtifacts,
  VerifyResult, Runtime, Error, runtime_required,
}
use forge_eng_fabric.Deploy.Store.{set_manifest_sha}
use forge_eng_fabric.Deploy.World.{
  Reply, ok, err, Call, preflight_runtime, render_manifest, apply_artifacts, verify_rollout,
  record_asset, Connector, Service, Content, deployment_requested, applied, deployment_failed,
  deployment_verified, M, new_id, or_new_id, clock, write_store, ask, emit, emit_stage_event,
}
use forge_eng_fabric.Deploy.Stages.{
  put_status, respond, fail, runtime_preflight, run_policies, stop_with,
}
use forge_eng_fabric.Deploy.ImageStage.{run_image_verify}
use forge_eng_fabric.Deploy.Rollback.{
  Answer, answer, refused, answer_with, insert, rollback_internal,
}
use forge_eng_fabric.Deploy.Rollout.{manifest_for, render_and_apply}

-- "Stage: image-verify"
unfoldable pub verify_image :
    Service → Deployment → DeployRequest → Connector → Runtime → M DeployResponse
verify_image s d req connector runtime = do
  failure ← run_image_verify s d
  elim failure [
    | some e ↦ fail s d image_verify e
    | none ↦ render_and_apply s d connector runtime (manifest_for req d)
  ]

-- "Stage: policy"
unfoldable pub decide_policies :
    Service → Deployment → DeployRequest → Connector → Runtime → M DeployResponse
decide_policies s d req connector runtime = do
  decision ← run_policies s d req
  elim (policy_outcome decision) [
    | goes_on ↦ verify_image s d req connector runtime
    | Decide.pending_approval reason ↦ stop_with s d decision Types.pending_approval s.has_inbox
    | Decide.blocked reason ↦ stop_with s d decision Types.blocked false
  ]

-- "Stage: preflight", once a connector is found.
unfoldable pub check_connector :
    Service → Deployment → DeployRequest → Connector → Runtime → M DeployResponse
check_connector s d req connector runtime = do
  check ← ask (preflight_runtime runtime) (λ n. connector.preflight n runtime)
  if check.passed
      then (do
        t1 ← clock s
        t2 ← clock s
        emit_stage_event s d preflight done "" (field "runtime_id" (str runtime.id) end) t1.instant
            t2.instant
        decide_policies s d req connector runtime)
      else fail s d preflight ("preflight failed: " +s check.reason)

unfoldable pub run_stages : Service → Deployment → DeployRequest → ℕ → M DeployResponse
run_stages s d req now = do
  emit_stage_event s d requested started "" end now now
  emit s d deployment_requested
  found ← runtime_preflight s d
  elim found [
    | err e ↦ fail s d preflight e
    | ok runtime ↦ elim (lookup runtime.type s.deployers) [
      | none ↦
          fail s d preflight ("deployer_missing: no deployer registered for type=" +s runtime.type)
      | some connector ↦ check_connector s d req connector runtime
    ]
  ]

abbrev pub deployment_of : Service → DeployRequest → String → String → ℕ → Deployment
deployment_of s req request_id revision_id now = record {
  id = "";
  request_id = request_id;
  workspace_id = req.workspace_id;
  tenant_id = req.tenant_id;
  asset_id = req.asset_id;
  env = req.env;
  criticality = req.criticality;
  data_classification = req.data_classification;
  runtime_id = req.runtime_id;
  image = req.image;
  image_digest = req.image_digest;
  manifest_sha = "";
  revision_id = revision_id;
  source_revision_id = "";
  rollback_of = "";
  openspec_ids = req.openspec_ids;
  pr_sha = req.pr_sha;
  strategy = if req.strategy == "" then "rolling" else req.strategy;
  canary_percent = req.canary_percent;
  rollback_plan = req.rollback_plan;
  auto_rollback =
      req.auto_rollback
      || elim (lookup req.env s.auto_rollback_by_env) [ none ↦ false | some b ↦ b ];
  status = pending;
  status_reason = "";
  verified_signature = false;
  verified_attestation = false;
  correlation_id = "";
  actor = req.actor;
  created_at = now;
  completed_at = none;
}

-- "Idempotent: return existing state." A request that is known has its deployment, so the first case
-- does not come up.
abbrev pub existing : Option Deployment → M DeployResponse
existing none = pure (record { deployment = none; status = pending; reason = ""; created = false })
existing (some d) =
    pure
      (record { deployment = some d; status = d.status; reason = d.status_reason; created = false })

abbrev pub run_inserted : Service → DeployRequest → ℕ → Option Deployment × Bool → M DeployResponse
run_inserted s req now (some d, true) = run_stages s d req now
run_inserted s req now (none, true) = existing none
run_inserted s req now (o, false) = existing o

-- Deploy
unfoldable pub deploy : Service → DeployRequest → M Answer
deploy s req =
    if req.runtime_id == ""
    then pure (refused runtime_required)
    else answer_with (do
      request_id ← or_new_id s req.request_id
      now ← clock s
      revision_id ← new_id s
      inserted ← insert s (deployment_of s req request_id revision_id now.instant)
      run_inserted s req now.instant inserted)
