-- ===== src/Deploy/Rollout.antt =====
-- service.go: `Deploy`, from the stage that renders the manifest on.
use forge_eng_fabric.Prelude.{
  ℕ, String, Bool, true, false, none, some, ◌==◌, string_eq, if◌then◌else◌,
}
use forge_eng_fabric.Prelude.State.{pure, get, ◌>>=◌, ◌>>◌}
use forge_eng_fabric.Prelude.Assoc.{lookup}
use forge_eng_fabric.Prelude.Text.{◌+s◌}
use forge_eng_fabric.Prelude.Value.{str, end, field}
use forge_eng_fabric.Deploy.Policies.{DeployRequest}
use forge_eng_fabric.Deploy.Types.{
  completed, failed, render, apply, verify, notify, done, broken, Deployment, DeployResponse,
  Manifest, Params, RenderedArtifacts, VerifyResult, Runtime,
}
use forge_eng_fabric.Deploy.Store.{set_manifest_sha}
use forge_eng_fabric.Deploy.World.{
  ok, err, render_manifest, apply_artifacts, verify_rollout, record_asset, Connector, Service,
  applied, deployment_failed, deployment_verified, M, clock, write_store, ask, emit,
  emit_stage_event,
}
use forge_eng_fabric.Deploy.Stages.{put_status, respond, fail}
use forge_eng_fabric.Deploy.Rollback.{Answer, answer, refused, rollback_internal}

-- The manifest as it is rendered.
abbrev pub manifest_for : DeployRequest → Deployment → Manifest
manifest_for req d = record req.manifest {
  app_name = if req.manifest.app_name == "" then d.asset_id else req.manifest.app_name;
  image = if req.manifest.image == "" then d.image else req.manifest.image;
  image_digest = d.image_digest;
}

-- The health timeout is five minutes, the rollout timeout ten.
abbrev pub params_for : Deployment → Params
params_for d = record {
  strategy = d.strategy;
  canary_percent = d.canary_percent;
  rollout_timeout = 600;
  health_timeout = 300;
  rollback_plan = d.rollback_plan;
  openspec_ids = d.openspec_ids;
  pr_sha = d.pr_sha;
  revision_id = d.revision_id;
  prev_revision_id = "";
}

-- "Stage: notify"
unfoldable pub finish : Service → Deployment → M DeployResponse
finish s d = do
  t1 ← clock s
  t2 ← clock s
  emit_stage_event s d notify done "" end t1.instant t2.instant
  put_status s d.id completed ""
  w ← get
  if s.has_recorder then ask (record_asset (lookup d.id w.store.deployments)) (λ n. tt) else pure tt
  respond d.id completed "" true

abbrev after_rollback : Answer → M DeployResponse → M DeployResponse
after_rollback (refused e) m = m
after_rollback (answer r) m =
    pure (record r { reason = "rolled_back_after_verify_failure"; created = false })

-- The rollout is not healthy.
unfoldable pub fail_verify : Service → Deployment → VerifyResult → ℕ → M DeployResponse
fail_verify s d res start = do
  ended ← clock s
  emit_stage_event s d verify broken res.fail_reason res.detail start ended.instant
  emit s d (deployment_failed verify res.fail_reason)
  put_status s d.id failed ("verify_failed:" +s res.fail_reason)
  if d.auto_rollback
      then (do
        rb ←
            rollback_internal s d (record {
              reason = "auto:verify_failed";
              approved = true;
              actor = "";
              manual = false;
            })
        after_rollback rb (respond d.id failed res.fail_reason true))
      else respond d.id failed res.fail_reason true

abbrev pub is_healthy : VerifyResult → Bool
is_healthy r = elim r.error [ none ↦ r.healthy | some e ↦ false ]

-- "Stage: verify"
unfoldable pub check_rollout :
    Service → Deployment → Connector → Runtime → Manifest → M DeployResponse
check_rollout s d connector runtime mfs = do
  start ← clock s
  res ←
      ask (verify_rollout runtime mfs (params_for d))
        (λ n. connector.verify n runtime mfs (params_for d))
  if is_healthy res
      then (do
        ended ← clock s
        emit_stage_event s d verify done "" res.detail start.instant ended.instant
        emit s d deployment_verified
        finish s d)
      else fail_verify s d res start.instant

-- A failed apply answers with a reason of its own.
unfoldable pub fail_apply : Service → Deployment → String → M DeployResponse
fail_apply s d message = do r ← fail s d apply message; respond d.id failed "apply_failed" false

-- "Stage: apply"
unfoldable pub apply_rendered :
    Service → Deployment → Connector → Runtime → Manifest → RenderedArtifacts → M DeployResponse
apply_rendered s d connector runtime mfs art = do
  start ← clock s
  res ←
      ask (apply_artifacts runtime art (params_for d))
        (λ n. connector.apply n runtime art (params_for d))
  elim res [
    | err e ↦ fail_apply s d e
    | ok outcome ↦
        if outcome == "ok"
        then (do
          ended ← clock s
          emit_stage_event s d apply done "" (field "revision_id" (str d.revision_id) end)
              start.instant ended.instant
          emit s d (applied art.manifest_sha)
          check_rollout s d connector runtime mfs)
        else fail_apply s d "apply_failed"
  ]

-- "Stage: render"
unfoldable pub render_and_apply :
    Service → Deployment → Connector → Runtime → Manifest → M DeployResponse
render_and_apply s d connector runtime mfs = do
  start ← clock s
  res ← ask (render_manifest mfs (params_for d)) (λ n. connector.render n mfs (params_for d))
  elim res [
    | err e ↦ fail s d render e
    | ok art ↦ (do
      write_store (set_manifest_sha d.id art.manifest_sha)
      ended ← clock s
      emit_stage_event s d render done "" (field "manifest_sha" (str art.manifest_sha) end)
          start.instant ended.instant
      apply_rendered s d connector runtime mfs art)
  ]
