-- ===== src/Deploy/Rollback.antt =====
-- service.go: the rollback of a deployment to the revision before it.
use forge_eng_fabric.Prelude.{
  ℕ, String, Bool, true, false, not, ◌&&◌, [], Option, none, some, ◌==◌, nat_eq, string_eq,
  if◌then◌else◌,
}
use forge_eng_fabric.Prelude.Int.{pos}
use forge_eng_fabric.Prelude.State.{pure, get, ◌>>=◌, ◌>>◌}
use forge_eng_fabric.Prelude.Assoc.{lookup}
use forge_eng_fabric.Prelude.Text.{to_lower, contains, ◌+s◌}
use forge_eng_fabric.Prelude.Value.{str, end, field}
use forge_eng_fabric.Deploy.Policies.{is_high_criticality}
use forge_eng_fabric.Deploy.Types.{
  running, completed, rolled_back, rollback, started, done, Deployment, DeployResponse, Manifest,
  Params, Runtime, RollbackRequest, Error, deployment_not_found, no_previous_revision,
  non_reversible_rollback_blocked,
}
use forge_eng_fabric.Deploy.Store.{insert_new, append_rollback, previous_revision}
use forge_eng_fabric.Deploy.World.{
  ok, err, roll_back_to, record_asset, Connector, Service, deployment_rolled_back, M, new_id,
  or_new_id, clock, write_store, ask, emit, emit_stage_event,
}
use forge_eng_fabric.Deploy.Stages.{put_status, respond, fail, runtime_preflight}

-- The fields that Insert fills where they are empty.
unfoldable pub fill : Service → Deployment → M Deployment
fill s d = do
  id ← or_new_id s d.id
  correlation_id ← or_new_id s d.correlation_id
  let named = record d { id = id; correlation_id = correlation_id }
  if d.created_at == 0
      then (clock s >>= λ now. pure (record named { created_at = now.instant }))
      else pure named

-- Insert: the deployment, and whether it is new.
unfoldable pub insert : Service → Deployment → M (Option Deployment × Bool)
insert s d = do
  w ← get
  elim (lookup d.request_id w.store.by_request) [
    | some id ↦ pure (lookup id w.store.deployments, false)
    | none ↦ (fill s d >>= λ filled. write_store (insert_new filled) >> pure (some filled, true))
  ]

-- DeployResponse, or an error.
pub data Answer : Type 0 where
  answer : DeployResponse → Answer
  refused : Error → Answer

unfoldable pub answer_with : M DeployResponse → M Answer
answer_with m = m >>= λ r. pure (answer r)

abbrev pub trigger_or_manual : Bool → String
trigger_or_manual manual = if manual then "manual" else "auto"

abbrev bare_manifest : Deployment → Manifest
bare_manifest prev = record {
  app_name = prev.asset_id;
  namespace = "";
  image = prev.image;
  image_digest = prev.image_digest;
  replicas = pos 0;
  helm_chart = "";
  helm_values = end;
  k8s_yaml = "";
  cloud_run_image = "";
  health_check_url = "";
  env = [];
  labels = [];
}

abbrev rollback_params : Deployment → Deployment → Params
rollback_params d prev = record {
  strategy = d.strategy;
  canary_percent = pos 0;
  rollout_timeout = 0;
  health_timeout = 0;
  rollback_plan = "";
  openspec_ids = [];
  pr_sha = "";
  revision_id = d.revision_id;
  prev_revision_id = prev.revision_id;
}

abbrev rollback_of : String → String → Deployment → Deployment → RollbackRequest → Deployment
rollback_of request_id revision_id d prev req = record {
  id = "";
  request_id = request_id;
  workspace_id = d.workspace_id;
  tenant_id = d.tenant_id;
  asset_id = d.asset_id;
  env = d.env;
  criticality = d.criticality;
  data_classification = d.data_classification;
  runtime_id = d.runtime_id;
  image = prev.image;
  image_digest = prev.image_digest;
  manifest_sha = "";
  revision_id = revision_id;
  source_revision_id = prev.revision_id;
  rollback_of = d.id;
  openspec_ids = d.openspec_ids;
  pr_sha = "";
  strategy = d.strategy;
  canary_percent = pos 0;
  rollback_plan = "";
  auto_rollback = false;
  status = running;
  status_reason = "";
  verified_signature = false;
  verified_attestation = false;
  correlation_id = d.correlation_id;
  actor = req.actor;
  created_at = 0;
  completed_at = none;
}

-- The rollback has run: both deployments are settled.
unfoldable pub settle_rollback :
    Service → Deployment → Deployment → Deployment → RollbackRequest → ℕ → M DeployResponse
settle_rollback s d prev rb req start = do
  ended ← clock s
  emit_stage_event s rb rollback done "" (field "restored_revision_id" (str prev.revision_id) end)
      start ended.instant
  put_status s d.id rolled_back req.reason
  put_status s rb.id completed "rollback_complete"
  emit s rb (deployment_rolled_back d.id prev.revision_id req.reason req.manual)
  w ← get
  if s.has_recorder
      then ask (record_asset (lookup rb.id w.store.deployments)) (λ n. tt)
      else pure tt
  respond rb.id completed "" false

unfoldable pub run_rollback :
    Service
    → Deployment
    → Deployment
    → Deployment
    → RollbackRequest
    → ℕ
    → Connector
    → Runtime
    → M DeployResponse
run_rollback s d prev rb req start connector runtime = do
  res ←
      ask (roll_back_to runtime (bare_manifest prev) (rollback_params rb prev))
        (λ n. connector.rollback n runtime (bare_manifest prev) (rollback_params rb prev))
  elim res [
    | err e ↦ fail s rb rollback e
    | ok outcome ↦
        if outcome == "ok"
        then settle_rollback s d prev rb req start
        else fail s rb rollback "rollback_failed"
  ]

-- The rest of rollbackInternal, once the deployment of the rollback is stored.
unfoldable pub start_rollback :
    Service → Deployment → Deployment → Deployment → RollbackRequest → M DeployResponse
start_rollback s d prev rb req = do
  now ← clock s
  emit_stage_event s rb rollback started req.reason
      (field "rollback_of" (str d.id) (field "restored_rev" (str prev.revision_id) end)) now.instant
      now.instant
  found ← runtime_preflight s rb
  elim found [
    | err e ↦ fail s rb rollback e
    | ok runtime ↦ elim (lookup runtime.type s.deployers) [
      | none ↦ fail s rb rollback ("no deployer registered for type=" +s runtime.type)
      | some connector ↦ run_rollback s d prev rb req now.instant connector runtime
    ]
  ]

-- The deployment that Insert gives, which is the one given where its request is new.
abbrev pub or_given : Option Deployment → Deployment → Deployment
or_given none d = d
or_given (some x) d = x

unfoldable pub rollback_to : Service → Deployment → RollbackRequest → Deployment → M DeployResponse
rollback_to s d req prev = do
  id ← new_id s
  now ← clock s
  write_store (
      append_rollback (record {
        id = id;
        deployment_id = d.id;
        source_revision_id = d.revision_id;
        restored_revision_id = prev.revision_id;
        reason = req.reason;
        trigger = trigger_or_manual req.manual;
        approved = req.approved;
        created_at = now.instant;
      }))
  request_id ← new_id s
  revision_id ← new_id s
  let draft = rollback_of request_id revision_id d prev req
  inserted ← insert s draft
  start_rollback s d prev (or_given inserted.0 draft) req

abbrev is_irreversible : Deployment → RollbackRequest → Bool
is_irreversible d req =
    is_high_criticality d.criticality
    && not req.approved
    && contains (to_lower d.rollback_plan) "non-reversible"

-- rollbackInternal
unfoldable pub rollback_internal : Service → Deployment → RollbackRequest → M Answer
rollback_internal s d req = do
  w ← get
  elim (previous_revision d.asset_id d.env d.id w.store) [
    | none ↦ pure (refused no_previous_revision)
    | some prev ↦
        if is_irreversible d req
        then pure (refused non_reversible_rollback_blocked)
        else answer_with (rollback_to s d req prev)
  ]

-- Rollback
unfoldable pub roll_back : Service → String → RollbackRequest → M Answer
roll_back s id req = do
  w ← get
  elim (lookup id w.store.deployments) [
    | none ↦ pure (refused deployment_not_found)
    | some d ↦ rollback_internal s d req
  ]
