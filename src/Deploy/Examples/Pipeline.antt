-- ===== src/Deploy/Examples/Pipeline.antt =====
-- The theorems of the pipeline and of the store at one service and one stored deployment.
use forge_eng_fabric.Prelude.{
  ℕ, ◌≡◌, ◌≢◌, refl, sym, ap, ◌∙◌, String, Bool, true, false, ◌&&◌, Option, none, some, [], ◌∷◌,
  ◌==◌, nat_eq, string_eq, if◌then◌else◌,
}
use forge_eng_fabric.Prelude.Int.{pos}
use forge_eng_fabric.Prelude.Assoc
use forge_eng_fabric.Prelude.Assoc.{lookup}
use forge_eng_fabric.Prelude.State.{bind, continue, get, pure}
use forge_eng_fabric.Prelude.Text.{equal_fold, to_lower, trim_space}
use forge_eng_fabric.Prelude.Value.{end}
use forge_eng_fabric.Cosign.{
  ImageMetadata, Verifier, is_success, combined, verify_signature, verify_attestation,
  check_workspace, check_registry,
}
use forge_eng_fabric.Cosign.Laws.{identity_fits, digest_fits, combined-Verifies}
use forge_eng_fabric.Deploy.Policies.{
  PolicyDecision, DeployRequest, default_policies, evaluate, evaluate_signed_image,
  evaluate_approval_prod, evaluate_freeze, evaluate_canary, evaluate_rollback_plan,
  is_high_criticality,
}
use forge_eng_fabric.Deploy.Decide.{
  decide, evaluate_policies, run_policies_from, note, pick, policy_outcome,
}
use forge_eng_fabric.Deploy.ImageStage.{run_image_verify, resolve_metadata, settle_verification}
use forge_eng_fabric.Deploy.Rollback.{Answer, answer, refused, answer_with, insert, fill}
use forge_eng_fabric.Deploy.Types.{Deployment, Status, Runtime, running, completed, failed}
use forge_eng_fabric.Deploy.Store.{
  Store, set_status, adjust, insert_new, append_at, append_event, set_verified, set_manifest_sha,
  append_policy_eval, append_image_verification,
}
use forge_eng_fabric.Deploy.Store.History.{
  status_step, Steps, stop, then_step, Holds, history_is_immutable,
}
use forge_eng_fabric.Deploy.World.{
  Reply, ok, err, Connector, Service, World, or_new_id, new_id, clock, emit, emit_stage_event,
  write_store, ask,
}
use forge_eng_fabric.Deploy.Runtimes.{get_runtime, check_usable_by, runtime_store_provider}
use forge_eng_fabric.Deploy.Stages.{
  fail, put_status, respond, fetch_runtime, use_runtime, runtime_preflight, policy_context,
  ask_engine, record_evals, run_policies,
}
use forge_eng_fabric.Deploy.Rollout.{finish, check_rollout, apply_rendered, render_and_apply}
use forge_eng_fabric.Deploy.Pipeline.{
  deploy, verify_image, decide_policies, check_connector, run_stages,
}
use forge_eng_fabric.Deploy.Pipeline.Frames.{applications}
use forge_eng_fabric.Deploy.Pipeline.Laws.{Unsigned, Unsigned-applies_nothing}
use forge_eng_fabric.Deploy.Pipeline.FailClosed.{EngineDown, EngineDown-applies_nothing}
use forge_eng_fabric.Deploy.Pipeline.Idempotence.{
  SameWorld, repeated, repeated_request_changes_nothing,
}
use forge_eng_fabric.Deploy.Examples.{request, tuesday}

abbrev runtime : Runtime
runtime = record {
  id = "rt";
  workspace_id = "w";
  type = "gke";
  visibility = "workspace";
  revoked = false;
}

abbrev connector : Connector
connector = record {
  preflight = λ n r. record { passed = true; reason = "" };
  render = λ n m p. ok (record { files = []; manifest_sha = "sha"; notes = [] });
  apply = λ n r a p. ok "ok";
  verify = λ n r m p. record { error = none; healthy = true; detail = end; fail_reason = "" };
  rollback = λ n r m p. ok "ok";
}

abbrev verifier : Verifier
verifier = record { identities = []; registry = none }

abbrev metadata : Bool → ImageMetadata
metadata signed = record {
  image = "img";
  digest = "sha256:1";
  signed = signed;
  oidc_issuer = "";
  oidc_identity = "";
  rekor_log_index = pos 0;
  has_rekor_entry = true;
  attestation_type = "slsaprovenance";
  attestation_predicate = end;
  attestation_valid = true;
  built_at = 0;
}

-- A service whose registry reports each image as signed or not, with this policy engine.
abbrev service : Bool → Option (ℕ → DeployRequest → Reply PolicyDecision) → Service
service signed engine = record {
  uuid = λ n. if n == 0 then "first" else "later";
  now = λ n. tuesday;
  deployers = ("gke", connector) ∷ [];
  cosign = verifier;
  image_metadata = some (λ n image digest. ok (metadata signed));
  runtimes = some (runtime_store_provider (("rt", runtime) ∷ []));
  approvals = none;
  has_inbox = true;
  policy_engine = engine;
  policies = default_policies;
  freeze_windows = [];
  auto_rollback_by_env = [];
  override_allow_unsigned = none;
  has_recorder = false;
}

abbrev stored : Deployment
stored = record {
  id = "d";
  request_id = "r";
  workspace_id = "w";
  tenant_id = "t";
  asset_id = "a";
  env = "prod";
  criticality = "high";
  data_classification = "";
  runtime_id = "rt";
  image = "img";
  image_digest = "sha256:1";
  manifest_sha = "";
  revision_id = "rev";
  source_revision_id = "";
  rollback_of = "";
  openspec_ids = [];
  pr_sha = "";
  strategy = "canary";
  canary_percent = pos 10;
  rollback_plan = "";
  auto_rollback = false;
  status = running;
  status_reason = "";
  verified_signature = false;
  verified_attestation = false;
  correlation_id = "c";
  actor = "ana";
  created_at = 1;
  completed_at = none;
}

abbrev store : Store
store = record {
  deployments = ("d", stored) ∷ [];
  by_request = ("r", "d") ∷ [];
  events = [];
  policy_evals = [];
  image_results = [];
  rollbacks = [];
  revisions = [];
}

abbrev world : World
world = record { store = store; events = []; calls = []; ids = 0; readings = 0 }

abbrev empty_world : World
empty_world = record world { store = record store { deployments = []; by_request = [] } }

combined-Verifies_example : is_success (combined verifier "w" (metadata true)) ≡ (
    (true && (identity_fits (lookup "w" verifier.identities) (metadata true) && true))
    && (((metadata true).attestation_type == "slsaprovenance")
        && (true && digest_fits verifier.registry (metadata true))))
combined-Verifies_example = combined-Verifies verifier "w" (metadata true)

abbrev signed_of : Reply ImageMetadata → Bool
signed_of (ok m) = m.signed
signed_of (err e) = false

abbrev resolved_by :
    Option (ℕ → String → String → Reply ImageMetadata) → ℕ → String → String → Reply ImageMetadata
resolved_by none n image digest = err ""
resolved_by (some f) n image digest = f n image digest

all-Unsigned : Unsigned (service false none)
all-Unsigned = record {
  no_override = λ d. refl;
  unsigned =
      λ f n image digest m h k. sym (ap signed_of (ap (λ o. resolved_by o n image digest) h ∙ k));
}

-- A request that the policies let pass, to an environment that asks for no approval.
abbrev dev_request : DeployRequest
dev_request = record request { env = "dev"; request_id = "new" }

Unsigned-applies_nothing_example :
    applications (deploy (service false none) dev_request empty_world).1 ≡ applications empty_world
Unsigned-applies_nothing_example =
    Unsigned-applies_nothing (service false none) dev_request empty_world all-Unsigned

abbrev failing : ℕ → DeployRequest → Reply PolicyDecision
failing n req = err "down"

engine_fails : EngineDown (service true (some failing))
engine_fails = record {
  engine = failing;
  configured = refl;
  message = λ n req. "down";
  fails = λ n req. refl;
}

EngineDown-applies_nothing_example :
    applications (deploy (service true (some failing)) request empty_world).1
    ≡ applications empty_world
EngineDown-applies_nothing_example =
    EngineDown-applies_nothing (service true (some failing)) request empty_world engine_fails

false_not_true : false ≢ true
false_not_true h = cc

rt_not_empty : request.runtime_id ≢ ""
rt_not_empty h = false_not_true (ap (λ x. x == "") h)

r_not_empty : request.request_id ≢ ""
r_not_empty h = false_not_true (ap (λ x. x == "") h)

known : lookup "r" store.by_request ≡ some "d"
unfolding lookup
known = refl

kept : lookup "d" store.deployments ≡ some stored
unfolding lookup
kept = refl

repeated_request_changes_nothing_example :
    ((deploy (service true none) request world).0 ≡ repeated stored)
    × SameWorld world (deploy (service true none) request world).1
repeated_request_changes_nothing_example =
    repeated_request_changes_nothing (service true none) request world "d" stored rt_not_empty
      r_not_empty known kept

completes : Steps store (set_status "d" completed "" 5 store)
completes = then_step (status_step "d" completed "" 5 store) (stop _)

history_is_immutable_example : Holds "d" stored (set_status "d" completed "" 5 store)
history_is_immutable_example =
    history_is_immutable "d" stored store (set_status "d" completed "" 5 store) kept completes

abbrev status_of : Answer → Option Status
status_of (answer r) = some r.status
status_of (refused e) = none

-- A signed image is deployed, and an unsigned one fails at its verification.
signed_image_completes :
    (status_of (deploy (service true none) dev_request empty_world).0 ≡ some completed)
    × (status_of (deploy (service false none) dev_request empty_world).0 ≡ some failed)
unfolding deploy answer_with fail or_new_id insert fill insert_new append_at adjust append_event
    set_status set_verified set_manifest_sha append_policy_eval append_image_verification new_id
    clock emit emit_stage_event write_store ask put_status respond fetch_runtime use_runtime
    runtime_preflight get_runtime check_usable_by runtime_store_provider policy_context ask_engine
    record_evals run_policies run_image_verify resolve_metadata settle_verification finish
    check_rollout apply_rendered render_and_apply verify_image decide_policies check_connector
    run_stages combined verify_signature verify_attestation check_workspace check_registry decide
    evaluate_policies run_policies_from note pick policy_outcome evaluate evaluate_signed_image
    evaluate_approval_prod evaluate_freeze evaluate_canary evaluate_rollback_plan
    is_high_criticality equal_fold to_lower trim_space bind continue get pure lookup Assoc.insert
signed_image_completes = (refl, refl)
