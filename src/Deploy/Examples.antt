-- ===== src/Deploy/Examples.antt =====
-- The theorems of the policy stage at one deployment.
mod Pipeline
use forge_eng_fabric.Prelude.{
  nat_eq, string_eq, ◌<◌, ◌≡◌, ◌≢◌, refl, true, false, not, ◌&&◌, ◌||◌, [], ◌∷◌, arith, ltb, ◌==◌,
  All,
}
use forge_eng_fabric.Prelude.Text.{equal_fold, trim_space, to_lower}
use forge_eng_fabric.Prelude.Int.{pos}
use forge_eng_fabric.Prelude.Value.{end}
use forge_eng_fabric.Deploy.Types.{Manifest}
use forge_eng_fabric.Deploy.Freeze.{FreezeWindow, Moment, is_in, day_hour}
use forge_eng_fabric.Deploy.Freeze.Laws.{
  start_of, end_of, hour_of, hours_from, opposite, in_window_is_arc, opposite_windows_partition,
}
use forge_eng_fabric.Deploy.Policies.{
  DeployRequest, PolicyContext, evaluate, default_policies, is_high_criticality,
  evaluate_signed_image, evaluate_approval_prod, evaluate_freeze, evaluate_canary,
  evaluate_rollback_plan,
}
use forge_eng_fabric.Deploy.Decide.{
  not_configured, unavailable, decide, evaluate_policies, run_policies_from, note, pick, goes_on,
  policy_outcome,
}
use forge_eng_fabric.Deploy.Decide.Laws.{strictest, recorded, decide_by_first_denial}
use forge_eng_fabric.Deploy.Decide.Production.{engine_failure_blocks, production_deploy_is_safe}

-- From Friday 18:00 to Monday 6:00.
abbrev weekend : FreezeWindow
weekend = record {
  env = "prod";
  reason = "weekend";
  start_dow = 5;
  start_hour = 18;
  end_dow = 1;
  end_hour = 6;
}

abbrev pub tuesday : Moment
tuesday = record { weekday = 2; hour = 10; instant = 1000 }

abbrev pub manifest : Manifest
manifest = record {
  app_name = "";
  namespace = "";
  image = "";
  image_digest = "";
  replicas = pos 1;
  helm_chart = "";
  helm_values = end;
  k8s_yaml = "";
  cloud_run_image = "";
  health_check_url = "";
  env = [];
  labels = [];
}

abbrev pub request : DeployRequest
request = record {
  request_id = "r";
  workspace_id = "w";
  tenant_id = "t";
  asset_id = "a";
  runtime_id = "rt";
  data_classification = "";
  image = "img";
  openspec_ids = [];
  pr_sha = "";
  canary_percent = pos 10;
  auto_rollback = false;
  actor = "ana";
  manifest = manifest;
  env = "Prod";
  criticality = "high";
  image_digest = "sha256:1";
  strategy = "canary";
  rollback_plan = "helm rollback";
}

abbrev ctx : PolicyContext
ctx = record {
  has_approval = true;
  approval_revision_id = "sha256:1";
  approval_expires_at = 2000;
  now = tuesday;
  freeze_windows = weekend ∷ [];
  override_allow_unsigned_ttl = 0;
  override_allow_unsigned_active = false;
}

start_in_week : start_of weekend < 168
unfolding day_hour
start_in_week = omega arith

end_in_week : end_of weekend < 168
unfolding day_hour
end_in_week = omega arith

tuesday_in_week : hour_of tuesday < 168
unfolding day_hour
tuesday_in_week = omega arith

in_window_is_arc_example :
    is_in weekend tuesday
    ≡ ltb
        (hours_from (start_of weekend) (hour_of tuesday))
        (hours_from (start_of weekend) (end_of weekend))
in_window_is_arc_example =
    in_window_is_arc weekend tuesday start_in_week end_in_week tuesday_in_week

bounds_differ : start_of weekend ≢ end_of weekend
unfolding day_hour
bounds_differ h = omega arith

decide_by_first_denial_example : decide default_policies request ctx (unavailable "timeout") ≡ (
  strictest (recorded default_policies request ctx (unavailable "timeout")),
  recorded default_policies request ctx (unavailable "timeout"),
)
decide_by_first_denial_example =
    decide_by_first_denial default_policies request ctx (unavailable "timeout")

in_prod : equal_fold request.env "prod" ≡ true
unfolding equal_fold to_lower
in_prod = refl

lets_through : policy_outcome (decide default_policies request ctx not_configured).0 ≡ goes_on
unfolding policy_outcome decide evaluate_policies run_policies_from note pick evaluate
    evaluate_signed_image evaluate_approval_prod evaluate_freeze evaluate_canary
    evaluate_rollback_plan is_high_criticality equal_fold to_lower trim_space is_in day_hour
lets_through = refl

production_deploy_is_safe_example :
    (ctx.has_approval ≡ true)
    × ((not (ctx.approval_expires_at == 0) && ltb ctx.approval_expires_at ctx.now.instant) ≡ false)
    × ((not (ctx.approval_revision_id == "")
          && not (request.image_digest == "")
          && not (equal_fold ctx.approval_revision_id request.image_digest))
        ≡ false)
    × All
        (λ (w : FreezeWindow).
          ((w.env == "" || equal_fold w.env request.env) && is_in w ctx.now) ≡ false)
        ctx.freeze_windows
    × ((is_high_criticality request.criticality
          && not (request.strategy == "canary" || request.strategy == "blue_green"))
        ≡ false)
    × ((is_high_criticality request.criticality && trim_space request.rollback_plan == "") ≡ false)
production_deploy_is_safe_example =
    production_deploy_is_safe request ctx not_configured in_prod lets_through
