-- ===== src/Healing/Examples.antt =====
-- One action, one envelope and one incident, for the runs below.
mod Incidents
mod Checks
use forge_eng_fabric.Prelude.{
  ℕ, ◌+◌, ◌<◌, ◌≤◌, ◌≡◌, refl, sym, ap, Bool, true, false, not, ◌&&◌, List, [], ◌∷◌, none, some,
  length, arith, string_eq, keep, All, suc,
}
use forge_eng_fabric.Prelude.Int.{pos, int_ltb}
use forge_eng_fabric.Prelude.Assoc.{lookup, insert}
use forge_eng_fabric.Prelude.Value.{end}
use forge_eng_fabric.Healing.Types
use forge_eng_fabric.Healing.Types.{
  Level, l1, l2, l3, l4, l5, level_eq, Level-discrete, notified, suggested, suppressed,
  blocked_by_rate_limit, rate_limit, no_reason, no_outcome, Outcome, Reason, failed,
  approvals_unreachable, unlisted, Envelope, Action, PromotionRequest, PromotionMetrics,
  HealingDecision, IncidentInput, FileDiff, ProposedFix, promotion_approval_missing,
}
use forge_eng_fabric.Healing.Level.{
  level_allowed, rank, highest_from, highest_allowed, levels_in, decide_level, cap_by_envelope,
  cap_by_levels, cap_by_action, requested_level,
}
use forge_eng_fabric.Healing.Level.Laws.{
  FromList, Permits, highest_allowed-Highest, decide_level-Permitted,
}
use forge_eng_fabric.Healing.World.{
  Store, Env, World, err, pure, continue, ◌>>=◌, ◌>>◌, reply_cases, new_id, clock, read_store,
  write_store, ask, emit, get_envelope, save_decision, kill_switch_active, bucket_of,
  track_invocation, tracked,
}
use forge_eng_fabric.Healing.World.Frames.{executions}
use forge_eng_fabric.Healing.Safety.{total_lines, safety_eval}
use forge_eng_fabric.Healing.Safety.Laws.{is_passed, touches_protected, shows_secret}
use forge_eng_fabric.Healing.Runs.{emit_for, run_l3}
use forge_eng_fabric.Healing.Runs.Calls.{NeverApproves}
use forge_eng_fabric.Healing.Trigger.{
  decided, pick_action, skip, run_level, stop_at, run_decision, limit_rate, trigger_with,
  trigger_found, trigger,
}
use forge_eng_fabric.Healing.Trigger.Laws.{low_level_executes_nothing}
use forge_eng_fabric.Healing.Trigger.KillSwitch.{Stopped, kill_switch_stops_all}
use forge_eng_fabric.Healing.Trigger.RateLimit.{
  recent, tracked-Recent, BlocksAs, full_bucket_blocks,
}
use forge_eng_fabric.Healing.Promote.{
  get_promotion_stats, meets, check_promotion, promote_found, promote_action,
}
use forge_eng_fabric.Healing.Promote.Laws.{
  AllowsIn, Entitled, refused_promotion_changes_nothing, promotion_needs_approvals, some_injective,
}

-- An executor and an approvals client that do not answer.
abbrev pub env : Env
env = record {
  uuid = λ n. "u";
  now = λ n. 4000;
  on_execute = λ n ref params. err "down";
  on_verify = λ n id. err "down";
  on_rollback = λ n ref params. err "down";
  on_create = λ n. err "down";
  on_wait = λ n id. err "down";
}

abbrev pub restart : Action
restart = record {
  id = "restart";
  risk = "low";
  reversible = true;
  blast_radius = "pod";
  allowed_levels_by_env = ("prod", l2 ∷ l3 ∷ []) ∷ [];
  workflow_ref = "wf";
  runbook_url = "";
  eval_suite_id = "";
  parameters = end;
}

abbrev pub envelope_at : Level → Envelope
envelope_at l = record {
  id = "e";
  tenant_id = "t";
  workspace_id = "";
  capability = "web";
  asset_pattern = "*";
  environment = "prod";
  criticality = "high";
  default_level = l;
  allowed_levels = l1 ∷ l2 ∷ l3 ∷ [];
  time_windows = [];
  max_actions_per_hour = pos 1;
  kill_switch = false;
  updated_at = 0;
}

abbrev pub incident : IncidentInput
incident = record {
  incident_id = "i";
  app_id = "";
  tenant_id = "t";
  workspace_id = "w";
  service = "";
  environment = "prod";
  capability = "web";
  criticality = "high";
  synthetic = false;
  signature_hash = "";
  suggested_actions = "unknown" ∷ "restart" ∷ [];
}

abbrev pub metrics : PromotionMetrics
metrics = record {
  eval_pass_rate = pos 9700;
  successful_l3_runs = pos 25;
  days_since_last_postmortem = pos 40;
}

abbrev pub store_at : Level → Bool → List ℕ → Store
store_at l is_killed bucket = record {
  envelopes = ("web/prod/high", envelope_at l) ∷ [];
  actions = ("restart", restart) ∷ [];
  decisions = [];
  detections = [];
  suggestions = [];
  kill_global = false;
  kill_workspace = ("w", is_killed) ∷ [];
  rate_buckets = ("e", bucket) ∷ [];
  promotion_stats = ("restart/prod", metrics) ∷ [];
}

abbrev pub world_at : Level → Bool → List ℕ → World
world_at l is_killed bucket = record {
  store = store_at l is_killed bucket;
  events = [];
  calls = [];
  ids = 0;
  readings = 0;
}

abbrev pub decision : Level → Level → Outcome → Reason → HealingDecision
decision level requested outcome reason = record {
  id = "hd-u";
  incident_id = "i";
  action_id = "restart";
  level = level;
  requested_level = requested;
  outcome = outcome;
  reason = reason;
  workflow_run_id = "";
  approval_id = "";
  synthetic = false;
  created_at = 4000;
}
