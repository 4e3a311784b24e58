-- ===== src/Healing/Trigger.antt =====
-- service.go: `Trigger`, which decides the level for an incident and runs it.
pub mod Rules
pub mod Laws
pub mod KillSwitch
pub mod RateLimit
use forge_eng_fabric.Prelude.{
  ℕ, String, Bool, true, false, List, [], ◌∷◌, Option, none, some, length, ltb, ◌==◌, string_eq,
  if◌then◌else◌,
}
use forge_eng_fabric.Prelude.Int.{ℤ, pos, int_ltb}
use forge_eng_fabric.Prelude.Assoc.{lookup}
use forge_eng_fabric.Prelude.Text.{◌+s◌}
use forge_eng_fabric.Prelude.Value.{end}
use forge_eng_fabric.Healing.Types
use forge_eng_fabric.Healing.Types.{
  Level, l1, l2, l3, l4, l5, unlisted, Outcome, no_outcome, notified, suggested, suppressed,
  blocked_by_rate_limit, Reason, no_reason, rate_limit, Envelope, Action, HealingDecision,
  IncidentInput, DetectionInput, ProposeFixInput, incident_created, Error, incident_id_required,
  action_not_found, envelope_not_found,
}
use forge_eng_fabric.Healing.Level.{Decided, requested_level, decide_level}
use forge_eng_fabric.Healing.World.{
  Content, triggered, level_decided, Store, Env, M, pure, ◌>>=◌, ◌>>◌, new_id, clock, read_store,
  write_store, get_envelope, kill_switch_active, track_invocation, save_decision,
}
use forge_eng_fabric.Healing.Suggest.{detect, propose_fix}
use forge_eng_fabric.Healing.Runs.{emit_for, run_l3, run_l4, run_l5}

-- `(*HealingDecision, error)`
pub data Answer : Type 0 where
  decided : HealingDecision → Answer
  refused : Error → Answer

-- pickAction
unfoldable pub pick_action : List String → List (String × Action) → Option Action
pick_action [] actions = none
pick_action (id ∷ ids) actions =
    let rest = pick_action ids actions in elim (lookup id actions) [ some a ↦ some a | none ↦ rest ]

abbrev pub detection_input : IncidentInput → Action → DetectionInput
detection_input input action = record {
  app_id = input.app_id;
  tenant_id = input.tenant_id;
  workspace_id = input.workspace_id;
  correlation_id = input.incident_id;
  signal_source = incident_created;
  signal_payload = end;
  candidate_hypotheses = [];
  candidate_actions = input.suggested_actions;
  blast_radius_estimate = action.blast_radius;
}

abbrev pub fix_input : IncidentInput → Action → HealingDecision → ProposeFixInput
fix_input input action d = record {
  app_id = input.app_id;
  tenant_id = input.tenant_id;
  workspace_id = input.workspace_id;
  correlation_id = input.incident_id;
  top_hypothesis = record {
    id = "hyp-" +s d.id;
    description = "incident " +s input.incident_id +s " on action " +s action.id;
    confidence = pos 8000;
    evidence = [];
    affected_files = [];
  };
  diff_type = "config";
  protected_paths = [];
  size_budget_lines = pos 200;
}

unfoldable pub skip : {A : Type 0} → M A → M (Unit {0})
skip m = m >>= λ _. pure tt

-- The `switch` of `Trigger`, on the level.
unfoldable pub run_level :
    Env → IncidentInput → Action → HealingDecision → Level → M HealingDecision
run_level env input action d l1 = do
  if input.app_id == "" then pure tt else skip (detect env (detection_input input action))
  pure (record d { outcome = notified })
run_level env input action d l2 = do
  if input.app_id == "" then pure tt else skip (propose_fix env (fix_input input action d))
  pure (record d { outcome = suggested })
run_level env input action d l3 = run_l3 env input action d
run_level env input action d l4 = run_l4 env input action d
run_level env input action d l5 = run_l5 env input action d
run_level env input action d (unlisted s) = pure (record d { outcome = notified })

-- The events of the decision, and its save, where nothing runs.
unfoldable pub stop_at : Env → IncidentInput → Envelope → HealingDecision → Bool → M Answer
stop_at env input envelope d is_suppressed = do
  emit_for env input (triggered d envelope.id is_suppressed)
  emit_for env input (level_decided d d.reason)
  write_store (save_decision d)
  pure (decided d)

unfoldable pub run_decision : Env → IncidentInput → Action → Envelope → HealingDecision → M Answer
run_decision env input action envelope d = do
  emit_for env input (triggered d envelope.id false)
  emit_for env input (level_decided d d.reason)
  d' ← run_level env input action d d.level
  write_store (save_decision d')
  pure (decided d')

-- "Rate limit per envelope."
unfoldable pub limit_rate : Env → IncidentInput → Action → Envelope → HealingDecision → M Answer
limit_rate env input action envelope d =
    if int_ltb (pos 0) envelope.max_actions_per_hour
    then (do
      now ← clock env
      count ← track_invocation envelope.id now
      if int_ltb envelope.max_actions_per_hour (pos count)
          then stop_at env input envelope
              (record d { outcome = blocked_by_rate_limit; reason = rate_limit }) false
          else run_decision env input action envelope d)
    else run_decision env input action envelope d

abbrev pub decision_of : String → ℕ → IncidentInput → Action → Level → Decided → HealingDecision
decision_of id now input action requested d = record {
  id = "hd-" +s id;
  incident_id = input.incident_id;
  action_id = action.id;
  level = d.level;
  requested_level = requested;
  outcome = d.outcome;
  reason = d.reason;
  workflow_run_id = "";
  approval_id = "";
  synthetic = input.synthetic;
  created_at = now;
}

-- The level under the kill switch.
abbrev pub killed : Decided
killed = record { level = l1; outcome = suppressed; reason = Types.kill_switch }

unfoldable pub trigger_with : Env → IncidentInput → Action → Envelope → Bool → M Answer
trigger_with env input action envelope is_killed = do
  id ← new_id env
  now ← clock env
  let requested = requested_level envelope
  if is_killed
      then stop_at env input envelope (decision_of id now input action requested killed) true
      else limit_rate env input action envelope (
          decision_of id now input action requested
            (decide_level envelope action input.environment))

unfoldable pub trigger_found :
    Env → IncidentInput → Store → Option Action → Option Envelope → M Answer
trigger_found env input s none e = pure (refused action_not_found)
trigger_found env input s (some action) none = pure (refused envelope_not_found)
trigger_found env input s (some action) (some envelope) =
    trigger_with env input action envelope (kill_switch_active s input.workspace_id)

unfoldable pub trigger : Env → IncidentInput → M Answer
trigger env input = if input.incident_id == "" then pure (refused incident_id_required) else do
  s ← read_store
  trigger_found env input s (pick_action input.suggested_actions s.actions)
      (get_envelope s input.capability input.environment input.criticality)
