-- ===== src/Sdlc/Create.antt =====
-- service.go: `CreateInitiative` and the reading operations.
use forge_eng_fabric.Prelude.{
  ℕ, String, Bool, ◌||◌, List, [], ◌∷◌, Option, none, some, map, ◌==◌, string_eq, if◌then◌else◌,
}
use forge_eng_fabric.Prelude.Text.{to_lower}
use forge_eng_fabric.Prelude.Value.{str, end, field}
use forge_eng_fabric.Sdlc.Types.{
  Phase, product, phase_eq, policy_eq, Phase-discrete, TargetPolicy-discrete, TargetPolicy,
  required, optional, opt_in, skipped, other, Targets, PhaseState, not_started, in_progress,
  status_skipped, PhaseStatus, Initiative, CreateInitiativeRequest, initiative_not_found,
  missing_open_spec, missing_workspace, Result, ok,
}
use forge_eng_fabric.Sdlc.Phases.{ordered_phases, name}
use forge_eng_fabric.Sdlc.Targets.{default_targets, policy_of, merge_targets, promote}
use forge_eng_fabric.Sdlc.Store.{
  of_result, Env, M, pure, raise, ◌>>=◌, ◌>>◌, or_raise, clock, insert_initiative, find_initiative,
  update_initiative,
}
use forge_eng_fabric.Sdlc.Events.{phase_entered, phase_skipped, EventContext, from_create, publish}

-- `string(policy)`
unfoldable pub policy_name : TargetPolicy → String
policy_name required = "required"
policy_name optional = "optional"
policy_name opt_in = "opt-in"
policy_name skipped = "skipped"
policy_name (other s) = s

-- A phase that the plan leaves out.
unfoldable pub is_left_out : TargetPolicy → Bool
unfolding TargetPolicy-discrete
is_left_out p = p == skipped || p == opt_in

-- The `switch` of `CreateInitiative`: the status, and when the phase was entered.
unfoldable pub initial_status : Targets → ℕ → Phase → PhaseStatus × Option ℕ
unfolding is_left_out Phase-discrete
initial_status targets now phase =
    if phase == product
    then (in_progress, some now)
    else if is_left_out (policy_of targets phase)
    then (status_skipped, none)
    else (not_started, none)

unfoldable pub initial_state : Targets → ℕ → Phase → PhaseState
unfolding initial_status
initial_state targets now phase = record {
  initiative_id = "";
  phase = phase;
  status = (initial_status targets now phase).0;
  entered_at = (initial_status targets now phase).1;
  completed_at = none;
  gates = [];
  blockers = [];
}

-- The targets of the application, with the override of the spec merged in.
unfoldable pub effective_targets : Option Targets → Option Targets → Result Targets
effective_targets none none = ok default_targets
effective_targets none (some override) = merge_targets default_targets override
effective_targets (some app) none = ok app
effective_targets (some app) (some override) = merge_targets app override

-- The loop that announces the phases which will not run.
unfoldable pub publish_left_out :
    Env → Initiative → EventContext → Targets → List Phase → M (Unit {0})
publish_left_out env it ec targets [] = pure tt
publish_left_out env it ec targets (p ∷ ps) =
    let rest = publish_left_out env it ec targets ps in
    let content = field "initiative_id" (str it.id) (
      field "phase" (str (name p))
        (field "target" (str (policy_name (policy_of targets p))) end)) in
    if p == product
    then rest
    else if is_left_out (policy_of targets p)
    then publish env it ec phase_skipped content >> rest
    else rest

-- The new initiative, before `Insert` gives it an identifier.
unfoldable pub fresh_initiative : CreateInitiativeRequest → Targets → ℕ → Initiative
unfolding initial_state
fresh_initiative req targets now = record {
  id = "";
  workspace_id = req.workspace_id;
  open_spec_root = req.open_spec_root;
  jira_epic_key = req.jira_epic_key;
  criticality = let c = to_lower req.criticality in if c == "" then "medium" else c;
  current_phase = product;
  phase_states = map (initial_state targets now) ordered_phases;
  targets = some targets;
  created_at = now;
  updated_at = now;
}

-- The second write: every phase state gets the identifier of its initiative.
abbrev state_of : String → PhaseState → PhaseState
state_of id s = record s { initiative_id = id }

abbrev pub with_initiative_id : Initiative → Initiative
with_initiative_id it = record it { phase_states = map (state_of it.id) it.phase_states }

unfoldable pub create_with : Env → CreateInitiativeRequest → Targets → M Initiative
create_with env req targets = do
  now ← clock env
  inserted ← insert_initiative env (fresh_initiative req targets now)
  it ← update_initiative env (with_initiative_id inserted)
  publish env it (from_create req) phase_entered (
      field "initiative_id" (str it.id)
        (field "phase" (str (name product)) (field "openspec_root" (str it.open_spec_root) end)))
  publish_left_out env it (from_create req) targets ordered_phases
  pure it

unfoldable pub create_initiative : Env → CreateInitiativeRequest → M Initiative
create_initiative env req =
    if req.workspace_id == ""
    then raise missing_workspace
    else if req.open_spec_root == ""
    then raise missing_open_spec
    else do
      targets ← of_result (effective_targets req.targets req.targets_override)
      create_with env req (promote targets req.include)

unfoldable pub get_initiative : String → M Initiative
get_initiative id = do found ← find_initiative id; or_raise initiative_not_found found
