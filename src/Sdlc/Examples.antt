-- ===== src/Sdlc/Examples.antt =====
-- The theorems of the orchestrator at one initiative, and runs of its calls.
mod Plans
use forge_eng_fabric.Prelude.{
  nat_eq, string_eq, keep, first, ◌≡◌, ◌≢◌, ◌≤◌, refl, true, [], ◌∷◌, Option, none, some, arith,
  inl, inr, ◌==◌, if◌then◌else◌, Member,
}
use forge_eng_fabric.Prelude.Int.{pos}
use forge_eng_fabric.Prelude.Assoc.{lookup, insert}
use forge_eng_fabric.Prelude.Text.{to_lower, trim_space}
use forge_eng_fabric.Prelude.Value.{bool, str, Fields, end, field, at_key, string_from, map_from}
use forge_eng_fabric.Sdlc.Types.{
  Phase, product, architecture, design, qa, infrastructure, done, phase_eq, Phase-discrete,
  policy_eq, TargetPolicy, required, optional, opt_in, Targets, PhaseState, in_progress, Initiative,
  CompletePhaseRequest, CreateInitiativeRequest, OverrideInput, BusEvent, invalid_override,
  phase_mismatch, cannot_relax_required, ok, err,
}
use forge_eng_fabric.Sdlc.Phases.{phase_index, of_string}
use forge_eng_fabric.Sdlc.Targets.{default_targets, policy_of, rank, merge_from, merge_targets}
use forge_eng_fabric.Sdlc.Targets.Laws.{is_as_tight, merge_only_tightens}
use forge_eng_fabric.Sdlc.Gates.{
  GateDefinition, all_gates, criticality_rank, effective_rank, criticality_at_least, required_gates,
  evaluate_evidence,
}
use forge_eng_fabric.Sdlc.Store.{
  Env, World, pure, raise, continue, ◌>>=◌, ◌>>◌, or_raise, maybe, of_result, new_id, clock, emit,
  find_initiative, phase_state,
}
use forge_eng_fabric.Sdlc.Events.{new_event, publish}
use forge_eng_fabric.Sdlc.Create.{create_initiative, effective_targets, get_initiative}
use forge_eng_fabric.Sdlc.Evaluate.{
  evaluate_all, evaluate_gates, failed_gates, publish_gates, validate_override,
}
use forge_eng_fabric.Sdlc.Service.{
  refuse_phase, settle_phase, run_gates, complete_found, complete_phase, dispatch_event,
  handle_event,
}
use forge_eng_fabric.Sdlc.Service.Clearance.{GatesPass}
use forge_eng_fabric.Sdlc.Advance.{plan_policy}
use forge_eng_fabric.Sdlc.Service.Progress.{MovesOn, Completed, complete_moves_only_if_cleared}
use forge_eng_fabric.Sdlc.Service.{regress}
use forge_eng_fabric.Sdlc.Service.Regression.{regress_reaches_any_phase}
use forge_eng_fabric.Sdlc.Service.Success.{complete_succeeds}
use forge_eng_fabric.Sdlc.Service.Errors.{complete_error_keeps_store}
use forge_eng_fabric.Sdlc.Service.Turn.{stale_completion_changes_nothing, early_completion_refused}

abbrev env : Env
env = record { uuid = λ n. if n == 0 then "first" else "later"; now = λ n. n }

abbrev state_at : Phase → PhaseState
state_at p = record {
  initiative_id = "i";
  phase = p;
  status = in_progress;
  entered_at = some 1;
  completed_at = none;
  gates = [];
  blockers = [];
}

abbrev initiative_at : Phase → Initiative
initiative_at p = record {
  id = "i";
  workspace_id = "w";
  open_spec_root = "root";
  jira_epic_key = "";
  criticality = "medium";
  current_phase = p;
  phase_states = state_at product ∷ state_at architecture ∷ [];
  targets = some default_targets;
  created_at = 1;
  updated_at = 1;
}

abbrev world_at : Phase → World
world_at p = record {
  initiatives = ("i", initiative_at p) ∷ [];
  events = [];
  ids = 0;
  readings = 0;
}

abbrev request : Fields → Option OverrideInput → CompletePhaseRequest
request evidence override = record {
  actor = "ana";
  tenant_id = "t";
  correlation_id = "c";
  evidence = evidence;
  override = override;
}

abbrev passing : Fields
passing =
    field "acceptance_criteria_present" (bool true)
      (field "story_size_estimated" (str "passed") end)

stored_at : (p : Phase) → lookup "i" (world_at p).initiatives ≡ some (initiative_at p)
unfolding lookup
stored_at p = refl

index_product : phase_index product ≡ some 0
unfolding phase_index
index_product = refl

index_architecture : phase_index architecture ≡ some 1
unfolding phase_index
index_architecture = refl

index_qa : phase_index qa ≡ some 4
unfolding phase_index
index_qa = refl

product_open : product ≢ done
product_open h = cc

has_state : phase_state (initiative_at product).phase_states product ≢ none
unfolding phase_state first
has_state h = cc

gates_pass : GatesPass product "medium" passing
unfolding required_gates all_gates keep evaluate_evidence at_key to_lower trim_space
gates_pass = (refl, (refl, tt))

run_product :
    (s : Initiative) × ((complete_phase env "i" product (request passing none) (world_at product)).0
      ≡ ok s)
    × (lookup "i"
          (complete_phase env "i" product (request passing none) (world_at product)).1.initiatives
        ≡ some s)
    × MovesOn (some default_targets) product s.current_phase
run_product =
    complete_succeeds env "i" product (request passing none) (world_at product)
      (initiative_at product) 0 index_product product_open (stored_at product) refl has_state
      gates_pass

complete_succeeds_example :
    (s : Initiative) × ((complete_phase env "i" product (request passing none) (world_at product)).0
      ≡ ok s)
    × (lookup "i"
          (complete_phase env "i" product (request passing none) (world_at product)).1.initiatives
        ≡ some s)
    × MovesOn (some default_targets) product s.current_phase
complete_succeeds_example =
    complete_succeeds env "i" product (request passing none) (world_at product)
      (initiative_at product) 0 index_product product_open (stored_at product) refl has_state
      gates_pass

complete_moves_only_if_cleared_example :
    (it : Initiative) × (lookup "i" (world_at product).initiatives ≡ some it)
    × Completed it product (request passing none) run_product.0
complete_moves_only_if_cleared_example =
    complete_moves_only_if_cleared env "i" product (request passing none) (world_at product)
      run_product.0 run_product.1

abbrev bad_override : OverrideInput
bad_override = record {
  id = "o";
  approved = true;
  approved_by = "bo";
  approver_role = "developer";
  reason = "urgent";
  ttl_seconds = pos 60;
}

override_refused :
    (complete_phase env "i" product (request end (some bad_override)) (world_at product)).0
    ≡ err invalid_override
unfolding complete_phase get_initiative find_initiative or_raise maybe pure raise ◌>>=◌ ◌>>◌
    continue complete_found phase_index phase_state first lookup run_gates evaluate_gates
    evaluate_all required_gates all_gates keep at_key evaluate_evidence new_id clock publish_gates
    publish new_event emit settle_phase failed_gates validate_override refuse_phase
override_refused = refl

complete_error_keeps_store_example :
    (complete_phase env "i" product
      (request end (some bad_override))
      (world_at product)).1.initiatives
    ≡ (world_at product).initiatives
complete_error_keeps_store_example =
    complete_error_keeps_store env "i" product (request end (some bad_override)) (world_at product)
      invalid_override override_refused

abbrev bus_event : Fields → BusEvent
bus_event content = record {
  event_type = "sdlc.evidence.submitted.v1";
  subject = "";
  tenant_id = "t";
  workspace_id = "w";
  actor = "ana";
  correlation_id = "c";
  content = content;
}

abbrev early_event : BusEvent
early_event = bus_event (field "initiative_id" (str "i") (field "phase" (str "qa") end))

event_refused :
    (handle_event env early_event (world_at product)).0 ≡ err (phase_mismatch product qa)
unfolding handle_event dispatch_event complete_phase get_initiative find_initiative or_raise maybe
    pure raise ◌>>=◌ continue complete_found phase_index lookup at_key string_from map_from
    of_string
event_refused = refl

abbrev relaxing : CreateInitiativeRequest
relaxing = record {
  workspace_id = "w";
  open_spec_root = "root";
  jira_epic_key = "";
  criticality = "high";
  actor = "ana";
  tenant_id = "t";
  correlation_id = "c";
  targets = none;
  targets_override = some ((qa, optional) ∷ []);
  include = [];
}

relaxing_refused :
    (create_initiative env relaxing (world_at product)).0
    ≡ err (cannot_relax_required qa required optional)
unfolding create_initiative effective_targets of_result merge_targets merge_from policy_of rank
    lookup Phase-discrete ◌>>=◌ continue
relaxing_refused = refl

stale_completion_changes_nothing_example :
    complete_phase env "i" product (request end none) (world_at architecture)
    ≡ (ok (initiative_at architecture), world_at architecture)
stale_completion_changes_nothing_example =
    stale_completion_changes_nothing env "i" product (request end none) (world_at architecture)
      (initiative_at architecture) 0 1 index_product (stored_at architecture) index_architecture
      (omega arith)

early_completion_refused_example :
    complete_phase env "i" qa (request passing none) (world_at product)
    ≡ (err (phase_mismatch product qa), world_at product)
early_completion_refused_example =
    early_completion_refused env "i" qa (request passing none) (world_at product)
      (initiative_at product) 4 0 index_qa (stored_at product) index_product (omega arith)

abbrev perf_budget : GateDefinition
perf_budget = record { gate_name = "perf_budget_met"; min_criticality = "high" }

high_below_critical : effective_rank "HIGH" ≤ effective_rank "critical"
unfolding effective_rank criticality_rank to_lower
high_below_critical = omega arith

asked_at_high : Member perf_budget (required_gates qa "HIGH")
unfolding required_gates all_gates keep criticality_at_least effective_rank criticality_rank
    to_lower
asked_at_high = inr (inr (inl refl))

regress_reaches_any_phase_example :
    (s : Initiative) × ((regress env "i" qa (request end none) (world_at product)).0 ≡ ok s)
    × (lookup "i" (regress env "i" qa (request end none) (world_at product)).1.initiatives ≡ some s)
    × (s.current_phase ≡ qa)
regress_reaches_any_phase_example =
    regress_reaches_any_phase env "i" qa (request end none) (world_at product)
      (initiative_at product) 4 index_qa (stored_at product)
