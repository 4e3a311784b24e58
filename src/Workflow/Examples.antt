-- ===== src/Workflow/Examples.antt =====
-- The lanes at one sequence of calls.
use forge_eng_fabric.Prelude.{
  ◌≤◌, ◌≡◌, ◌≢◌, ◌↔◌, refl, inl, inr, String, List, [], ◌∷◌, none, some, All,
}
use forge_eng_fabric.Prelude.Int.{pos}
use forge_eng_fabric.Prelude.Text.{join}
use forge_eng_fabric.Workflow.Lint.Finding.{error_of, cycle_detected}
use forge_eng_fabric.Workflow.Lint.Cycles.{
  check_cycles, search_cycles, out_of_fuel, graph_of, deps, colour_of, cycle_at,
}
use forge_eng_fabric.Workflow.Lint.Cycles.Loops.{Below}
use forge_eng_fabric.Workflow.Lint.Cycles.Laws.{no_cycle_iff, search_cycles-ends}
use forge_eng_fabric.Workflow.Lint.Reach.{reachable}
use forge_eng_fabric.Workflow.Lint.Reach.Fuel.{reachable-ends}
use mathlib.Core.WellFounded.{Acc}
use forge_eng_fabric.Prelude.Assoc.{lookup, insert}
use forge_eng_fabric.Workflow.Ast.{queue, drop, overlap, Step}
use forge_eng_fabric.Workflow.Concurrency
use forge_eng_fabric.Workflow.Concurrency.{
  ConcurrencyKey, in_flight, Call, tries, ends, run, holders, idle, hold, acquire,
}
use forge_eng_fabric.Workflow.Concurrency.Laws.{Exclusive, lane_has_one_holder}

abbrev lane : ConcurrencyKey
lane = record { workflow_id = "wf"; trigger_id = "cron" }

abbrev calls : List Call
calls = tries lane queue ∷ tries lane drop ∷ ends lane ∷ tries lane queue ∷ []

Exclusive-calls : All (Exclusive lane) calls
Exclusive-calls = (λ h. inl refl, (λ h. inr refl, (tt, (λ h. inl refl, tt))))

lane_has_one_holder_example :
    (holders lane (run calls idle).holding ≤ 1)
    × (in_flight lane (run calls idle).tracker ≡ holders lane (run calls idle).holding)
lane_has_one_holder_example = lane_has_one_holder lane calls Exclusive-calls

-- The last of the calls holds the lane.
one_holds : holders lane (run calls idle).holding ≡ 1
unfolding run in_flight lookup insert hold Concurrency.delete
one_holds = refl

-- Two executions that overlap hold the lane together.
overlap_holds_twice :
    holders lane (run (tries lane overlap ∷ tries lane overlap ∷ []) idle).holding ≡ 2
unfolding run in_flight lookup insert hold Concurrency.delete
overlap_holds_twice = refl

abbrev named_step : String → List String → Step
named_step id deps = record {
  id = id;
  step_type = "custom";
  ref = "";
  tool = "";
  depends_on = some deps;
  inputs = [];
  outputs = [];
  retries = none;
  timeout = "";
  compensate_with = "";
  for_each = "";
  max_parallel = pos 0;
  body_ref = "";
  approver_role = "";
  on_timeout = "";
  escalation_role = "";
  expected_outputs = [];
  workflow_ref = "";
  workflow_version = "";
  event_pattern = none;
  prompt_template = "";
  model = none;
  tools = none;
  max_tool_calls = pos 0;
  step_outputs = [];
  active_surface = none;
  targets = [];
  migrated_from = "";
}

abbrev circle : List Step
circle = named_step "a" ("b" ∷ []) ∷ named_step "b" ("c" ∷ []) ∷ named_step "c" ("a" ∷ []) ∷ []

no_cycle_iff_example :
    (check_cycles circle ≡ []) ↔ ((id : String) → Acc (Below (graph_of circle [])) id)
no_cycle_iff_example = no_cycle_iff circle

search_cycles-ends_example : search_cycles circle ≢ out_of_fuel
search_cycles-ends_example = search_cycles-ends circle

reachable-ends_example : reachable circle ≢ none
reachable-ends_example = reachable-ends circle

-- The circle is found where the search comes back to its first step.
circle_is_found :
    check_cycles circle ≡ error_of cycle_detected "c" "cycle detected: a -> b -> c -> a" ∷ []
unfolding check_cycles lookup insert deps colour_of cycle_at join
circle_is_found = refl

-- No step of the circle can be reached.
circle_is_unreachable : reachable circle ≡ some []
unfolding reachable
circle_is_unreachable = refl
