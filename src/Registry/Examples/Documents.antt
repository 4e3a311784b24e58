-- ===== src/Registry/Examples/Documents.antt =====
-- The documents that the theorems on the registry are applied to.
use forge_eng_fabric.Prelude.{String, false, List, [], ◌∷◌, none, some, string_eq}
use forge_eng_fabric.Prelude.Int.{pos}
use forge_eng_fabric.Workflow.Lint.Cycles.{deps}
use forge_eng_fabric.Prelude.Value.{null}
use forge_eng_fabric.Workflow.Ast
use forge_eng_fabric.Workflow.Ast.{
  Step, Node, node, nil, no_branch, IoField, Metadata, Trigger, EventPattern, NodeActiveSurface,
}

abbrev pub plain_step : String → String → List String → Step
plain_step id step_type deps = record {
  id = id;
  step_type = step_type;
  ref = "";
  tool = "";
  depends_on = some deps;
  inputs = [];
  outputs = [];
  retries = none;
  timeout = "";
  compensate_with = "";
  for_each = "";
  max_parallel = pos 0;
  body_ref = "";
  approver_role = "";
  on_timeout = "";
  escalation_role = "";
  expected_outputs = [];
  workflow_ref = "";
  workflow_version = "";
  event_pattern = none;
  prompt_template = "";
  model = none;
  tools = none;
  max_tool_calls = pos 0;
  step_outputs = [];
  active_surface = none;
  targets = [];
  migrated_from = "";
}

abbrev pub alone : Step → Node
alone s = node s no_branch nil

abbrev pub field_named : String → IoField
field_named name = record {
  name = name;
  io_type = "string";
  required = false;
  default = null;
  description = "";
  validations = [];
}

abbrev pub workflow_with : String → List IoField → List Node → Ast.Workflow
workflow_with version inputs steps = record {
  api_version = "forge.workflows/v1";
  kind = "Workflow";
  metadata = record {
    id = "wf";
    name = "Build";
    version = version;
    owners = none;
    visibility = "";
    criticality = "";
    openspec_ids = [];
    tags = none;
    description = "";
    success_metric = "";
  };
  spec = record { inputs = inputs; outputs = []; steps = steps; on_failure = []; triggers = [] };
}

abbrev pub two_steps : List Node
two_steps = alone (plain_step "a" "custom" []) ∷ alone (plain_step "b" "custom" ("a" ∷ [])) ∷ []

abbrev pub first_ast : Ast.Workflow
first_ast = workflow_with "1.0.0" (field_named "repo" ∷ []) two_steps

-- The next document has no input.
abbrev pub next_ast : Ast.Workflow
next_ast = workflow_with "1.0.1" [] two_steps
