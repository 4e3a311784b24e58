-- ===== src/Workflow/Lint/Wiring.antt =====
-- lint.go: what the checks of the references in the inputs of steps share.
pub mod Triggers
pub mod Llm
pub mod Types
use forge_eng_fabric.Prelude.{
  String, Bool, true, false, not, ◌&&◌, ◌||◌, List, [], ◌∷◌, ◌++◌, map, Option, none, some, any,
  keep, ◌==◌, string_eq, if◌then◌else◌,
}
use forge_eng_fabric.Prelude.Assoc.{lookup, insert}
use forge_eng_fabric.Prelude.Text.{◌+s◌}
use forge_eng_fabric.Prelude.Split.{quoted, strip, split, cut}
use forge_eng_fabric.Prelude.Value.{
  Value, null, bool, str, strs, obj, printed, Fields, at_key, string_from,
}
use forge_eng_fabric.Workflow.Ast.{
  Step, IoField, Trigger, ModelBinding, elements, is_known_trigger_type, trigger_event_bus,
  step_llm,
}
use forge_eng_fabric.Workflow.Ast.Ref.{parse_asset_ref, is_floating}
use forge_eng_fabric.Workflow.Lint.Finding.{
  Finding, unknown_trigger_type, unknown_event_topic, dangling_trigger_field,
  missing_prompt_template, floating_reference_not_allowed, missing_model_ref, dangling_step_field,
  type_mismatch, error_of, collect,
}
use forge_eng_fabric.Workflow.Lint.Steps.{is_listed, requires}

-- The names that something declares, by its identifier.
abbrev pub Declared : Type 0
Declared = List (String × List String)

abbrev pub names : List (String × String) → List String
names m = map (λ (entry : String × String). entry.0) m

-- The string of an input, for the checks that skip any other value.
abbrev pub text_of : Value → Option String
text_of (str s) = some s
text_of null = none
text_of (bool b) = none
text_of (strs l) = none
text_of (obj fs) = none
text_of (printed s) = none

-- `for _, s := range allSteps(wf) { for _, v := range s.Inputs { scan(s.ID, v) } }`
unfoldable pub scan_inputs : (String → Value → List Finding) → List Step → List Finding
unfolding collect
scan_inputs scan =
    collect (λ (s : Step). collect (λ (input : String × Value). scan s.id input.1) s.inputs)
