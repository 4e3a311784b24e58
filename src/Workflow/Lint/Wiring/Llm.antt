-- ===== src/Workflow/Lint/Wiring/Llm.antt =====
-- lint.go: checkLLMSteps.
use forge_eng_fabric.Prelude.{
  String, Bool, true, not, List, [], ◌∷◌, ◌++◌, Option, none, some, keep, ◌==◌, string_eq,
  if◌then◌else◌,
}
use forge_eng_fabric.Prelude.Assoc.{lookup, insert}
use forge_eng_fabric.Prelude.Text.{◌+s◌}
use forge_eng_fabric.Prelude.Split.{quoted, strip, split}
use forge_eng_fabric.Prelude.Value.{Value}
use forge_eng_fabric.Workflow.Ast.{Step, ModelBinding, elements, step_llm}
use forge_eng_fabric.Workflow.Ast.Ref.{parse_asset_ref, is_floating}
use forge_eng_fabric.Workflow.Lint.Finding.{
  Finding, missing_prompt_template, floating_reference_not_allowed, missing_model_ref,
  dangling_step_field, error_of, collect,
}
use forge_eng_fabric.Workflow.Lint.Steps.{is_listed, requires}
use forge_eng_fabric.Workflow.Lint.Wiring.{Declared, names, text_of, scan_inputs}

abbrev pub is_llm : Step → Bool
is_llm s = s.step_type == step_llm

-- `llmOutputs`
unfoldable pub declare_outputs : List Step → Declared → Declared
declare_outputs [] d = d
declare_outputs (s ∷ rest) d = declare_outputs rest (insert s.id (names s.step_outputs) d)

unfoldable pub tool_of : Step → String → List Finding
unfolding quoted
tool_of s tool = requires (is_floating (parse_asset_ref tool)) (
    error_of floating_reference_not_allowed s.id
      ("step " +s quoted s.id +s " tool " +s quoted tool +s " must be pinned to exact SemVer"))

abbrev pub lacks_model : Option ModelBinding → Bool
lacks_model none = true
lacks_model (some m) = m.ref == ""

unfoldable pub prompt_of : Step → List Finding
unfolding quoted
prompt_of s =
    if s.prompt_template == ""
    then error_of missing_prompt_template s.id
        ("step " +s quoted s.id +s " (llm) requires prompt_template")
      ∷ []
    else requires (is_floating (parse_asset_ref s.prompt_template)) (
        error_of floating_reference_not_allowed s.id (
          "step "
          +s quoted s.id
          +s " prompt_template "
          +s quoted s.prompt_template
          +s " must be pinned to exact SemVer"))

unfoldable pub llm_of : Step → List Finding
unfolding quoted prompt_of tool_of collect
llm_of s =
    prompt_of s
    ++ requires (lacks_model s.model)
        (error_of missing_model_ref s.id ("step " +s quoted s.id +s " (llm) requires model.ref"))
    ++ collect (tool_of s) (elements s.tools)

-- The field of `$steps.<id>.<field>` or `$steps.<id>.outputs.<field>`.
abbrev pub field_of : String → List String → String
field_of first [] = first
field_of first (second ∷ rest) = if first == "outputs" then second else first

unfoldable pub llm_field : Declared → String → String → String → List Finding
unfolding quoted
llm_field declared step_id llm_id field = elim (lookup llm_id declared) [
  | none ↦ []
  | some [] ↦ []
  | some (f ∷ fields) ↦ requires (not (is_listed (f ∷ fields) field)) (
      error_of dangling_step_field step_id (
        "step "
        +s quoted step_id
        +s " references undeclared output "
        +s quoted field
        +s " on llm step "
        +s quoted llm_id))
]

abbrev pub llm_parts : Declared → String → List String → List Finding
llm_parts declared step_id (llm_id ∷ field ∷ rest) =
    llm_field declared step_id llm_id (field_of field rest)
llm_parts declared step_id _ = []

-- `scan` of checkLLMSteps
unfoldable pub scan_llm : Declared → String → Value → List Finding
unfolding llm_field
scan_llm declared step_id v = elim (text_of v) [
  | none ↦ []
  | some ref ↦ elim (strip ref "$steps.") [
    | none ↦ []
    | some rest ↦ llm_parts declared step_id (split 46 rest)
  ]
]

-- checkLLMSteps
unfoldable pub check_llm_steps : List Step → List Finding
unfolding llm_of scan_llm scan_inputs declare_outputs collect keep
check_llm_steps steps =
    let llm_steps = keep is_llm steps in
    collect llm_of llm_steps ++ scan_inputs (scan_llm (declare_outputs llm_steps [])) steps
