-- ===== src/Workflow/Lint/Wiring/Types.antt =====
-- lint.go: checkTypeWiring.
use forge_eng_fabric.Prelude.{
  String, not, List, [], ◌∷◌, none, some, any, ◌==◌, string_eq, if◌then◌else◌,
}
use forge_eng_fabric.Prelude.Assoc.{lookup, insert}
use forge_eng_fabric.Prelude.Text.{◌+s◌}
use forge_eng_fabric.Prelude.Split.{quoted, strip, split}
use forge_eng_fabric.Prelude.Value.{Value}
use forge_eng_fabric.Workflow.Ast.{Step, IoField}
use forge_eng_fabric.Workflow.Lint.Finding.{Finding, type_mismatch, error_of}
use forge_eng_fabric.Workflow.Lint.Steps.{is_listed, requires}
use forge_eng_fabric.Workflow.Lint.Wiring.{Declared, text_of, scan_inputs}

-- `stepOutputs` of checkTypeWiring
unfoldable pub step_outputs : List Step → Declared → Declared
step_outputs [] d = d
step_outputs (s ∷ rest) d = step_outputs rest (insert s.id s.outputs d)

unfoldable pub input_wired : List IoField → String → String → List Finding
unfolding quoted
input_wired inputs step_id name = requires (not (any (λ (f : IoField). f.name == name) inputs)) (
    error_of type_mismatch step_id
      ("step " +s quoted step_id +s " references unknown input " +s quoted name))

unfoldable pub output_wired : Declared → String → String → String → List Finding
unfolding quoted
output_wired produced step_id producer output = elim (lookup producer produced) [
  | none ↦
      error_of type_mismatch step_id
        ("step " +s quoted step_id +s " references unknown step " +s quoted producer)
      ∷ []
  | some [] ↦ []
  | some (o ∷ outputs) ↦ requires (not (is_listed (o ∷ outputs) output)) (
      error_of type_mismatch step_id (
        "step "
        +s quoted step_id
        +s " references unknown output "
        +s quoted output
        +s " on "
        +s quoted producer))
]

unfoldable pub output_parts : Declared → String → List String → List Finding
unfolding output_wired
output_parts produced step_id (producer ∷ outputs ∷ output ∷ rest) =
    if outputs == "outputs" then output_wired produced step_id producer output else []
output_parts produced step_id _ = []

unfoldable pub wired_parts : List IoField → Declared → String → List String → List Finding
unfolding input_wired output_parts
wired_parts inputs produced step_id (kind ∷ name ∷ rest) =
    if kind == "inputs"
    then input_wired inputs step_id name
    else if kind == "steps"
    then output_parts produced step_id (name ∷ rest)
    else []
wired_parts inputs produced step_id _ = []

-- `scanRefs`; stringValue makes an empty string of a value that is no string, which has no `$`.
unfoldable pub scan_refs : List IoField → Declared → String → Value → List Finding
unfolding wired_parts
scan_refs inputs produced step_id v = elim (text_of v) [
  | none ↦ []
  | some ref ↦ elim (strip ref "$") [
    | none ↦ []
    | some rest ↦ wired_parts inputs produced step_id (split 46 rest)
  ]
]

-- checkTypeWiring
unfoldable pub check_type_wiring : List IoField → List Step → List Finding
unfolding scan_refs scan_inputs step_outputs
check_type_wiring inputs steps = scan_inputs (scan_refs inputs (step_outputs steps [])) steps
