-- ===== src/Workflow/Lint.antt =====
-- pkg/workflow/lint/lint.go: all the checks of a workflow.
pub mod Finding
pub mod Steps
pub mod Cycles
pub mod Reach
pub mod Wiring
pub mod Laws
use forge_eng_fabric.Prelude.{List, ◌++◌}
use forge_eng_fabric.Workflow.Ast.{Workflow}
use forge_eng_fabric.Workflow.Lint.Finding.{all_steps}
use forge_eng_fabric.Workflow.Lint.Steps.{
  check_duplicate_ids, check_dangling_deps, check_refs, check_step_shape, check_targets,
  check_deprecated_step_kinds,
}
use forge_eng_fabric.Workflow.Lint.Cycles.{check_cycles}
use forge_eng_fabric.Workflow.Lint.Reach.{check_unreachable}
use forge_eng_fabric.Workflow.Lint.Wiring.Triggers.{check_triggers}
use forge_eng_fabric.Workflow.Lint.Wiring.Llm.{check_llm_steps}
use forge_eng_fabric.Workflow.Lint.Wiring.Types.{check_type_wiring}
use forge_eng_fabric.Workflow.Lint.Finding

-- Lint, of a workflow that is not nil
unfoldable pub lint : Workflow → List Finding.Finding
unfolding all_steps check_duplicate_ids check_dangling_deps check_cycles check_unreachable
    check_refs check_step_shape check_type_wiring check_targets check_deprecated_step_kinds
    check_triggers check_llm_steps
lint wf =
    let steps = all_steps wf in
    check_duplicate_ids steps
    ++ (check_dangling_deps steps
        ++ (check_cycles steps
            ++ (check_unreachable steps
                ++ check_refs steps
                ++ check_step_shape steps
                ++ check_type_wiring wf.spec.inputs steps
                ++ check_targets steps
                ++ check_deprecated_step_kinds steps wf.spec.triggers
                ++ check_triggers wf.spec.triggers steps
                ++ check_llm_steps steps)))
