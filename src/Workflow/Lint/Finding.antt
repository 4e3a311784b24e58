-- ===== src/Workflow/Lint/Finding.antt =====
-- lint.go: the findings, and the walk over the steps that every check makes.
use forge_eng_fabric.Prelude.{String, Bool, List, [], ◌∷◌, ◌++◌, keep, true, false}
use forge_eng_fabric.Workflow.Ast.{
  Step, Node, node, Nodes, nil, cons, Branches, no_branch, branch, steps_of, Workflow,
}

pub data Severity : Type 0 where
  error warning : Severity

pub data Code : Type 0 where
  dangling_dep unreachable_step cycle_detected type_mismatch floating_reference_not_allowed
        unknown_asset_format duplicate_step_id missing_ref missing_tool missing_approver_role
        invalid_target_phase invalid_target_value deprecated_step_kind unknown_trigger_type
        dangling_trigger_field unknown_event_topic dangling_step_field missing_prompt_template
        missing_model_ref :
      Code

pub record Finding : Type 0 where
  pub code : Code
  pub severity : Severity
  pub step_id : String
  pub message : String

-- Finding.IsError
unfoldable pub is_error : Finding → Bool
is_error f = elim f.severity [ error ↦ true | warning ↦ false ]

-- Result.Errors
unfoldable pub errors : List Finding → List Finding
unfolding keep is_error
errors findings = keep is_error findings

abbrev pub error_of : Code → String → String → Finding
error_of code id message = record { code = code; severity = error; step_id = id; message = message }

abbrev pub warning_of : Code → String → String → Finding
warning_of code id message = record {
  code = code;
  severity = warning;
  step_id = id;
  message = message;
}

-- The steps that stand directly in a slice of nodes.
unfoldable pub own_steps : Nodes → List Step
own_steps nil = []
own_steps (cons (node s arms body) rest) = s ∷ own_steps rest

-- walkBranches
unfoldable pub walk_branches : Branches → List Step
unfolding own_steps
walk_branches no_branch = []
walk_branches (branch when_ goto steps rest) = own_steps steps ++ walk_branches rest

-- The loop of allSteps.
unfoldable pub inner_steps : List Node → List Step
unfolding walk_branches own_steps
inner_steps [] = []
inner_steps (node s arms body ∷ rest) = walk_branches arms ++ own_steps body ++ inner_steps rest

-- allSteps
unfoldable pub all_steps : Workflow → List Step
unfolding inner_steps
all_steps wf = steps_of wf.spec.steps ++ inner_steps wf.spec.steps ++ steps_of wf.spec.on_failure

-- `for _, s := range l { out = append(out, f(s)...) }`
module _ {A : Type 0} (f : A → List Finding) where
  unfoldable pub collect : List A → List Finding
  collect [] = []
  collect (x ∷ xs) = f x ++ collect xs
