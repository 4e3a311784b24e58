-- ===== src/Workflow/Lint/Steps.antt =====
-- lint.go: the checks that look at the identifiers of the steps, and at one step at a time.
use forge_eng_fabric.Prelude.{
  ℕ, suc, String, Bool, not, ◌&&◌, ◌||◌, List, [], ◌∷◌, ◌++◌, none, some, any, ltb, ◌==◌, string_eq,
  if◌then◌else◌,
}
use forge_eng_fabric.Prelude.Assoc.{lookup, insert}
use forge_eng_fabric.Prelude.Text.{◌+s◌}
use forge_eng_fabric.Prelude.Split.{decimal, quoted}
use forge_eng_fabric.Workflow.Ast.{
  Step, Trigger, elements, deprecated_step_type, step_skill, step_mcp, step_prompt_template,
  step_human_in_loop, step_sub_workflow, step_prompt,
}
use forge_eng_fabric.Workflow.Ast.Ref.{pinned, refused, parse_asset_ref, is_floating}
use forge_eng_fabric.Workflow.Lint.Finding.{
  Finding, duplicate_step_id, dangling_dep, missing_ref, missing_tool, missing_approver_role,
  unknown_asset_format, invalid_target_phase, invalid_target_value, deprecated_step_kind, error_of,
  warning_of, collect,
}
use forge_eng_fabric.Workflow.Lint.Finding

-- `seen`
unfoldable pub count_ids : List Step → List (String × ℕ) → List (String × ℕ)
count_ids [] seen = seen
count_ids (s ∷ rest) seen =
    count_ids rest (insert s.id (elim (lookup s.id seen) [ none ↦ 1 | some n ↦ suc n ]) seen)

unfoldable pub repeated : String × ℕ → List Finding
unfolding decimal quoted
repeated (id, n) =
    if ltb 1 n
    then error_of duplicate_step_id id
        ("step id " +s quoted id +s " appears " +s decimal n +s " times")
      ∷ []
    else []

-- checkDuplicateIDs
unfoldable pub check_duplicate_ids : List Step → List Finding
unfolding count_ids collect repeated
check_duplicate_ids steps = collect repeated (count_ids steps [])

abbrev pub has_step : List Step → String → Bool
has_step steps id = any (λ s. s.id == id) steps

unfoldable pub dangling : List Step → String → String → List Finding
unfolding quoted
dangling steps id dep =
    if has_step steps dep
    then []
    else error_of dangling_dep id
        ("step " +s quoted id +s " depends on unknown step " +s quoted dep)
      ∷ []

unfoldable pub dangling_of : List Step → Step → List Finding
unfolding dangling collect
dangling_of steps s = collect (dangling steps s.id) (elements s.depends_on)

-- checkDanglingDeps
unfoldable pub check_dangling_deps : List Step → List Finding
unfolding dangling_of collect
check_dangling_deps steps = collect (dangling_of steps) steps

unfoldable pub ref_of : Step → List Finding
unfolding quoted
ref_of s = if s.ref == "" then [] else elim (parse_asset_ref s.ref) [
  | pinned r ↦ []
  | refused e ↦
      if is_floating (refused e)
      then error_of Finding.floating_reference_not_allowed s.id
          ("step " +s quoted s.id +s " ref " +s quoted s.ref +s " must be pinned to exact SemVer")
        ∷ []
      else error_of unknown_asset_format s.id (
          "step " +s quoted s.id +s " ref " +s quoted s.ref +s " is not a valid registry reference")
        ∷ []
]

-- checkRefs
unfoldable pub check_refs : List Step → List Finding
unfolding collect ref_of
check_refs steps = collect ref_of steps

-- A finding where the field is missing.
abbrev pub requires : Bool → Finding → List Finding
requires missing f = if missing then f ∷ [] else []

abbrev pub needs : Step → String → String → String
needs s kind field = "step " +s quoted s.id +s " (" +s kind +s ") requires " +s field

unfoldable pub shape_of : Step → List Finding
unfolding quoted
shape_of s =
    if s.step_type == step_skill
      || s.step_type == step_prompt_template
      || s.step_type == step_prompt
      || s.step_type == step_sub_workflow
    then requires (s.ref == "" && s.workflow_ref == "")
        (error_of missing_ref s.id (needs s s.step_type "ref"))
    else if s.step_type == step_mcp
    then requires (s.ref == "") (error_of missing_ref s.id (needs s "mcp" "ref"))
      ++ requires (s.tool == "") (error_of missing_tool s.id (needs s "mcp" "tool"))
    else if s.step_type == step_human_in_loop
    then requires (s.approver_role == "")
        (error_of missing_approver_role s.id (needs s "human-in-the-loop" "approver_role"))
    else []

-- checkStepShape
unfoldable pub check_step_shape : List Step → List Finding
unfolding collect shape_of
check_step_shape steps = collect shape_of steps

unfoldable pub known_target_phases : List String
known_target_phases =
    "architect" ∷ "design" ∷ "development" ∷ "qa" ∷ "security" ∷ "devops" ∷ "iac" ∷ "sre" ∷ "finops"
    ∷ "observability" ∷ []

unfoldable pub known_target_values : List String
known_target_values = "required" ∷ "optional" ∷ "opt-in" ∷ "skipped" ∷ []

abbrev pub is_listed : List String → String → Bool
is_listed l s = any (λ x. x == s) l

unfoldable pub target_of : Step → String × String → List Finding
unfolding quoted known_target_phases known_target_values
target_of s (phase, value) =
    requires (not (is_listed known_target_phases phase)) (
      error_of invalid_target_phase s.id (
        "step "
        +s quoted s.id
        +s " targets: unknown phase "
        +s quoted phase
        +s "; allowed: architect design development qa security devops iac sre finops observability"))
    ++ requires (not (is_listed known_target_values value)) (
        error_of invalid_target_value s.id (
          "step "
          +s quoted s.id
          +s " targets."
          +s phase
          +s ": unknown value "
          +s quoted value
          +s "; allowed: required optional opt-in skipped"))

unfoldable pub targets_of : Step → List Finding
unfolding collect target_of
targets_of s = collect (target_of s) s.targets

-- checkTargets
unfoldable pub check_targets : List Step → List Finding
unfolding collect targets_of
check_targets steps = collect targets_of steps

unfoldable pub deprecated_step : Step → List Finding
unfolding quoted deprecated_step_type
deprecated_step s =
    if s.migrated_from == ""
    then []
    else warning_of deprecated_step_kind s.id (
        "step "
        +s quoted s.id
        +s " uses deprecated type "
        +s quoted s.migrated_from
        +s (if deprecated_step_type s.migrated_from == ""
            then "; this shape will be removed in a follow-up change"
            else "; use "
              +s quoted (deprecated_step_type s.migrated_from)
              +s " instead. Auto-migrated on save (PATCH bump)"))
      ∷ []

unfoldable pub deprecated_trigger : Trigger → List Finding
unfolding quoted
deprecated_trigger t =
    if t.migrated_from == ""
    then []
    else warning_of deprecated_step_kind t.id (
        "trigger "
        +s quoted t.id
        +s " was migrated from a legacy "
        +s quoted t.migrated_from
        +s " step; the registry will persist the new spec.triggers shape on next save (PATCH bump)")
      ∷ []

-- checkDeprecatedStepKinds
unfoldable pub check_deprecated_step_kinds : List Step → List Trigger → List Finding
unfolding collect deprecated_step deprecated_trigger
check_deprecated_step_kinds steps triggers =
    collect deprecated_step steps ++ collect deprecated_trigger triggers
