-- ===== src/Registry/Diff.antt =====
-- diff.go: what changed between two workflows. A map ranges in the order of the list that stands for
-- it. `reflect.DeepEqual` of two `config` maps is a parameter, since a value here shows of a number
-- what it prints.
pub mod Marks
pub mod Keeps
pub mod Lost
pub mod Laws
use forge_eng_fabric.Prelude.{
  String, Bool, true, false, not, ◌&&◌, ◌||◌, List, [], ◌∷◌, ◌++◌, Option, none, some, any, ◌==◌,
  string_eq, if◌then◌else◌,
}
use forge_eng_fabric.Prelude.Assoc.{lookup, insert}
use forge_eng_fabric.Prelude.Text.{◌+s◌}
use forge_eng_fabric.Prelude.Value.{Fields}
use forge_eng_fabric.Workflow.Ast.{
  Step, IoField, ModelBinding, Trigger, TriggerConcurrency, queue, drop, overlap, unlisted,
  concurrency_or_default, step_llm, step_prompt, step_prompt_template, steps_of, Workflow,
}
use forge_eng_fabric.Registry.SemVer.{BumpKind, bump_major, bump_minor, bump_patch}
use forge_eng_fabric.Registry.Diff.Marks.{
  DiffResult, append_once, mark_major, mark_minor, mark_patch_migration, mark_if, each, index_io,
  index_steps, index_triggers, same_slice, mark_absent, no_change,
}

-- The inputs of the previous workflow.
unfoldable pub diff_input : List (String × IoField) → String × IoField → DiffResult → DiffResult
unfolding mark_major
diff_input next (name, p) d = elim (lookup name next) as (λ _. DiffResult) [
  | none ↦ mark_major ("input_removed:" +s name) d
  | some n ↦ mark_if (not p.required && n.required) (mark_major ("input_required_added:" +s name)) (
      mark_if (not (p.io_type == n.io_type))
        (mark_major ("input_type_changed:" +s name +s ":" +s p.io_type +s "->" +s n.io_type)) d)
]

-- The outputs of the previous workflow.
unfoldable pub diff_output : List (String × IoField) → String × IoField → DiffResult → DiffResult
unfolding mark_major
diff_output next (name, p) d = elim (lookup name next) as (λ _. DiffResult) [
  | none ↦ mark_major ("output_removed:" +s name) d
  | some n ↦
      mark_if (not (p.io_type == n.io_type))
        (mark_major ("output_type_changed:" +s name +s ":" +s p.io_type +s "->" +s n.io_type)) d
]

-- modelRef
unfoldable pub model_ref : Option ModelBinding → String
model_ref none = ""
model_ref (some m) = m.ref

-- diffLLMStep
unfoldable pub diff_llm_step : String → Step → Step → DiffResult → DiffResult
unfolding mark_major mark_minor mark_absent each model_ref
diff_llm_step id p n d =
    each (mark_absent mark_minor ("llm_outputs_added:" +s id +s ":") p.step_outputs) n.step_outputs
      (each (mark_absent mark_major ("llm_outputs_removed:" +s id +s ":") n.step_outputs)
        p.step_outputs
        (mark_if (not (same_slice p.tools n.tools)) (mark_minor ("llm_tools_changed:" +s id)) (
          mark_if (not (model_ref p.model == model_ref n.model))
            (mark_minor ("llm_model_ref_changed:" +s id))
            (mark_if (not (p.prompt_template == n.prompt_template))
              (mark_minor ("llm_prompt_template_changed:" +s id)) d))))

-- isPromptToTemplateMigration
unfoldable pub is_prompt_to_template_migration : String → String → Bool
is_prompt_to_template_migration prev next = prev == step_prompt && next == step_prompt_template

-- `if p.Type != n.Type { … }`
unfoldable pub diff_step_type : String → Step → Step → DiffResult → DiffResult
unfolding mark_patch_migration mark_major is_prompt_to_template_migration
diff_step_type id p n = mark_if (not (p.step_type == n.step_type)) (
    if is_prompt_to_template_migration p.step_type n.step_type
    then mark_patch_migration ("migrate_prompt_to_prompt_template:" +s id)
    else mark_major ("step_type_changed:" +s id +s ":" +s p.step_type +s "->" +s n.step_type))

-- The steps of the next workflow.
unfoldable pub diff_step : List (String × Step) → String × Step → DiffResult → DiffResult
unfolding diff_step_type diff_llm_step mark_minor
diff_step prev (id, n) d = elim (lookup id prev) as (λ _. DiffResult) [
  | none ↦ mark_minor ("step_added:" +s id) d
  | some p ↦ mark_if (p.step_type == step_llm && n.step_type == step_llm) (diff_llm_step id p n) (
      mark_if (not (same_slice p.depends_on n.depends_on)) (mark_minor ("step_deps_changed:" +s id))
        (mark_if (not (p.ref == n.ref) || not (p.tool == n.tool))
          (mark_minor ("step_ref_changed:" +s id)) (diff_step_type id p n d)))
]

abbrev pub same_concurrency : TriggerConcurrency → TriggerConcurrency → Bool
same_concurrency queue queue = true
same_concurrency drop drop = true
same_concurrency overlap overlap = true
same_concurrency (unlisted s) (unlisted t) = s == t
same_concurrency _ _ = false

-- A trigger of the next workflow that the previous one does not have.
unfoldable pub trigger_added : String → Trigger → DiffResult → DiffResult
unfolding mark_patch_migration mark_minor
trigger_added id n =
    if not (n.migrated_from == "")
    then mark_patch_migration ("migrate_event_trigger_to_triggers_block:" +s id)
    else mark_minor ("trigger_added:" +s id)

module _ (deep_equal : Option Fields → Option Fields → Bool) where
  -- The triggers of the next workflow.
  unfoldable pub diff_trigger : List (String × Trigger) → String × Trigger → DiffResult → DiffResult
  unfolding mark_major mark_minor mark_absent each trigger_added concurrency_or_default
  diff_trigger prev (id, n) d = elim (lookup id prev) as (λ _. DiffResult) [
    | none ↦ trigger_added id n d
    | some p ↦
        mark_if (not (same_concurrency (concurrency_or_default p) (concurrency_or_default n)))
          (mark_minor ("trigger_concurrency_changed:" +s id))
          (each (mark_absent mark_minor ("trigger_outputs_added:" +s id +s ":") p.outputs) n.outputs
            (each (mark_absent mark_major ("trigger_outputs_removed:" +s id +s ":") n.outputs)
              p.outputs
              (mark_if (not (deep_equal p.config n.config))
                (mark_minor ("trigger_config_changed:" +s id))
                (mark_if (not (p.trigger_type == n.trigger_type))
                  (mark_major (
                    "trigger_type_changed:" +s id +s ":" +s p.trigger_type +s "->"
                    +s n.trigger_type))
                  d))))
  ]

  -- diffTriggers
  unfoldable pub diff_triggers : List Trigger → List Trigger → DiffResult → DiffResult
  unfolding each diff_trigger mark_absent mark_major index_triggers
  diff_triggers prev next d =
      let prev_index = index_triggers prev in
      let next_index = index_triggers next in
      each (diff_trigger prev_index) next_index
        (each (mark_absent mark_major "trigger_removed:" next_index) prev_index d)

-- metadataChanged
unfoldable pub metadata_changed : Workflow → Workflow → Bool
metadata_changed prev next =
    not (prev.metadata.description == next.metadata.description)
    || not (prev.metadata.success_metric == next.metadata.success_metric)
    || not (same_slice prev.metadata.owners next.metadata.owners)
    || not (same_slice prev.metadata.tags next.metadata.tags)

abbrev pub is_patch : BumpKind → Bool
is_patch bump_major = false
is_patch bump_minor = false
is_patch bump_patch = true

-- The reason that stands where nothing but metadata changed.
unfoldable pub note_metadata : Bool → DiffResult → DiffResult
note_metadata changed d =
    if is_patch d.bump && changed
    then record d { reasons = d.reasons ++ "metadata_only_change" ∷ [] }
    else d

unfoldable pub diff_inputs : List IoField → List IoField → DiffResult → DiffResult
unfolding each diff_input mark_absent mark_minor index_io
diff_inputs prev next d =
    let prev_index = index_io prev in
    let next_index = index_io next in
    each (mark_absent mark_minor "input_added:" prev_index) next_index
      (each (diff_input next_index) prev_index d)

unfoldable pub diff_outputs : List IoField → List IoField → DiffResult → DiffResult
unfolding each diff_output mark_absent mark_minor index_io
diff_outputs prev next d =
    let prev_index = index_io prev in
    let next_index = index_io next in
    each (mark_absent mark_minor "output_added:" prev_index) next_index
      (each (diff_output next_index) prev_index d)

unfoldable pub diff_steps : List Step → List Step → DiffResult → DiffResult
unfolding each diff_step mark_absent mark_major index_steps
diff_steps prev next d =
    let prev_index = index_steps prev in
    let next_index = index_steps next in
    each (diff_step prev_index) next_index
      (each (mark_absent mark_major "step_removed:" next_index) prev_index d)

module _ (deep_equal : Option Fields → Option Fields → Bool) where
  -- DiffWorkflows
  unfoldable pub diff_workflows : Workflow → Workflow → DiffResult
  unfolding diff_inputs diff_outputs diff_steps diff_triggers metadata_changed note_metadata
      steps_of
  diff_workflows prev next = note_metadata (metadata_changed prev next) (
      diff_triggers deep_equal prev.spec.triggers next.spec.triggers (
        diff_steps (steps_of prev.spec.steps) (steps_of next.spec.steps) (
          diff_outputs prev.spec.outputs next.spec.outputs
            (diff_inputs prev.spec.inputs next.spec.inputs no_change))))
