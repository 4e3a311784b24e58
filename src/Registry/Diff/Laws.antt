-- ===== src/Registry/Diff/Laws.antt =====
-- What a consumer may rely on is not removed without a major version.
use forge_eng_fabric.Prelude.{
  String, Bool, not, ◌&&◌, List, Option, none, some, ◌≡◌, refl, sym, subst, ◌==◌, string_eq,
}
use forge_eng_fabric.Prelude.Assoc.{lookup}
use forge_eng_fabric.Prelude.Text.{◌+s◌}
use forge_eng_fabric.Prelude.Value.{Fields}
use forge_eng_fabric.Workflow.Ast.{Step, IoField, Trigger, Workflow, steps_of}
use forge_eng_fabric.Registry.SemVer.{bump_major}
use forge_eng_fabric.Registry.Diff.Marks.{
  DiffResult, mark_major, mark_minor, index_io, index_steps, index_triggers, mark_absent, mark_if,
  no_change,
}
use forge_eng_fabric.Registry.Diff.{
  diff_input, diff_output, diff_inputs, diff_outputs, diff_steps, diff_triggers, diff_workflows,
}
use forge_eng_fabric.Registry.Diff.Keeps.{
  IsMajor, Keeps, mark_major-Keeps, mark_minor-Keeps, each-Keeps, mark_absent-Keeps,
  diff_input-Keeps, diff_output-Keeps, diff_step-Keeps, diff_trigger-Keeps, note_metadata-Keeps,
}
use forge_eng_fabric.Registry.Diff.Lost.{Loses, lost_entry}

mark_absent-IsMajor :
    {A : Type 0} (prefix name : String) (next : List (String × A)) (v : A) (d : DiffResult)
    → lookup name next ≡ none
    → IsMajor (mark_absent mark_major prefix next (name, v) d)
unfolding mark_absent mark_major
mark_absent-IsMajor {A = A} prefix name next v d h =
    subst
      (λ (o : Option A).
        IsMajor (elim o as (λ _. DiffResult) [ none ↦ mark_major (prefix +s name) d | some u ↦ d ]))
      (sym h) (record { is_major = refl })

input-IsMajor :
    (name : String) (next : List (String × IoField)) (v : IoField) (d : DiffResult)
    → lookup name next ≡ none
    → IsMajor (diff_input next (name, v) d)
unfolding diff_input mark_major
input-IsMajor name next v d h =
    subst
      (λ (o : Option IoField). IsMajor (elim o as (λ _. DiffResult) [
        | none ↦ mark_major ("input_removed:" +s name) d
        | some n ↦ Changed n
      ]))
      (sym h) (record { is_major = refl })
  where
    Changed : IoField → DiffResult
    Changed n =
        mark_if (not v.required && n.required) (mark_major ("input_required_added:" +s name)) (
          mark_if (not (v.io_type == n.io_type))
            (mark_major ("input_type_changed:" +s name +s ":" +s v.io_type +s "->" +s n.io_type)) d)

output-IsMajor :
    (name : String) (next : List (String × IoField)) (v : IoField) (d : DiffResult)
    → lookup name next ≡ none
    → IsMajor (diff_output next (name, v) d)
unfolding diff_output mark_major
output-IsMajor name next v d h =
    subst
      (λ (o : Option IoField). IsMajor (elim o as (λ _. DiffResult) [
        | none ↦ mark_major ("output_removed:" +s name) d
        | some n ↦ Changed n
      ]))
      (sym h) (record { is_major = refl })
  where
    Changed : IoField → DiffResult
    Changed n =
        mark_if (not (v.io_type == n.io_type))
          (mark_major ("output_type_changed:" +s name +s ":" +s v.io_type +s "->" +s n.io_type)) d

module _ (prev next : List IoField) where
  diff_inputs-Keeps : Keeps (diff_inputs prev next)
  unfolding diff_inputs
  diff_inputs-Keeps d h =
      each-Keeps _ (λ e. mark_absent-Keeps mark_minor _ _ e mark_minor-Keeps) (index_io next) _
        (each-Keeps _ (diff_input-Keeps (index_io next)) (index_io prev) d h)

  diff_outputs-Keeps : Keeps (diff_outputs prev next)
  unfolding diff_outputs
  diff_outputs-Keeps d h =
      each-Keeps _ (λ e. mark_absent-Keeps mark_minor _ _ e mark_minor-Keeps) (index_io next) _
        (each-Keeps _ (diff_output-Keeps (index_io next)) (index_io prev) d h)

  diff_inputs-IsMajor :
      (name : String)
      → Loses (λ f. f.name) name prev next
      → (d : DiffResult) → IsMajor (diff_inputs prev next d)
  unfolding diff_inputs index_io
  diff_inputs-IsMajor name l d =
      each-Keeps _ (λ e. mark_absent-Keeps mark_minor _ _ e mark_minor-Keeps) (index_io next) _
        (lost_entry (λ f. f.name) name diff_input diff_input-Keeps (input-IsMajor name) prev next l
          d)

  diff_outputs-IsMajor :
      (name : String)
      → Loses (λ f. f.name) name prev next
      → (d : DiffResult) → IsMajor (diff_outputs prev next d)
  unfolding diff_outputs index_io
  diff_outputs-IsMajor name l d =
      each-Keeps _ (λ e. mark_absent-Keeps mark_minor _ _ e mark_minor-Keeps) (index_io next) _
        (lost_entry (λ f. f.name) name diff_output diff_output-Keeps (output-IsMajor name) prev next
          l d)

module _ (prev next : List Step) where
  diff_steps-Keeps : Keeps (diff_steps prev next)
  unfolding diff_steps
  diff_steps-Keeps d h = each-Keeps _ (diff_step-Keeps (index_steps prev)) (index_steps next) _ (
      each-Keeps _ (λ e. mark_absent-Keeps mark_major _ _ e mark_major-Keeps) (index_steps prev) d
        h)

  diff_steps-IsMajor :
      (id : String)
      → Loses (λ s. s.id) id prev next
      → (d : DiffResult) → IsMajor (diff_steps prev next d)
  unfolding diff_steps index_steps
  diff_steps-IsMajor id l d =
      each-Keeps _ (diff_step-Keeps (index_steps prev)) (index_steps next) _ (
        lost_entry (λ s. s.id) id (mark_absent mark_major "step_removed:")
          (λ m e. mark_absent-Keeps mark_major _ _ e mark_major-Keeps)
          (mark_absent-IsMajor "step_removed:" id) prev next l d)

module _ (deep_equal : Option Fields → Option Fields → Bool) (prev next : List Trigger) where
  diff_triggers-Keeps : Keeps (diff_triggers deep_equal prev next)
  unfolding diff_triggers
  diff_triggers-Keeps d h =
      each-Keeps _ (diff_trigger-Keeps deep_equal (index_triggers prev)) (index_triggers next) _ (
        each-Keeps _ (λ e. mark_absent-Keeps mark_major _ _ e mark_major-Keeps)
          (index_triggers prev) d h)

  diff_triggers-IsMajor :
      (id : String)
      → Loses (λ t. t.id) id prev next
      → (d : DiffResult) → IsMajor (diff_triggers deep_equal prev next d)
  unfolding diff_triggers index_triggers
  diff_triggers-IsMajor id l d =
      each-Keeps _ (diff_trigger-Keeps deep_equal (index_triggers prev)) (index_triggers next) _ (
        lost_entry (λ t. t.id) id (mark_absent mark_major "trigger_removed:")
          (λ m e. mark_absent-Keeps mark_major _ _ e mark_major-Keeps)
          (mark_absent-IsMajor "trigger_removed:" id) prev next l d)

-- An input, an output, a step of the first level or a trigger of one workflow that another lacks.
pub data Removes (prev next : Workflow) : Type 0 where
  input :
      (name : String)
      → Loses (λ f. f.name) name prev.spec.inputs next.spec.inputs
      → Removes prev next
  output :
      (name : String)
      → Loses (λ f. f.name) name prev.spec.outputs next.spec.outputs
      → Removes prev next
  step :
      (id : String)
      → Loses (λ s. s.id) id (steps_of prev.spec.steps) (steps_of next.spec.steps)
      → Removes prev next
  trigger :
      (id : String) → Loses (λ t. t.id) id prev.spec.triggers next.spec.triggers → Removes prev next

-- Where a workflow loses an input, an output, a step of the first level or a trigger, DiffWorkflows
-- classifies the change as major, whatever else changed.
pub removal-is_major :
    (deep_equal : Option Fields → Option Fields → Bool) (prev next : Workflow)
    → Removes prev next
    → (diff_workflows deep_equal prev next).bump ≡ bump_major
unfolding diff_workflows
removal-is_major deep_equal prev next r = (by_part r).is_major
  where
    s : List Step
    s = steps_of prev.spec.steps

    s' : List Step
    s' = steps_of next.spec.steps

    by_part : Removes prev next → IsMajor (diff_workflows deep_equal prev next)
    by_part (input name l) = note_metadata-Keeps _ _ (
        diff_triggers-Keeps deep_equal prev.spec.triggers next.spec.triggers _ (
          diff_steps-Keeps s s' _ (
            diff_outputs-Keeps prev.spec.outputs next.spec.outputs _
              (diff_inputs-IsMajor prev.spec.inputs next.spec.inputs name l no_change))))
    by_part (output name l) = note_metadata-Keeps _ _ (
        diff_triggers-Keeps deep_equal prev.spec.triggers next.spec.triggers _ (
          diff_steps-Keeps s s' _
            (diff_outputs-IsMajor prev.spec.outputs next.spec.outputs name l _)))
    by_part (step id l) = note_metadata-Keeps _ _ (
        diff_triggers-Keeps deep_equal prev.spec.triggers next.spec.triggers _
          (diff_steps-IsMajor s s' id l _))
    by_part (trigger id l) =
        note_metadata-Keeps _ _
          (diff_triggers-IsMajor deep_equal prev.spec.triggers next.spec.triggers id l _)
