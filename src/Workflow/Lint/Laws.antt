-- ===== src/Workflow/Lint/Laws.antt =====
-- What a workflow without errors is.
use forge_eng_fabric.Prelude.{
  String, true, List, [], ◌∷◌, ◌++◌, ◌≡◌, refl, sym, subst, ◌∙◌, inl, inr, Member, keep,
  keep-append, Bool-cases,
}
use forge_eng_fabric.Workflow.Ast.{Step, Workflow, elements}
use forge_eng_fabric.Workflow.Lint.{lint}
use forge_eng_fabric.Workflow.Lint.Finding.{Finding, is_error, errors, all_steps, collect}
use forge_eng_fabric.Workflow.Lint.Steps.{
  check_duplicate_ids, check_dangling_deps, dangling_of, dangling, has_step,
}
use forge_eng_fabric.Workflow.Lint.Cycles.{graph_of, check_cycles}
use forge_eng_fabric.Workflow.Lint.Cycles.Loops.{Below}
use forge_eng_fabric.Workflow.Lint.Cycles.Laws.{no_cycle_iff, errors-check_cycles}
use mathlib.Core.WellFounded.{Acc}

append-nil_left : {A : Type 0} (xs ys : List A) → xs ++ ys ≡ [] → xs ≡ []
append-nil_left [] ys h = refl
append-nil_left (x ∷ xs) ys h = cc

append-nil_right : {A : Type 0} (xs ys : List A) → xs ++ ys ≡ [] → ys ≡ []
append-nil_right [] ys h = h
append-nil_right (x ∷ xs) ys h = cc

errors_left : (xs ys : List Finding) → errors (xs ++ ys) ≡ [] → errors xs ≡ []
unfolding errors
errors_left xs ys h =
    append-nil_left (keep is_error xs) (keep is_error ys) (sym (keep-append is_error xs ys) ∙ h)

errors_right : (xs ys : List Finding) → errors (xs ++ ys) ≡ [] → errors ys ≡ []
unfolding errors
errors_right xs ys h =
    append-nil_right (keep is_error xs) (keep is_error ys) (sym (keep-append is_error xs ys) ∙ h)

errors-collect :
    {A : Type 0} (f : A → List Finding) (xs : List A) (x : A)
    → errors (collect f xs) ≡ []
    → Member x xs
    → errors (f x) ≡ []
unfolding collect
errors-collect f [] x h m = absurd m
errors-collect f (y ∷ ys) x h (inl e) =
    subst (λ z. errors (f z) ≡ []) (sym e) (errors_left (f y) (collect f ys) h)
errors-collect f (y ∷ ys) x h (inr m) =
    errors-collect f ys x (errors_right (f y) (collect f ys) h) m

errors-dangling :
    (steps : List Step) (id dep : String)
    → errors (dangling steps id dep) ≡ []
    → has_step steps dep ≡ true
unfolding dangling errors keep is_error
errors-dangling steps id dep h = elim (Bool-cases (has_step steps dep)) [
  | inl p ↦ p
  | inr p ↦ cc (rw p at h)
]

-- Of the steps that `all_steps` lists, every dependency is one of them, and the chains of dependencies
-- end. A step that is nested deeper than one level is none of them.
pub record Runs (wf : Workflow) : Type 0 where
  pub known :
      (s : Step) (dep : String)
      → Member s (all_steps wf)
      → Member dep (elements s.depends_on)
      → has_step (all_steps wf) dep ≡ true
  pub ends : (id : String) → Acc (Below (graph_of (all_steps wf) [])) id

-- In a workflow in which Lint finds no error, no step that `all_steps` lists depends on one that it
-- does not list, and the relation "is a dependency of" between them is well-founded.
pub lint-Runs : (wf : Workflow) → errors (lint wf) ≡ [] → Runs wf
unfolding lint check_dangling_deps dangling_of
lint-Runs wf h =
    let after_ids = errors_right (check_duplicate_ids (all_steps wf)) _ h in
    let after_deps = errors_right (check_dangling_deps (all_steps wf)) _ after_ids in
    record {
      known = λ s dep m d. errors-dangling (all_steps wf) s.id dep (
          errors-collect (dangling (all_steps wf) s.id) (elements s.depends_on) dep
            (errors-collect (dangling_of (all_steps wf)) (all_steps wf) s
              (errors_left (check_dangling_deps (all_steps wf)) _ after_ids) m)
            d);
      ends = (no_cycle_iff (all_steps wf)).0 (
          errors-check_cycles (all_steps wf)
            (errors_left (check_cycles (all_steps wf)) _ after_deps));
    }
