-- ===== src/Registry/Publish/Choice.antt =====
-- The version that PublishVersion chooses where there is a previous one.
use forge_eng_fabric.Prelude.{
  String, Bool, true, false, Option, none, some, ◌≡◌, refl, sym, ap, subst, ◌∙◌, ◌⊎◌, inl, inr,
  string_eq, Bool-cases, if◌then◌else◌,
}
use forge_eng_fabric.Prelude.Assoc.{lookup}
use forge_eng_fabric.Prelude.Int.{pos}
use forge_eng_fabric.Workflow.Ast
use forge_eng_fabric.Workflow.Dsl.{parsed, parse}
use forge_eng_fabric.Registry.SemVer.{
  SemVer, BumpKind, parse_sem_ver, to_text, compare_versions, min_next_version, is_lt, release_of,
}
use forge_eng_fabric.Registry.SemVer.Laws.{IsValid}
use forge_eng_fabric.Registry.SemVer.Order.{CanBump, min_next_version-IsValid}
use forge_eng_fabric.Registry.SemVer.Read.{parse_sem_ver-IsValid}
use forge_eng_fabric.Registry.Diff.{diff_workflows}
use forge_eng_fabric.Registry.Diff.Marks.{DiffResult}
use forge_eng_fabric.Registry.Service.{
  Workflow, Version, Versions, Env, World, Result, ok, err, breaking_change,
}
use forge_eng_fabric.Registry.Publish.{
  PublishVersionRequest, versions_of, previous, latest_version, next_version, final_version,
}
use forge_eng_fabric.Registry.Publish.Outcome.{Outcome, Ends, refused, made}
use forge_eng_fabric.Registry.Publish.Laws.{checked-errors}

-- A version that is what MinNextVersion asks for, or not before it.
abbrev pub Allowed : SemVer → BumpKind → SemVer → Type 0
Allowed p bump q =
    (q ≡ min_next_version p bump) ⊎ (is_lt (compare_versions q (min_next_version p bump)) ≡ false)

next_version-Allowed :
    (auto_bump : Bool) (requested p final : SemVer) (diff : DiffResult)
    → CanBump p
    → IsValid requested
    → next_version auto_bump requested p diff ≡ ok final
    → IsValid final × Allowed p diff.bump final
unfolding next_version
next_version-Allowed true requested p final diff g v h =
    subst (λ (r : Result SemVer). Final r) h (min_next_version-IsValid p diff.bump g, inl refl)
  where
    Final : Result SemVer → Type 0
    Final (ok q) = IsValid q × Allowed p diff.bump q
    Final (err e) = Unit
next_version-Allowed false requested p final diff g v h =
    elim (Bool-cases (is_lt (compare_versions requested (min_next_version p diff.bump)))) [
      | inl e ↦ cc (subst (Decides) e h)
      | inr e ↦ subst (λ (r : Result SemVer). Final r) (subst Decides e h) (v, inr e)
    ]
  where
    Final : Result SemVer → Type 0
    Final (ok q) = IsValid q × Allowed p diff.bump q
    Final (err e) = Unit

    Decides : Bool → Type 0
    Decides b =
        (if b
          then err (breaking_change (min_next_version p diff.bump) diff.reasons)
          else ok requested)
        ≡ ok final

latest_version-parsed :
    (wf : Workflow) (p : SemVer) → parse_sem_ver wf.latest ≡ some p → latest_version wf ≡ p
unfolding latest_version
latest_version-parsed wf p h =
    ap
      (λ (o : Option SemVer). elim o as (λ _. SemVer) [
        | none ↦ release_of (pos 0) (pos 0) (pos 0)
        | some v ↦ v
      ])
      h

module _ (env : Env) (auto_bump : Bool) (requested final p : SemVer) (ast prev : Ast.Workflow) where
  decided :
      (wf : Workflow) (versions : Versions) (diff : Option DiffResult)
      → final_version env auto_bump requested ast wf versions ≡ ok (final, diff)
      → previous wf versions ≡ some prev
      → latest_version wf ≡ p
      → next_version auto_bump requested p (diff_workflows env.deep_equal prev ast) ≡ ok final
  unfolding final_version
  decided wf versions diff h k l =
      of_next (next_version auto_bump requested p (diff_workflows env.deep_equal prev ast))
        (subst Next l (subst Previous k h))
    where
      Next : SemVer → Type 0
      Next u =
          (elim (next_version auto_bump requested u (diff_workflows env.deep_equal prev ast))
            as (λ _. Result (SemVer × Option DiffResult)) [
              | err e ↦ err e
              | ok v ↦ ok (v, some (diff_workflows env.deep_equal prev ast))
            ])
          ≡ ok (final, diff)

      Previous : Option Ast.Workflow → Type 0
      Previous o =
          (elim o as (λ _. Result (SemVer × Option DiffResult)) [
            | none ↦ ok (requested, none)
            | some prev_ast ↦
                (elim (next_version auto_bump requested (latest_version wf)
                    (diff_workflows env.deep_equal prev_ast ast))
                  as (λ _. Result (SemVer × Option DiffResult)) [
                    | err e ↦ err e
                    | ok v ↦ ok (v, some (diff_workflows env.deep_equal prev_ast ast))
                  ])
          ])
          ≡ ok (final, diff)

      of_next :
          (r : Result SemVer)
          → (elim r as (λ _. Result (SemVer × Option DiffResult)) [
            | err e ↦ err e
            | ok v ↦ ok (v, some (diff_workflows env.deep_equal prev ast))
          ])
            ≡ ok (final, diff)
          → r ≡ ok final
      of_next (err e) h = cc
      of_next (ok v) h = cc

-- The version whose text is published, and the workflow that it is published for.
pub record Chosen (env : Env) (req : PublishVersionRequest) (prev : Ast.Workflow) (p : SemVer)
    (text : String) : Type 0 where
  pub ast : Ast.Workflow
  pub final : SemVer
  pub decoded : parse env.decode req.workflow_yaml ≡ parsed ast
  pub named : text ≡ to_text final
  pub is_valid : IsValid final
  pub allowed : Allowed p (diff_workflows env.deep_equal prev ast).bump final

pub Ends-Chosen :
    (env : Env) (req : PublishVersionRequest) (w : World) (wf : Workflow) (prev : Ast.Workflow)
    (p : SemVer) (v : Version) {o : Outcome}
    → Ends env req w o
    → lookup req.workflow_id w.workflows ≡ some wf
    → previous wf (versions_of w req.workflow_id) ≡ some prev
    → parse_sem_ver wf.latest ≡ some p
    → CanBump p
    → o.0 ≡ ok v
    → Chosen env req prev p v.version
Ends-Chosen env req w wf prev p v (refused e) l k m g h = cc
Ends-Chosen env req w wf prev p v (made ast requested final diff wf' r) l k m g h =
    subst (λ (u : Version). Chosen env req prev p u.version) (ok_injective h)
      (record {
        ast = ast;
        final = final;
        decoded = r.decoded;
        named = refl;
        is_valid = choice.0;
        allowed = choice.1;
      })
  where
    ok_injective : {a b : Version} → ok a ≡ ok b → a ≡ b
    ok_injective h = cc

    some_injective : {a b : Workflow} → some a ≡ some b → a ≡ b
    some_injective h = cc

    choice : IsValid final × Allowed p (diff_workflows env.deep_equal prev ast).bump final
    choice =
        next_version-Allowed req.auto_bump requested p final
          (diff_workflows env.deep_equal prev ast) g
          (parse_sem_ver-IsValid ast.metadata.version requested
            (checked-errors ast requested r.accepted).1)
          (decided env req.auto_bump requested final p ast prev wf (versions_of w req.workflow_id)
            diff
            (subst
              (λ (u : Workflow).
                final_version env req.auto_bump requested ast u (versions_of w req.workflow_id)
                ≡ ok (final, diff))
              (some_injective (sym r.registered ∙ l)) r.decided)
            k (latest_version-parsed wf p m))
