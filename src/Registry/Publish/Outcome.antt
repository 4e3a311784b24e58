-- ===== src/Registry/Publish/Outcome.antt =====
-- The two ways in which PublishVersion ends, with what has been checked on each.
use forge_eng_fabric.Prelude.{
  Bool, true, false, not, ◌&&◌, Option, none, some, ◌≡◌, refl, if◌then◌else◌, string_eq,
}
use forge_eng_fabric.Prelude.Assoc.{lookup}
use forge_eng_fabric.Workflow.Ast
use forge_eng_fabric.Workflow.Dsl.{Parsed, parsed, failed, parse}
use forge_eng_fabric.Registry.SemVer.{SemVer, to_text}
use forge_eng_fabric.Registry.Diff.Marks.{DiffResult}
use forge_eng_fabric.Registry.Service.{
  Workflow, Version, Env, World, released, emit, Result, ok, err, Error, workflow_not_found,
  version_already_exists, parse_failed,
}
use forge_eng_fabric.Registry.Publish.{
  PublishVersionRequest, holds_published, versions_of, final_version, version_record, stored,
  release, publish_for, publish_locked, checked, publish_checked, publish_version,
}

abbrev pub Outcome : Type 0
Outcome = Result Version × World

-- The world in which the version is stored and announced.
abbrev pub announced : Env → Workflow → Version → World → World
announced env wf v w =
    emit env wf.tenant_id wf.workspace_id "workflow.published.v1" wf.id
      (released wf.id v.version v.diff_prev) (stored wf v w)

-- What the checks have found of a version that is stored.
pub record Released (env : Env) (req : PublishVersionRequest) (w : World) (ast : Ast.Workflow)
    (requested final : SemVer) (diff : Option DiffResult) (wf : Workflow) : Type 0 where
  pub decoded : parse env.decode req.workflow_yaml ≡ parsed ast
  pub accepted : checked ast ≡ ok requested
  pub registered : lookup req.workflow_id w.workflows ≡ some wf
  pub decided :
      final_version env req.auto_bump requested ast wf (versions_of w req.workflow_id)
      ≡ ok (final, diff)
  pub unused : holds_published (versions_of w req.workflow_id) (to_text final) ≡ false

pub data Ends (env : Env) (req : PublishVersionRequest) (w : World) : Outcome → Type 0 where
  refused : (e : Error) → Ends env req w (err e, w)
  made :
      (ast : Ast.Workflow) (requested final : SemVer) (diff : Option DiffResult) (wf : Workflow)
      → Released env req w ast requested final diff wf
      → Ends env req w (
        ok (version_record env req ast final diff w),
        announced env wf (version_record env req ast final diff w) w,
      )

module _ (env : Env) (req : PublishVersionRequest) (w : World) where
  module _ (ast : Ast.Workflow) (requested : SemVer) (wf : Workflow) where
    release-Ends :
        (final : SemVer) (diff : Option DiffResult)
        → parse env.decode req.workflow_yaml ≡ parsed ast
        → checked ast ≡ ok requested
        → lookup req.workflow_id w.workflows ≡ some wf
        → final_version env req.auto_bump requested ast wf (versions_of w req.workflow_id)
          ≡ ok (final, diff)
        → Ends env req w (release env wf (version_record env req ast final diff w) w)
    unfolding release
    release-Ends final diff p c l f =
        go (holds_published (versions_of w req.workflow_id) (to_text final)) (λ u. u)
      where
        go :
            (b : Bool)
            → (b ≡ false → holds_published (versions_of w req.workflow_id) (to_text final) ≡ false)
            → Ends env req w (
                if b then (err version_already_exists, w) else (
                  ok (version_record env req ast final diff w),
                  announced env wf (version_record env req ast final diff w) w,
                ))
        go true u = refused version_already_exists
        go false u =
            made ast requested final diff wf
              (record { decoded = p; accepted = c; registered = l; decided = f; unused = u refl })

    decided-Ends :
        (r : Result (SemVer × Option DiffResult))
        → parse env.decode req.workflow_yaml ≡ parsed ast
        → checked ast ≡ ok requested
        → lookup req.workflow_id w.workflows ≡ some wf
        → final_version env req.auto_bump requested ast wf (versions_of w req.workflow_id) ≡ r
        → Ends env req w (elim r as (λ _. Outcome) [
          | err e ↦ (err e, w)
          | ok (final, diff) ↦ release env wf (version_record env req ast final diff w) w
        ])
    decided-Ends (err e) p c l f = refused e
    decided-Ends (ok (final, diff)) p c l f = release-Ends final diff p c l f

    publish_for-Ends :
        parse env.decode req.workflow_yaml ≡ parsed ast
        → checked ast ≡ ok requested
        → lookup req.workflow_id w.workflows ≡ some wf
        → Ends env req w (publish_for env req ast requested wf w)
    unfolding publish_for
    publish_for-Ends p c l =
        go
          (not req.auto_bump && holds_published (versions_of w req.workflow_id) (to_text requested))
      where
        go :
            (b : Bool)
            → Ends env req w (
                if b
                then (err version_already_exists, w)
                else (elim (final_version env req.auto_bump requested ast wf
                      (versions_of w req.workflow_id))
                    as (λ _. Outcome) [
                      | err e ↦ (err e, w)
                      | ok (final, diff) ↦
                          release env wf (version_record env req ast final diff w) w
                    ]))
        go true = refused version_already_exists
        go false =
            decided-Ends
              (final_version env req.auto_bump requested ast wf (versions_of w req.workflow_id)) p c
              l refl

  locked-Ends :
      (ast : Ast.Workflow) (requested : SemVer) (o : Option Workflow)
      → parse env.decode req.workflow_yaml ≡ parsed ast
      → checked ast ≡ ok requested
      → lookup req.workflow_id w.workflows ≡ o
      → Ends env req w (elim o as (λ _. Outcome) [
        | none ↦ (err workflow_not_found, w)
        | some wf ↦ publish_for env req ast requested wf w
      ])
  locked-Ends ast requested none p c l = refused workflow_not_found
  locked-Ends ast requested (some wf) p c l = publish_for-Ends ast requested wf p c l

  checked-Ends :
      (ast : Ast.Workflow) (r : Result SemVer)
      → parse env.decode req.workflow_yaml ≡ parsed ast
      → checked ast ≡ r
      → Ends env req w (publish_checked env req ast r w)
  unfolding publish_checked publish_locked
  checked-Ends ast (err e) p c = refused e
  checked-Ends ast (ok requested) p c =
      locked-Ends ast requested (lookup req.workflow_id w.workflows) p c refl

  parsed-Ends :
      (r : Parsed)
      → parse env.decode req.workflow_yaml ≡ r
      → Ends env req w (elim r as (λ _. Outcome) [
        | failed e ↦ (err (parse_failed e), w)
        | parsed ast ↦ publish_checked env req ast (checked ast) w
      ])
  parsed-Ends (failed e) p = refused (parse_failed e)
  parsed-Ends (parsed ast) p = checked-Ends ast (checked ast) p refl

  pub publish_version-Ends : Ends env req w (publish_version env req w)
  unfolding publish_version
  publish_version-Ends = parsed-Ends (parse env.decode req.workflow_yaml) refl
