-- ===== src/Registry/Publish/Laws.antt =====
-- What PublishVersion keeps, and what it publishes.
use forge_eng_fabric.Prelude.{
  String, Bool, true, false, List, [], ◌∷◌, Option, none, some, ◌≡◌, refl, sym, ap, subst, ◌∙◌,
  ◌==◌, string_eq, Bool-cases, length, inl, inr,
}
use forge_eng_fabric.Prelude.Assoc.{lookup, insert, lookup-insert_self, lookup-insert_ne}
use forge_eng_fabric.Workflow.Ast
use forge_eng_fabric.Workflow.Dsl.{SchemaError, validate}
use forge_eng_fabric.Workflow.Lint.{lint}
use forge_eng_fabric.Workflow.Lint.Finding.{Finding, errors, all_steps}
use forge_eng_fabric.Workflow.Lint.Laws.{Runs, lint-Runs}
use forge_eng_fabric.Registry.SemVer.{SemVer, parse_sem_ver}
use forge_eng_fabric.Registry.Diff.Marks.{DiffResult}
use forge_eng_fabric.Registry.Service.{
  Workflow, Version, Versions, published, Env, World, emit, Result, ok, err, Error,
  schema_validation_failed, lint_failed, invalid_version,
}
use forge_eng_fabric.Registry.Publish.{
  PublishVersionRequest, holds_published, versions_of, version_record, stored, renamed, checked,
  is_published, publish_version,
}
use forge_eng_fabric.Registry.Publish.Outcome.{Outcome, Ends, refused, made, publish_version-Ends}

-- An outcome that is an error leaves the store and the events as they were.
Ends-err :
    (env : Env) (req : PublishVersionRequest) (w : World) (e : Error) {o : Outcome}
    → Ends env req w o
    → o.0 ≡ err e
    → o.1 ≡ w
Ends-err env req w e (refused e') h = refl
Ends-err env req w e (made ast requested final diff wf r) h = cc

-- Where PublishVersion returns an error, on whichever branch, the whole state is the one before the
-- call: the workflows, their versions, the events and the clock.
pub publish_error_keeps :
    (env : Env) (req : PublishVersionRequest) (w : World) (e : Error)
    → (publish_version env req w).0 ≡ err e
    → (publish_version env req w).1 ≡ w
publish_error_keeps env req w e = Ends-err env req w e (publish_version-Ends env req w)

abbrev or_empty : Option Versions → Versions
or_empty o = elim o as (λ _. Versions) [ none ↦ [] | some vs ↦ vs ]

pub versions_of-stored :
    (wf : Workflow) (v : Version) (w : World)
    → versions_of (stored wf v w) v.workflow_id ≡ insert v.version v (versions_of w v.workflow_id)
unfolding versions_of stored
versions_of-stored wf v w = ap or_empty (
    lookup-insert_self v.workflow_id
      (insert v.version v (or_empty (lookup v.workflow_id w.versions))) w.versions)

pub versions_of-stored_ne :
    (wf : Workflow) (v : Version) (w : World) (id : String)
    → (v.workflow_id == id) ≡ false
    → versions_of (stored wf v w) id ≡ versions_of w id
unfolding versions_of stored
versions_of-stored_ne wf v w id h = ap or_empty (
    lookup-insert_ne v.workflow_id id
      (insert v.version v (or_empty (lookup v.workflow_id w.versions))) w.versions h)

held : Option Version → Bool
held o = elim o as (λ _. Bool) [ none ↦ false | some v ↦ is_published v.state ]

-- A text at which a published version stands is in use.
held_false :
    (old : Version) (versions : Versions) (text : String)
    → holds_published versions text ≡ false
    → lookup text versions ≡ some old
    → old.state ≡ published
    → ⊥
unfolding holds_published held
held_false old versions text free h p =
    let at_old : is_published old.state ≡ false = sym (ap held h) ∙ free in
    cc (subst (λ s. is_published s ≡ false) p at_old)

lookup-stored :
    (wf : Workflow) (v old : Version) (w : World) (id text : String)
    → holds_published (versions_of w v.workflow_id) v.version ≡ false
    → lookup text (versions_of w id) ≡ some old
    → old.state ≡ published
    → lookup text (versions_of (stored wf v w) id) ≡ some old
lookup-stored wf v old w id text free h p = elim (Bool-cases (v.workflow_id == id)) [
  | inl e ↦
      subst
        (λ i.
          lookup text (versions_of w i) ≡ some old
          → lookup text (versions_of (stored wf v w) i) ≡ some old)
        ((string_eq.decides v.workflow_id id).0 e) same_workflow h
  | inr e ↦ rw (versions_of-stored_ne wf v w id e) h
]
  where
    same_workflow :
        lookup text (versions_of w v.workflow_id) ≡ some old
        → lookup text (versions_of (stored wf v w) v.workflow_id) ≡ some old
    same_workflow k = rw (versions_of-stored wf v w) (elim (Bool-cases (v.version == text)) [
      | inl e ↦ absurd (taken ((string_eq.decides v.version text).0 e) k)
      | inr e ↦ lookup-insert_ne v.version text v (versions_of w v.workflow_id) e ∙ k
    ])
      where
        taken : v.version ≡ text → lookup text (versions_of w v.workflow_id) ≡ some old → ⊥
        taken e k = held_false old (versions_of w v.workflow_id) v.version free (rw e k) p

Ends-lookup :
    (env : Env) (req : PublishVersionRequest) (w : World) (id text : String) (old : Version)
    {o : Outcome}
    → Ends env req w o
    → lookup text (versions_of w id) ≡ some old
    → old.state ≡ published
    → lookup text (versions_of o.1 id) ≡ some old
unfolding versions_of emit
Ends-lookup env req w id text old (refused e) h p = h
Ends-lookup env req w id text old (made ast requested final diff wf r) h p =
    lookup-stored wf (version_record env req ast final diff w) old w id text r.unused h p

-- A version that is published stays: whatever PublishVersion is asked, of whatever workflow, the
-- lookup of a published version finds the same version after the call.
pub published_version_stays :
    (env : Env) (req : PublishVersionRequest) (w : World) (id text : String) (old : Version)
    → lookup text (versions_of w id) ≡ some old
    → old.state ≡ published
    → lookup text (versions_of (publish_version env req w).1 id) ≡ some old
published_version_stays env req w id text old =
    Ends-lookup env req w id text old (publish_version-Ends env req w)

pub checked-errors :
    (ast : Ast.Workflow) (v : SemVer)
    → checked ast ≡ ok v
    → (errors (lint ast) ≡ []) × (parse_sem_ver ast.metadata.version ≡ some v)
unfolding checked
checked-errors ast v = from_schema (validate ast)
  where
    from_version :
        (o : Option SemVer)
        → (elim o as (λ _. Result SemVer) [ none ↦ err invalid_version | some u ↦ ok u ]) ≡ ok v
        → o ≡ some v
    from_version none h = cc
    from_version (some u) h = cc

    from_lint :
        (fs : List Finding)
        → (elim fs as (λ _. Result SemVer) [
          | f ∷ rest ↦ err (lint_failed (length (f ∷ rest)))
          | [] ↦ elim (parse_sem_ver ast.metadata.version) as (λ _. Result SemVer) [
            | none ↦ err invalid_version
            | some u ↦ ok u
          ]
        ])
          ≡ ok v
        → (fs ≡ []) × (parse_sem_ver ast.metadata.version ≡ some v)
    from_lint [] h = (refl, from_version (parse_sem_ver ast.metadata.version) h)
    from_lint (f ∷ fs) h = cc

    from_schema :
        (o : Option SchemaError)
        → (elim o as (λ _. Result SemVer) [
          | some e ↦ err (schema_validation_failed e)
          | none ↦ elim (errors (lint ast)) as (λ _. Result SemVer) [
            | f ∷ fs ↦ err (lint_failed (length (f ∷ fs)))
            | [] ↦ elim (parse_sem_ver ast.metadata.version) as (λ _. Result SemVer) [
              | none ↦ err invalid_version
              | some u ↦ ok u
            ]
          ]
        ])
          ≡ ok v
        → (errors (lint ast) ≡ []) × (parse_sem_ver ast.metadata.version ≡ some v)
    from_schema none h = from_lint (errors (lint ast)) h
    from_schema (some e) h = cc

renamed-Runs :
    (auto_bump : Bool) (diff : Option DiffResult) (v : SemVer) (ast : Ast.Workflow)
    → Runs ast
    → Runs (renamed auto_bump diff v ast)
unfolding renamed all_steps
renamed-Runs true none v ast r = r
renamed-Runs true (some d) v ast r = record { known = r.known; ends = r.ends }
renamed-Runs false diff v ast r = r

Ends-Runs :
    (env : Env) (req : PublishVersionRequest) (w : World) (v : Version) {o : Outcome}
    → Ends env req w o
    → o.0 ≡ ok v
    → Runs v.ast × (lookup v.version (versions_of o.1 req.workflow_id) ≡ some v)
unfolding emit versions_of
Ends-Runs env req w v (refused e) h = cc
Ends-Runs env req w v (made ast requested final diff wf r) h =
    let made_version = version_record env req ast final diff w in
    subst
      (λ u.
        Runs u.ast
        × (lookup u.version (versions_of (stored wf made_version w) req.workflow_id) ≡ some u))
      (ok_injective h)
      (
        renamed-Runs req.auto_bump diff final ast
            (lint-Runs ast (checked-errors ast requested r.accepted).0),
        ap (lookup made_version.version) (versions_of-stored wf made_version w)
            ∙ lookup-insert_self made_version.version made_version (versions_of w req.workflow_id),
      )
  where
    ok_injective : {a b : Version} → ok a ≡ ok b → a ≡ b
    ok_injective h = cc

-- Where PublishVersion returns a version, that version stands in the store under its number, and of
-- the steps of its workflow that the lint visits (those of the first level, those in their branches
-- and bodies, and those of on_failure, but none nested deeper) each dependency is such a step, and
-- the chains of dependencies end.
pub published_version-Runs :
    (env : Env) (req : PublishVersionRequest) (w : World) (v : Version)
    → (publish_version env req w).0 ≡ ok v
    → Runs v.ast
      × (lookup v.version (versions_of (publish_version env req w).1 req.workflow_id) ≡ some v)
published_version-Runs env req w v = Ends-Runs env req w v (publish_version-Ends env req w)
