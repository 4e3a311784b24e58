-- ===== src/Registry/Publish.antt =====
-- service.go: PublishVersion, and seed.go's publication of one file.
pub mod Outcome
pub mod Laws
pub mod Choice
pub mod Later
use forge_eng_fabric.Prelude.{
  ℕ, suc, ◌+◌, String, Bool, true, false, not, ◌&&◌, List, [], ◌∷◌, ◌++◌, Option, none, some, any,
  length, ◌==◌, nat_eq, string_eq, if◌then◌else◌,
}
use forge_eng_fabric.Prelude.Assoc.{lookup, insert}
use forge_eng_fabric.Prelude.Int.{pos}
use forge_eng_fabric.Workflow.Ast
use forge_eng_fabric.Workflow.Dsl.{Parsed, parsed, failed, parse, validate}
use forge_eng_fabric.Workflow.Lint.{lint}
use forge_eng_fabric.Workflow.Lint.Finding.{Finding, errors}
use forge_eng_fabric.Registry.SemVer.{
  SemVer, release_of, parse_sem_ver, to_text, compare_versions, min_next_version, is_lt,
}
use forge_eng_fabric.Registry.Diff.{diff_workflows}
use forge_eng_fabric.Registry.Diff.Marks.{DiffResult}
use forge_eng_fabric.Registry.Service.{
  draft, in_review, approved, published, deprecated, LifecycleState, Workflow, Version, Versions,
  Env, World, released, emit, Result, ok, err, Error, workflow_not_found, version_already_exists,
  invalid_version, parse_failed, schema_validation_failed, lint_failed, breaking_change,
  id_required, name_required, workflow_already_exists, version_not_found, create_workflow,
}

pub record PublishVersionRequest : Type 0 where
  pub workflow_id : String
  pub workflow_yaml : String
  pub actor : String
  pub auto_bump : Bool

abbrev pub is_published : LifecycleState → Bool
is_published published = true
is_published draft = false
is_published in_review = false
is_published approved = false
is_published deprecated = false

-- `existing, exists := versions[text]; exists && existing.State == LifecyclePublished`
unfoldable pub holds_published : Versions → String → Bool
holds_published versions text = elim (lookup text versions) as (λ _. Bool) [
  | none ↦ false
  | some v ↦ is_published v.state
]

-- `s.versions[id]`
unfoldable pub versions_of : World → String → Versions
versions_of w id = elim (lookup id w.versions) as (λ _. Versions) [ none ↦ [] | some vs ↦ vs ]

-- `prevAST`, the workflow of the latest version
unfoldable pub previous : Workflow → Versions → Option Ast.Workflow
previous wf versions =
    if wf.latest == ""
    then none
    else (elim (lookup wf.latest versions) as (λ _. Option Ast.Workflow) [
      | none ↦ none
      | some v ↦ some v.ast
    ])

-- The SemVer of the latest version; ParseSemVer returns zeros with its error.
unfoldable pub latest_version : Workflow → SemVer
unfolding parse_sem_ver
latest_version wf = elim (parse_sem_ver wf.latest) as (λ _. SemVer) [
  | none ↦ release_of (pos 0) (pos 0) (pos 0)
  | some v ↦ v
]

-- `finalVersion` where there is a previous version
unfoldable pub next_version : Bool → SemVer → SemVer → DiffResult → Result SemVer
unfolding min_next_version compare_versions
next_version true requested prev diff = ok (min_next_version prev diff.bump)
next_version false requested prev diff =
    if is_lt (compare_versions requested (min_next_version prev diff.bump))
    then err (breaking_change (min_next_version prev diff.bump) diff.reasons)
    else ok requested

-- `finalVersion` and `diff`
unfoldable pub final_version :
    Env → Bool → SemVer → Ast.Workflow → Workflow → Versions → Result (SemVer × Option DiffResult)
unfolding previous next_version latest_version diff_workflows
final_version env auto_bump requested ast wf versions =
    elim (previous wf versions) as (λ _. Result (SemVer × Option DiffResult)) [
      | none ↦ ok (requested, none)
      | some prev_ast ↦
          (elim (next_version auto_bump requested (latest_version wf)
              (diff_workflows env.deep_equal prev_ast ast))
            as (λ _. Result (SemVer × Option DiffResult)) [
              | err e ↦ err e
              | ok v ↦ ok (v, some (diff_workflows env.deep_equal prev_ast ast))
            ])
    ]

-- `wfAST.Metadata.Version = finalVersion.String()`, where the version is derived
unfoldable pub renamed : Bool → Option DiffResult → SemVer → Ast.Workflow → Ast.Workflow
renamed true (some d) v ast = record ast { metadata = record ast.metadata { version = to_text v } }
renamed true none v ast = ast
renamed false d v ast = ast

abbrev pub version_record :
    Env → PublishVersionRequest → Ast.Workflow → SemVer → Option DiffResult → World → Version
version_record env req ast final diff w = record {
  workflow_id = req.workflow_id;
  version = to_text final;
  ast = renamed req.auto_bump diff final ast;
  state = published;
  published_at = some (env.now w.readings);
  created_at = env.now w.readings;
  created_by = req.actor;
  diff_prev = diff;
}

-- The store with the version, which is now the latest.
unfoldable pub stored : Workflow → Version → World → World
unfolding versions_of
stored wf v w = record w {
  workflows =
      insert v.workflow_id (record wf { latest = v.version; updated_at = v.created_at })
        w.workflows;
  versions = insert v.workflow_id (insert v.version v (versions_of w v.workflow_id)) w.versions;
  readings = w.readings + 1;
}

-- PublishVersion, from the second check on.
unfoldable pub release : Env → Workflow → Version → World → Result Version × World
unfolding holds_published versions_of stored emit
release env wf v w =
    if holds_published (versions_of w v.workflow_id) v.version
    then (err version_already_exists, w)
    else (
      ok v,
      emit env wf.tenant_id wf.workspace_id "workflow.published.v1" wf.id
          (released wf.id v.version v.diff_prev) (stored wf v w),
    )

-- PublishVersion, of a workflow that is registered.
unfoldable pub publish_for :
    Env → PublishVersionRequest → Ast.Workflow → SemVer → Workflow → World → Result Version × World
unfolding holds_published versions_of final_version release
publish_for env req ast requested wf w =
    if not req.auto_bump && holds_published (versions_of w req.workflow_id) (to_text requested)
    then (err version_already_exists, w)
    else (elim (final_version env req.auto_bump requested ast wf (versions_of w req.workflow_id))
        as (λ _. Result Version × World) [
          | err e ↦ (err e, w)
          | ok (final, diff) ↦ release env wf (version_record env req ast final diff w) w
        ])

-- PublishVersion, from the lock on.
unfoldable pub publish_locked :
    Env → PublishVersionRequest → Ast.Workflow → SemVer → World → Result Version × World
unfolding publish_for
publish_locked env req ast requested w =
    elim (lookup req.workflow_id w.workflows) as (λ _. Result Version × World) [
      | none ↦ (err workflow_not_found, w)
      | some wf ↦ publish_for env req ast requested wf w
    ]

-- What PublishVersion asks of the document before it takes the lock.
unfoldable pub checked : Ast.Workflow → Result SemVer
unfolding validate errors lint parse_sem_ver
checked ast = elim (validate ast) as (λ _. Result SemVer) [
  | some e ↦ err (schema_validation_failed e)
  | none ↦ elim (errors (lint ast)) as (λ _. Result SemVer) [
    | f ∷ fs ↦ err (lint_failed (length (f ∷ fs)))
    | [] ↦ elim (parse_sem_ver ast.metadata.version) as (λ _. Result SemVer) [
      | none ↦ err invalid_version
      | some v ↦ ok v
    ]
  ]
]

unfoldable pub publish_checked :
    Env → PublishVersionRequest → Ast.Workflow → Result SemVer → World → Result Version × World
unfolding publish_locked
publish_checked env req ast (err e) w = (err e, w)
publish_checked env req ast (ok requested) w = publish_locked env req ast requested w

-- PublishVersion
unfoldable pub publish_version : Env → PublishVersionRequest → World → Result Version × World
unfolding publish_checked checked parse
publish_version env req w =
    elim (parse env.decode req.workflow_yaml) as (λ _. Result Version × World) [
      | failed e ↦ (err (parse_failed e), w)
      | parsed ast ↦ publish_checked env req ast (checked ast) w
    ]
