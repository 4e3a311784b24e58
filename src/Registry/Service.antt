-- ===== src/Registry/Service.antt =====
-- service.go and events.go: the store of workflows and of their versions. Each call holds the lock
-- from its first read of the store to its end. A workflow has a map of versions from its creation on.
use forge_eng_fabric.Prelude.{
  ℕ, suc, ◌+◌, String, Bool, true, ◌&&◌, List, [], ◌∷◌, ◌++◌, Option, none, some, map, keep, ◌==◌,
  nat_eq, string_eq, if◌then◌else◌,
}
use forge_eng_fabric.Prelude.Assoc.{lookup, insert}
use forge_eng_fabric.Prelude.Text.{◌+s◌}
use forge_eng_fabric.Prelude.Value.{Fields}
use forge_eng_fabric.Workflow.Ast
use forge_eng_fabric.Workflow.Dsl.{ParseError, SchemaError}
use forge_eng_fabric.Registry.SemVer.{SemVer}
use forge_eng_fabric.Registry.Diff.Marks.{DiffResult}

pub data LifecycleState : Type 0 where
  draft in_review approved published deprecated : LifecycleState

pub record Workflow : Type 0 where
  pub id : String
  pub tenant_id : String
  pub workspace_id : String
  pub name : String
  pub owners : List String
  pub description : String
  pub tags : List String
  pub visibility : String
  pub latest : String
  pub created_at : ℕ
  pub updated_at : ℕ

pub record Version : Type 0 where
  pub workflow_id : String
  pub version : String
  pub ast : Ast.Workflow
  pub state : LifecycleState
  pub published_at : Option ℕ
  pub created_at : ℕ
  pub created_by : String
  pub diff_prev : Option DiffResult

-- `Data` of the two events
pub data EventContent : Type 0 where
  created : (workflow_id name visibility : String) → EventContent
  released : (workflow_id version : String) → Option DiffResult → EventContent

pub record CloudEvent : Type 0 where
  pub spec_version : String
  pub id : String
  pub source : String
  pub event_type : String
  pub subject : String
  pub time : ℕ
  pub content_type : String
  pub tenant_id : String
  pub workspace_id : String
  pub content : EventContent

-- What is not in this code: the decoder of YAML, `reflect.DeepEqual` of two `config` maps, the n-th
-- identifier of `uuid.NewString` and the n-th reading of the clock.
pub record Env : Type 0 where
  pub decode : String → Option Ast.Workflow
  pub deep_equal : Option Fields → Option Fields → Bool
  pub uuid : ℕ → String
  pub now : ℕ → ℕ

abbrev pub Versions : Type 0
Versions = List (String × Version)

pub record World : Type 0 where
  pub workflows : List (String × Workflow)
  pub versions : List (String × Versions)
  pub events : List CloudEvent
  pub ids : ℕ
  pub readings : ℕ

pub data Error : Type 0 where
  id_required name_required workflow_already_exists : Error
  workflow_not_found version_already_exists invalid_version version_not_found : Error
  parse_failed : ParseError → Error
  schema_validation_failed : SchemaError → Error
  lint_failed : ℕ → Error
  breaking_change : SemVer → List String → Error

pub data Result (A : Type 0) : Type 0 where
  ok : A → Result A
  err : Error → Result A

-- newEvent and MemorySink.Emit
unfoldable pub emit : Env → String → String → String → String → EventContent → World → World
emit env tenant workspace event_type subject content w = record w {
  events =
      w.events
      ++ record {
        spec_version = "1.0";
        id = env.uuid w.ids;
        source = "forge://service/workflow-registry";
        event_type = event_type;
        subject = "workflow/" +s subject;
        time = env.now w.readings;
        content_type = "application/json";
        tenant_id = tenant;
        workspace_id = workspace;
        content = content;
      }
        ∷ [];
  ids = suc w.ids;
  readings = suc w.readings;
}

pub record CreateWorkflowRequest : Type 0 where
  pub id : String
  pub tenant_id : String
  pub workspace_id : String
  pub name : String
  pub owners : List String
  pub description : String
  pub tags : List String
  pub visibility : String

-- The record that CreateWorkflow makes; `CreatedAt` and `UpdatedAt` are two readings of the clock.
unfoldable pub workflow_of : Env → CreateWorkflowRequest → World → Workflow
workflow_of env req w = record {
  id = req.id;
  tenant_id = req.tenant_id;
  workspace_id = req.workspace_id;
  name = req.name;
  owners = req.owners;
  description = req.description;
  tags = req.tags;
  visibility = if req.visibility == "" then "private" else req.visibility;
  latest = "";
  created_at = env.now w.readings;
  updated_at = env.now (w.readings + 1);
}

-- CreateWorkflow, from the lock on.
unfoldable pub add_workflow : Env → Workflow → World → Result Workflow × World
unfolding emit
add_workflow env wf w = elim (lookup wf.id w.workflows) [
  | some old ↦ (err workflow_already_exists, w)
  | none ↦ (
    ok wf,
    emit env wf.tenant_id wf.workspace_id "workflow.created.v1" wf.id
        (created wf.id wf.name wf.visibility)
        (record w {
          workflows = insert wf.id wf w.workflows;
          versions = insert wf.id [] w.versions;
        }),
  )
]

-- CreateWorkflow
unfoldable pub create_workflow : Env → CreateWorkflowRequest → World → Result Workflow × World
unfolding add_workflow workflow_of
create_workflow env req w =
    if req.id == ""
    then (err id_required, w)
    else if req.name == ""
    then (err name_required, w)
    else add_workflow env (workflow_of env req w) (record w { readings = w.readings + 2 })

-- GetWorkflow
unfoldable pub get_workflow : String → World → Result Workflow
get_workflow id w = elim (lookup id w.workflows) as (λ _. Result Workflow) [
  | none ↦ err workflow_not_found
  | some wf ↦ ok wf
]

-- GetVersion
unfoldable pub get_version : String → String → World → Result Version
get_version id version w = elim (lookup id w.versions) as (λ _. Result Version) [
  | none ↦ err workflow_not_found
  | some versions ↦ elim (lookup version versions) as (λ _. Result Version) [
    | none ↦ err version_not_found
    | some v ↦ ok v
  ]
]

-- `tenantID != "" && wf.TenantID != tenantID` and the same for the workspace, the other way round.
abbrev pub in_scope : String → String → Workflow → Bool
in_scope tenant_id workspace_id wf =
    (if tenant_id == "" then true else wf.tenant_id == tenant_id)
    && (if workspace_id == "" then true else wf.workspace_id == workspace_id)

-- ListWorkflows, before its sort by the time of creation
unfoldable pub list_workflows : String → String → World → List Workflow
unfolding keep
list_workflows tenant_id workspace_id w =
    keep (in_scope tenant_id workspace_id) (map (λ (e : String × Workflow). e.1) w.workflows)
