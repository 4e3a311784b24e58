-- ===== src/Workflow/Ast.antt =====
-- pkg/workflow/ast/ast.go: a workflow as the parser leaves it. The types that the source declares as
-- strings are strings here too. A nil slice or map that `reflect.DeepEqual` tells from an empty one
-- is `none`.
pub mod Ref
use forge_eng_fabric.Prelude.{
  ℕ, String, Bool, true, List, [], ◌∷◌, ◌++◌, Option, none, some, any, ◌==◌, string_eq,
  if◌then◌else◌,
}
use forge_eng_fabric.Prelude.Value.{Value, Fields}
use forge_eng_fabric.Prelude.Int.{ℤ}

abbrev pub StepType : Type 0
StepType = String

abbrev pub step_skill : StepType
step_skill = "skill"

abbrev pub step_mcp : StepType
step_mcp = "mcp"

abbrev pub step_llm : StepType
step_llm = "llm"

abbrev pub step_prompt_template : StepType
step_prompt_template = "prompt-template"

abbrev pub step_human_in_loop : StepType
step_human_in_loop = "human-in-the-loop"

abbrev pub step_sub_workflow : StepType
step_sub_workflow = "sub-workflow"

abbrev pub step_prompt : StepType
step_prompt = "prompt"

abbrev pub step_event_trigger : StepType
step_event_trigger = "event-trigger"

-- AllStepTypes
unfoldable pub all_step_types : List StepType
all_step_types =
    step_skill ∷ step_mcp ∷ step_llm ∷ "agent" ∷ step_prompt_template ∷ "branch" ∷ "loop"
    ∷ step_human_in_loop ∷ step_sub_workflow ∷ "webhook" ∷ "github-action" ∷ "deploy-action"
    ∷ "approval-action" ∷ "notification-action" ∷ "eval" ∷ "custom" ∷ step_prompt
    ∷ step_event_trigger ∷ []

-- IsKnownStepType
unfoldable pub is_known_step_type : StepType → Bool
unfolding all_step_types
is_known_step_type s = any (λ t. t == s) all_step_types

-- `DeprecatedStepTypes()[s]`, which is empty where the map has no entry
unfoldable pub deprecated_step_type : StepType → StepType
deprecated_step_type s = if s == step_prompt then step_prompt_template else ""

abbrev pub TriggerType : Type 0
TriggerType = String

abbrev pub trigger_manual : TriggerType
trigger_manual = "manual"

abbrev pub trigger_webhook_in : TriggerType
trigger_webhook_in = "webhook-in"

abbrev pub trigger_event_bus : TriggerType
trigger_event_bus = "event-bus"

-- AllTriggerTypes
unfoldable pub all_trigger_types : List TriggerType
all_trigger_types =
    trigger_manual ∷ "cron" ∷ trigger_webhook_in ∷ trigger_event_bus ∷ "email-inbound" ∷ []

-- IsKnownTriggerType
unfoldable pub is_known_trigger_type : TriggerType → Bool
unfolding all_trigger_types
is_known_trigger_type t = any (λ k. k == t) all_trigger_types

-- An open string type: `unlisted s` is a string that is none of the constants, the empty one included.
pub data TriggerConcurrency : Type 0 where
  queue drop overlap : TriggerConcurrency
  unlisted : String → TriggerConcurrency

pub record Trigger : Type 0 where
  pub id : String
  pub trigger_type : TriggerType
  pub config : Option Fields
  pub outputs : List (String × String)
  pub concurrency : TriggerConcurrency
  pub migrated_from : StepType

-- Trigger.ConcurrencyOrDefault
unfoldable pub concurrency_or_default : Trigger → TriggerConcurrency
concurrency_or_default t = elim t.concurrency [
  | queue ↦ queue
  | drop ↦ drop
  | overlap ↦ overlap
  | unlisted s ↦ if s == "" then queue else unlisted s
]

pub record IoField : Type 0 where
  pub name : String
  pub io_type : String
  pub required : Bool
  pub default : Value
  pub description : String
  pub validations : List (String × Value)

pub record ModelBinding : Type 0 where
  pub ref : String
  pub overrides : List (String × Value)

pub record NodeActiveSurface : Type 0 where
  pub family : String
  pub endpoint : String
  pub artifact_pointer : String
  pub digest : String
  pub signature_id : String

pub record RetryPolicy : Type 0 where
  pub max : ℤ
  pub backoff : String
  pub initial_ms : ℤ
  pub max_ms : ℤ
  pub non_retryable : List String

pub record EventPattern : Type 0 where
  pub event_type : String
  pub source : String
  pub filter : Fields

-- A step, but for its branches and its body, which a `Node` adds.
pub record Step : Type 0 where
  pub id : String
  pub step_type : StepType
  pub ref : String
  pub tool : String
  pub depends_on : Option (List String)
  pub inputs : List (String × Value)
  pub outputs : List String
  pub retries : Option RetryPolicy
  pub timeout : String
  pub compensate_with : String
  pub for_each : String
  pub max_parallel : ℤ
  pub body_ref : String
  pub approver_role : String
  pub on_timeout : String
  pub escalation_role : String
  pub expected_outputs : List (String × Value)
  pub workflow_ref : String
  pub workflow_version : String
  pub event_pattern : Option EventPattern
  pub prompt_template : String
  pub model : Option ModelBinding
  pub tools : Option (List String)
  pub max_tool_calls : ℤ
  pub step_outputs : List (String × String)
  pub active_surface : Option NodeActiveSurface
  pub targets : List (String × String)
  pub migrated_from : StepType

mutual
  -- A step with its branches and its body.
  pub data Node : Type 0 where
    node : Step → Branches → Nodes → Node

  pub data Nodes : Type 0 where
    nil : Nodes
    cons : Node → Nodes → Nodes

  -- Each arm with its `when` and its `goto`.
  pub data Branches : Type 0 where
    no_branch : Branches
    branch : String → String → Nodes → Branches → Branches

-- the step of a node
unfoldable pub step_of : Node → Step
step_of (node s arms body) = s

-- the steps of a slice of nodes
unfoldable pub steps_of : List Node → List Step
unfolding step_of
steps_of [] = []
steps_of (n ∷ ns) = step_of n ∷ steps_of ns

-- the slice `depends_on` or `tools`, which ranges over nothing where it is nil
abbrev pub elements : Option (List String) → List String
elements none = []
elements (some l) = l

pub record Metadata : Type 0 where
  pub id : String
  pub name : String
  pub version : String
  pub owners : Option (List String)
  pub visibility : String
  pub criticality : String
  pub openspec_ids : List String
  pub tags : Option (List String)
  pub description : String
  pub success_metric : String

pub record Spec : Type 0 where
  pub inputs : List IoField
  pub outputs : List IoField
  pub steps : List Node
  pub on_failure : List Node
  pub triggers : List Trigger

pub record Workflow : Type 0 where
  pub api_version : String
  pub kind : String
  pub metadata : Metadata
  pub spec : Spec
