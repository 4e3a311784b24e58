-- ===== src/Workflow/Dsl.antt =====
-- pkg/workflow/dsl/parse.go and pkg/workflow/schema/schema.go: from a document to a workflow. The
-- decoder of YAML is a parameter.
use forge_eng_fabric.Prelude.{
  ℕ, ◌+◌, String, Bool, true, false, not, ◌&&◌, ◌||◌, List, [], ◌∷◌, ◌++◌, Option, none, some, ◌==◌,
  string_eq, if◌then◌else◌,
}
use forge_eng_fabric.Prelude.Text.{has_prefix}
use forge_eng_fabric.Prelude.Value.{str, obj, Fields, end, field, put_key}
use forge_eng_fabric.Workflow.Ast.{
  Step, EventPattern, Node, node, Nodes, nil, cons, Branches, no_branch, branch, Trigger, unlisted,
  trigger_manual, trigger_webhook_in, trigger_event_bus, step_event_trigger, step_of,
  deprecated_step_type, is_known_step_type, Workflow,
}

abbrev pub api_version : String
api_version = "forge.workflows/v1"

abbrev pub workflow_kind : String
workflow_kind = "Workflow"

pub data ParseError : Type 0 where
  empty_document yaml_decode : ParseError
  unsupported_api_version unsupported_kind : String → ParseError

pub data Parsed : Type 0 where
  parsed : Workflow → Parsed
  failed : ParseError → Parsed

-- isHTTPLikeSource
unfoldable pub is_http_like_source : String → Bool
unfolding has_prefix
is_http_like_source s =
    not (s == "") && (has_prefix s "http://" || has_prefix s "https://" || has_prefix s "webhook:")

-- `if s != "" { m[key] = s }`
abbrev pub put_text : String → String → Fields → Fields
put_text key s fs = if s == "" then fs else put_key key (str s) fs

-- `if len(filter) > 0 { t.Config["filter"] = filter }`
abbrev pub put_filter : Fields → Fields → Fields
put_filter end fs = fs
put_filter (field k v rest) fs = put_key "filter" (obj (field k v rest)) fs

abbrev pub migrated_trigger : String → String → Fields → Trigger
migrated_trigger id trigger_type config = record {
  id = id;
  trigger_type = trigger_type;
  config = some config;
  outputs = [];
  concurrency = unlisted "";
  migrated_from = step_event_trigger;
}

-- eventTriggerToTrigger, where there is a pattern
unfoldable pub trigger_of_pattern : String → EventPattern → Trigger
unfolding is_http_like_source put_key
trigger_of_pattern id pattern =
    if is_http_like_source pattern.source
    then migrated_trigger id trigger_webhook_in (
        put_filter pattern.filter
          (put_text "source" pattern.source (put_text "event_type" pattern.event_type end)))
    else migrated_trigger id trigger_event_bus (
        put_filter pattern.filter
          (put_text "source" pattern.source (put_text "topic" pattern.event_type end)))

-- eventTriggerToTrigger
unfoldable pub event_trigger_to_trigger : Step → Trigger
unfolding trigger_of_pattern
event_trigger_to_trigger s = elim s.event_pattern [
  | none ↦ migrated_trigger s.id trigger_manual end
  | some pattern ↦ trigger_of_pattern s.id pattern
]

abbrev pub is_event_trigger : Node → Bool
is_event_trigger n = (step_of n).step_type == step_event_trigger

-- The steps that stay.
unfoldable pub kept : List Node → List Node
unfolding step_of
kept [] = []
kept (n ∷ ns) = let rest = kept ns in if is_event_trigger n then rest else n ∷ rest

-- The triggers that the other steps become, by the conversion `f`.
unfoldable pub extracted : (Step → Trigger) → List Node → List Trigger
unfolding step_of
extracted f [] = []
extracted f (n ∷ ns) =
    let rest = extracted f ns in if is_event_trigger n then f (step_of n) ∷ rest else rest

-- The first part of migrateStep.
unfoldable pub alias_step : Step → Step
unfolding deprecated_step_type
alias_step s =
    if deprecated_step_type s.step_type == ""
    then s
    else record s { step_type = deprecated_step_type s.step_type; migrated_from = s.step_type }

-- A walk through a step, the arms of its branches and its body, that rewrites each step.
unfoldable mutual
  pub walk_step : (Step → Step) → Node → Node
  walk_step f (node s arms body) = node (f s) (walk_branches f arms) (walk_steps f body)

  pub walk_steps : (Step → Step) → Nodes → Nodes
  walk_steps f nil = nil
  walk_steps f (cons n ns) = cons (walk_step f n) (walk_steps f ns)

  pub walk_branches : (Step → Step) → Branches → Branches
  walk_branches f no_branch = no_branch
  walk_branches f (branch when_ goto steps rest) =
      branch when_ goto (walk_steps f steps) (walk_branches f rest)

-- `for i := range steps { migrateStep(&steps[i]) }`
unfoldable pub walk_all : (Step → Step) → List Node → List Node
unfolding walk_step
walk_all f [] = []
walk_all f (n ∷ ns) = walk_step f n ∷ walk_all f ns

-- migrateDeprecatedStepKinds
unfoldable pub migrate_deprecated_step_kinds : Workflow → Workflow
unfolding kept extracted event_trigger_to_trigger walk_all alias_step
migrate_deprecated_step_kinds wf = record wf {
  spec = record wf.spec {
    steps = walk_all alias_step (kept wf.spec.steps);
    on_failure = walk_all alias_step wf.spec.on_failure;
    triggers = wf.spec.triggers ++ extracted event_trigger_to_trigger wf.spec.steps;
  };
}

abbrev pub or_else : String → String → String
or_else s default = if s == "" then default else s

-- Parse, from the decoded document on.
unfoldable pub accept : Workflow → Parsed
unfolding migrate_deprecated_step_kinds
accept wf =
    if not (or_else wf.api_version api_version == api_version)
    then failed (unsupported_api_version (or_else wf.api_version api_version))
    else if not (or_else wf.kind workflow_kind == workflow_kind)
    then failed (unsupported_kind (or_else wf.kind workflow_kind))
    else parsed (
        migrate_deprecated_step_kinds (record wf {
          api_version = or_else wf.api_version api_version;
          kind = or_else wf.kind workflow_kind;
        }))

-- Parse; `decode` is yaml.Unmarshal into an empty workflow.
unfoldable pub parse : (String → Option Workflow) → String → Parsed
unfolding accept
parse decode raw =
    if raw == ""
    then failed empty_document
    else elim (decode raw) [ none ↦ failed yaml_decode | some wf ↦ accept wf ]

pub data SchemaError : Type 0 where
  missing_api_version missing_kind missing_metadata_id missing_metadata_name : SchemaError
  missing_metadata_version missing_steps : SchemaError
  unknown_visibility unknown_criticality invalid_step_type : String → SchemaError
  missing_step_id : ℕ → SchemaError

-- The loop of Validate, from the index `i`.
unfoldable pub invalid_step : ℕ → List Node → Option SchemaError
unfolding step_of is_known_step_type
invalid_step i [] = none
invalid_step i (n ∷ ns) =
    let rest = invalid_step (i + 1) ns in
    if (step_of n).id == ""
    then some (missing_step_id i)
    else if not (is_known_step_type (step_of n).step_type)
    then some (invalid_step_type (step_of n).step_type)
    else rest

abbrev pub one_of : List String → String → Bool
one_of [] s = false
one_of (x ∷ xs) s = x == s || one_of xs s

abbrev pub has_no_steps : List Node → Bool
has_no_steps [] = true
has_no_steps (n ∷ ns) = false

-- Validate; `none` is its nil error.
unfoldable pub validate : Workflow → Option SchemaError
unfolding invalid_step
validate wf =
    if wf.api_version == ""
    then some missing_api_version
    else if wf.kind == ""
    then some missing_kind
    else if not (wf.kind == workflow_kind)
    then some missing_kind
    else if not (wf.api_version == api_version)
    then some missing_api_version
    else if wf.metadata.id == ""
    then some missing_metadata_id
    else if wf.metadata.name == ""
    then some missing_metadata_name
    else if wf.metadata.version == ""
    then some missing_metadata_version
    else if not (
        one_of ("" ∷ "private" ∷ "workspace" ∷ "tenant" ∷ "forge-certified" ∷ [])
          wf.metadata.visibility)
    then some (unknown_visibility wf.metadata.visibility)
    else if not (one_of ("" ∷ "low" ∷ "medium" ∷ "high" ∷ "critical" ∷ []) wf.metadata.criticality)
    then some (unknown_criticality wf.metadata.criticality)
    else if has_no_steps wf.spec.steps
    then some missing_steps
    else invalid_step 0 wf.spec.steps
