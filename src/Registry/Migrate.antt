-- ===== src/Registry/Migrate.antt =====
-- migrate_catalog.go.
pub mod Laws
pub mod Once
pub mod Idempotent
use forge_eng_fabric.Prelude.{
  String, Bool, true, false, not, ◌&&◌, ◌||◌, List, [], ◌∷◌, ◌++◌, Option, none, some, any, ◌==◌,
  string_eq, if◌then◌else◌,
}
use forge_eng_fabric.Prelude.Text.{has_prefix}
use forge_eng_fabric.Prelude.Value.{Fields, end, put_key}
use forge_eng_fabric.Workflow.Ast.{
  Step, EventPattern, NodeActiveSurface, Node, node, Nodes, nil, cons, Branches, no_branch, branch,
  Trigger, trigger_manual, trigger_webhook_in, trigger_event_bus, step_prompt, step_prompt_template,
  Workflow,
}
use forge_eng_fabric.Workflow.Dsl.{
  put_text, put_filter, migrated_trigger, is_event_trigger, kept, extracted, walk_all,
}

-- What a walk does to a step, and whether it changes the step.
pub record Visitor : Type 0 where
  pub hits : Step → Bool
  pub rewrite : Step → Step

abbrev pub endpoint_of : Option NodeActiveSurface → String
endpoint_of none = ""
endpoint_of (some surface) = surface.endpoint

abbrev pub without_endpoint : Option NodeActiveSurface → Option NodeActiveSurface
without_endpoint none = none
without_endpoint (some surface) = some (record surface { endpoint = "" })

abbrev pub pinned_endpoint : Step → Bool
pinned_endpoint s = not (endpoint_of s.active_surface == "")

-- The visit of stripActiveSurfaceEndpoints.
abbrev pub strip_endpoint : Visitor
strip_endpoint = record {
  hits = pinned_endpoint;
  rewrite = λ s.
      if pinned_endpoint s
      then record s { active_surface = without_endpoint s.active_surface }
      else s;
}

abbrev pub is_prompt : Step → Bool
is_prompt s = s.step_type == step_prompt

-- The visit of aliasPromptToPromptTemplate.
abbrev pub alias_prompt : Visitor
alias_prompt = record {
  hits = is_prompt;
  rewrite = λ s. if is_prompt s then record s { step_type = step_prompt_template } else s;
}

-- Whether a walk changes anything: `changed`.
unfoldable mutual
  pub hit_step : Visitor → Node → Bool
  hit_step v (node s arms body) = v.hits s || hit_branches v arms || hit_steps v body

  pub hit_steps : Visitor → Nodes → Bool
  hit_steps v nil = false
  hit_steps v (cons n ns) = hit_step v n || hit_steps v ns

  pub hit_branches : Visitor → Branches → Bool
  hit_branches v no_branch = false
  hit_branches v (branch when_ goto steps rest) = hit_steps v steps || hit_branches v rest

unfoldable pub hit_all : Visitor → List Node → Bool
unfolding hit_step
hit_all v [] = false
hit_all v (n ∷ ns) = hit_step v n || hit_all v ns

-- walkSteps, with the flag and the rewritten workflow
unfoldable pub walk : Visitor → Workflow → Bool × Workflow
unfolding hit_all walk_all
walk v wf = (
  hit_all v wf.spec.steps || hit_all v wf.spec.on_failure,
  record wf {
    spec = record wf.spec {
      steps = walk_all v.rewrite wf.spec.steps;
      on_failure = walk_all v.rewrite wf.spec.on_failure;
    };
  },
)

-- isHTTPLikeSource of this package
unfoldable pub is_http_source : String → Bool
unfolding has_prefix
is_http_source s = has_prefix s "http://" || has_prefix s "https://" || has_prefix s "webhook:"

-- eventStepToTrigger, where there is a pattern: the source is written after the type, on one line
-- for both kinds.
unfoldable pub event_pattern_to_trigger : String → EventPattern → Trigger
unfolding is_http_source put_key
event_pattern_to_trigger id pattern =
    let http = is_http_source pattern.source in
    migrated_trigger id (if http then trigger_webhook_in else trigger_event_bus) (
      put_filter pattern.filter (
        put_text "source" pattern.source (
          if http
          then put_text "event_type" pattern.event_type end
          else put_text "topic" pattern.event_type end)))

-- eventStepToTrigger
unfoldable pub event_step_to_trigger : Step → Trigger
unfolding event_pattern_to_trigger
event_step_to_trigger s = elim s.event_pattern [
  | none ↦ migrated_trigger s.id trigger_manual end
  | some pattern ↦ event_pattern_to_trigger s.id pattern
]

-- extractEventTriggers
unfoldable pub extract_event_triggers : Workflow → Bool × Workflow
unfolding kept extracted event_step_to_trigger
extract_event_triggers wf = (
  any is_event_trigger wf.spec.steps,
  record wf {
    spec = record wf.spec {
      steps = kept wf.spec.steps;
      triggers = wf.spec.triggers ++ extracted event_step_to_trigger wf.spec.steps;
    };
  },
)

abbrev pub reason_if : Bool → String → List String
reason_if true reason = reason ∷ []
reason_if false reason = []

-- ApplyCatalogMigrations, of a workflow that is not nil
unfoldable pub apply_catalog_migrations : Workflow → List String × Workflow
unfolding walk extract_event_triggers
apply_catalog_migrations wf =
    let stripped = walk strip_endpoint wf in
    let aliased = walk alias_prompt stripped.1 in
    let extracted_ = extract_event_triggers aliased.1 in
    (
      reason_if stripped.0 "cleanup_active_surface_endpoint"
          ++ reason_if aliased.0 "migrate_prompt_to_prompt_template"
          ++ reason_if extracted_.0 "migrate_event_trigger_to_triggers_block",
      extracted_.1,
    )
