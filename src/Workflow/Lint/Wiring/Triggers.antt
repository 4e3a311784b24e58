-- ===== src/Workflow/Lint/Wiring/Triggers.antt =====
-- lint.go: checkTriggers.
use forge_eng_fabric.Prelude.{String, not, ◌&&◌, List, [], ◌∷◌, ◌++◌, none, some, ◌==◌, string_eq}
use forge_eng_fabric.Prelude.Assoc.{lookup, insert}
use forge_eng_fabric.Prelude.Text.{◌+s◌}
use forge_eng_fabric.Prelude.Split.{quoted, strip, cut}
use forge_eng_fabric.Prelude.Value.{Value, at_key, string_from}
use forge_eng_fabric.Workflow.Ast.{Step, Trigger, is_known_trigger_type, trigger_event_bus}
use forge_eng_fabric.Workflow.Lint.Finding.{
  Finding, unknown_trigger_type, unknown_event_topic, dangling_trigger_field, error_of, collect,
}
use forge_eng_fabric.Workflow.Lint.Steps.{is_listed, requires}
use forge_eng_fabric.Workflow.Lint.Wiring.{Declared, names, text_of, scan_inputs}

-- KnownEventTopics
unfoldable pub known_event_topics : List String
known_event_topics =
    "workflow.published.v1" ∷ "workflow.started.v1" ∷ "workflow.completed.v1" ∷ "workflow.failed.v1"
    ∷ "workflow.step.started.v1" ∷ "workflow.step.completed.v1" ∷ "workflow.trigger.fired.v1"
    ∷ "workflow.trigger.dropped.v1" ∷ "workflow.trigger.failed.v1"
    ∷ "workflow.llm.budget_exhausted.v1" ∷ "deployment.completed.v1" ∷ "deployment.failed.v1"
    ∷ "incident.opened.v1" ∷ "incident.resolved.v1" ∷ "symptom.detected.v1" ∷ "github.push.v1"
    ∷ "github.pull_request.opened.v1" ∷ "github.pull_request.merged.v1" ∷ []

-- `declared` of checkTriggers
unfoldable pub declare_triggers : List Trigger → Declared → Declared
declare_triggers [] d = d
declare_triggers (t ∷ rest) d = declare_triggers rest (insert t.id (names t.outputs) d)

-- `t.Config["topic"].(string)`
unfoldable pub topic_of : Trigger → String
unfolding at_key string_from
topic_of t = elim t.config [ none ↦ "" | some config ↦ string_from (at_key config "topic") ]

unfoldable pub trigger_of : Trigger → List Finding
unfolding topic_of known_event_topics quoted is_known_trigger_type
trigger_of t =
    requires (not (is_known_trigger_type t.trigger_type)) (
      error_of unknown_trigger_type t.id
        ("trigger " +s quoted t.id +s " has unknown type " +s quoted t.trigger_type))
    ++ requires
        (t.trigger_type == trigger_event_bus
          && not (topic_of t == "")
          && not (is_listed known_event_topics (topic_of t)))
        (error_of unknown_event_topic t.id (
          "trigger "
          +s quoted t.id
          +s " subscribes to unknown event topic "
          +s quoted (topic_of t)))

-- What `$triggers.<id>.<field>` refers to.
unfoldable pub trigger_field : Declared → String → String → String → List Finding
unfolding quoted
trigger_field declared step_id trigger_id field = elim (lookup trigger_id declared) [
  | none ↦
      error_of dangling_trigger_field step_id
        ("step " +s quoted step_id +s " references unknown trigger id " +s quoted trigger_id)
      ∷ []
  | some [] ↦ []
  | some (f ∷ fields) ↦ requires (not (is_listed (f ∷ fields) field)) (
      error_of dangling_trigger_field step_id (
        "step "
        +s quoted step_id
        +s " references undeclared field "
        +s quoted field
        +s " on trigger "
        +s quoted trigger_id))
]

-- `scan` of checkTriggers
unfoldable pub scan_triggers : Declared → String → Value → List Finding
unfolding trigger_field
scan_triggers declared step_id v = elim (text_of v) [
  | none ↦ []
  | some ref ↦ elim (strip ref "$triggers.") [
    | none ↦ []
    | some rest ↦ elim (cut 46 rest) [
      | none ↦ []
      | some (trigger_id, field) ↦ trigger_field declared step_id trigger_id field
    ]
  ]
]

-- checkTriggers
unfoldable pub check_triggers : List Trigger → List Step → List Finding
unfolding trigger_of scan_triggers scan_inputs declare_triggers collect
check_triggers triggers steps =
    collect trigger_of triggers ++ scan_inputs (scan_triggers (declare_triggers triggers [])) steps
