-- ===== src/Registry/Migrate/Laws.antt =====
-- The migrations are done once.
use forge_eng_fabric.Prelude.{
  String, Bool, true, false, Option, none, some, ◌≡◌, refl, sym, subst, inl, inr, ◌==◌, string_eq,
  if◌then◌else◌, Bool-cases,
}
use forge_eng_fabric.Prelude.Value.{Fields, end}
use forge_eng_fabric.Workflow.Ast.{Step, EventPattern, Trigger}
use forge_eng_fabric.Workflow.Dsl.{
  is_http_like_source, trigger_of_pattern, event_trigger_to_trigger, migrated_trigger, put_text,
  put_filter,
}
use forge_eng_fabric.Registry.Migrate.{
  is_http_source, event_pattern_to_trigger, event_step_to_trigger,
}

same_source : (s : String) → is_http_source s ≡ is_http_like_source s
unfolding is_http_source is_http_like_source
same_source s = elim (Bool-cases (s == "")) [
  | inl e ↦
      subst (λ t. is_http_source t ≡ is_http_like_source t) (sym ((string_eq.decides s "").0 e))
        refl
  | inr e ↦ rw e refl
]

same_trigger :
    (id : String) (p : EventPattern) → event_pattern_to_trigger id p ≡ trigger_of_pattern id p
unfolding event_pattern_to_trigger trigger_of_pattern
same_trigger id p =
    subst (λ b. event_pattern_to_trigger id p ≡ Parser b) (same_source p.source)
      (by_test (is_http_source p.source))
  where
    config : String → Fields
    config key = put_filter p.filter (put_text "source" p.source (put_text key p.event_type end))

    Parser : Bool → Trigger
    Parser b =
        if b
        then migrated_trigger id "webhook-in" (config "event_type")
        else migrated_trigger id "event-bus" (config "topic")

    by_test :
        (b : Bool)
        → migrated_trigger id (if b then "webhook-in" else "event-bus") (
            put_filter p.filter (
              put_text "source" p.source (
                if b
                then put_text "event_type" p.event_type end
                else put_text "topic" p.event_type end)))
          ≡ Parser b
    by_test true = refl
    by_test false = refl

-- The registry turns an event-trigger step into the same trigger as the parser does, whatever its
-- pattern, with the same fields in `config`.
pub event_step_to_trigger-same : (s : Step) → event_step_to_trigger s ≡ event_trigger_to_trigger s
unfolding event_step_to_trigger event_trigger_to_trigger
event_step_to_trigger-same s = by_pattern s.event_pattern
  where
    by_pattern :
        (o : Option EventPattern)
        → (elim o as (λ _. Trigger) [
          | none ↦ migrated_trigger s.id "manual" end
          | some pattern ↦ event_pattern_to_trigger s.id pattern
        ])
          ≡ (elim o as (λ _. Trigger) [
            | none ↦ migrated_trigger s.id "manual" end
            | some pattern ↦ trigger_of_pattern s.id pattern
          ])
    by_pattern none = refl
    by_pattern (some pattern) = same_trigger s.id pattern
