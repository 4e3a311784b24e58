-- ===== src/Registry/Migrate/Idempotent.antt =====
-- A second migration finds nothing to do.
use forge_eng_fabric.Prelude.{
  String, Bool, false, not, List, [], ◌∷◌, ◌++◌, Option, none, some, any, ◌≡◌, refl, ap, ap₂, ◌∙◌,
  inl, inr, ◌==◌, string_eq, Bool-cases, append-nil,
}
use forge_eng_fabric.Workflow.Ast.{Step, NodeActiveSurface, Node, Trigger, Workflow}
use forge_eng_fabric.Workflow.Dsl.{is_event_trigger, kept, extracted, walk_all}
use forge_eng_fabric.Registry.Migrate.{
  Visitor, endpoint_of, without_endpoint, pinned_endpoint, strip_endpoint, is_prompt, alias_prompt,
  hit_step, hit_all, walk, event_step_to_trigger, extract_event_triggers, reason_if,
  apply_catalog_migrations,
}
use forge_eng_fabric.Registry.Migrate.Once.{
  or_false, both_false, walk-still, hit_all-walk, hit_all-never, never,
}

strip-still : (s : Step) → strip_endpoint.hits s ≡ false → strip_endpoint.rewrite s ≡ s
strip-still s h = rw h refl

alias-still : (s : Step) → alias_prompt.hits s ≡ false → alias_prompt.rewrite s ≡ s
alias-still s h = rw h refl

strip-clears : (s : Step) → strip_endpoint.hits (strip_endpoint.rewrite s) ≡ false
strip-clears s = elim (Bool-cases (pinned_endpoint s)) [
  | inl e ↦ rw e (cleared s.active_surface)
  | inr e ↦ rw e e
]
  where
    cleared : (o : Option NodeActiveSurface) → not (endpoint_of (without_endpoint o) == "") ≡ false
    cleared none = refl
    cleared (some a) = refl

alias-clears : (s : Step) → alias_prompt.hits (alias_prompt.rewrite s) ≡ false
alias-clears s = elim (Bool-cases (is_prompt s)) [ inl e ↦ rw e refl | inr e ↦ rw e e ]

alias-keeps_endpoint :
    (s : Step) → strip_endpoint.hits (alias_prompt.rewrite s) ≡ strip_endpoint.hits s
alias-keeps_endpoint s = elim (Bool-cases (is_prompt s)) [ inl e ↦ rw e refl | inr e ↦ rw e refl ]

hit_all-kept : (v : Visitor) (ns : List Node) → hit_all v ns ≡ false → hit_all v (kept ns) ≡ false
unfolding hit_all kept
hit_all-kept v [] h = refl
hit_all-kept v (n ∷ ns) h =
    let both = or_false (hit_step v n) (hit_all v ns) h in
    elim (Bool-cases (is_event_trigger n)) [
      | inl e ↦ rw e (hit_all-kept v ns both.1)
      | inr e ↦
          rw e (both_false (hit_step v n) (hit_all v (kept ns)) both.0 (hit_all-kept v ns both.1))
    ]

any-kept : (ns : List Node) → any is_event_trigger (kept ns) ≡ false
unfolding kept
any-kept [] = refl
any-kept (n ∷ ns) = elim (Bool-cases (is_event_trigger n)) [
  | inl e ↦ rw e (any-kept ns)
  | inr e ↦ rw e (both_false (is_event_trigger n) (any is_event_trigger (kept ns)) e (any-kept ns))
]

kept-still : (ns : List Node) → any is_event_trigger ns ≡ false → kept ns ≡ ns
unfolding kept
kept-still [] h = refl
kept-still (n ∷ ns) h =
    let both = or_false (is_event_trigger n) (any is_event_trigger ns) h in
    rw both.0 (ap (λ r. n ∷ r) (kept-still ns both.1))

extracted-still :
    (f : Step → Trigger) (ns : List Node) → any is_event_trigger ns ≡ false → extracted f ns ≡ []
unfolding extracted
extracted-still f [] h = refl
extracted-still f (n ∷ ns) h =
    let both = or_false (is_event_trigger n) (any is_event_trigger ns) h in
    rw both.0 (extracted-still f ns both.1)

-- No step has a pinned endpoint or is a prompt, and no step of the first level is an event trigger.
record IsMigrated (wf : Workflow) : Type 0 where
  no_endpoint : hit_all strip_endpoint wf.spec.steps ≡ false
  no_endpoint_on_failure : hit_all strip_endpoint wf.spec.on_failure ≡ false
  no_prompt : hit_all alias_prompt wf.spec.steps ≡ false
  no_prompt_on_failure : hit_all alias_prompt wf.spec.on_failure ≡ false
  no_event : any is_event_trigger wf.spec.steps ≡ false

extract-still :
    (wf : Workflow)
    → any is_event_trigger wf.spec.steps ≡ false
    → extract_event_triggers wf ≡ (false, wf)
unfolding extract_event_triggers
extract-still wf h =
    ap₂
      (λ (u : List Node) (t : List Trigger). (
        any is_event_trigger wf.spec.steps,
        record wf { spec = record wf.spec { steps = u; triggers = wf.spec.triggers ++ t } },
      ))
      (kept-still wf.spec.steps h) (extracted-still event_step_to_trigger wf.spec.steps h)
    ∙ ap₂
        (λ (b : Bool) (t : List Trigger). (b, record wf { spec = record wf.spec { triggers = t } }))
        h (append-nil wf.spec.triggers)

-- What is migrated stays as it is.
migrated-still : (wf : Workflow) → IsMigrated wf → apply_catalog_migrations wf ≡ ([], wf)
unfolding apply_catalog_migrations
migrated-still wf m =
    ap (λ (p : Bool × Workflow). after_strip p)
      (walk-still strip_endpoint strip-still wf m.no_endpoint m.no_endpoint_on_failure)
    ∙ ap (λ (p : Bool × Workflow). after_alias false p)
        (walk-still alias_prompt alias-still wf m.no_prompt m.no_prompt_on_failure)
    ∙ ap (λ (p : Bool × Workflow). after_extract false false p) (extract-still wf m.no_event)
  where
    after_extract : Bool → Bool → Bool × Workflow → List String × Workflow
    after_extract a b p = (
      reason_if a "cleanup_active_surface_endpoint"
          ++ reason_if b "migrate_prompt_to_prompt_template"
          ++ reason_if p.0 "migrate_event_trigger_to_triggers_block",
      p.1,
    )

    after_alias : Bool → Bool × Workflow → List String × Workflow
    after_alias a p = after_extract a p.0 (extract_event_triggers p.1)

    after_strip : Bool × Workflow → List String × Workflow
    after_strip p = after_alias p.0 (walk alias_prompt p.1)

cleared_of_endpoints :
    (ns : List Node)
    → hit_all strip_endpoint (walk_all alias_prompt.rewrite (walk_all strip_endpoint.rewrite ns))
      ≡ false
cleared_of_endpoints ns =
    hit_all-walk strip_endpoint alias_prompt.rewrite strip_endpoint alias-keeps_endpoint
      (walk_all strip_endpoint.rewrite ns)
    ∙ hit_all-walk strip_endpoint strip_endpoint.rewrite (never strip_endpoint.rewrite) strip-clears
        ns
    ∙ hit_all-never strip_endpoint.rewrite ns

cleared_of_prompts :
    (ns : List Node) → hit_all alias_prompt (walk_all alias_prompt.rewrite ns) ≡ false
cleared_of_prompts ns =
    hit_all-walk alias_prompt alias_prompt.rewrite (never alias_prompt.rewrite) alias-clears ns
    ∙ hit_all-never alias_prompt.rewrite ns

abbrev migrated_nodes : Workflow → List Node
migrated_nodes wf = walk_all alias_prompt.rewrite (walk_all strip_endpoint.rewrite wf.spec.steps)

apply-IsMigrated : (wf : Workflow) → IsMigrated (apply_catalog_migrations wf).1
unfolding apply_catalog_migrations walk extract_event_triggers
apply-IsMigrated wf = record {
  no_endpoint =
      hit_all-kept strip_endpoint (migrated_nodes wf) (cleared_of_endpoints wf.spec.steps);
  no_endpoint_on_failure = cleared_of_endpoints wf.spec.on_failure;
  no_prompt =
      hit_all-kept alias_prompt (migrated_nodes wf)
        (cleared_of_prompts (walk_all strip_endpoint.rewrite wf.spec.steps));
  no_prompt_on_failure = cleared_of_prompts (walk_all strip_endpoint.rewrite wf.spec.on_failure);
  no_event = any-kept (migrated_nodes wf);
}

-- The migrations of a workflow that they have been applied to give no reason and leave it as it is.
pub migrations_once :
    (wf : Workflow)
    → apply_catalog_migrations (apply_catalog_migrations wf).1
      ≡ ([], (apply_catalog_migrations wf).1)
migrations_once wf = migrated-still (apply_catalog_migrations wf).1 (apply-IsMigrated wf)
