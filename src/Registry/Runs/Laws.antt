-- ===== src/Registry/Runs/Laws.antt =====
-- The store refines a register that is written once.
use forge_eng_fabric.Prelude.{
  String, Bool, true, false, ◌&&◌, List, [], ◌∷◌, Option, none, some, ◌≡◌, refl, sym, ap, subst,
  ◌∙◌, inl, inr, ◌==◌, string_eq, Bool-cases,
}
use forge_eng_fabric.Prelude.Assoc.{lookup, lookup-insert_self, lookup-insert_ne}
use forge_eng_fabric.Registry.Service.{Workflow, Version, Env, World, emit, create_workflow}
use forge_eng_fabric.Registry.Publish.{
  PublishVersionRequest, holds_published, is_published, versions_of, version_record, stored,
  publish_version,
}
use forge_eng_fabric.Registry.Publish.Outcome.{Outcome, Ends, refused, made, publish_version-Ends}
use forge_eng_fabric.Registry.Publish.Laws.{versions_of-stored, versions_of-stored_ne}
use forge_eng_fabric.Registry.Runs.{
  Call, creates, publishes, after_call, empty, view, written, Answers, keeps, writes, Refines,
}
use forge_eng_fabric.Registry.Runs.Places.{IsConsistent, lookup-ne, create_workflow-IsStep}

and_false : (a b : Bool) → (a && b) ≡ false → a ≡ true → b ≡ false
and_false true b h e = h
and_false false b h e = cc

both_true : (a b : Bool) → (a && b) ≡ true → (a ≡ true) × (b ≡ true)
both_true true b h = (refl, h)
both_true false b h = cc

-- A version that is released goes where no version was.
module _ (wf : Workflow) (v : Version) (w : World) (c : IsConsistent w)
    (unused : holds_published (versions_of w v.workflow_id) v.version ≡ false) where
  place_was_free : view w v.workflow_id v.version ≡ none
  unfolding view holds_published
  place_was_free = by_entry (lookup v.version (versions_of w v.workflow_id)) refl unused
    where
      by_entry :
          (o : Option Version)
          → view w v.workflow_id v.version ≡ o
          → (elim o as (λ _. Bool) [ none ↦ false | some u ↦ is_published u.state ]) ≡ false
          → o ≡ none
      by_entry none h u = refl
      by_entry (some old) h u = cc (c.all_published v.workflow_id v.version old h)

view-stored_self :
    (wf : Workflow) (v : Version) (w : World)
    → view (stored wf v w) v.workflow_id v.version ≡ some v
unfolding view
view-stored_self wf v w =
    ap (lookup v.version) (versions_of-stored wf v w)
    ∙ lookup-insert_self v.version v (versions_of w v.workflow_id)

view-stored_ne :
    (wf : Workflow) (v : Version) (w : World) (id text : String)
    → (v.workflow_id == id && v.version == text) ≡ false
    → view (stored wf v w) id text ≡ view w id text
unfolding view
view-stored_ne wf v w id text d = elim (Bool-cases (v.workflow_id == id)) [
  | inl e ↦
      subst (λ i. lookup text (versions_of (stored wf v w) i) ≡ lookup text (versions_of w i))
        ((string_eq.decides v.workflow_id id).0 e)
        (ap (lookup text) (versions_of-stored wf v w)
          ∙ lookup-insert_ne v.version text v (versions_of w v.workflow_id)
              (and_false (v.workflow_id == id) (v.version == text) d e))
  | inr e ↦ ap (lookup text) (versions_of-stored_ne wf v w id e)
]

module _ (wf : Workflow) (v : Version) (w : World) (c : IsConsistent w)
    (out : is_published v.state ≡ true) where
  stored-all_published :
      (id text : String) (u : Version)
      → view (stored wf v w) id text ≡ some u
      → is_published u.state ≡ true
  stored-all_published id text u h = elim (Bool-cases (v.workflow_id == id && v.version == text)) [
    | inl e ↦ subst (λ (o : Option Version). Out o) (sym (at_place e) ∙ h) out
    | inr e ↦ c.all_published id text u (sym (view-stored_ne wf v w id text e) ∙ h)
  ]
    where
      Out : Option Version → Type 0
      Out none = Unit
      Out (some x) = is_published x.state ≡ true

      at_place :
          (v.workflow_id == id && v.version == text) ≡ true → view (stored wf v w) id text ≡ some v
      at_place e =
          let s = both_true (v.workflow_id == id) (v.version == text) e in
          subst (λ i. view (stored wf v w) i text ≡ some v)
            ((string_eq.decides v.workflow_id id).0 s.0)
            (subst (λ t. view (stored wf v w) v.workflow_id t ≡ some v)
              ((string_eq.decides v.version text).0 s.1) (view-stored_self wf v w))

  stored-registered :
      (id : String)
      → lookup id (stored wf v w).workflows ≡ none
      → versions_of (stored wf v w) id ≡ []
  unfolding stored
  stored-registered id h =
      let s = lookup-ne v.workflow_id id _ w.workflows h in
      versions_of-stored_ne wf v w id s.0 ∙ c.registered id s.1

view-stored :
    (wf : Workflow) (v : Version) (w : World) (id text : String)
    → view (stored wf v w) id text ≡ written v.workflow_id v.version v (view w) id text
view-stored wf v w id text = elim (Bool-cases (v.workflow_id == id && v.version == text)) [
  | inl e ↦
      let (p, q) = both_true (v.workflow_id == id) (v.version == text) e in
      rw e (
        subst (λ i. view (stored wf v w) i text ≡ some v) ((string_eq.decides v.workflow_id id).0 p)
          (subst (λ t. view (stored wf v w) v.workflow_id t ≡ some v)
            ((string_eq.decides v.version text).0 q) (view-stored_self wf v w)))
  | inr e ↦ rw e (view-stored_ne wf v w id text e)
]

-- A publication is answered as by the register, and leaves the store consistent.
record IsServed (req : PublishVersionRequest) (w : World) (o : Outcome) : Type 0 where
  consistent : IsConsistent o.1
  answers : Answers req.workflow_id (view w) o.0 (view o.1)

Ends-IsServed :
    (env : Env) (req : PublishVersionRequest) (w : World) {o : Outcome}
    → IsConsistent w
    → Ends env req w o
    → IsServed req w o
unfolding emit view versions_of
Ends-IsServed env req w c (refused e) = record {
  consistent = c;
  answers = keeps e (λ id text. refl);
}
Ends-IsServed env req w c (made ast requested final diff wf r) = record {
  consistent = record {
    registered = stored-registered wf (version_record env req ast final diff w) w c refl;
    all_published = stored-all_published wf (version_record env req ast final diff w) w c refl;
  };
  answers =
      writes (version_record env req ast final diff w)
        (place_was_free wf (version_record env req ast final diff w) w c r.unused)
        (view-stored wf (version_record env req ast final diff w) w);
}

run-Refines : (env : Env) (calls : List Call) (w : World) → IsConsistent w → Refines env w calls
unfolding after_call
run-Refines env [] w c = tt
run-Refines env (creates req ∷ calls) w c =
    let s = create_workflow-IsStep env req w c in
    (s.same, run-Refines env calls (create_workflow env req w).1 s.consistent)
run-Refines env (publishes req ∷ calls) w c =
    let s = Ends-IsServed env req w c (publish_version-Ends env req w) in
    (s.answers, run-Refines env calls (publish_version env req w).1 s.consistent)

empty-IsConsistent : IsConsistent empty
unfolding view versions_of lookup
empty-IsConsistent = record { registered = λ id h. refl; all_published = λ id text v h. cc }

-- From a new service on, each call of CreateWorkflow and PublishVersion, in any order and with any
-- requests, does what a register does of which each place, a workflow and the text of a version, is
-- written once: where PublishVersion returns a version, its place was free, holds that version after
-- the call, and all other places are as before; where it returns an error, and after
-- CreateWorkflow, all places are as before.
pub calls_write_once : (env : Env) (calls : List Call) → Refines env empty calls
calls_write_once env calls = run-Refines env calls empty empty-IsConsistent
