-- ===== src/Registry/Runs/Places.antt =====
-- CreateWorkflow writes no place of the register.
use forge_eng_fabric.Prelude.{
  String, Bool, true, false, List, [], Option, none, some, ◌≡◌, refl, sym, ap, subst, ◌∙◌, inl, inr,
  ◌+◌, ◌==◌, string_eq, if◌then◌else◌, Bool-cases,
}
use forge_eng_fabric.Prelude.Assoc.{lookup, insert, lookup-insert_self, lookup-insert_ne}
use forge_eng_fabric.Registry.Service.{
  Workflow, Version, Versions, Env, World, CreateWorkflowRequest, emit, workflow_of, add_workflow,
  create_workflow, Result, ok, err, id_required, name_required, workflow_already_exists, created,
}
use forge_eng_fabric.Registry.Publish.{is_published, versions_of}
use forge_eng_fabric.Registry.Runs.{view}

-- What the calls keep: only a registered workflow has versions, and each of them is published.
pub record IsConsistent (w : World) : Type 0 where
  pub registered : (id : String) → lookup id w.workflows ≡ none → versions_of w id ≡ []
  pub all_published :
      (id text : String) (v : Version) → view w id text ≡ some v → is_published v.state ≡ true

-- A call keeps the store consistent and every place of the register as it was.
pub record IsStep (w w' : World) : Type 0 where
  pub consistent : IsConsistent w'
  pub same : (id text : String) → view w' id text ≡ view w id text

pub same_store : (w : World) → IsConsistent w → IsStep w w
same_store w c = record { consistent = c; same = λ id text. refl }

pub lookup-ne :
    {V : Type 0} (k j : String) (v : V) (m : List (String × V))
    → lookup j (insert k v m) ≡ none
    → ((k == j) ≡ false) × (lookup j m ≡ none)
lookup-ne k j v m h = elim (Bool-cases (k == j)) [
  | inl e ↦ cc (
      sym (
        subst (λ i. lookup i (insert k v m) ≡ some v) ((string_eq.decides k j).0 e)
          (lookup-insert_self k v m))
      ∙ h)
  | inr e ↦ (e, sym (lookup-insert_ne k j v m e) ∙ h)
]

abbrev or_empty : Option Versions → Versions
or_empty o = elim o as (λ _. Versions) [ none ↦ [] | some vs ↦ vs ]

abbrev added_to : Env → Workflow → World → World
added_to env wf w =
    emit env wf.tenant_id wf.workspace_id "workflow.created.v1" wf.id
      (created wf.id wf.name wf.visibility)
      (record w { workflows = insert wf.id wf w.workflows; versions = insert wf.id [] w.versions })

-- A new workflow has no versions, and had none.
module _ (env : Env) (wf : Workflow) (w : World) (c : IsConsistent w)
    (free : lookup wf.id w.workflows ≡ none) where
  abbrev added : World
  added = added_to env wf w

  versions_of-added : (id : String) → versions_of added id ≡ versions_of w id
  unfolding versions_of emit
  versions_of-added id = elim (Bool-cases (wf.id == id)) [
    | inl e ↦
        subst
          (λ i. or_empty (lookup i (insert wf.id [] w.versions)) ≡ or_empty (lookup i w.versions))
          ((string_eq.decides wf.id id).0 e)
          (ap or_empty (lookup-insert_self wf.id [] w.versions) ∙ sym (c.registered wf.id free))
    | inr e ↦ ap or_empty (lookup-insert_ne wf.id id [] w.versions e)
  ]

  added-IsStep : IsStep w added
  unfolding view emit
  added-IsStep = record {
    consistent = record {
      registered =
          λ id h. versions_of-added id ∙ c.registered id (lookup-ne wf.id id wf w.workflows h).1;
      all_published = λ id text v h.
          c.all_published id text v (sym (ap (lookup text) (versions_of-added id)) ∙ h);
    };
    same = λ id text. ap (lookup text) (versions_of-added id);
  }

if-IsStep :
    (w : World) (b : Bool) (x y : Result Workflow × World)
    → IsStep w x.1
    → IsStep w y.1
    → IsStep w (if b then x else y).1
if-IsStep w true x y h k = h
if-IsStep w false x y h k = k

add_workflow-IsStep :
    (env : Env) (wf : Workflow) (w : World) → IsConsistent w → IsStep w (add_workflow env wf w).1
unfolding add_workflow
add_workflow-IsStep env wf w c = by_entry (lookup wf.id w.workflows) refl
  where
    by_entry :
        (o : Option Workflow)
        → lookup wf.id w.workflows ≡ o
        → IsStep w
            (elim o as (λ _. Result Workflow × World) [
              | some old ↦ (err workflow_already_exists, w)
              | none ↦ (ok wf, added_to env wf w)
            ]).1
    by_entry none h = added-IsStep env wf w c h
    by_entry (some old) h = same_store w c

add_readings :
    (env : Env) (wf : Workflow) (w drawn : World)
    → IsStep drawn (add_workflow env wf drawn).1
    → ((id text : String) → view drawn id text ≡ view w id text)
    → IsStep w (add_workflow env wf drawn).1
add_readings env wf w drawn s same = record {
  consistent = s.consistent;
  same = λ id text. s.same id text ∙ same id text;
}

pub create_workflow-IsStep :
    (env : Env) (req : CreateWorkflowRequest) (w : World)
    → IsConsistent w
    → IsStep w (create_workflow env req w).1
unfolding create_workflow view versions_of
create_workflow-IsStep env req w c =
    if-IsStep w (req.id == "") (err id_required, w) _ (same_store w c)
      (if-IsStep w (req.name == "") (err name_required, w) _ (same_store w c)
        (add_readings env (workflow_of env req w) w drawn
          (add_workflow-IsStep env (workflow_of env req w) drawn
            (record { registered = c.registered; all_published = c.all_published }))
          (λ id text. refl)))
  where
    drawn : World
    drawn = record w { readings = w.readings + 2 }
