-- ===== src/Registry/Migrate/Once.antt =====
-- Walks through the steps: one that changes no step, and what a test finds after one.
use forge_eng_fabric.Prelude.{
  Bool, true, false, ◌||◌, List, [], ◌∷◌, ◌≡◌, refl, ap, ap₂, ◌∙◌, string_eq,
}
use forge_eng_fabric.Workflow.Ast.{
  Step, Node, node, Nodes, nil, cons, Branches, no_branch, branch, Workflow,
}
use forge_eng_fabric.Workflow.Dsl.{walk_step, walk_steps, walk_branches, walk_all}
use forge_eng_fabric.Registry.Migrate.{Visitor, hit_step, hit_steps, hit_branches, hit_all, walk}

pub or_false : (a b : Bool) → (a || b) ≡ false → (a ≡ false) × (b ≡ false)
or_false true b h = cc
or_false false b h = (refl, h)

pub both_false : (a b : Bool) → a ≡ false → b ≡ false → (a || b) ≡ false
both_false a b h k = rw h k

-- A walk that changes no step leaves the node.
module _ (v : Visitor) (still : (s : Step) → v.hits s ≡ false → v.rewrite s ≡ s) where
  mutual
    unfolding hit_step walk_step

    walk_step-still : (n : Node) → hit_step v n ≡ false → walk_step v.rewrite n ≡ n
    walk_step-still (node s arms body) h =
        let first = or_false (v.hits s || hit_branches v arms) (hit_steps v body) h in
        let second = or_false (v.hits s) (hit_branches v arms) first.0 in
        ap (λ t. node t (walk_branches v.rewrite arms) (walk_steps v.rewrite body))
          (still s second.0)
        ∙ ap₂ (λ a b. node s a b) (walk_branches-still arms second.1)
            (walk_steps-still body first.1)

    walk_steps-still : (ns : Nodes) → hit_steps v ns ≡ false → walk_steps v.rewrite ns ≡ ns
    walk_steps-still nil h = refl
    walk_steps-still (cons n ns) h =
        let both = or_false (hit_step v n) (hit_steps v ns) h in
        ap₂ (λ a b. cons a b) (walk_step-still n both.0) (walk_steps-still ns both.1)

    walk_branches-still :
        (bs : Branches) → hit_branches v bs ≡ false → walk_branches v.rewrite bs ≡ bs
    walk_branches-still no_branch h = refl
    walk_branches-still (branch when_ goto steps rest) h =
        let both = or_false (hit_steps v steps) (hit_branches v rest) h in
        ap₂ (λ a b. branch when_ goto a b) (walk_steps-still steps both.0)
          (walk_branches-still rest both.1)

  pub walk_all-still : (ns : List Node) → hit_all v ns ≡ false → walk_all v.rewrite ns ≡ ns
  unfolding walk_all hit_all
  walk_all-still [] h = refl
  walk_all-still (n ∷ ns) h =
      let both = or_false (hit_step v n) (hit_all v ns) h in
      ap₂ (λ a b. a ∷ b) (walk_step-still n both.0) (walk_all-still ns both.1)

  pub walk-still :
      (wf : Workflow)
      → hit_all v wf.spec.steps ≡ false
      → hit_all v wf.spec.on_failure ≡ false
      → walk v wf ≡ (false, wf)
  unfolding walk
  walk-still wf h k =
      ap₂
        (λ (b : Bool) (u : List Node). (
          b,
          record wf {
            spec = record wf.spec { steps = u; on_failure = walk_all v.rewrite wf.spec.on_failure };
          },
        ))
        (both_false (hit_all v wf.spec.steps) (hit_all v wf.spec.on_failure) h k)
        (walk_all-still wf.spec.steps h)
      ∙ ap (λ (u : List Node). (false, record wf { spec = record wf.spec { on_failure = u } }))
          (walk_all-still wf.spec.on_failure k)

-- What a visitor hits after a rewrite.
module _ (u : Visitor) (f : Step → Step) (before : Visitor)
    (after : (s : Step) → u.hits (f s) ≡ before.hits s) where
  mutual
    unfolding hit_step walk_step

    hit_step-walk : (n : Node) → hit_step u (walk_step f n) ≡ hit_step before n
    hit_step-walk (node s arms body) =
        ap₂ (λ a b. a || b) (ap₂ (λ a b. a || b) (after s) (hit_branches-walk arms))
          (hit_steps-walk body)

    hit_steps-walk : (ns : Nodes) → hit_steps u (walk_steps f ns) ≡ hit_steps before ns
    hit_steps-walk nil = refl
    hit_steps-walk (cons n ns) = ap₂ (λ a b. a || b) (hit_step-walk n) (hit_steps-walk ns)

    hit_branches-walk :
        (bs : Branches) → hit_branches u (walk_branches f bs) ≡ hit_branches before bs
    hit_branches-walk no_branch = refl
    hit_branches-walk (branch when_ goto steps rest) =
        ap₂ (λ a b. a || b) (hit_steps-walk steps) (hit_branches-walk rest)

  pub hit_all-walk : (ns : List Node) → hit_all u (walk_all f ns) ≡ hit_all before ns
  unfolding walk_all hit_all
  hit_all-walk [] = refl
  hit_all-walk (n ∷ ns) = ap₂ (λ a b. a || b) (hit_step-walk n) (hit_all-walk ns)

-- A test that no step passes is passed in no node.
module _ (f : Step → Step) where
  abbrev pub never : Visitor
  never = record { hits = λ s. false; rewrite = f }

  mutual
    unfolding hit_step

    hit_step-never : (n : Node) → hit_step never n ≡ false
    hit_step-never (node s arms body) =
        both_false (hit_branches never arms) (hit_steps never body) (hit_branches-never arms)
          (hit_steps-never body)

    hit_steps-never : (ns : Nodes) → hit_steps never ns ≡ false
    hit_steps-never nil = refl
    hit_steps-never (cons n ns) =
        both_false (hit_step never n) (hit_steps never ns) (hit_step-never n) (hit_steps-never ns)

    hit_branches-never : (bs : Branches) → hit_branches never bs ≡ false
    hit_branches-never no_branch = refl
    hit_branches-never (branch when_ goto steps rest) =
        both_false (hit_steps never steps) (hit_branches never rest) (hit_steps-never steps)
          (hit_branches-never rest)

  pub hit_all-never : (ns : List Node) → hit_all never ns ≡ false
  unfolding hit_all
  hit_all-never [] = refl
  hit_all-never (n ∷ ns) =
      both_false (hit_step never n) (hit_all never ns) (hit_step-never n) (hit_all-never ns)
