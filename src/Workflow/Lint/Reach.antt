-- ===== src/Workflow/Lint/Reach.antt =====
-- lint.go: checkUnreachable, a walk from the steps that wait for none. The walk takes fuel, twice the
-- number of the steps: a step enters the queue at the start, and once more when it is first reached.
pub mod Fuel
use forge_eng_fabric.Prelude.{
  ℕ, zero, suc, ◌+◌, String, Bool, true, false, not, ◌&&◌, ◌||◌, List, [], ◌∷◌, ◌++◌, map, Option,
  none, some, keep, any, length, ◌==◌, nat_eq, string_eq, if◌then◌else◌,
}
use forge_eng_fabric.Prelude.Text.{◌+s◌}
use forge_eng_fabric.Prelude.Split.{quoted}
use forge_eng_fabric.Workflow.Ast.{Step, elements, step_event_trigger}
use forge_eng_fabric.Workflow.Lint.Finding.{Finding, unreachable_step, error_of, collect}
use forge_eng_fabric.Workflow.Lint.Steps.{has_step, is_listed, requires}

abbrev pub ids : List Step → List String
ids steps = map (λ (s : Step). s.id) steps

-- The dependencies of a step that are steps.
unfoldable pub known_deps : List Step → Step → List String
unfolding keep
known_deps steps s = keep (has_step steps) (elements s.depends_on)

-- `indeg[id]`, from the steps `rest`
unfoldable pub in_degree : List Step → List Step → String → ℕ
unfolding known_deps
in_degree steps [] id = 0
in_degree steps (s ∷ rest) id =
    let n = in_degree steps rest id in if s.id == id then length (known_deps steps s) + n else n

-- `successors[d]`, from the steps `rest`: a step as often as it names `d`
unfoldable pub successors : List Step → List Step → String → List String
unfolding known_deps keep
successors steps [] d = []
successors steps (s ∷ rest) d =
    map (λ (e : String). s.id) (keep (λ e. e == d) (known_deps steps s)) ++ successors steps rest d

-- `indeg[s.ID] == 0 || s.Type == ast.StepEventTrigger`
unfoldable pub is_entry : List Step → Step → Bool
unfolding in_degree
is_entry steps s = in_degree steps steps s.id == 0 || s.step_type == step_event_trigger

-- The steps that are reachable, and the queue.
abbrev pub Reached : Type 0
Reached = List String × List String

abbrev pub reach : String → Reached → Reached
reach x (reached, queue) =
    if is_listed reached x then (reached, queue) else (x ∷ reached, queue ++ x ∷ [])

-- `for _, succ := range successors[head]`
unfoldable pub reach_all : List String → Reached → Reached
reach_all [] s = s
reach_all (x ∷ xs) s = reach_all xs (reach x s)

-- `for len(queue) > 0`; `none` where the fuel runs out
unfoldable pub walk : ℕ → (String → List String) → Reached → Option (List String)
unfolding reach_all
walk zero next (reached, []) = some reached
walk zero next (reached, head ∷ queue) = none
walk (suc f) next (reached, []) = some reached
walk (suc f) next (reached, head ∷ queue) = walk f next (reach_all (next head) (reached, queue))

unfoldable pub entries : List Step → List String
unfolding keep is_entry
entries steps = ids (keep (is_entry steps) steps)

unfoldable pub reachable : List Step → Option (List String)
unfolding walk successors entries
reachable steps =
    walk (length steps + length steps) (successors steps steps) (entries steps, entries steps)

-- `allIDs`
unfoldable pub distinct : List String → List String
distinct [] = []
distinct (x ∷ xs) = let rest = distinct xs in if is_listed rest x then rest else x ∷ rest

unfoldable pub unreached_in : List String → String → List Finding
unfolding quoted
unreached_in reached id =
    requires (not (is_listed reached id))
      (error_of unreachable_step id ("step " +s quoted id +s " is unreachable"))

-- checkUnreachable
unfoldable pub check_unreachable : List Step → List Finding
unfolding reachable distinct unreached_in collect
check_unreachable steps = elim (reachable steps) as (λ _. List Finding) [
  | none ↦ []
  | some reached ↦ collect (unreached_in reached) (distinct (ids steps))
]
