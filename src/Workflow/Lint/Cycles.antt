-- ===== src/Workflow/Lint/Cycles.antt =====
-- lint.go: checkCycles, a depth-first search of the graph of `depends_on`. A map ranges in the order
-- of the list that stands for it. The search takes fuel, one more than the identifiers of the graph;
-- a visit that has none left is `out_of_fuel`.
pub mod Colours
pub mod Fuel
pub mod Loops
pub mod Laws
use forge_eng_fabric.Prelude.{
  ℕ, zero, suc, String, List, [], ◌∷◌, ◌++◌, Option, none, some, length, string_eq,
}
use forge_eng_fabric.Prelude.Assoc.{lookup, insert}
use forge_eng_fabric.Prelude.Text.{◌+s◌, join}
use forge_eng_fabric.Workflow.Ast.{Step, elements}
use forge_eng_fabric.Workflow.Lint.Finding.{Finding, cycle_detected, error_of}

abbrev pub Graph : Type 0
Graph = List (String × List String)

-- `graph[s.ID] = …` for each step
unfoldable pub graph_of : List Step → Graph → Graph
graph_of [] g = g
graph_of (s ∷ rest) g = graph_of rest (insert s.id (elements s.depends_on) g)

-- `graph[id]`
unfoldable pub deps : Graph → String → List String
deps g id = elim (lookup id g) [ none ↦ [] | some l ↦ l ]

pub data Colour : Type 0 where
  white gray black : Colour

abbrev pub Colours : Type 0
Colours = List (String × Colour)

-- `state[id]`
unfoldable pub colour_of : Colours → String → Colour
colour_of st id = elim (lookup id st) as (λ _. Colour) [ none ↦ white | some c ↦ c ]

-- How a visit ends: with a finding, or with the colours that it leaves.
pub data Search : Type 0 where
  cycle : Finding → Search
  done : Colours → Search
  out_of_fuel : Search

-- One visit goes on where another ends without a finding.
abbrev pub and_then : Search → (Colours → Search) → Search
and_then (cycle f) next = cycle f
and_then (done st) next = next st
and_then out_of_fuel next = out_of_fuel

unfoldable pub cycle_at : List String → String → String → Finding
cycle_at path id dep =
    error_of cycle_detected id
      ("cycle detected: " +s join " -> " (path ++ id ∷ []) +s " -> " +s dep)

-- The loop of `dfs` over the dependencies; `go` is `dfs` itself.
unfoldable pub visit :
    (String → List String → Colours → Search)
    → String
    → List String
    → List String
    → Colours
    → Search
visit go id path [] st = done st
visit go id path (dep ∷ rest) st = elim (colour_of st dep) as (λ _. Search) [
  | white ↦ and_then (go dep (path ++ id ∷ []) st) (visit go id path rest)
  | gray ↦ cycle (cycle_at path id dep)
  | black ↦ visit go id path rest st
]

-- dfs
unfoldable pub dfs : ℕ → Graph → String → List String → Colours → Search
unfolding visit
dfs zero g id path st = out_of_fuel
dfs (suc f) g id path st =
    and_then (visit (dfs f g) id path (deps g id) (insert id gray st))
      (λ st'. done (insert id black st'))

-- `for id := range graph`
unfoldable pub visit_all :
    (String → List String → Colours → Search) → List String → Colours → Search
visit_all go [] st = done st
visit_all go (id ∷ ids) st = elim (colour_of st id) as (λ _. Search) [
  | white ↦ and_then (go id [] st) (visit_all go ids)
  | gray ↦ visit_all go ids st
  | black ↦ visit_all go ids st
]

unfoldable pub keys : Graph → List String
keys [] = []
keys ((id, ds) ∷ g) = id ∷ keys g

-- Every identifier that the graph names, as often as it does.
unfoldable pub named : Graph → List String
named [] = []
named ((id, ds) ∷ g) = id ∷ ds ++ named g

unfoldable pub search_graph : Graph → Search
unfolding dfs visit_all keys named
search_graph g = visit_all (dfs (suc (length (named g))) g) (keys g) []

unfoldable pub search_cycles : List Step → Search
unfolding search_graph graph_of
search_cycles steps = search_graph (graph_of steps [])

-- checkCycles
unfoldable pub check_cycles : List Step → List Finding
unfolding search_cycles
check_cycles steps = elim (search_cycles steps) as (λ _. List Finding) [
  | cycle f ↦ f ∷ []
  | done st ↦ []
  | out_of_fuel ↦ []
]
