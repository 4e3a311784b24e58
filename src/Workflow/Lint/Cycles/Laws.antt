-- ===== src/Workflow/Lint/Cycles/Laws.antt =====
-- checkCycles finds nothing exactly where the dependencies of every step end.
use forge_eng_fabric.Prelude.{
  suc, String, true, List, [], ◌∷◌, Option, none, some, ◌≡◌, ◌≢◌, ◌↔◌, refl, sym, subst, inl, inr,
  length, Member, ◌==◌, string_eq, Bool-cases, if◌then◌else◌,
}
use forge_eng_fabric.Prelude.Assoc.{lookup}
use forge_eng_fabric.Workflow.Ast.{Step}
use forge_eng_fabric.Workflow.Lint.Finding.{Finding, is_error, errors}
use forge_eng_fabric.Workflow.Lint.Cycles.{
  Graph, graph_of, deps, colour_of, Search, cycle, done, out_of_fuel, dfs, keys, named,
  search_graph, search_cycles, check_cycles,
}
use forge_eng_fabric.Workflow.Lint.Cycles.Fuel.{search_graph-ends}
use forge_eng_fabric.Workflow.Lint.Cycles.Loops.{
  Below, AllEnd, Shows, no_loop, dfs-Searches, visit_all-Shows,
}
use mathlib.Core.WellFounded.{Acc}

-- For every list of steps the search of their graph, on the fuel that checkCycles is given, ends: it
-- returns a finding or colours, and is never out of fuel.
pub search_cycles-ends : (steps : List Step) → search_cycles steps ≢ out_of_fuel
unfolding search_cycles
search_cycles-ends steps = search_graph-ends (graph_of steps [])

search_graph-Shows : (g : Graph) → Shows g [] (AllEnd g (keys g)) (search_graph g)
unfolding search_graph colour_of lookup
search_graph-Shows g =
    visit_all-Shows g (dfs (suc (length (named g))) g) (keys g) []
      (dfs-Searches (suc (length (named g))) g) (λ x e. cc) (λ x e. cc)

abbrev listed : Option (List String) → List String
listed o = elim o as (λ _. List String) [ none ↦ [] | some l ↦ l ]

-- An identifier that is no key of the graph has no dependencies.
Below-keys : (g : Graph) (d id : String) → Below g d id → Member id (keys g)
unfolding deps lookup keys
Below-keys [] d id m = m
Below-keys ((j, ds) ∷ g) d id m = elim (Bool-cases (j == id)) [
  | inl p ↦ inl (sym ((string_eq.decides j id).0 p))
  | inr p ↦
      inr (
        Below-keys g d id (subst (λ b. Member d (listed (if b then some ds else lookup id g))) p m))
]

Acc_inv :
    (g : Graph) (id : String) → Acc (Below g) id → (d : String) → Below g d id → Acc (Below g) d
Acc_inv g id (Acc.intro _ inner) d m = inner d m

all_end : (g : Graph) → AllEnd g (keys g) → (id : String) → Acc (Below g) id
all_end g h id = Acc.intro id (λ d m. Acc_inv g id (h id (Below-keys g d id m)) d m)

-- checkCycles has no finding exactly where every identifier's dependencies end: the relation "is a
-- dependency of", in the graph of the steps, is well-founded at each.
pub no_cycle_iff :
    (steps : List Step)
    → (check_cycles steps ≡ []) ↔ ((id : String) → Acc (Below (graph_of steps [])) id)
unfolding check_cycles search_cycles
no_cycle_iff steps =
    read (search_graph (graph_of steps [])) (search_graph-ends (graph_of steps []))
      (search_graph-Shows (graph_of steps []))
  where
    read :
        (s : Search)
        → s ≢ out_of_fuel
        → Shows (graph_of steps []) [] (AllEnd (graph_of steps []) (keys (graph_of steps []))) s
        → ((elim s as (λ _. List Finding) [ cycle f ↦ f ∷ [] | done st ↦ [] | out_of_fuel ↦ [] ])
            ≡ [])
          ↔ ((id : String) → Acc (Below (graph_of steps [])) id)
    read (cycle f) h (e, (x, d, r, l)) =
        (λ p. cc, λ acc. absurd (no_loop (graph_of steps []) x (acc x) d r l))
    read (done st) h (b, n, a) = (λ p. all_end (graph_of steps []) a, λ acc. refl)
    read out_of_fuel h k = absurd (h refl)

absurd_error : (f : Finding) → is_error f ≡ true → errors (f ∷ []) ≡ [] → f ∷ [] ≡ []
unfolding errors
absurd_error f e h = cc (subst (λ b. (if b then f ∷ [] else []) ≡ []) e h)

-- The finding, where there is one, is an error.
pub errors-check_cycles :
    (steps : List Step) → errors (check_cycles steps) ≡ [] → check_cycles steps ≡ []
unfolding check_cycles search_cycles
errors-check_cycles steps =
    read (search_graph (graph_of steps [])) (search_graph-Shows (graph_of steps []))
  where
    found : Search → List Finding
    found s = elim s as (λ _. List Finding) [ cycle f ↦ f ∷ [] | done st ↦ [] | out_of_fuel ↦ [] ]

    read :
        (s : Search)
        → Shows (graph_of steps []) [] (AllEnd (graph_of steps []) (keys (graph_of steps []))) s
        → errors (found s) ≡ []
        → found s ≡ []
    read (cycle f) (e, l) h = absurd_error f e h
    read (done st) k h = refl
    read out_of_fuel k h = refl
