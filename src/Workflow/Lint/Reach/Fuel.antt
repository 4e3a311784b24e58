-- ===== src/Workflow/Lint/Reach/Fuel.antt =====
-- The fuel of the walk: a step that enters the queue is reached then for the first time.
use forge_eng_fabric.Prelude.{
  ℕ, zero, suc, ◌+◌, ◌≤◌, ◌<◌, String, Bool, true, false, ◌||◌, List, [], ◌∷◌, ◌++◌, map, none,
  keep, length, length-append, length-map, Member, ◌≡◌, ◌≢◌, refl, subst, ◌⊎◌, inl, inr, ◌==◌,
  string_eq, beq_refl, Bool-cases, arith,
}
use forge_eng_fabric.Workflow.Ast.{Step}
use forge_eng_fabric.Workflow.Lint.Steps.{is_listed}
use forge_eng_fabric.Workflow.Lint.Reach.{
  ids, known_deps, successors, Reached, reach, reach_all, walk, is_entry, entries, reachable,
}

abbrev one_if_not : Bool → ℕ
one_if_not true = 0
one_if_not false = 1

-- How many of the listed are not reached.
unreached : List String → List String → ℕ
unreached r [] = 0
unreached r (u ∷ us) = one_if_not (is_listed r u) + unreached r us

one_if_not-le : (a b : Bool) → one_if_not (a || b) ≤ one_if_not b
one_if_not-le true true = omega arith
one_if_not-le true false = omega arith
one_if_not-le false b = omega arith

unreached-cons_le : (x : String) (r us : List String) → unreached (x ∷ r) us ≤ unreached r us
unfolding unreached
unreached-cons_le x r [] = omega arith
unreached-cons_le x r (u ∷ us) =
    omega (arith, one_if_not-le (x == u) (is_listed r u), unreached-cons_le x r us)

unreached-cons_lt :
    (x : String) (r us : List String)
    → is_listed r x ≡ false
    → Member x us
    → unreached (x ∷ r) us < unreached r us
unfolding unreached
unreached-cons_lt x r [] h m = absurd m
unreached-cons_lt x r (u ∷ us) h (inl e) =
    let k = unreached-cons_le x r us in
    subst
      (λ v.
        one_if_not (x == v || is_listed r v) + unreached (x ∷ r) us
        < one_if_not (is_listed r v) + unreached r us)
      e (rw h (rw (beq_refl x) (omega arith)))
unreached-cons_lt x r (u ∷ us) h (inr m) =
    omega (arith, one_if_not-le (x == u) (is_listed r u), unreached-cons_lt x r us h m)

-- What is left to do: the queue, and the steps that may still enter it.
abbrev left : List String → Reached → ℕ
left us s = unreached s.0 us + length s.1

reach-left :
    (us : List String) (x : String) (s : Reached) → Member x us → left us (reach x s) ≤ left us s
reach-left us x (r, q) m = elim (Bool-cases (is_listed r x)) [
  | inl e ↦ rw e (omega arith)
  | inr e ↦ rw e (omega (arith, unreached-cons_lt x r us e m, length-append {0} q (x ∷ [])))
]

reach_all-left :
    (us xs : List String) (s : Reached)
    → ((x : String) → Member x xs → Member x us)
    → left us (reach_all xs s) ≤ left us s
unfolding reach_all
reach_all-left us [] s sub = omega arith
reach_all-left us (x ∷ xs) s sub =
    let first = reach-left us x s (sub x (inl refl)) in
    let rest = reach_all-left us xs (reach x s) (λ y m. sub y (inr m)) in omega arith

walk-ends :
    (f : ℕ) (next : String → List String) (us : List String) (s : Reached)
    → ((d x : String) → Member x (next d) → Member x us)
    → left us s ≤ f
    → walk f next s ≢ none
unfolding walk
walk-ends zero next us (r, []) sub h = λ p. cc
walk-ends zero next us (r, head ∷ q) sub h = absurd (omega arith)
walk-ends (suc f) next us (r, []) sub h = λ p. cc
walk-ends (suc f) next us (r, head ∷ q) sub h =
    let k = reach_all-left us (next head) (r, q) (sub head) in
    walk-ends f next us (reach_all (next head) (r, q)) sub (omega arith)

Member-append : (x : String) (xs ys : List String) → Member x (xs ++ ys) → Member x xs ⊎ Member x ys
Member-append x [] ys m = inr m
Member-append x (y ∷ xs) ys (inl e) = inl (inl e)
Member-append x (y ∷ xs) ys (inr m) = elim (Member-append x xs ys m) [
  | inl k ↦ inl (inr k)
  | inr k ↦ inr k
]

Member-map_const : (x y : String) (l : List String) → Member x (map (λ (e : String). y) l) → x ≡ y
Member-map_const x y [] m = absurd m
Member-map_const x y (e ∷ l) (inl p) = p
Member-map_const x y (e ∷ l) (inr m) = Member-map_const x y l m

successors-Member :
    (steps rest : List Step) (d x : String)
    → Member x (successors steps rest d)
    → Member x (ids rest)
unfolding successors
successors-Member steps [] d x m = m
successors-Member steps (s ∷ rest) d x m =
    elim (Member-append x (map (λ (e : String). s.id) (keep (λ e. e == d) (known_deps steps s)))
      (successors steps rest d) m) [
        | inl k ↦ inl (Member-map_const x s.id (keep (λ e. e == d) (known_deps steps s)) k)
        | inr k ↦ inr (successors-Member steps rest d x k)
      ]

length-keep : {A : Type 0} (p : A → Bool) (xs : List A) → length (keep p xs) ≤ length xs
unfolding keep
length-keep p [] = omega arith
length-keep p (x ∷ xs) = elim (Bool-cases (p x)) [
  | inl e ↦ rw e (omega (arith, length-keep p xs))
  | inr e ↦ rw e (omega (arith, length-keep p xs))
]

unreached_le : (r us : List String) → unreached r us ≤ length us
unfolding unreached
unreached_le r [] = omega arith
unreached_le r (u ∷ us) = elim (Bool-cases (is_listed r u)) [
  | inl e ↦ rw e (omega (arith, unreached_le r us))
  | inr e ↦ rw e (omega (arith, unreached_le r us))
]

-- For every list of steps the walk of checkUnreachable ends within its fuel.
pub reachable-ends : (steps : List Step) → reachable steps ≢ none
unfolding reachable entries
reachable-ends steps =
    walk-ends (length steps + length steps) (successors steps steps) (ids steps)
      (entries steps, entries steps) (successors-Member steps steps)
      (omega (
        arith,
        unreached_le (entries steps) (ids steps),
        length-map (λ (s : Step). s.id) steps,
        length-map (λ (s : Step). s.id) (keep (is_entry steps) steps),
        length-keep (is_entry steps) steps,
      ))
