-- ===== src/Workflow/Lint/Cycles/Fuel.antt =====
-- The fuel of the search: an identifier that is visited is white before and never again.
use forge_eng_fabric.Prelude.{
  ℕ, zero, suc, ◌+◌, ◌≤◌, ◌<◌, String, List, [], ◌∷◌, ◌++◌, Option, none, some, ◌≡◌, ◌≢◌, refl,
  subst, inl, inr, length, Member, ◌==◌, string_eq, Bool-cases, if◌then◌else◌, arith,
}
use forge_eng_fabric.Prelude.Assoc.{lookup, insert}
use forge_eng_fabric.Workflow.Lint.Cycles.{
  Graph, deps, Colour, white, gray, black, Colours, colour_of, Search, cycle, done, out_of_fuel,
  and_then, visit, dfs, visit_all, keys, named, search_graph,
}
use forge_eng_fabric.Workflow.Lint.Cycles.Colours.{
  colour_of-insert, colour_of-insert_ne, Colour-cases, visit_by_colour, visit_all_by_colour,
}

-- One for a white identifier.
abbrev weight : Colour → ℕ
weight white = 1
weight gray = 0
weight black = 0

whites : Colours → List String → ℕ
whites st [] = 0
whites st (u ∷ us) = weight (colour_of st u) + whites st us

weight-insert_le :
    (id u : String) (c : Colour) (st : Colours)
    → weight c ≡ 0
    → weight (colour_of (insert id c st) u) ≤ weight (colour_of st u)
weight-insert_le id u c st h = elim (Bool-cases (id == u)) [
  | inl p ↦
      subst (λ v. weight (colour_of (insert id c st) v) ≤ weight (colour_of st v))
        ((string_eq.decides id u).0 p) (rw (colour_of-insert id c st) (omega arith))
  | inr p ↦ rw (colour_of-insert_ne id u c st p) (omega arith)
]

whites-insert_le :
    (id : String) (c : Colour) (st : Colours) (us : List String)
    → weight c ≡ 0
    → whites (insert id c st) us ≤ whites st us
unfolding whites
whites-insert_le id c st [] h = omega arith
whites-insert_le id c st (u ∷ us) h =
    omega (arith, weight-insert_le id u c st h, whites-insert_le id c st us h)

whites-insert_lt :
    (id : String) (c : Colour) (st : Colours) (us : List String)
    → weight c ≡ 0
    → colour_of st id ≡ white
    → Member id us
    → whites (insert id c st) us < whites st us
unfolding whites
whites-insert_lt id c st [] h w m = elim m [ ]
whites-insert_lt id c st (u ∷ us) h w (inl e) =
    let k = whites-insert_le id c st us h in
    subst
      (λ v.
        weight (colour_of (insert id c st) v) + whites (insert id c st) us
        < weight (colour_of st v) + whites st us)
      e (rw (colour_of-insert id c st) (rw w (omega arith)))
whites-insert_lt id c st (u ∷ us) h w (inr m) =
    omega (arith, weight-insert_le id u c st h, whites-insert_lt id c st us h w m)

-- The visit ends, and leaves no more than `n` white.
abbrev Ends : List String → ℕ → Search → Type 0
Ends us n (cycle f) = Unit
Ends us n (done st) = whites st us ≤ n
Ends us n out_of_fuel = ⊥

Ends-and_then :
    (us : List String) (m n : ℕ) (s : Search) (next : Colours → Search)
    → Ends us m s
    → ((st : Colours) → whites st us ≤ m → Ends us n (next st))
    → Ends us n (and_then s next)
Ends-and_then us m n (cycle f) next h k = tt
Ends-and_then us m n (done st) next h k = k st h
Ends-and_then us m n out_of_fuel next h k = absurd h

Ends-le : (us : List String) (m n : ℕ) (s : Search) → m ≤ n → Ends us m s → Ends us n s
Ends-le us m n (cycle f) h e = tt
Ends-le us m n (done st) h e = omega arith
Ends-le us m n out_of_fuel h e = e

-- `go` visits any white identifier that is listed, where fewer than `f` are white.
abbrev Visits : List String → ℕ → (String → List String → Colours → Search) → Type 0
Visits us f go =
    (id : String) (path : List String) (st : Colours)
    → Member id us
    → colour_of st id ≡ white
    → whites st us < f
    → Ends us (whites st us) (go id path st)

visit-Ends :
    (us : List String) (f : ℕ) (go : String → List String → Colours → Search) (id : String)
    (path ds : List String) (st : Colours)
    → Visits us f go
    → ((d : String) → Member d ds → Member d us)
    → whites st us < f
    → Ends us (whites st us) (visit go id path ds st)
unfolding visit
visit-Ends us f go id path [] st v sub h = omega arith
visit-Ends us f go id path (d ∷ ds) st v sub h =
    visit_by_colour (Ends us (whites st us)) go id path d ds st
      (λ w.
        Ends-and_then us (whites st us) (whites st us) (go d (path ++ id ∷ []) st)
          (visit go id path ds) (v d (path ++ id ∷ []) st (sub d (inl refl)) w h)
          (λ st' le.
            Ends-le us (whites st' us) (whites st us) (visit go id path ds st') le
              (visit-Ends us f go id path ds st' v (λ e m. sub e (inr m)) (omega arith))))
      (λ g. tt) (λ b. visit-Ends us f go id path ds st v (λ e m. sub e (inr m)) h)

-- The list has every dependency of the identifiers in the graph.
abbrev Closed : Graph → List String → Type 0
Closed g us = (id d : String) → Member d (deps g id) → Member d us

dfs-Visits : (f : ℕ) (g : Graph) (us : List String) → Closed g us → Visits us f (dfs f g)
unfolding dfs
dfs-Visits zero g us closed id path st m w h = absurd (omega arith)
dfs-Visits (suc f) g us closed id path st m w h =
    let less = whites-insert_lt id gray st us (refl) w m in
    Ends-and_then us (whites (insert id gray st) us) (whites st us)
      (visit (dfs f g) id path (deps g id) (insert id gray st)) (λ st'. done (insert id black st'))
      (visit-Ends us f (dfs f g) id path (deps g id) (insert id gray st) (dfs-Visits f g us closed)
        (closed id) (omega arith))
      (λ st' le. let k = whites-insert_le id black st' us (refl) in omega arith)

visit_all-Ends :
    (us : List String) (f : ℕ) (go : String → List String → Colours → Search) (ids : List String)
    (st : Colours)
    → Visits us f go
    → ((d : String) → Member d ids → Member d us)
    → whites st us < f
    → Ends us (whites st us) (visit_all go ids st)
unfolding visit_all
visit_all-Ends us f go [] st v sub h = omega arith
visit_all-Ends us f go (id ∷ ids) st v sub h =
    visit_all_by_colour (Ends us (whites st us)) go id ids st
      (λ w.
        Ends-and_then us (whites st us) (whites st us) (go id [] st) (visit_all go ids)
          (v id [] st (sub id (inl refl)) w h)
          (λ st' le.
            Ends-le us (whites st' us) (whites st us) (visit_all go ids st') le
              (visit_all-Ends us f go ids st' v (λ e m. sub e (inr m)) (omega arith))))
      (λ g. visit_all-Ends us f go ids st v (λ e m. sub e (inr m)) h)
      (λ b. visit_all-Ends us f go ids st v (λ e m. sub e (inr m)) h)

Member-append_left : (d : String) (xs ys : List String) → Member d xs → Member d (xs ++ ys)
Member-append_left d [] ys m = absurd m
Member-append_left d (x ∷ xs) ys (inl e) = inl e
Member-append_left d (x ∷ xs) ys (inr m) = inr (Member-append_left d xs ys m)

Member-append_right : (d : String) (xs ys : List String) → Member d ys → Member d (xs ++ ys)
Member-append_right d [] ys m = m
Member-append_right d (x ∷ xs) ys m = inr (Member-append_right d xs ys m)

keys-named : (g : Graph) (d : String) → Member d (keys g) → Member d (named g)
unfolding keys named
keys-named [] d m = m
keys-named ((id, ds) ∷ g) d (inl e) = inl e
keys-named ((id, ds) ∷ g) d (inr m) = inr (Member-append_right d ds (named g) (keys-named g d m))

abbrev listed : Option (List String) → List String
listed o = elim o as (λ _. List String) [ none ↦ [] | some l ↦ l ]

named-Closed : (g : Graph) → Closed g (named g)
unfolding deps lookup named
named-Closed [] id d m = m
named-Closed ((j, ds) ∷ g) id d m = elim (Bool-cases (j == id)) [
  | inl p ↦ inr (
      Member-append_left d ds (named g)
        (subst (λ b. Member d (listed (if b then some ds else lookup id g))) p m))
  | inr p ↦ inr (
      Member-append_right d ds (named g) (
        named-Closed g id d
          (subst (λ b. Member d (listed (if b then some ds else lookup id g))) p m)))
]

whites_le : (st : Colours) (us : List String) → whites st us ≤ length us
unfolding whites
whites_le st [] = omega arith
whites_le st (u ∷ us) = elim (Colour-cases (colour_of st u)) [
  | inl w ↦ rw w (omega (arith, whites_le st us))
  | inr (inl g) ↦ rw g (omega (arith, whites_le st us))
  | inr (inr b) ↦ rw b (omega (arith, whites_le st us))
]

Ends-ne : (us : List String) (n : ℕ) (s : Search) → Ends us n s → s ≢ out_of_fuel
Ends-ne us n (cycle f) h = λ p. cc
Ends-ne us n (done st) h = λ p. cc
Ends-ne us n out_of_fuel h = absurd h

pub search_graph-ends : (g : Graph) → search_graph g ≢ out_of_fuel
unfolding search_graph
search_graph-ends g = Ends-ne (named g) (whites [] (named g)) (search_graph g) (
    visit_all-Ends (named g) (suc (length (named g))) (dfs (suc (length (named g))) g) (keys g) []
      (dfs-Visits (suc (length (named g))) g (named g) (named-Closed g)) (keys-named g)
      (omega (arith, whites_le [] (named g))))
