-- ===== src/Workflow/Lint/Cycles/Loops.antt =====
-- What the search finds: a visit that is done leaves only identifiers whose dependencies end, and a
-- finding is a loop.
use forge_eng_fabric.Prelude.{
  ℕ, zero, suc, String, true, List, [], ◌∷◌, ◌++◌, ◌≡◌, ◌≢◌, refl, sym, subst, ◌∙◌, inl, inr,
  Member, ◌==◌, string_eq, Bool-cases,
}
use forge_eng_fabric.Prelude.Assoc.{insert}
use forge_eng_fabric.Workflow.Lint.Finding.{is_error}
use forge_eng_fabric.Workflow.Lint.Cycles.{
  Graph, deps, Colour, gray, black, Colours, colour_of, Search, cycle, done, out_of_fuel, and_then,
  visit, dfs, visit_all, cycle_at,
}
use forge_eng_fabric.Workflow.Lint.Cycles.Colours.{
  colour_of-insert, colour_of-insert_ne, visit_by_colour, visit_all_by_colour,
}
use mathlib.Core.WellFounded.{Acc}

-- `d` is a dependency of `id`.
abbrev pub Below : Graph → String → String → Type 0
Below g d id = Member d (deps g id)

-- From `x` the dependencies lead to `y`.
pub data Leads (g : Graph) (x : String) : String → Type 0 where
  here : Leads g x x
  on : {y z : String} → Leads g x y → Below g z y → Leads g x z

-- A dependency that leads back.
abbrev pub Loop : Graph → Type 0
Loop g = (x : String) × (d : String) × Below g d x × Leads g d x

Leads-before : (g : Graph) (x y z : String) → Below g y x → Leads g y z → Leads g x z
Leads-before g x y z r here = on here r
Leads-before g x y z r (on l s) = on (Leads-before g x y _ r l) s

-- The last step of a way that is not empty starts where the way leads.
pub no_loop :
    (g : Graph) (x : String) → Acc (Below g) x → (d : String) → Below g d x → Leads g d x → ⊥
no_loop g x (Acc.intro _ inner) d r here = no_loop g d (inner d r) d r here
no_loop g x (Acc.intro _ inner) d r (on {y = y} l s) =
    no_loop g d (inner d r) (first_of l s).0 (first_of l s).1 (on (first_of l s).2 r)
  where
    first_of : {y z : String} → Leads g d y → Below g z y → (e : String) × Below g e d × Leads g e z
    first_of here s = (_, s, here)
    first_of (on l t) s = ((first_of l t).0, (first_of l t).1, on (first_of l t).2 s)

abbrev pub BlackEnds : Graph → Colours → Type 0
BlackEnds g st = (x : String) → colour_of st x ≡ black → Acc (Below g) x

abbrev pub NoNewGray : Colours → Colours → Type 0
NoNewGray st st' = (x : String) → colour_of st' x ≡ gray → colour_of st x ≡ gray

abbrev pub GrayLeads : Graph → Colours → String → Type 0
GrayLeads g st y = (x : String) → colour_of st x ≡ gray → Leads g x y

-- What a search that starts at `st` shows, where `Q` is what a search that is done shows besides.
abbrev pub Shows : Graph → Colours → Type 0 → Search → Type 0
Shows g st Q (cycle f) = (is_error f ≡ true) × Loop g
Shows g st Q (done st') = BlackEnds g st' × NoNewGray st st' × Q
Shows g st Q out_of_fuel = Unit

Shows-and_then :
    (g : Graph) (st : Colours) (P Q : Type 0) (s : Search) (next : Colours → Search)
    → Shows g st P s
    → ((st' : Colours) → BlackEnds g st' → NoNewGray st st' → P → Shows g st' Q (next st'))
    → Shows g st Q (and_then s next)
Shows-and_then g st P Q (cycle f) next h k = h
Shows-and_then g st P Q (done st') next (b, n, p) k = weaken (next st') (k st' b n p)
  where
    weaken : (s : Search) → Shows g st' Q s → Shows g st Q s
    weaken (cycle f) h = h
    weaken (done st'') (b', n', q) = (b', λ x e. n x (n' x e), q)
    weaken out_of_fuel h = tt
Shows-and_then g st P Q out_of_fuel next h k = tt

Shows-map :
    (g : Graph) (st : Colours) (P Q : Type 0) (s : Search)
    → (P → Q)
    → Shows g st P s
    → Shows g st Q s
Shows-map g st P Q (cycle f) k h = h
Shows-map g st P Q (done st') k (b, n, p) = (b, n, k p)
Shows-map g st P Q out_of_fuel k h = tt

-- `go` is right wherever the gray identifiers lead to the one that it visits.
abbrev pub Searches : Graph → (String → List String → Colours → Search) → Type 0
Searches g go =
    (id : String) (path : List String) (st : Colours)
    → BlackEnds g st
    → GrayLeads g st id
    → Shows g st (Acc (Below g) id) (go id path st)

is_error-cycle_at : (path : List String) (id d : String) → is_error (cycle_at path id d) ≡ true
unfolding is_error cycle_at
is_error-cycle_at path id d = refl

abbrev pub AllEnd : Graph → List String → Type 0
AllEnd g ds = (d : String) → Member d ds → Acc (Below g) d

AllEnd-cons :
    (g : Graph) (d : String) (ds : List String) → Acc (Below g) d → AllEnd g ds → AllEnd g (d ∷ ds)
AllEnd-cons g d ds h k x (inl e) = subst (λ y. Acc (Below g) y) (sym e) h
AllEnd-cons g d ds h k x (inr m) = k x m

visit-Shows :
    (g : Graph) (go : String → List String → Colours → Search) (id : String) (path ds : List String)
    (st : Colours)
    → Searches g go
    → ((d : String) → Member d ds → Below g d id)
    → BlackEnds g st
    → GrayLeads g st id
    → Shows g st (AllEnd g ds) (visit go id path ds st)
unfolding visit
visit-Shows g go id path [] st s sub b l = (b, λ x e. e, λ d m. absurd m)
visit-Shows g go id path (d ∷ ds) st s sub b l =
    visit_by_colour (Shows g st (AllEnd g (d ∷ ds))) go id path d ds st
      (λ w.
        Shows-and_then g st (Acc (Below g) d) (AllEnd g (d ∷ ds)) (go d (path ++ id ∷ []) st)
          (visit go id path ds) (s d (path ++ id ∷ []) st b (λ x e. on (l x e) (sub d (inl refl))))
          (λ st' b' n a.
            Shows-map g st' (AllEnd g ds) (AllEnd g (d ∷ ds)) (visit go id path ds st')
              (AllEnd-cons g d ds a)
              (visit-Shows g go id path ds st' s (λ e m. sub e (inr m)) b' (λ x e. l x (n x e)))))
      (λ gr. (is_error-cycle_at path id d, (id, d, sub d (inl refl), l d gr)))
      (λ bl.
        Shows-map g st (AllEnd g ds) (AllEnd g (d ∷ ds)) (visit go id path ds st)
          (AllEnd-cons g d ds (b d bl))
          (visit-Shows g go id path ds st s (λ e m. sub e (inr m)) b l))

-- The colour of one identifier, after a write to another or to the same one.
split_colour :
    (P : String → Colour → Type 0) (id : String) (c : Colour) (st : Colours)
    → P id c
    → ((x : String) → P x (colour_of st x))
    → (x : String) → P x (colour_of (insert id c st) x)
split_colour P id c st h k x = elim (Bool-cases (id == x)) [
  | inl p ↦
      subst (λ y. P y (colour_of (insert id c st) y)) ((string_eq.decides id x).0 p)
        (subst (P id) (sym (colour_of-insert id c st)) h)
  | inr p ↦ subst (P x) (sym (colour_of-insert_ne id x c st p)) (k x)
]

pub dfs-Searches : (f : ℕ) (g : Graph) → Searches g (dfs f g)
unfolding dfs
dfs-Searches zero g id path st b l = tt
dfs-Searches (suc f) g id path st b l =
    finish (visit (dfs f g) id path (deps g id) (insert id gray st)) (
      visit-Shows g (dfs f g) id path (deps g id) (insert id gray st) (dfs-Searches f g) (λ d m. m)
        (split_colour (λ x c. c ≡ black → Acc (Below g) x) id gray st (λ e. cc) b)
        (split_colour (λ x c. c ≡ gray → Leads g x id) id gray st (λ e. here) l))
  where
    finish :
        (s : Search)
        → Shows g (insert id gray st) (AllEnd g (deps g id)) s
        → Shows g st (Acc (Below g) id) (and_then s (λ st'. done (insert id black st')))
    finish (cycle x) h = h
    finish (done st') (b', n, a) = (
      split_colour (λ x c. c ≡ black → Acc (Below g) x) id black st' (λ e. Acc.intro id a) b',
      λ x. split_gray x,
      Acc.intro id a,
    )
      where
        split_gray : (x : String) → colour_of (insert id black st') x ≡ gray → colour_of st x ≡ gray
        split_gray x = elim (Bool-cases (id == x)) [
          | inl p ↦
              subst (λ y. colour_of (insert id black st') y ≡ gray → colour_of st y ≡ gray)
                ((string_eq.decides id x).0 p) (λ e. cc (colour_of-insert id black st'))
          | inr p ↦ λ e.
              sym (colour_of-insert_ne id x gray st p)
              ∙ n x (sym (colour_of-insert_ne id x black st' p) ∙ e)
        ]
    finish out_of_fuel h = tt

pub visit_all-Shows :
    (g : Graph) (go : String → List String → Colours → Search) (ids : List String) (st : Colours)
    → Searches g go
    → BlackEnds g st
    → ((x : String) → colour_of st x ≢ gray)
    → Shows g st (AllEnd g ids) (visit_all go ids st)
unfolding visit_all
visit_all-Shows g go [] st s b l = (b, λ x e. e, λ d m. absurd m)
visit_all-Shows g go (id ∷ ids) st s b l =
    visit_all_by_colour (Shows g st (AllEnd g (id ∷ ids))) go id ids st
      (λ w.
        Shows-and_then g st (Acc (Below g) id) (AllEnd g (id ∷ ids)) (go id [] st)
          (visit_all go ids) (s id [] st b (λ x e. absurd (l x e)))
          (λ st' b' n a.
            Shows-map g st' (AllEnd g ids) (AllEnd g (id ∷ ids)) (visit_all go ids st')
              (AllEnd-cons g id ids a) (visit_all-Shows g go ids st' s b' (λ x e. l x (n x e)))))
      (λ gr. absurd (l id gr))
      (λ bl.
        Shows-map g st (AllEnd g ids) (AllEnd g (id ∷ ids)) (visit_all go ids st)
          (AllEnd-cons g id ids (b id bl)) (visit_all-Shows g go ids st s b l))
