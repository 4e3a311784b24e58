-- ===== src/Workflow/Lint/Cycles/Colours.antt =====
-- The colours after a write, and a case split on the colour of the next identifier.
use forge_eng_fabric.Prelude.{
  String, false, List, [], ◌∷◌, ◌++◌, Option, none, some, ◌≡◌, refl, ap, ◌⊎◌, inl, inr, ◌==◌,
  string_eq,
}
use forge_eng_fabric.Prelude.Assoc.{insert, lookup-insert_self, lookup-insert_ne}
use forge_eng_fabric.Workflow.Lint.Cycles.{
  Colour, white, gray, black, Colours, colour_of, Search, cycle, and_then, visit, visit_all,
  cycle_at,
}

abbrev coloured : Option Colour → Colour
coloured o = elim o as (λ _. Colour) [ none ↦ white | some c ↦ c ]

pub colour_of-insert : (id : String) (c : Colour) (st : Colours) → colour_of (insert id c st) id ≡ c
unfolding colour_of
colour_of-insert id c st = ap coloured (lookup-insert_self id c st)

pub colour_of-insert_ne :
    (id x : String) (c : Colour) (st : Colours)
    → (id == x) ≡ false
    → colour_of (insert id c st) x ≡ colour_of st x
unfolding colour_of
colour_of-insert_ne id x c st h = ap coloured (lookup-insert_ne id x c st h)

pub Colour-cases : (c : Colour) → (c ≡ white) ⊎ (c ≡ gray) ⊎ (c ≡ black)
Colour-cases white = inl refl
Colour-cases gray = inr (inl refl)
Colour-cases black = inr (inr refl)

by_colour :
    (P : Search → Type 0) (c : Colour) (x y z : Search)
    → (c ≡ white → P x)
    → (c ≡ gray → P y)
    → (c ≡ black → P z)
    → P (elim c as (λ _. Search) [ white ↦ x | gray ↦ y | black ↦ z ])
by_colour P white x y z hx hy hz = hx refl
by_colour P gray x y z hx hy hz = hy refl
by_colour P black x y z hx hy hz = hz refl

-- What holds of a visit's loop, by the colour of the dependency that is next.
pub visit_by_colour :
    (P : Search → Type 0) (go : String → List String → Colours → Search) (id : String)
    (path : List String) (d : String) (ds : List String) (st : Colours)
    → (colour_of st d ≡ white → P (and_then (go d (path ++ id ∷ []) st) (visit go id path ds)))
    → (colour_of st d ≡ gray → P (cycle (cycle_at path id d)))
    → (colour_of st d ≡ black → P (visit go id path ds st))
    → P (visit go id path (d ∷ ds) st)
unfolding visit
visit_by_colour P go id path d ds st =
    by_colour P (colour_of st d) (and_then (go d (path ++ id ∷ []) st) (visit go id path ds))
      (cycle (cycle_at path id d)) (visit go id path ds st)

pub visit_all_by_colour :
    (P : Search → Type 0) (go : String → List String → Colours → Search) (id : String)
    (ids : List String) (st : Colours)
    → (colour_of st id ≡ white → P (and_then (go id [] st) (visit_all go ids)))
    → (colour_of st id ≡ gray → P (visit_all go ids st))
    → (colour_of st id ≡ black → P (visit_all go ids st))
    → P (visit_all go (id ∷ ids) st)
unfolding visit_all
visit_all_by_colour P go id ids st =
    by_colour P (colour_of st id) (and_then (go id [] st) (visit_all go ids)) (visit_all go ids st)
      (visit_all go ids st)
