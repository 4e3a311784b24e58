-- ===== src/Registry/Diff/Lost.antt =====
-- What is in one list and is missing from another is found by the comparison of their indexes.
use forge_eng_fabric.Prelude.{
  String, Bool, true, false, ◌||◌, List, [], ◌∷◌, none, some, ◌≡◌, refl, sym, subst, ◌∙◌, inl, inr,
  Member, ◌==◌, string_eq, if◌then◌else◌, Bool-cases, any,
}
use forge_eng_fabric.Prelude.Assoc.{lookup, insert, lookup-insert_self, lookup-insert_ne}
use forge_eng_fabric.Registry.Diff.Marks.{DiffResult, each, index_by}
use forge_eng_fabric.Registry.Diff.Keeps.{IsMajor, Keeps, each-IsMajor}

-- Of a list there is an element with the key, and of another there is none.
pub record Loses {A : Type 0} (key : A → String) (name : String) (prev next : List A) : Type 0 where
  pub had : any (λ x. key x == name) prev ≡ true
  pub lost : any (λ x. key x == name) next ≡ false

or_false : (a b : Bool) → (a || b) ≡ false → (a ≡ false) × (b ≡ false)
or_false true b h = cc
or_false false b h = (refl, h)

lookup-Member :
    {V : Type 0} (k : String) (v : V) (m : List (String × V))
    → lookup k m ≡ some v
    → Member (k, v) m
unfolding lookup
lookup-Member k v [] h = cc
lookup-Member k v ((j, w) ∷ m) h = elim (Bool-cases (j == k)) [
  | inl e ↦
      let w_is_v : w ≡ v = (cc (subst (λ b. (if b then some w else lookup k m) ≡ some v) e h)) in
      inl (λ i. (sym ((string_eq.decides j k).0 e) i, sym w_is_v i))
  | inr e ↦ inr (lookup-Member k v m (subst (λ b. (if b then some w else lookup k m) ≡ some v) e h))
]

module _ {A : Type 0} (key : A → String) (name : String) where
  index_by-absent :
      (xs : List A) (m : List (String × A))
      → any (λ x. key x == name) xs ≡ false
      → lookup name (index_by key xs m) ≡ lookup name m
  unfolding index_by
  index_by-absent [] m h = refl
  index_by-absent (x ∷ xs) m h =
      let both = or_false (key x == name) (any (λ y. key y == name) xs) h in
      index_by-absent xs (insert (key x) x m) both.1 ∙ lookup-insert_ne (key x) name x m both.0

  Found : List (String × A) → Type 0
  Found m = (v : A) × (lookup name m ≡ some v)

  Found-insert : (x : A) (m : List (String × A)) → Found m → Found (insert (key x) x m)
  unfolding Found
  Found-insert x m (v, h) = elim (Bool-cases (key x == name)) [
    | inl e ↦ (
      x,
      subst (λ k. lookup k (insert (key x) x m) ≡ some x) ((string_eq.decides (key x) name).0 e)
          (lookup-insert_self (key x) x m),
    )
    | inr e ↦ (v, lookup-insert_ne (key x) name x m e ∙ h)
  ]

  index_by-Found_old : (xs : List A) (m : List (String × A)) → Found m → Found (index_by key xs m)
  unfolding index_by
  index_by-Found_old [] m f = f
  index_by-Found_old (x ∷ xs) m f = index_by-Found_old xs (insert (key x) x m) (Found-insert x m f)

  index_by-Found :
      (xs : List A) (m : List (String × A))
      → any (λ x. key x == name) xs ≡ true
      → Found (index_by key xs m)
  unfolding index_by Found
  index_by-Found [] m h = cc
  index_by-Found (x ∷ xs) m h = elim (Bool-cases (key x == name)) [
    | inl e ↦ index_by-Found_old xs (insert (key x) x m) (
      x,
      subst (λ k. lookup k (insert (key x) x m) ≡ some x) ((string_eq.decides (key x) name).0 e)
          (lookup-insert_self (key x) x m),
    )
    | inr e ↦
        index_by-Found xs (insert (key x) x m)
          (subst (λ b. (b || any (λ y. key y == name) xs) ≡ true) e h)
  ]

  -- A comparison that is breaking for an absent key finds the key that is lost.
  pub lost_entry :
      (body : List (String × A) → String × A → DiffResult → DiffResult)
      → ((next : List (String × A)) (e : String × A) → Keeps (body next e))
      → ((next : List (String × A)) (v : A) (d : DiffResult)
          → lookup name next ≡ none
          → IsMajor (body next (name, v) d))
      → (prev next : List A) → Loses key name prev next
      → (d : DiffResult) → IsMajor (each (body (index_by key next [])) (index_by key prev []) d)
  unfolding Found lookup
  lost_entry body keeps major prev next l d =
      let found = index_by-Found prev [] l.had in
      each-IsMajor (body (index_by key next [])) (keeps (index_by key next [])) (name, found.0)
        (λ d'. major (index_by key next []) found.0 d' (index_by-absent next [] l.lost))
        (index_by key prev []) (lookup-Member name found.0 (index_by key prev []) found.1) d
