-- ===== src/Healing/Level/Laws.antt =====
-- The level that is left of the one requested.
use forge_eng_fabric.Prelude.{
  ◌≤◌, ◌≡◌, refl, sym, ap, ◌∙◌, subst, inl, inr, ◌⊎◌, String, Bool, true, false, not, ◌||◌, List,
  [], ◌∷◌, ltb, ◌==◌, beq_refl, if◌then◌else◌, arith, Bool-cases,
}
use forge_eng_fabric.Healing.Types.{Level, l1, level_eq, Envelope, Action}
use forge_eng_fabric.Healing.Level.{
  level_allowed, rank, highest_from, highest_allowed, Decided, cap_by_envelope, levels_in,
  cap_by_levels, cap_by_action, decide_level,
}

or_cases : (a b : Bool) → (a || b) ≡ true → (a ≡ true) ⊎ (b ≡ true)
or_cases true b h = inl refl
or_cases false b h = inr h

or_right : (a b : Bool) → b ≡ true → (a || b) ≡ true
or_right true b h = refl
or_right false b h = h

abbrev higher : Level → Level → Level
higher a b = if ltb (rank a) (rank b) then b else a

higher_le : (a b : Level) → (rank a ≤ rank (higher a b)) × (rank b ≤ rank (higher a b))
higher_le a b = elim (Bool-cases (ltb (rank a) (rank b))) [
  | inl h ↦ rw h (ground arith)
  | inr h ↦ rw h (ground arith)
]

higher_of : (a b : Level) → (higher a b ≡ a) ⊎ (higher a b ≡ b)
higher_of a b = elim (Bool-cases (ltb (rank a) (rank b))) [
  | inl h ↦ inr (ap (λ c. if c then b else a) h)
  | inr h ↦ inl (ap (λ c. if c then b else a) h)
]

best_le : (ls : List Level) (best : Level) → rank best ≤ rank (highest_from best ls)
unfolding highest_from
best_le [] best = omega arith
best_le (l ∷ ls) best =
    let step = (higher_le best l).0 in let rest = best_le ls (higher best l) in omega arith

member_le :
    (ls : List Level) (best l : Level)
    → level_allowed ls l ≡ true
    → rank l ≤ rank (highest_from best ls)
unfolding level_allowed highest_from
member_le [] best l h = cc
member_le (x ∷ ls) best l h = elim (or_cases _ _ h) [
  | inl e ↦
      subst (λ y. rank y ≤ rank (highest_from best (x ∷ ls))) ((level_eq.decides x l).0 e)
        (let step = (higher_le best x).1 in let rest = best_le ls (higher best x) in omega arith)
  | inr k ↦ member_le ls (higher best x) l k
]

head_allowed : (x : Level) (ls : List Level) → level_allowed (x ∷ ls) x ≡ true
unfolding level_allowed
head_allowed x ls = ap (λ b. b || level_allowed ls x) (beq_refl x)

tail_allowed :
    (x y : Level) (ls : List Level) → level_allowed ls y ≡ true → level_allowed (x ∷ ls) y ≡ true
unfolding level_allowed
tail_allowed x y ls h = or_right (x == y) _ h

-- What the loop returns is the level it started with or one of the list.
abbrev pub FromList : Level → List Level → Level → Type 0
FromList best ls y = (y ≡ best) ⊎ (level_allowed ls y ≡ true)

later :
    (best x y : Level) (ls : List Level) → FromList (higher best x) ls y → FromList best (x ∷ ls) y
later best x y ls (inr k) = inr (tail_allowed x y ls k)
later best x y ls (inl e) = elim (higher_of best x) [
  | inl f ↦ inl (e ∙ f)
  | inr f ↦ inr (subst (λ z. level_allowed (x ∷ ls) z ≡ true) (sym (e ∙ f)) (head_allowed x ls))
]

one_of : (ls : List Level) (best : Level) → FromList best ls (highest_from best ls)
unfolding highest_from
one_of [] best = inl refl
one_of (x ∷ ls) best = later best x _ ls (one_of ls (higher best x))

-- The highest level of a list is no lower than any level of it, and it is one of them, or L1.
pub highest_allowed-Highest :
    (ls : List Level)
    → ((l : Level) → level_allowed ls l ≡ true → rank l ≤ rank (highest_allowed ls))
      × FromList l1 ls (highest_allowed ls)
unfolding highest_allowed
highest_allowed-Highest ls = (member_le ls l1, one_of ls l1)

if-Each :
    {A : Type 0} (P : A → Type 0) (b : Bool) (x y : A)
    → (b ≡ true → P x)
    → (b ≡ false → P y)
    → P (if b then x else y)
if-Each P true x y h k = h refl
if-Each P false x y h k = k refl

capped_of :
    (envelope : Envelope) (l : Level)
    → FromList l1 envelope.allowed_levels (cap_by_envelope envelope l).level
unfolding cap_by_envelope highest_allowed
capped_of envelope l =
    if-Each (λ (d : Decided). FromList l1 envelope.allowed_levels d.level) _ _ _ inr
      (λ _. one_of envelope.allowed_levels l1)

-- What permits a level for an action: the action's own list, or where that is empty, the envelope's.
abbrev pub Permits : List Level → List Level → Level → Type 0
Permits [] from_envelope l = FromList l1 from_envelope l
Permits (x ∷ xs) from_envelope l = FromList l1 (x ∷ xs) l

listed_of :
    (own from_envelope : List Level) (d : Decided)
    → FromList l1 from_envelope d.level
    → Permits own from_envelope (cap_by_levels own d).level
unfolding cap_by_levels highest_allowed
listed_of [] from_envelope d h = h
listed_of (x ∷ xs) from_envelope d h =
    if-Each (λ (e : Decided). FromList l1 (x ∷ xs) e.level) _ _ _ (λ _. one_of (x ∷ xs) l1)
      (λ k. inr (not_false _ k))
  where
    not_false : (b : Bool) → not b ≡ false → b ≡ true
    not_false true k = refl
    not_false false k = cc

-- The level at which an action runs is L1, or one that the action's own list for the environment
-- holds, or, where that list is missing or empty, one that the envelope allows.
pub decide_level-Permitted :
    (envelope : Envelope) (action : Action) (env : String)
    → Permits
        (levels_in action env)
        envelope.allowed_levels
        (decide_level envelope action env).level
unfolding decide_level cap_by_action
decide_level-Permitted envelope action env =
    listed_of (levels_in action env) envelope.allowed_levels _ (capped_of envelope _)
