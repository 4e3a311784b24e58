-- ===== src/Healing/Promote/Laws.antt =====
-- Who may promote an action, and what a promotion stores.
use forge_eng_fabric.Prelude.{
  ◌≡◌, refl, sym, ap, ◌∙◌, subst, String, Bool, true, false, not, ◌&&◌, ◌||◌, List, Option, none,
  some, Bool-cases, inl, inr, ◌⊎◌, ◌==◌, string_eq, if◌then◌else◌, beq_refl, ◌++◌, [], ◌∷◌,
}
use forge_eng_fabric.Prelude.Assoc.{lookup, insert, lookup-insert_self}
use forge_eng_fabric.Healing.Types.{
  Level, l4, l5, level_eq, Action, PromotionRequest, Error, action_not_found,
}
use forge_eng_fabric.Healing.Level.{level_allowed, append_level, levels_in}
use forge_eng_fabric.Healing.World.{
  World, Store, Env, M, pure, continue, ◌>>=◌, ◌>>◌, read_store, write_store, emit, set_action,
}
use forge_eng_fabric.Healing.Promote.{
  get_promotion_stats, meets, or_promote, with_level, check_promotion, promote_found,
  promote_action,
}

-- The action as the store holds it allows the level in the environment.
abbrev pub AllowsIn : Store → String → String → Level → Type 0
AllowsIn s action_id environment level =
    (a : Action) × (lookup action_id s.actions ≡ some a)
    × (level_allowed (levels_in a environment) level ≡ true)

added_last : (ls : List Level) (l : Level) → level_allowed (ls ++ l ∷ []) l ≡ true
unfolding level_allowed
added_last [] l = rw (beq_refl l) refl
added_last (x ∷ ls) l = either_true (x == l) (added_last ls l)
  where
    either_true : (a : Bool) {b : Bool} → b ≡ true → (a || b) ≡ true
    either_true true h = refl
    either_true false h = h

appended : (ls : List Level) (l : Level) → level_allowed (append_level ls l) l ≡ true
unfolding append_level
appended ls l = elim (Bool-cases (level_allowed ls l)) [
  | inl h ↦ rw h h
  | inr h ↦ rw h (added_last ls l)
]

levels_in-insert :
    (a : Action) (environment : String) (ls : List Level)
    → levels_in
        (record a { allowed_levels_by_env = insert environment ls a.allowed_levels_by_env })
        environment
      ≡ ls
unfolding levels_in
levels_in-insert a environment ls =
    ap (λ (o : Option (List Level)). elim o as (λ _. List Level) [ none ↦ [] | some l ↦ l ])
      (lookup-insert_self environment ls a.allowed_levels_by_env)

allowed-with_level :
    (a : Action) (environment : String) (level : Level)
    → level_allowed (levels_in (with_level a environment level) environment) level ≡ true
unfolding with_level
allowed-with_level a environment level =
    elim (Bool-cases (level_allowed (levels_in a environment) level)) [
      | inl h ↦ rw h h
      | inr h ↦ rw h (
          rw (levels_in-insert a environment (append_level (levels_in a environment) level))
            (appended _ level))
    ]

-- What the checks of a promotion that is let through have found.
abbrev pub Entitled : PromotionRequest → Store → Type 0
Entitled req s =
    ((req.target_level ≡ l4) ⊎ (req.target_level ≡ l5))
    × (req.platform_admin_ok ≡ true)
    × (req.security_ok ≡ true)
    × (meets (get_promotion_stats req.action_id req.environment s) ≡ true)

gate :
    (b : Bool) (e : Error) (x : Option Error)
    → (if b then some e else x) ≡ none
    → (b ≡ false) × (x ≡ none)
gate true e x h = cc
gate false e x h = (refl, h)

one_listed : (a b : Bool) → (not a && not b) ≡ false → (a ≡ true) ⊎ (b ≡ true)
one_listed true b h = inl refl
one_listed false true h = inr refl
one_listed false false h = cc

both_listed : (a b : Bool) → (not a || not b) ≡ false → (a ≡ true) × (b ≡ true)
both_listed true true h = (refl, refl)
both_listed true false h = cc
both_listed false b h = cc

is_true : (a : Bool) → not a ≡ false → a ≡ true
is_true true h = refl
is_true false h = cc

known :
    (o : Option Action) (x : Action → Option Error)
    → (elim o as (λ _. Option Error) [ none ↦ some action_not_found | some a ↦ x a ]) ≡ none
    → (a : Action) × (o ≡ some a) × (x a ≡ none)
known none x h = cc
known (some a) x h = (a, refl, h)

listed_level : (l : Level) → (not (l == l4) && not (l == l5)) ≡ false → (l ≡ l4) ⊎ (l ≡ l5)
listed_level l h = elim (one_listed (l == l4) (l == l5) h) [
  | inl e ↦ inl ((level_eq.decides l l4).0 e)
  | inr e ↦ inr ((level_eq.decides l l5).0 e)
]

check_none :
    (req : PromotionRequest) (s : Store)
    → check_promotion req s ≡ none
    → Entitled req s × ((a : Action) × (lookup req.action_id s.actions ≡ some a))
unfolding check_promotion
check_none req s h =
    let g = gate _ _ _ h in
    let (a, e, g') = known (lookup req.action_id s.actions) _ g.1 in
    let g2 = gate _ _ _ g' in
    let g3 = gate _ _ _ g2.1 in
    let b = both_listed _ _ g2.0 in
    ((listed_level req.target_level g.0, b.0, b.1, is_true _ g3.0), (a, e))

found_unchanged :
    (env : Env) (req : PromotionRequest) (o : Option Action) (w : World) (e : Error)
    → (promote_found env req o w).0 ≡ some e
    → (promote_found env req o w).1 ≡ w
unfolding promote_found pure ◌>>=◌ ◌>>◌ continue write_store emit
found_unchanged env req none w e h = refl
found_unchanged env req (some a) w e h = cc

after_unchanged :
    (c : Option Error) (m : M (Option Error)) (w : World) (e : Error)
    → ((m w).0 ≡ some e → (m w).1 ≡ w)
    → (or_promote c m w).0 ≡ some e
    → (or_promote c m w).1 ≡ w
unfolding pure
after_unchanged none m w e k h = k h
after_unchanged (some x) m w e k h = refl

-- A promotion that returns an error has left the store, and everything else, as it was.
pub refused_promotion_changes_nothing :
    (env : Env) (req : PromotionRequest) (w : World) (e : Error)
    → (promote_action env req w).0 ≡ some e
    → (promote_action env req w).1 ≡ w
unfolding promote_action ◌>>=◌ continue read_store
refused_promotion_changes_nothing env req w e h =
    after_unchanged (check_promotion req w.store) _ w e (found_unchanged env req _ w e) h

passed_checks :
    (c : Option Error) (m : M (Option Error)) (w : World)
    → (or_promote c m w).0 ≡ none
    → (c ≡ none) × (or_promote c m w ≡ m w)
unfolding pure
passed_checks none m w h = (refl, refl)
passed_checks (some x) m w h = cc

same_id :
    (a : Action) (environment : String) (level : Level) → (with_level a environment level).id ≡ a.id
unfolding with_level
same_id a environment level = elim (Bool-cases (level_allowed (levels_in a environment) level)) [
  | inl h ↦ rw h refl
  | inr h ↦ rw h refl
]

pub some_injective : (a b : Action) → some a ≡ some b → a ≡ b
some_injective a b h = cc

stored_allows :
    (env : Env) (req : PromotionRequest) (o : Option Action) (w : World) (a : Action)
    → o ≡ some a
    → a.id ≡ req.action_id
    → AllowsIn (promote_found env req o w).1.store req.action_id req.environment req.target_level
unfolding promote_found pure ◌>>=◌ ◌>>◌ continue write_store emit set_action
stored_allows env req none w a h k = cc
stored_allows env req (some b) w a h k =
    let new : Action = with_level b req.environment req.target_level in
    let id : new.id ≡ req.action_id =
      same_id b req.environment req.target_level
      ∙ ap (λ (x : Action). x.id) (some_injective b a h)
      ∙ k in
    (
      new,
      subst (λ i. lookup i (insert new.id new w.store.actions) ≡ some new) id
          (lookup-insert_self new.id new w.store.actions),
      allowed-with_level b req.environment req.target_level,
    )

-- A promotion that succeeds was for L4 or L5, both approvals were given, and the prerequisites were
-- met; and where the action is stored under its own identifier, it now allows the level.
pub promotion_needs_approvals :
    (env : Env) (req : PromotionRequest) (w : World)
    → (promote_action env req w).0 ≡ none
    → ((a : Action) → lookup req.action_id w.store.actions ≡ some a → a.id ≡ req.action_id)
    → Entitled req w.store
      × AllowsIn (promote_action env req w).1.store req.action_id req.environment req.target_level
unfolding promote_action ◌>>=◌ continue read_store
promotion_needs_approvals env req w h ids =
    let p =
      passed_checks (check_promotion req w.store)
        (promote_found env req (lookup req.action_id w.store.actions)) w h in
    let (q, (a, e)) = check_none req w.store p.0 in
    (
      q,
      subst
          (λ (r : Option Error × World).
            AllowsIn r.1.store req.action_id req.environment req.target_level)
          (sym p.1) (stored_allows env req (lookup req.action_id w.store.actions) w a e (ids a e)),
    )
