-- ===== src/Sdlc/Store/Frames.antt =====
-- Rules for actions: which leave the stored initiatives alone, which never fail, which leave them
-- alone where they fail, and what holds of a result.
use forge_eng_fabric.Prelude.{
  ◌≡◌, refl, ◌∙◌, subst, if◌then◌else◌, Bool, true, false, Option, none, some, String,
}
use forge_eng_fabric.Sdlc.Types.{Initiative, Error, Result, ok, err}
use forge_eng_fabric.Sdlc.Store.{
  Env, World, M, pure, raise, continue, ◌>>=◌, ◌>>◌, or_raise, of_result, maybe, new_id, clock,
  emit, put, CloudEvent, find_initiative, update_initiative, insert_initiative,
}

-- The action leaves the stored initiatives alone.
pub record Frames {A : Type 0} (m : M A) : Type 0 where
  pub at : (w : World) → (m w).1.initiatives ≡ w.initiatives

-- The action never fails.
pub record Total {A : Type 0} (m : M A) : Type 0 where
  pub at : (w : World) → (a : A) × ((m w).0 ≡ ok a)

-- Where the action fails, it leaves the stored initiatives alone.
pub record Guarded {A : Type 0} (m : M A) : Type 0 where
  pub at : (w : World) (e : Error) → (m w).0 ≡ err e → (m w).1.initiatives ≡ w.initiatives

-- What holds of the result of an action that succeeds.
pub record Returns {A : Type 0} (Q : A → Type 0) (m : M A) : Type 0 where
  pub at : (w : World) (a : A) → (m w).0 ≡ ok a → Q a

module _ {A : Type 0} where
  pub Frames-pure : (a : A) → Frames (pure a)
  unfolding pure
  Frames-pure a = record { at = λ w. refl }

  pub Frames-raise : (e : Error) → Frames (raise {A = A} e)
  unfolding raise
  Frames-raise e = record { at = λ w. refl }

  pub Frames-or_raise : (e : Error) (o : Option A) → Frames (or_raise e o)
  unfolding or_raise pure raise
  Frames-or_raise e none = record { at = λ w. refl }
  Frames-or_raise e (some a) = record { at = λ w. refl }

  pub Frames-of_result : (r : Result A) → Frames (of_result r)
  unfolding of_result
  Frames-of_result r = record { at = λ w. refl }

  pub Total-pure : (a : A) → Total (pure a)
  unfolding pure
  Total-pure a = record { at = λ w. (a, refl) }

  pub Guarded-Frames : (m : M A) → Frames m → Guarded m
  Guarded-Frames m f = record { at = λ w e h. f.at w }

  pub Guarded-Total : (m : M A) → Total m → Guarded m
  Guarded-Total m t = record { at = λ w e h. cc ((t.at w).1) }

  pub Returns-pure : {Q : A → Type 0} (a : A) → Q a → Returns Q (pure a)
  unfolding pure
  Returns-pure {Q} a q = record { at = λ w b h. let e : a ≡ b = cc in subst Q (e) q }

  pub Frames-if : (b : Bool) (m n : M A) → Frames m → Frames n → Frames (if b then m else n)
  Frames-if true m n h k = h
  Frames-if false m n h k = k

  pub Total-if : (b : Bool) (m n : M A) → Total m → Total n → Total (if b then m else n)
  Total-if true m n h k = h
  Total-if false m n h k = k

  pub Guarded-if : (b : Bool) (m n : M A) → Guarded m → Guarded n → Guarded (if b then m else n)
  Guarded-if true m n h k = h
  Guarded-if false m n h k = k

  pub Returns-raise : {Q : A → Type 0} (e : Error) → Returns Q (raise e)
  unfolding raise
  Returns-raise e = record { at = λ w a h. cc }

module _ {A B : Type 0} where
  continue-Frames :
      (r : Result A × World) (f : A → M B) (w : World)
      → r.1.initiatives ≡ w.initiatives
      → ((a : A) → Frames (f a))
      → (continue r f).1.initiatives ≡ w.initiatives
  unfolding continue
  continue-Frames (ok a, w') f w h k = (k a).at w' ∙ h
  continue-Frames (err e, w') f w h k = h

  pub Frames-bind : (m : M A) (f : A → M B) → Frames m → ((a : A) → Frames (f a)) → Frames (m >>= f)
  unfolding ◌>>=◌
  Frames-bind m f h k = record { at = λ w. continue-Frames (m w) f w (h.at w) k }

  continue-Total :
      (r : Result A × World) (f : A → M B)
      → ((a : A) × (r.0 ≡ ok a))
      → ((a : A) → Total (f a))
      → (b : B) × ((continue r f).0 ≡ ok b)
  unfolding continue
  continue-Total (ok a, w') f h k = (k a).at w'
  continue-Total (err e, w') f h k = cc (h.1)

  pub Total-bind : (m : M A) (f : A → M B) → Total m → ((a : A) → Total (f a)) → Total (m >>= f)
  unfolding ◌>>=◌
  Total-bind m f h k = record { at = λ w. continue-Total (m w) f (h.at w) k }

  continue-Guarded :
      (r : Result A × World) (f : A → M B) (w : World) (e : Error)
      → r.1.initiatives ≡ w.initiatives
      → ((a : A) → Guarded (f a))
      → (continue r f).0 ≡ err e
      → (continue r f).1.initiatives ≡ w.initiatives
  unfolding continue
  continue-Guarded (ok a, w') f w e h k p = (k a).at w' e p ∙ h
  continue-Guarded (err e', w') f w e h k p = h

  pub Guarded-bind :
      (m : M A) (f : A → M B) → Frames m → ((a : A) → Guarded (f a)) → Guarded (m >>= f)
  unfolding ◌>>=◌
  Guarded-bind m f h k = record { at = λ w e p. continue-Guarded (m w) f w e (h.at w) k p }

  continue-Returns :
      {Q : A → Type 0} {R : B → Type 0} (r : Result A × World) (f : A → M B) (b : B)
      → ((a : A) → r.0 ≡ ok a → Q a)
      → ((a : A) → Q a → Returns R (f a))
      → (continue r f).0 ≡ ok b
      → R b
  unfolding continue
  continue-Returns (ok a, w') f b h k p = (k a (h a refl)).at w' b p
  continue-Returns (err e, w') f b h k p = cc

  pub Returns-bind :
      {Q : A → Type 0} {R : B → Type 0} (m : M A) (f : A → M B)
      → Returns Q m
      → ((a : A) → Q a → Returns R (f a))
      → Returns R (m >>= f)
  unfolding ◌>>=◌
  Returns-bind m f h k = record { at = λ w b p. continue-Returns (m w) f b (h.at w) k p }

module _ {B : Type 0} where
  pub Frames-then : (m : M (Unit {0})) (k : M B) → Frames m → Frames k → Frames (m >> k)
  unfolding ◌>>◌
  Frames-then m k h j = Frames-bind m (λ _. k) h (λ _. j)

  pub Total-then : (m : M (Unit {0})) (k : M B) → Total m → Total k → Total (m >> k)
  unfolding ◌>>◌
  Total-then m k h j = Total-bind m (λ _. k) h (λ _. j)

  pub Guarded-then : (m : M (Unit {0})) (k : M B) → Frames m → Guarded k → Guarded (m >> k)
  unfolding ◌>>◌
  Guarded-then m k h j = Guarded-bind m (λ _. k) h (λ _. j)

  pub Returns-then :
      {Q : B → Type 0} (m : M (Unit {0})) (k : M B) → Returns Q k → Returns Q (m >> k)
  unfolding ◌>>◌
  Returns-then m k j =
      Returns-bind {Q = λ _. Unit {0}} m (λ _. k) (record { at = λ w a h. tt }) (λ _ _. j)

module _ {A B : Type 0} where
  pub Frames-maybe :
      (o : Option A) (m : M B) (f : A → M B)
      → Frames m
      → ((a : A) → Frames (f a))
      → Frames (maybe o m f)
  unfolding maybe
  Frames-maybe none m f h k = h
  Frames-maybe (some a) m f h k = k a

  pub Guarded-maybe :
      (o : Option A) (m : M B) (f : A → M B)
      → Guarded m
      → ((a : A) → Guarded (f a))
      → Guarded (maybe o m f)
  unfolding maybe
  Guarded-maybe none m f h k = h
  Guarded-maybe (some a) m f h k = k a

  pub Returns-maybe :
      {Q : B → Type 0} (o : Option A) (m : M B) (f : A → M B)
      → (o ≡ none → Returns Q m)
      → ((a : A) → o ≡ some a → Returns Q (f a))
      → Returns Q (maybe o m f)
  unfolding maybe
  Returns-maybe none m f h k = h refl
  Returns-maybe (some a) m f h k = k a refl

module _ {B : Type 0} where
  pub Returns-if :
      {Q : B → Type 0} (b : Bool) (m n : M B)
      → (b ≡ true → Returns Q m)
      → (b ≡ false → Returns Q n)
      → Returns Q (if b then m else n)
  Returns-if true m n h k = h refl
  Returns-if false m n h k = k refl

  -- Nothing is asked of the result.
  pub Returns-any : (m : M B) → Returns (λ _. Unit {0}) m
  Returns-any m = record { at = λ w a h. tt }

pub Frames-new_id : (env : Env) → Frames (new_id env)
unfolding new_id
Frames-new_id env = record { at = λ w. refl }

pub Total-new_id : (env : Env) → Total (new_id env)
unfolding new_id
Total-new_id env = record { at = λ w. (env.uuid w.ids, refl) }

pub Frames-clock : (env : Env) → Frames (clock env)
unfolding clock
Frames-clock env = record { at = λ w. refl }

pub Total-clock : (env : Env) → Total (clock env)
unfolding clock
Total-clock env = record { at = λ w. (env.now w.readings, refl) }

pub Frames-emit : (event : CloudEvent) → Frames (emit event)
unfolding emit
Frames-emit event = record { at = λ w. refl }

pub Total-emit : (event : CloudEvent) → Total (emit event)
unfolding emit
Total-emit event = record { at = λ w. (tt, refl) }

pub Frames-find : (id : String) → Frames (find_initiative id)
unfolding find_initiative
Frames-find id = record { at = λ w. refl }

pub Total-put : (it : Initiative) → Total (put it)
unfolding put
Total-put it = record { at = λ w. (tt, refl) }

pub ruleset frame_rules = (
  Frames-pure, Frames-raise, Frames-or_raise, Frames-of_result, Frames-bind, Frames-then, Frames-if,
  Frames-maybe, Frames-new_id, Frames-clock, Frames-emit, Frames-find,
)

pub ruleset total_rules =
    (Total-pure, Total-bind, Total-then, Total-if, Total-new_id, Total-clock, Total-emit, Total-put)

pub Total-update : (env : Env) (it : Initiative) → Total (update_initiative env it)
unfolding update_initiative
Total-update env it = search total_rules

pub Total-insert : (env : Env) (it : Initiative) → Total (insert_initiative env it)
unfolding insert_initiative
Total-insert env it = search total_rules

pub ruleset guard_rules = (Guarded-bind, Guarded-then, Guarded-if, Guarded-maybe, Guarded-Frames)
