-- ===== src/Healing/World/Frames.antt =====
-- Rules for what a program leaves as it was: the calls that it makes of others, as far as `f` sees
-- them, and what holds of its result.
use forge_eng_fabric.Prelude.{
  ℕ, String, ◌≡◌, refl, ◌∙◌, Bool, true, false, ◌++◌, List, [], ◌∷◌, keep, if◌then◌else◌,
  keep-append, append-nil, length,
}
use forge_eng_fabric.Healing.World.{
  Content, Ask, execute, rollback, verify, create_approval, wait_approval, Reply, ok, err, Env,
  Store, World, M, pure, continue, ◌>>=◌, ◌>>◌, reply_cases, new_id, clock, read_store, write_store,
  ask, emit, track_invocation,
}

abbrev pub is_execute : Ask → Bool
is_execute (execute ref params) = true
is_execute (rollback ref params) = false
is_execute (verify id) = false
is_execute (create_approval a b) = false
is_execute (wait_approval id) = false

-- The workflows that were executed.
unfoldable pub executions : List Ask → List Ask
executions calls = keep is_execute calls

pub record Same {A : Type 0} (f : List Ask → List Ask) (m : M A) : Type 0 where
  pub at : (w : World) → f (m w).1.calls ≡ f w.calls

-- What holds of the result.
pub record Gives {A : Type 0} (Q : A → Type 0) (m : M A) : Type 0 where
  pub at : (w : World) → Q (m w).0

module _ (f : List Ask → List Ask) where
  pub Same-pure : {A : Type 0} (a : A) → Same f (pure a)
  unfolding pure
  Same-pure a = record { at = λ w. refl }

  pub Same-new_id : (env : Env) → Same f (new_id env)
  unfolding new_id
  Same-new_id env = record { at = λ w. refl }

  pub Same-clock : (env : Env) → Same f (clock env)
  unfolding clock
  Same-clock env = record { at = λ w. refl }

  pub Same-read : Same f read_store
  unfolding read_store
  Same-read = record { at = λ w. refl }

  pub Same-write : (g : Store → Store) → Same f (write_store g)
  unfolding write_store
  Same-write g = record { at = λ w. refl }

  pub Same-emit : (env : Env) (t ws s : String) (c : Content) → Same f (emit env t ws s c)
  unfolding emit
  Same-emit env t ws s c = record { at = λ w. refl }

  pub Same-track : (id : String) (now : ℕ) → Same f (track_invocation id now)
  unfolding track_invocation
  Same-track id now = record { at = λ w. refl }

  continue-Same :
      {A B : Type 0} (r : A × World) (g : A → M B) (w : World)
      → f r.1.calls ≡ f w.calls
      → ((a : A) → Same f (g a))
      → f (continue r g).1.calls ≡ f w.calls
  unfolding continue
  continue-Same (a, w') g w h k = (k a).at w' ∙ h

  pub Same-bind :
      {A B : Type 0} (m : M A) (g : A → M B)
      → Same f m
      → ((a : A) → Same f (g a))
      → Same f (m >>= g)
  unfolding ◌>>=◌
  Same-bind m g h k = record { at = λ w. continue-Same (m w) g w (h.at w) k }

  pub Same-then : {B : Type 0} (m : M (Unit {0})) (k : M B) → Same f m → Same f k → Same f (m >> k)
  unfolding ◌>>◌
  Same-then m k h j = Same-bind m (λ _. k) h (λ _. j)

  pub Same-if :
      {A : Type 0} (b : Bool) (m n : M A) → Same f m → Same f n → Same f (if b then m else n)
  Same-if true m n h k = h
  Same-if false m n h k = k

  pub Same-cases :
      {A B : Type 0} (r : Reply A) (g : String → M B) (h : A → M B)
      → ((e : String) → Same f (g e))
      → ((a : A) → Same f (h a))
      → Same f (reply_cases r g h)
  unfolding reply_cases
  Same-cases (err e) g h p q = p e
  Same-cases (ok a) g h p q = q a

-- A call that is no execution leaves the executions as they were.
pub Same-ask :
    {A : Type 0} (a : Ask) (answer : ℕ → A) → is_execute a ≡ false → Same executions (ask a answer)
unfolding ask executions keep
Same-ask a answer h = record {
  at = λ w. keep-append is_execute w.calls (a ∷ []) ∙ rw h (append-nil (keep is_execute w.calls));
}

pub Same-create :
    {A : Type 0} (a b : String) (answer : ℕ → A)
    → Same executions (ask (create_approval a b) answer)
Same-create a b answer = Same-ask (create_approval a b) answer refl

-- The same, where the answer is known to come from outside.
pub Same-ask-bind :
    {A B : Type 0} (a : Ask) (answer : ℕ → A) (g : A → M B)
    → is_execute a ≡ false
    → ((n : ℕ) → Same executions (g (answer n)))
    → Same executions (ask a answer >>= g)
unfolding ask ◌>>=◌ continue
Same-ask-bind a answer g h k = record {
  at = λ w. (k (length w.calls)).at (record w { calls = w.calls ++ a ∷ [] }) ∙ kept w;
}
  where
    kept : (w : World) → executions (w.calls ++ a ∷ []) ≡ executions w.calls
    kept w = (Same-ask a answer h).at w

module _ {B : Type 0} {Q : B → Type 0} where
  pub Gives-pure : (b : B) → Q b → Gives Q (pure b)
  unfolding pure
  Gives-pure b h = record { at = λ w. h }

  continue-Gives :
      {A : Type 0} (r : A × World) (g : A → M B) → ((a : A) → Gives Q (g a)) → Q (continue r g).0
  unfolding continue
  continue-Gives (a, w') g k = (k a).at w'

  pub Gives-bind :
      {A : Type 0} (m : M A) (g : A → M B) → ((a : A) → Gives Q (g a)) → Gives Q (m >>= g)
  unfolding ◌>>=◌
  Gives-bind m g k = record { at = λ w. continue-Gives (m w) g k }

  pub Gives-then : (m : M (Unit {0})) (k : M B) → Gives Q k → Gives Q (m >> k)
  unfolding ◌>>◌
  Gives-then m k h = Gives-bind m (λ _. k) (λ _. h)

  pub Gives-if : (b : Bool) (m n : M B) → Gives Q m → Gives Q n → Gives Q (if b then m else n)
  Gives-if true m n h k = h
  Gives-if false m n h k = k

  pub Gives-cases :
      {A : Type 0} (r : Reply A) (g : String → M B) (h : A → M B)
      → ((e : String) → Gives Q (g e))
      → ((a : A) → Gives Q (h a))
      → Gives Q (reply_cases r g h)
  unfolding reply_cases
  Gives-cases (err e) g h p q = p e
  Gives-cases (ok a) g h p q = q a

pub ruleset same_rules = (
  Same-pure, Same-new_id, Same-clock, Same-read, Same-write, Same-emit, Same-track, Same-bind,
  Same-then, Same-if, Same-cases,
)

pub ruleset gives_rules = (Gives-bind, Gives-then, Gives-if, Gives-cases)
