-- ===== src/Prelude/State.antt =====
-- Programs over a state that the calls share, and rules for what a program leaves as it was.
use mathlib.Core.Path.{◌≡◌, refl, ◌∙◌}
use mathlib.Core.Bool.{Bool, true, false}
use forge_eng_fabric.Prelude.Tests.{if◌then◌else◌}

abbrev pub State : Type 0 → Type 0 → Type 0
State W A = W → A × W

module _ {W : Type 0} where
  unfoldable pub pure : {A : Type 0} → A → State W A
  pure a w = (a, w)

  unfoldable pub continue : {A B : Type 0} → A × W → (A → State W B) → B × W
  continue (a, w) f = f a w

  unfoldable pub bind : {A B : Type 0} → State W A → (A → State W B) → State W B
  bind m f w = continue (m w) f

  unfoldable pub get : State W W
  get w = (w, w)

  unfoldable pub modify : (W → W) → State W (Unit {0})
  modify f w = (tt, f w)

infixl 5 ◌>>=◌ ◌>>◌
abbrev pub ◌>>=◌ : {W A B : Type 0} → State W A → (A → State W B) → State W B
m >>= f = bind m f

abbrev pub ◌>>◌ : {W B : Type 0} → State W (Unit {0}) → State W B → State W B
m >> k = bind m (λ _. k)

-- What `f` sees of the state is the same before and after.
pub record Same {W O A : Type 0} (f : W → O) (m : State W A) : Type 0 where
  pub at : (w : W) → f (m w).1 ≡ f w

-- What holds of every result.
pub record Gives {W A : Type 0} (Q : A → Type 0) (m : State W A) : Type 0 where
  pub at : (w : W) → Q (m w).0

module _ {W O : Type 0} (f : W → O) where
  pub Same-pure : {A : Type 0} (a : A) → Same f (pure a)
  unfolding pure
  Same-pure a = record { at = λ w. refl }

  pub Same-get : Same f get
  unfolding get
  Same-get = record { at = λ w. refl }

  pub Same-modify : (g : W → W) → ((w : W) → f (g w) ≡ f w) → Same f (modify g)
  unfolding modify
  Same-modify g h = record { at = h }

  continue-Same :
      {A B : Type 0} (Q : A → Type 0) (r : A × W) (g : A → State W B) (w : W)
      → Q r.0
      → f r.1 ≡ f w
      → ((a : A) → Q a → Same f (g a))
      → f (continue r g).1 ≡ f w
  unfolding continue
  continue-Same Q (a, w') g w q h k = (k a q).at w' ∙ h

  -- What follows may use what holds of the result.
  pub Same-when :
      {A B : Type 0} (Q : A → Type 0) (m : State W A) (g : A → State W B)
      → Gives Q m
      → Same f m
      → ((a : A) → Q a → Same f (g a))
      → Same f (bind m g)
  unfolding bind
  Same-when Q m g q h k = record { at = λ w. continue-Same Q (m w) g w (q.at w) (h.at w) k }

  pub Same-bind :
      {A B : Type 0} (m : State W A) (g : A → State W B)
      → Same f m
      → ((a : A) → Same f (g a))
      → Same f (bind m g)
  Same-bind m g h k = Same-when (λ _. Unit {0}) m g (record { at = λ w. tt }) h (λ a _. k a)

  pub Same-if :
      {A : Type 0} (b : Bool) (m n : State W A) → Same f m → Same f n → Same f (if b then m else n)
  Same-if true m n h k = h
  Same-if false m n h k = k

module _ {W B : Type 0} {Q : B → Type 0} where
  pub Gives-pure : (b : B) → Q b → Gives {W = W} Q (pure b)
  unfolding pure
  Gives-pure b h = record { at = λ w. h }

  continue-Gives :
      {A : Type 0} (P : A → Type 0) (r : A × W) (g : A → State W B)
      → P r.0
      → ((a : A) → P a → Gives Q (g a))
      → Q (continue r g).0
  unfolding continue
  continue-Gives P (a, w') g p k = (k a p).at w'

  pub Gives-when :
      {A : Type 0} (P : A → Type 0) (m : State W A) (g : A → State W B)
      → Gives P m
      → ((a : A) → P a → Gives Q (g a))
      → Gives Q (bind m g)
  unfolding bind
  Gives-when P m g p k = record { at = λ w. continue-Gives P (m w) g (p.at w) k }

  pub Gives-bind :
      {A : Type 0} (m : State W A) (g : A → State W B)
      → ((a : A) → Gives Q (g a))
      → Gives Q (bind m g)
  Gives-bind m g k = Gives-when (λ _. Unit {0}) m g (record { at = λ w. tt }) (λ a _. k a)

  pub Gives-if : (b : Bool) (m n : State W B) → Gives Q m → Gives Q n → Gives Q (if b then m else n)
  Gives-if true m n h k = h
  Gives-if false m n h k = k

pub ruleset same_rules = (Same-pure, Same-get, Same-bind, Same-if)

pub ruleset gives_rules = (Gives-bind, Gives-if)
