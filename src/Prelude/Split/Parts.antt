-- ===== src/Prelude/Split/Parts.antt =====
-- A text that is put together round separators is taken apart at them.
use Prim.Native.Nat.{ℕ, ◌<◌}
use Prim.Native.Char.{Char, code}
use Prim.Native.String.{String}
use mathlib.Core.Path.{◌≡◌, refl, sym, ap, subst, ◌∙◌}
use mathlib.Core.Logic.{inl, inr}
use mathlib.Core.Bool.{Bool, true, false}
use mathlib.Core.Option.{Option, none, some}
use mathlib.Core.List.{List, [], ◌∷◌}
use native.Mathlib.Omega.{arith}
use text.Mathlib.TextLemmas.{append-nil, nil-append, cons-append}
use forge_eng_fabric.Prelude.Tests.{◌==◌, nat_eq, if◌then◌else◌, Bool-cases, beq_refl}
use forge_eng_fabric.Prelude.Text.{◌+s◌}
use forge_eng_fabric.Prelude.Split.{cut, cut_off, parts, split, is_digit, decimal}
use forge_eng_fabric.Prelude.Split.Laws.{Digits, Numeral, decimal-Numeral}

-- No character of the text is the separator.
abbrev pub Without : ℕ → String → Type 0
Without sep String.[] = Unit
Without sep (String.◌∷◌ c s) = ((code c == sep) ≡ false) × Without sep s

-- A separator is not a digit.
abbrev pub Mark : ℕ → Type 0
Mark sep = sep < 48

Digits-Without : (sep : ℕ) (s : String) → Mark sep → Digits s → Without sep s
Digits-Without sep String.[] m h = tt
Digits-Without sep (String.◌∷◌ c s) m h = (other c h.0, Digits-Without sep s m h.1)
  where
    other : (c : Char) → is_digit c ≡ true → (code c == sep) ≡ false
    other c d = ground arith

pub decimal-Without : (sep n : ℕ) → Mark sep → Without sep (decimal n)
decimal-Without sep n m = of_numeral (decimal n) (decimal-Numeral n)
  where
    of_numeral : (s : String) → Numeral s → Without sep s
    of_numeral String.[] h = tt
    of_numeral (String.◌∷◌ c s) h = Digits-Without sep (String.◌∷◌ c s) m h

pub Without-append : (sep : ℕ) (s t : String) → Without sep s → Without sep t → Without sep (s +s t)
Without-append sep String.[] t h k = subst (Without sep) (sym (nil-append t)) k
Without-append sep (String.◌∷◌ c s) t h k =
    subst (Without sep) (sym (cons-append c s t)) (h.0, Without-append sep s t h.1 k)

-- What `cut_off` makes of a text with one more character in front.
abbrev longer : Bool → Char → String → String × String → String × String
longer b c s p = if b then (String.[], s) else (String.◌∷◌ c p.0, p.1)

cut_off-cons :
    (sep : ℕ) (c : Char) (s : String)
    → cut_off sep (String.◌∷◌ c s) ≡ longer (code c == sep) c s (cut_off sep s)
unfolding cut_off cut
cut_off-cons sep c s = at_rest (code c == sep) (cut sep s)
  where
    at_rest :
        (b : Bool) (o : Option (String × String))
        → (elim (if b then some (String.[], s) else (elim o as (λ _. Option (String × String)) [
          | none ↦ none
          | some (l, r) ↦ some (String.◌∷◌ c l, r)
        ]))
            as (λ _. String × String) [ none ↦ (String.◌∷◌ c s, "") | some (l, r) ↦ (l, r) ])
          ≡ longer b c s
              (elim o as (λ _. String × String) [ none ↦ (s, "") | some (l, r) ↦ (l, r) ])
    at_rest true none = refl
    at_rest true (some p) = refl
    at_rest false none = refl
    at_rest false (some (l, r)) = refl

pub cut_off-append :
    (sep : ℕ) (l r : String)
    → Without sep l
    → cut_off sep (l +s r) ≡ (l +s (cut_off sep r).0, (cut_off sep r).1)
cut_off-append sep String.[] r h =
    ap (cut_off sep) (nil-append r)
    ∙ ap (λ (t : String). (t, (cut_off sep r).1)) (sym (nil-append (cut_off sep r).0))
cut_off-append sep (String.◌∷◌ c l) r h =
    ap (cut_off sep) (cons-append c l r)
    ∙ cut_off-cons sep c (l +s r)
    ∙ ap (λ b. longer b c (l +s r) (cut_off sep (l +s r))) h.0
    ∙ ap (λ (p : String × String). (String.◌∷◌ c p.0, p.1)) (cut_off-append sep l r h.1)
    ∙ ap (λ (t : String). (t, (cut_off sep r).1)) (sym (cons-append c l (cut_off sep r).0))

pub cut_off-mark : (c : Char) (s : String) → cut_off (code c) (String.◌∷◌ c s) ≡ (String.[], s)
cut_off-mark c s =
    cut_off-cons (code c) c s ∙ ap (λ b. longer b c s (cut_off (code c) s)) (beq_refl (code c))

pub cut_off-Without_left : (sep : ℕ) (s : String) → Without sep (cut_off sep s).0
unfolding cut_off cut
cut_off-Without_left sep String.[] = tt
cut_off-Without_left sep (String.◌∷◌ c s) =
    subst (λ (p : String × String). Without sep p.0) (sym (cut_off-cons sep c s))
      (elim (Bool-cases (code c == sep)) [
        | inl e ↦ rw e tt
        | inr e ↦ rw e (e, cut_off-Without_left sep s)
      ])

pub cut_off-Without_right :
    (mark sep : ℕ) (s : String) → Without sep s → Without sep (cut_off mark s).1
unfolding cut_off cut
cut_off-Without_right mark sep String.[] h = tt
cut_off-Without_right mark sep (String.◌∷◌ c s) h =
    subst (λ (p : String × String). Without sep p.1) (sym (cut_off-cons mark c s))
      (elim (Bool-cases (code c == mark)) [
        | inl e ↦ rw e h.1
        | inr e ↦ rw e (cut_off-Without_right mark sep s h.1)
      ])

parts-append :
    (sep : ℕ) (l r : String)
    → Without sep l
    → parts sep (l +s r) ≡ (l +s (parts sep r).0, (parts sep r).1)
unfolding parts
parts-append sep String.[] r h =
    ap (parts sep) (nil-append r)
    ∙ ap (λ (t : String). (t, (parts sep r).1)) (sym (nil-append (parts sep r).0))
parts-append sep (String.◌∷◌ c l) r h =
    ap (parts sep) (cons-append c l r)
    ∙ rw h.0 (
        ap (λ (p : String × List String). (String.◌∷◌ c p.0, p.1)) (parts-append sep l r h.1)
        ∙ ap (λ (t : String). (t, (parts sep r).1)) (sym (cons-append c l (parts sep r).0)))

-- A part that ends at a separator is the first of the parts.
pub split-cons :
    (c : Char) (l r : String)
    → Without (code c) l
    → split (code c) (l +s String.◌∷◌ c r) ≡ l ∷ split (code c) r
unfolding split parts
split-cons c l r h =
    ap (λ (p : String × List String). p.0 ∷ p.1) (parts-append (code c) l (String.◌∷◌ c r) h)
    ∙ rw (beq_refl (code c)) (ap (λ t. t ∷ split (code c) r) (append-nil l))

pub split_last : (sep : ℕ) (l : String) → Without sep l → split sep l ≡ l ∷ []
unfolding split parts
split_last sep l h =
    ap (split sep) (sym (append-nil l))
    ∙ ap (λ (p : String × List String). p.0 ∷ p.1) (parts-append sep l "" h)
    ∙ ap (λ (t : String). t ∷ []) (append-nil l)
