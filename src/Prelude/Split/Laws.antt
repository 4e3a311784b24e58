-- ===== src/Prelude/Split/Laws.antt =====
-- What printing leaves, reading finds: numbers and the parts of a text round a separator.
use Prim.Native.Nat.{ℕ, zero, suc, ◌+◌, ◌-◌, ◌*◌, ◌/◌, ◌%◌, ◌≤◌, ◌<◌}
use Prim.Native.Char.{Char, code}
use Prim.Native.String.{String}
use mathlib.Core.Path.{◌≡◌, refl, sym, ap, subst, ◌∙◌}
use mathlib.Core.Logic.{inl, inr}
use mathlib.Core.Bool.{Bool, true, false, ◌&&◌}
use mathlib.Core.Option.{none, some}
use native.Mathlib.Omega.{arith}
use text.Mathlib.TextLemmas.{append_assoc, append-nil, nil-append, cons-append}
use forge_eng_fabric.Prelude.Tests.{ltb, leb, ◌==◌, nat_eq, nat_beq_iff, if◌then◌else◌, Bool-cases}
use forge_eng_fabric.Prelude.Text.{◌+s◌}
use forge_eng_fabric.Prelude.Int.{pos}
use forge_eng_fabric.Prelude.Split.{
  digit, digits, decimal, is_digit, read_digits, read_number, max_int, signed, atoi,
}

abbrev pub Digits : String → Type 0
Digits String.[] = Unit
Digits (String.◌∷◌ c s) = (is_digit c ≡ true) × Digits s

-- One digit at least, and nothing else.
abbrev pub Numeral : String → Type 0
Numeral String.[] = ⊥
Numeral (String.◌∷◌ c s) = (is_digit c ≡ true) × Digits s

Digits-append : (s t : String) → Digits s → Digits t → Digits (s +s t)
Digits-append String.[] t h k = subst Digits (sym (nil-append t)) k
Digits-append (String.◌∷◌ c s) t h k =
    subst Digits (sym (cons-append c s t)) (h.0, Digits-append s t h.1 k)

Numeral-append : (s t : String) → Numeral s → Digits t → Numeral (s +s t)
Numeral-append String.[] t h k = absurd h
Numeral-append (String.◌∷◌ c s) t h k =
    subst Numeral (sym (cons-append c s t)) (h.0, Digits-append s t h.1 k)

one-append : (c : Char) (s : String) → String.◌∷◌ c String.[] +s s ≡ String.◌∷◌ c s
one-append c s = cons-append c String.[] s ∙ ap (String.◌∷◌ c) (nil-append s)

all_below : ℕ → (ℕ → Bool) → Bool
all_below zero p = true
all_below (suc n) p = p n && all_below n p

all_below-lt : (n : ℕ) (p : ℕ → Bool) (x : ℕ) → all_below n p ≡ true → x < n → p x ≡ true
unfolding all_below
all_below-lt zero p x h lt = absurd (omega arith)
all_below-lt (suc n) p x h lt = ground (arith, all_below-lt n p x)

code-digit : (d : ℕ) → d < 10 → code (digit d) ≡ 48 + d
unfolding all_below
code-digit d h =
    (nat_beq_iff (code (digit d)) (48 + d)).0
      (all_below-lt 10 (λ x. code (digit x) == 48 + x) d refl h)

is_digit-digit : (d : ℕ) → d < 10 → is_digit (digit d) ≡ true
unfolding all_below
is_digit-digit d h = all_below-lt 10 (λ x. is_digit (digit x)) d refl h

digits-Numeral : (f n : ℕ) → n < f → Numeral (digits f n)
unfolding digits
digits-Numeral zero n h = absurd (omega arith)
digits-Numeral (suc f) n h = elim (Bool-cases (ltb n 10)) [
  | inl p ↦ rw p (is_digit-digit n (ground arith), tt)
  | inr p ↦ rw p (
      Numeral-append (digits f (n / 10)) (String.◌∷◌ (digit (n % 10)) String.[])
        (digits-Numeral f (n / 10) (ground arith)) (is_digit-digit (n % 10) (omega arith), tt))
]

read_one :
    (acc d : ℕ) (s : String)
    → d < 10
    → read_digits acc (String.◌∷◌ (digit d) s) ≡ read_digits (acc * 10 + d) s
unfolding read_digits
read_one acc d s h = rw (is_digit-digit d h) (
    ap (λ (c : ℕ). read_digits (acc * 10 + (c - 48)) s) (code-digit d h)
    ∙ ap (λ (c : ℕ). read_digits (acc * 10 + c) s) (omega arith))

read_digits-digits :
    (f n : ℕ) (s : String) → n < f → read_digits 0 (digits f n +s s) ≡ read_digits n s
unfolding digits
read_digits-digits zero n s h = absurd (omega arith)
read_digits-digits (suc f) n s h = elim (Bool-cases (ltb n 10)) [
  | inl p ↦ rw p (
      ap (read_digits 0) (one-append (digit n) s)
      ∙ read_one 0 n s (ground arith)
      ∙ ap (λ (c : ℕ). read_digits c s) (omega arith))
  | inr p ↦ rw p (
      ap (read_digits 0) (
        append_assoc (digits f (n / 10)) (String.◌∷◌ (digit (n % 10)) String.[]) s
        ∙ ap (λ t. digits f (n / 10) +s t) (one-append (digit (n % 10)) s))
      ∙ read_digits-digits f (n / 10) (String.◌∷◌ (digit (n % 10)) s) (ground arith)
      ∙ read_one (n / 10) (n % 10) s (omega arith)
      ∙ ap (λ (c : ℕ). read_digits c s) (omega arith))
]

pub decimal-Numeral : (n : ℕ) → Numeral (decimal n)
unfolding decimal
decimal-Numeral n = digits-Numeral (suc n) n (omega arith)

atoi-Numeral : (s : String) → Numeral s → atoi s ≡ signed false (read_digits 0 s)
unfolding atoi read_number
atoi-Numeral String.[] h = absurd h
atoi-Numeral (String.◌∷◌ c s) h = elim (Bool-cases (code c == 45)) [
  | inl p ↦ absurd (ground (arith, h.0, p))
  | inr p ↦ rw p (elim (Bool-cases (code c == 43)) [
    | inl q ↦ absurd (ground (arith, h.0, q))
    | inr q ↦ rw q refl
  ])
]

pub atoi-decimal : (n : ℕ) → n ≤ max_int → atoi (decimal n) ≡ some (pos n)
unfolding decimal signed read_digits
atoi-decimal n h =
    atoi-Numeral (decimal n) (decimal-Numeral n)
    ∙ ap (signed false) (
        ap (read_digits 0) (sym (append-nil (digits (suc n) n)))
        ∙ read_digits-digits (suc n) n "" (omega arith))
    ∙ within n h
  where
    within : (n : ℕ) → n ≤ max_int → (if leb n max_int then some (pos n) else none) ≡ some (pos n)
    within n h = ground arith
