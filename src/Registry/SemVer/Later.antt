-- ===== src/Registry/SemVer/Later.antt =====
-- A version that is not before what MinNextVersion asks for is later than the previous one.
use forge_eng_fabric.Prelude.{
  ℕ, suc, ◌<◌, false, ◌≡◌, refl, sym, subst, inl, inr, ◌==◌, nat_eq, Bool-cases, arith,
}
use Prim.Native.Nat.{Ordering}
use forge_eng_fabric.Prelude.Int.{ℤ, pos, negsuc}
use forge_eng_fabric.Prelude.Split.{max_int}
use forge_eng_fabric.Registry.SemVer.{
  SemVer, BumpKind, bump_major, bump_minor, bump_patch, Ord, is_lt, cmp_int, or_next,
  compare_versions, increment, min_next_version, compare_pre,
}
use forge_eng_fabric.Registry.SemVer.Laws.{IsNumber, IsValid}
use forge_eng_fabric.Registry.SemVer.Order.{CanGrow, CanBump, cmp_int-increment}

increment-pos : (n : ℕ) → n < max_int → increment (pos n) ≡ pos (suc n)
unfolding increment
increment-pos n h = elim (Bool-cases (n == max_int)) [
  | inl e ↦ absurd (ground arith)
  | inr e ↦ rw e refl
]

-- A number that is not before the next one is later, whatever follows it.
past_next :
    (a x : ℕ) (rest rest' : Ord)
    → is_lt (or_next (cmp_int (pos x) (pos (suc a))) rest) ≡ false
    → or_next (cmp_int (pos a) (pos x)) rest' ≡ Ordering.lt
unfolding cmp_int
past_next a x rest rest' h = ground arith

-- A number that is not before another is later, or the same, and then what follows decides.
past_same :
    (a x : ℕ) (rest rest' : Ord)
    → (is_lt rest ≡ false → rest' ≡ Ordering.lt)
    → is_lt (or_next (cmp_int (pos x) (pos a)) rest) ≡ false
    → or_next (cmp_int (pos a) (pos x)) rest' ≡ Ordering.lt
unfolding cmp_int
past_same a x rest rest' k h = ground arith

-- Where a version is not before the one that MinNextVersion asks for, it is later than the previous
-- version.
pub later_than_previous :
    (prev v : SemVer) (bump : BumpKind)
    → CanBump prev
    → IsValid v
    → is_lt (compare_versions v (min_next_version prev bump)) ≡ false
    → compare_versions prev v ≡ Ordering.lt
unfolding compare_versions min_next_version
later_than_previous prev v bump g h =
    by_numbers prev.major prev.minor prev.patch v.major v.minor v.patch bump g.major_grows
      g.minor_grows g.patch_grows h.major_fits h.minor_fits h.patch_fits
  where
    prev_of : ℤ → ℤ → ℤ → SemVer
    prev_of x y z = record prev { major = x; minor = y; patch = z }

    v_of : ℤ → ℤ → ℤ → SemVer
    v_of x y z = record v { major = x; minor = y; patch = z }

    by_numbers :
        (a b c x y z : ℤ) (bump : BumpKind)
        → CanGrow a
        → CanGrow b
        → CanGrow c
        → IsNumber x
        → IsNumber y
        → IsNumber z
        → is_lt (compare_versions (v_of x y z) (min_next_version (prev_of a b c) bump)) ≡ false
        → compare_versions (prev_of a b c) (v_of x y z) ≡ Ordering.lt
    by_numbers (negsuc a) b c x y z bump ha hb hc hx hy hz = absurd ha
    by_numbers (pos a) (negsuc b) c x y z bump ha hb hc hx hy hz = absurd hb
    by_numbers (pos a) (pos b) (negsuc c) x y z bump ha hb hc hx hy hz = absurd hc
    by_numbers (pos a) (pos b) (pos c) (negsuc x) y z bump ha hb hc hx hy hz = absurd hx
    by_numbers (pos a) (pos b) (pos c) (pos x) (negsuc y) z bump ha hb hc hx hy hz = absurd hy
    by_numbers (pos a) (pos b) (pos c) (pos x) (pos y) (negsuc z) bump ha hb hc hx hy hz = absurd hz
    by_numbers (pos a) (pos b) (pos c) (pos x) (pos y) (pos z) bump_major ha hb hc hx hy hz =
        rw (increment-pos a ha) (past_next a x _ _)
    by_numbers (pos a) (pos b) (pos c) (pos x) (pos y) (pos z) bump_minor ha hb hc hx hy hz =
        rw (increment-pos b hb) (past_same a x _ _ (past_next b y _ _))
    by_numbers (pos a) (pos b) (pos c) (pos x) (pos y) (pos z) bump_patch ha hb hc hx hy hz =
        rw (increment-pos c hc) (past_same a x _ _ (past_same b y _ _ (past_next c z _ _)))

pub min_major-lt :
    (p q : SemVer)
    → CanBump p
    → q ≡ min_next_version p bump_major
    → cmp_int p.major q.major ≡ Ordering.lt
unfolding min_next_version
min_major-lt p q g e =
    subst (λ (u : SemVer). cmp_int p.major u.major ≡ Ordering.lt) (sym e)
      (cmp_int-increment p.major g.major_grows)

pub major_later :
    (p q : SemVer)
    → CanBump p
    → IsValid q
    → is_lt (compare_versions q (min_next_version p bump_major)) ≡ false
    → cmp_int p.major q.major ≡ Ordering.lt
unfolding compare_versions min_next_version
major_later p q g v = by_numbers p.major q.major g.major_grows v.major_fits
  where
    less :
        (a x : ℕ) (rest : Ord)
        → is_lt (or_next (cmp_int (pos x) (pos (suc a))) rest) ≡ false
        → cmp_int (pos a) (pos x) ≡ Ordering.lt
    less a x rest h = or_next-lt (cmp_int (pos a) (pos x)) (past_next a x rest Ordering.eq h)
      where
        or_next-lt : (o : Ord) → or_next o Ordering.eq ≡ Ordering.lt → o ≡ Ordering.lt
        or_next-lt Ordering.lt h = refl
        or_next-lt Ordering.eq h = cc
        or_next-lt Ordering.gt h = cc

    by_numbers :
        (a x : ℤ)
        → CanGrow a
        → IsNumber x
        → is_lt (
            compare_versions
              (record q { major = x })
              (min_next_version (record p { major = a }) bump_major))
          ≡ false
        → cmp_int a x ≡ Ordering.lt
    by_numbers (negsuc a) x ha hx = absurd ha
    by_numbers (pos a) (negsuc x) ha hx = absurd hx
    by_numbers (pos a) (pos x) ha hx = rw (increment-pos a ha) (
        less a x (
          or_next (cmp_int q.minor (pos 0))
            (or_next (cmp_int q.patch (pos 0)) (compare_pre q.pre ""))))
