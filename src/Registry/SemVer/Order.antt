-- ===== src/Registry/SemVer/Order.antt =====
-- The order of versions: what MinNextVersion asks for is later.
use forge_eng_fabric.Prelude.{
  ℕ, suc, ◌<◌, false, ◌≡◌, refl, inl, inr, ◌==◌, nat_eq, string_eq, Bool-cases, if◌then◌else◌, ltb,
  arith,
}
use Prim.Native.Nat.{Ordering}
use forge_eng_fabric.Prelude.Int.{ℤ, pos, negsuc, int_ltb}
use forge_eng_fabric.Prelude.Split.{max_int}
use forge_eng_fabric.Registry.SemVer.{
  SemVer, BumpKind, bump_major, bump_minor, bump_patch, cmp_int, compare_versions, increment,
  min_next_version,
}
use forge_eng_fabric.Registry.SemVer.Laws.{IsNumber, IsValid}

-- A number that can be raised by one.
abbrev pub CanGrow : ℤ → Type 0
CanGrow (pos n) = n < max_int
CanGrow (negsuc n) = ⊥

pub record CanBump (v : SemVer) : Type 0 where
  pub major_grows : CanGrow v.major
  pub minor_grows : CanGrow v.minor
  pub patch_grows : CanGrow v.patch

cmp_int_self : (x : ℤ) → CanGrow x → cmp_int x x ≡ Ordering.eq
unfolding cmp_int
cmp_int_self (pos n) h = ground arith
cmp_int_self (negsuc n) h = absurd h

pub cmp_int-increment : (x : ℤ) → CanGrow x → cmp_int x (increment x) ≡ Ordering.lt
unfolding cmp_int increment
cmp_int-increment (pos n) h = raised n (beyond n h)
  where
    beyond : (n : ℕ) → n < max_int → (n == max_int) ≡ false
    beyond n h = ground arith

    raised :
        (n : ℕ)
        → (n == max_int) ≡ false
        → (if int_ltb (pos n) (if n == max_int then negsuc max_int else pos (suc n))
            then Ordering.lt
            else if int_ltb (if n == max_int then negsuc max_int else pos (suc n)) (pos n)
            then Ordering.gt
            else Ordering.eq)
          ≡ Ordering.lt
    raised n e = rw e (below n)
      where
        below :
            (n : ℕ)
            → (if ltb n (suc n)
                then Ordering.lt
                else if ltb (suc n) n
                then Ordering.gt
                else Ordering.eq)
              ≡ Ordering.lt
        below n = ground arith
cmp_int-increment (negsuc n) h = absurd h

-- Whatever changed, the version that MinNextVersion asks for is later than the previous one, as long
-- as the previous version's numbers are not negative and below the greatest int.
pub min_next_version-lt :
    (prev : SemVer) (bump : BumpKind)
    → CanBump prev
    → compare_versions prev (min_next_version prev bump) ≡ Ordering.lt
unfolding compare_versions min_next_version
min_next_version-lt prev bump_major h = rw (cmp_int-increment prev.major h.major_grows) refl
min_next_version-lt prev bump_minor h =
    rw (cmp_int_self prev.major h.major_grows)
      (rw (cmp_int-increment prev.minor h.minor_grows) refl)
min_next_version-lt prev bump_patch h = rw (cmp_int_self prev.major h.major_grows) (
    rw (cmp_int_self prev.minor h.minor_grows)
      (rw (cmp_int-increment prev.patch h.patch_grows) refl))

increment-IsNumber : (x : ℤ) → CanGrow x → IsNumber (increment x)
unfolding increment
increment-IsNumber (pos n) h = elim (Bool-cases (n == max_int)) [
  | inl e ↦ absurd (ground arith)
  | inr e ↦ rw e (omega arith)
]
increment-IsNumber (negsuc n) h = absurd h

CanGrow-IsNumber : (x : ℤ) → CanGrow x → IsNumber x
CanGrow-IsNumber (pos n) h = omega arith
CanGrow-IsNumber (negsuc n) h = absurd h

pub min_next_version-IsValid :
    (prev : SemVer) (bump : BumpKind) → CanBump prev → IsValid (min_next_version prev bump)
unfolding min_next_version
min_next_version-IsValid prev bump_major h = record {
  major_fits = increment-IsNumber prev.major h.major_grows;
  minor_fits = omega arith;
  patch_fits = omega arith;
  pre_plain = tt;
}
min_next_version-IsValid prev bump_minor h = record {
  major_fits = CanGrow-IsNumber prev.major h.major_grows;
  minor_fits = increment-IsNumber prev.minor h.minor_grows;
  patch_fits = omega arith;
  pre_plain = tt;
}
min_next_version-IsValid prev bump_patch h = record {
  major_fits = CanGrow-IsNumber prev.major h.major_grows;
  minor_fits = CanGrow-IsNumber prev.minor h.minor_grows;
  patch_fits = increment-IsNumber prev.patch h.patch_grows;
  pre_plain = tt;
}
