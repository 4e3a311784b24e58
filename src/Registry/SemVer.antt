-- ===== src/Registry/SemVer.antt =====
-- semver.go.
pub mod Laws
pub mod Order
pub mod Read
pub mod Later
use Prim.Native.Nat.{Ordering}
use Prim.Native.String.{compare}
use forge_eng_fabric.Prelude.{
  ℕ, suc, ◌+◌, ◌-◌, String, Bool, true, false, not, ◌&&◌, ◌||◌, List, [], ◌∷◌, Option, none, some,
  ◌==◌, nat_eq, string_eq, if◌then◌else◌,
}
use forge_eng_fabric.Prelude.Text.{◌+s◌}
use forge_eng_fabric.Prelude.Int.{ℤ, pos, negsuc, int_ltb}
use forge_eng_fabric.Prelude.Split.{cut_off, split, atoi, decimal_int, max_int}

pub record SemVer : Type 0 where
  pub major : ℤ
  pub minor : ℤ
  pub patch : ℤ
  pub pre : String
  pub build : String

abbrev pub is_negative : ℤ → Bool
is_negative n = int_ltb n (pos 0)

-- The three numbers, with `pre` and `build`; `none` is ErrInvalidSemVer.
unfoldable pub with_numbers : Option ℤ → Option ℤ → Option ℤ → String → String → Option SemVer
with_numbers (some major) (some minor) (some patch) pre build =
    if is_negative major || is_negative minor || is_negative patch
    then none
    else some (record { major = major; minor = minor; patch = patch; pre = pre; build = build })
with_numbers _ _ _ pre build = none

unfoldable pub of_parts : List String → String → String → Option SemVer
unfolding with_numbers
of_parts (x ∷ y ∷ z ∷ []) pre build = with_numbers (atoi x) (atoi y) (atoi z) pre build
of_parts _ pre build = none

-- ParseSemVer
unfoldable pub parse_sem_ver : String → Option SemVer
unfolding of_parts cut_off
parse_sem_ver s =
    if s == ""
    then none
    else (let release = cut_off 43 s in
        let core = cut_off 45 release.0 in of_parts (split 46 core.0) core.1 release.1)

-- SemVer.String
unfoldable pub to_text : SemVer → String
to_text v =
    decimal_int v.major
    +s "."
    +s decimal_int v.minor
    +s "."
    +s decimal_int v.patch
    +s (if v.pre == "" then "" else "-" +s v.pre)
    +s (if v.build == "" then "" else "+" +s v.build)

-- The result of a comparison: -1, 0 or +1.
abbrev pub Ord : Type 0
Ord = Ordering

-- cmpInt
unfoldable pub cmp_int : ℤ → ℤ → Ord
cmp_int a b = if int_ltb a b then Ordering.lt else if int_ltb b a then Ordering.gt else Ordering.eq

abbrev pub is_lt : Ordering → Bool
is_lt Ordering.lt = true
is_lt Ordering.eq = false
is_lt Ordering.gt = false

-- The result where it is not 0, or else the next one.
abbrev pub or_next : Ord → Ord → Ord
or_next Ordering.lt next = Ordering.lt
or_next Ordering.eq next = next
or_next Ordering.gt next = Ordering.gt

unfoldable pub compare_pre : String → String → Ord
compare_pre p q =
    if p == "" && q == ""
    then Ordering.eq
    else if p == ""
    then Ordering.gt
    else if q == ""
    then Ordering.lt
    else compare p q

-- SemVer.Compare
unfoldable pub compare_versions : SemVer → SemVer → Ord
unfolding cmp_int compare_pre
compare_versions v o = or_next (cmp_int v.major o.major) (
    or_next (cmp_int v.minor o.minor) (or_next (cmp_int v.patch o.patch) (compare_pre v.pre o.pre)))

pub data BumpKind : Type 0 where
  bump_major bump_minor bump_patch : BumpKind

-- `n + 1` of an `int`, which wraps at its greatest value
unfoldable pub increment : ℤ → ℤ
increment (pos n) = if n == max_int then negsuc max_int else pos (suc n)
increment (negsuc n) = if n == 0 then pos 0 else negsuc (n - 1)

abbrev pub release_of : ℤ → ℤ → ℤ → SemVer
release_of major minor patch = record {
  major = major;
  minor = minor;
  patch = patch;
  pre = "";
  build = "";
}

-- MinNextVersion
unfoldable pub min_next_version : SemVer → BumpKind → SemVer
unfolding increment
min_next_version prev bump_major = release_of (increment prev.major) (pos 0) (pos 0)
min_next_version prev bump_minor = release_of prev.major (increment prev.minor) (pos 0)
min_next_version prev bump_patch = release_of prev.major prev.minor (increment prev.patch)
