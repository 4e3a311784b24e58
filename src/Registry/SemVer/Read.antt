-- ===== src/Registry/SemVer/Read.antt =====
-- What ParseSemVer returns is a version.
use forge_eng_fabric.Prelude.{
  ℕ, suc, ◌≤◌, String, Bool, true, false, ◌||◌, List, [], ◌∷◌, Option, none, some, ◌≡◌, refl, sym,
  subst, inl, inr, ◌==◌, nat_eq, string_eq, Bool-cases, if◌then◌else◌, leb, arith,
}
use Prim.Native.Char.{code}
use forge_eng_fabric.Prelude.Int.{ℤ, pos, negsuc}
use forge_eng_fabric.Prelude.Split.{cut_off, split, atoi, signed, read_number, max_int}
use forge_eng_fabric.Prelude.Split.Parts.{Without, cut_off-Without_left, cut_off-Without_right}
use forge_eng_fabric.Registry.SemVer.{SemVer, is_negative, with_numbers, of_parts, parse_sem_ver}
use forge_eng_fabric.Registry.SemVer.Laws.{IsNumber, IsValid}

-- What strconv.Atoi leaves of a number that is not negative.
abbrev Fits : Option ℤ → Type 0
Fits none = Unit
Fits (some (pos n)) = n ≤ max_int
Fits (some (negsuc n)) = Unit

signed-Fits : (negative : Bool) (o : Option ℕ) → Fits (signed negative o)
unfolding signed
signed-Fits negative none = tt
signed-Fits true (some n) = elim (Bool-cases (leb n (suc max_int))) [
  | inl e ↦ rw e (elim (Bool-cases (n == 0)) [ inl z ↦ rw z (omega arith) | inr z ↦ rw z tt ])
  | inr e ↦ rw e tt
]
signed-Fits false (some n) = elim (Bool-cases (leb n max_int)) [
  | inl e ↦ rw e (ground arith)
  | inr e ↦ rw e tt
]

if-Fits : (b : Bool) (x y : Option ℤ) → Fits x → Fits y → Fits (if b then x else y)
if-Fits true x y h k = h
if-Fits false x y h k = k

atoi-Fits : (s : String) → Fits (atoi s)
unfolding atoi
atoi-Fits String.[] = tt
atoi-Fits (String.◌∷◌ c s) =
    if-Fits (code c == 45) (signed true (read_number s))
      (if code c == 43
        then signed false (read_number s)
        else signed false (read_number (String.◌∷◌ c s)))
      (signed-Fits true (read_number s))
      (if-Fits (code c == 43) (signed false (read_number s))
        (signed false (read_number (String.◌∷◌ c s))) (signed-Fits false (read_number s))
        (signed-Fits false (read_number (String.◌∷◌ c s))))

-- The numbers of a version that is read fit, and its pre-release part is the one that was cut off.
abbrev Reads : String → Option SemVer → Type 0
Reads pre none = Unit
Reads pre (some v) = IsNumber v.major × IsNumber v.minor × IsNumber v.patch × (v.pre ≡ pre)

with_numbers-Reads :
    (x y z : Option ℤ) (pre build : String)
    → Fits x
    → Fits y
    → Fits z
    → Reads pre (with_numbers x y z pre build)
unfolding with_numbers
with_numbers-Reads none y z pre build hx hy hz = tt
with_numbers-Reads (some x) none z pre build hx hy hz = tt
with_numbers-Reads (some x) (some y) none pre build hx hy hz = tt
with_numbers-Reads (some (negsuc a)) (some y) (some z) pre build hx hy hz = tt
with_numbers-Reads (some (pos a)) (some (negsuc b)) (some z) pre build hx hy hz =
    elim (Bool-cases (is_negative (pos a))) [ inl e ↦ rw e tt | inr e ↦ rw e tt ]
with_numbers-Reads (some (pos a)) (some (pos b)) (some (negsuc c)) pre build hx hy hz =
    elim (Bool-cases (is_negative (pos a) || is_negative (pos b))) [
      | inl e ↦ rw e tt
      | inr e ↦ rw e tt
    ]
with_numbers-Reads (some (pos a)) (some (pos b)) (some (pos c)) pre build hx hy hz =
    elim (Bool-cases (is_negative (pos a) || is_negative (pos b) || is_negative (pos c))) [
      | inl e ↦ rw e tt
      | inr e ↦ rw e (hx, hy, hz, refl)
    ]

of_parts-Reads : (l : List String) (pre build : String) → Reads pre (of_parts l pre build)
unfolding of_parts
of_parts-Reads [] pre build = tt
of_parts-Reads (x ∷ []) pre build = tt
of_parts-Reads (x ∷ y ∷ []) pre build = tt
of_parts-Reads (x ∷ y ∷ z ∷ []) pre build =
    with_numbers-Reads (atoi x) (atoi y) (atoi z) pre build (atoi-Fits x) (atoi-Fits y)
      (atoi-Fits z)
of_parts-Reads (x ∷ y ∷ z ∷ t ∷ r) pre build = tt

-- A version that ParseSemVer returns has numbers that fit, and no plus sign in its pre-release part.
pub parse_sem_ver-IsValid : (s : String) (v : SemVer) → parse_sem_ver s ≡ some v → IsValid v
unfolding parse_sem_ver
parse_sem_ver-IsValid s v = elim (Bool-cases (s == "")) [
  | inl e ↦ rw e (λ h. cc)
  | inr e ↦
      rw e (λ h. valid (subst (Reads pre_part) h (of_parts-Reads numbers pre_part build_part)))
]
  where
    release : String × String
    release = cut_off 43 s

    pre_part : String
    pre_part = (cut_off 45 release.0).1

    build_part : String
    build_part = release.1

    numbers : List String
    numbers = split 46 (cut_off 45 release.0).0

    valid : Reads pre_part (some v) → IsValid v
    valid (a, b, c, p) = record {
      major_fits = a;
      minor_fits = b;
      patch_fits = c;
      pre_plain =
          subst (Without 43) (sym p)
            (cut_off-Without_right 45 43 release.0 (cut_off-Without_left 43 s));
    }
