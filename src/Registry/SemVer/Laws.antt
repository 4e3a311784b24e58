-- ===== src/Registry/SemVer/Laws.antt =====
-- A version that is printed is parsed back, and what is parsed is a version.
use Prim.Native.Char.{Char, code}
use Prim.Native.String.{String}
use forge_eng_fabric.Prelude.{
  ℕ, ◌≤◌, ◌<◌, false, [], ◌∷◌, Option, some, ◌≡◌, refl, sym, ap, subst, ◌∙◌, inl, inr, ◌==◌, nat_eq,
  string_eq, Bool-cases, if◌then◌else◌, ltb, arith,
}
use forge_eng_fabric.Prelude.Text.{◌+s◌}
use forge_eng_fabric.Prelude.Int.{ℤ, pos, negsuc}
use forge_eng_fabric.Prelude.Split.{cut, cut_off, split, decimal, decimal_int, max_int}
use forge_eng_fabric.Prelude.Split.Laws.{Numeral, decimal-Numeral, atoi-decimal}
use forge_eng_fabric.Prelude.Split.Parts.{
  Without, decimal-Without, cut_off-append, cut_off-mark, split-cons, split_last,
}
use forge_eng_fabric.Registry.SemVer.{SemVer, with_numbers, of_parts, parse_sem_ver, to_text}
use text.Mathlib.TextLemmas.{append-nil, nil-append, cons-append}

-- A number that is not negative and fits.
abbrev pub IsNumber : ℤ → Type 0
IsNumber (pos n) = n ≤ max_int
IsNumber (negsuc n) = ⊥

-- The numbers fit, and the pre-release part has no plus sign.
pub record IsValid (v : SemVer) : Type 0 where
  pub major_fits : IsNumber v.major
  pub minor_fits : IsNumber v.minor
  pub patch_fits : IsNumber v.patch
  pub pre_plain : Without 43 v.pre

-- A part with its mark, where it is not empty.
abbrev marked : String → String → String
marked mark s = if s == "" then "" else mark +s s

abbrev shifted : String → String × String → String × String
shifted l p = (l +s p.0, p.1)

mark-append : (c : Char) (s : String) → String.◌∷◌ c String.[] +s s ≡ String.◌∷◌ c s
mark-append c s = cons-append c String.[] s ∙ ap (String.◌∷◌ c) (nil-append s)

cut_off_empty : (sep : ℕ) → cut_off sep "" ≡ ("", "")
unfolding cut_off cut
cut_off_empty sep = refl

cut_off-marked :
    (c : Char) (s : String) → cut_off (code c) (marked (String.◌∷◌ c String.[]) s) ≡ ("", s)
cut_off-marked c s = elim (Bool-cases (s == "")) [
  | inl e ↦
      rw e
        (cut_off_empty (code c) ∙ ap (λ (t : String). ("", t)) (sym ((string_eq.decides s "").0 e)))
  | inr e ↦ rw e (ap (cut_off (code c)) (mark-append c s) ∙ cut_off-mark c s)
]

abbrev core : ℕ → ℕ → ℕ → String → String
core a b c t = decimal a +s "." +s decimal b +s "." +s decimal c +s t

core-cut :
    (sep a b c : ℕ) (t : String)
    → sep < 48
    → (46 == sep) ≡ false
    → cut_off sep (core a b c t) ≡ shifted (core a b c "") (cut_off sep t)
core-cut sep a b c t m d =
    cut_off-append sep (decimal a) ("." +s decimal b +s "." +s decimal c +s t)
      (decimal-Without sep a m)
    ∙ ap (shifted (decimal a)) (
        cut_off-append sep "." (decimal b +s "." +s decimal c +s t) (d, tt)
        ∙ ap (shifted ".") (
            cut_off-append sep (decimal b) ("." +s decimal c +s t) (decimal-Without sep b m)
            ∙ ap (shifted (decimal b)) (
                cut_off-append sep "." (decimal c +s t) (d, tt)
                ∙ ap (shifted ".") (cut_off-append sep (decimal c) t (decimal-Without sep c m)))))
    ∙ ap (λ (l : String). (l, (cut_off sep t).1)) (sym (core-append a b c (cut_off sep t).0))
  where
    core-append : (a b c : ℕ) (t : String) → core a b c "" +s t ≡ core a b c t
    core-append a b c t = simp (text.Mathlib.TextLemmas.append_assoc, append-nil)

split-core : (a b c : ℕ) → split 46 (core a b c "") ≡ decimal a ∷ decimal b ∷ decimal c ∷ []
split-core a b c =
    ap (split 46) (ap (λ t. decimal a +s t) (mark-append "." (decimal b +s "." +s decimal c +s "")))
    ∙ split-cons "." (decimal a) (decimal b +s "." +s decimal c +s "")
        (decimal-Without 46 a (omega arith))
    ∙ ap (λ l. decimal a ∷ l)
        (ap (split 46) (ap (λ t. decimal b +s t) (mark-append "." (decimal c +s "")))
          ∙ split-cons "." (decimal b) (decimal c +s "") (decimal-Without 46 b (omega arith))
          ∙ ap (λ l. decimal b ∷ l)
              (ap (split 46) (append-nil (decimal c))
                ∙ split_last 46 (decimal c) (decimal-Without 46 c (omega arith))))

not_empty : (s t : String) → Numeral s → (s +s t == "") ≡ false
not_empty String.[] t h = absurd h
not_empty (String.◌∷◌ c s) t h =
    subst (λ u. (u == "") ≡ false) (sym (cons-append c s t)) (starts c (s +s t))
  where
    starts : (c : Char) (s : String) → (String.◌∷◌ c s == "") ≡ false
    starts c s = elim (Bool-cases (String.◌∷◌ c s == "")) [
      | inl e ↦ cc ((string_eq.decides (String.◌∷◌ c s) "").0 e)
      | inr e ↦ e
    ]

abbrev of_numbers : ℕ → ℕ → ℕ → String → String → SemVer
of_numbers a b c pre build = record {
  major = pos a;
  minor = pos b;
  patch = pos c;
  pre = pre;
  build = build;
}

of_parts-decimal :
    (a b c : ℕ) (pre build : String)
    → a ≤ max_int
    → b ≤ max_int
    → c ≤ max_int
    → of_parts (decimal a ∷ decimal b ∷ decimal c ∷ []) pre build
      ≡ some (of_numbers a b c pre build)
unfolding of_parts with_numbers
of_parts-decimal a b c pre build ha hb hc = rw (atoi-decimal a ha) (
    rw (atoi-decimal b hb) (
      rw (atoi-decimal c hc)
        (rw (not_negative a) (rw (not_negative b) (rw (not_negative c) refl)))))
  where
    not_negative : (n : ℕ) → ltb n 0 ≡ false
    not_negative n = ground arith

Without-marked :
    (sep : ℕ) (c : Char) (s : String)
    → (code c == sep) ≡ false
    → Without sep s
    → Without sep (marked (String.◌∷◌ c String.[]) s)
Without-marked sep c s d h = elim (Bool-cases (s == "")) [
  | inl e ↦ rw e tt
  | inr e ↦ rw e (subst (Without sep) (sym (mark-append c s)) (d, h))
]

abbrev parse_cut : String × String → Option SemVer
parse_cut release = of_parts (split 46 (cut_off 45 release.0).0) (cut_off 45 release.0).1 release.1

parse_cut-core :
    (a b c : ℕ) (pre build : String)
    → a ≤ max_int
    → b ≤ max_int
    → c ≤ max_int
    → parse_cut (core a b c (marked "-" pre), build) ≡ some (of_numbers a b c pre build)
parse_cut-core a b c pre build ha hb hc =
    ap (λ (p : String × String). of_parts (split 46 p.0) p.1 build)
      (core-cut 45 a b c (marked "-" pre) (omega arith) refl
        ∙ ap (shifted (core a b c "")) (cut_off-marked "-" pre)
        ∙ ap (λ (t : String). (t, pre)) (append-nil (core a b c "")))
    ∙ ap (λ l. of_parts l pre build) (split-core a b c)
    ∙ of_parts-decimal a b c pre build ha hb hc

cut-release :
    (a b c : ℕ) (pre build : String)
    → Without 43 pre
    → cut_off 43 (core a b c (marked "-" pre +s marked "+" build))
      ≡ (core a b c (marked "-" pre), build)
cut-release a b c pre build h =
    core-cut 43 a b c (marked "-" pre +s marked "+" build) (omega arith) refl
    ∙ ap (shifted (core a b c "")) (
        cut_off-append 43 (marked "-" pre) (marked "+" build) (Without-marked 43 "-" pre refl h)
        ∙ ap (shifted (marked "-" pre)) (cut_off-marked "+" build)
        ∙ ap (λ (t : String). (t, build)) (append-nil (marked "-" pre)))
    ∙ ap (λ (t : String). (t, build)) (simp (text.Mathlib.TextLemmas.append_assoc, append-nil))

parse-print :
    (a b c : ℕ) (pre build : String)
    → a ≤ max_int
    → b ≤ max_int
    → c ≤ max_int
    → Without 43 pre
    → parse_sem_ver (to_text (of_numbers a b c pre build)) ≡ some (of_numbers a b c pre build)
unfolding parse_sem_ver to_text decimal_int
parse-print a b c pre build ha hb hc h =
    rw
      (not_empty (decimal a)
        ("." +s decimal b +s "." +s decimal c +s marked "-" pre +s marked "+" build)
        (decimal-Numeral a))
      (ap parse_cut (cut-release a b c pre build h) ∙ parse_cut-core a b c pre build ha hb hc)

-- The text of a version whose numbers are not negative and fit an int, and whose pre-release part has
-- no plus sign, parses to that version.
pub parse_sem_ver-to_text : (v : SemVer) → IsValid v → parse_sem_ver (to_text v) ≡ some v
parse_sem_ver-to_text v h =
    by_numbers v.major v.minor v.patch h.major_fits h.minor_fits h.patch_fits
  where
    by_numbers :
        (x y z : ℤ)
        → IsNumber x
        → IsNumber y
        → IsNumber z
        → parse_sem_ver
            (to_text (record { major = x; minor = y; patch = z; pre = v.pre; build = v.build }))
          ≡ some (record { major = x; minor = y; patch = z; pre = v.pre; build = v.build })
    by_numbers (pos a) (pos b) (pos c) ha hb hc =
        parse-print a b c v.pre v.build ha hb hc h.pre_plain
    by_numbers (pos a) (pos b) (negsuc c) ha hb hc = absurd hc
    by_numbers (pos a) (negsuc b) z ha hb hc = absurd hb
    by_numbers (negsuc a) y z ha hb hc = absurd ha
