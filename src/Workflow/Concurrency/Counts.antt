-- ===== src/Workflow/Concurrency/Counts.antt =====
-- The tracker's count of a lane, and the executions that hold it.
use forge_eng_fabric.Prelude.{
  ℕ, suc, ◌-◌, ◌≡◌, refl, sym, ap, subst, ◌∙◌, beq_refl, inl, inr, false, List, [], ◌∷◌, Option,
  none, some, ltb, ◌==◌, nat_eq, if◌then◌else◌, Bool-cases, arith,
}
use forge_eng_fabric.Prelude.Assoc.{lookup, insert, lookup-insert_self, lookup-insert_ne}
use forge_eng_fabric.Workflow.Concurrency.{
  ConcurrencyKey, key_eq, Tracker, in_flight, delete, hold, release, holders, without,
}

in_flight-insert : (key : ConcurrencyKey) (n : ℕ) (t : Tracker) → in_flight key (insert key n t) ≡ n
unfolding in_flight
in_flight-insert key n t =
    ap (λ (o : Option ℕ). elim o as (λ _. ℕ) [ none ↦ 0 | some m ↦ m ]) (lookup-insert_self key n t)

in_flight-insert_ne :
    (k key : ConcurrencyKey) (n : ℕ) (t : Tracker)
    → (k == key) ≡ false
    → in_flight key (insert k n t) ≡ in_flight key t
unfolding in_flight
in_flight-insert_ne k key n t h =
    ap (λ (o : Option ℕ). elim o as (λ _. ℕ) [ none ↦ 0 | some m ↦ m ])
      (lookup-insert_ne k key n t h)

lookup-delete_self : (key : ConcurrencyKey) (t : Tracker) → lookup key (delete key t) ≡ none
unfolding delete lookup
lookup-delete_self key [] = refl
lookup-delete_self key ((k, n) ∷ t) = elim (Bool-cases (k == key)) [
  | inl h ↦ rw h (lookup-delete_self key t)
  | inr h ↦ rw h (rw h (lookup-delete_self key t))
]

lookup-delete_ne :
    (k key : ConcurrencyKey) (t : Tracker)
    → (k == key) ≡ false
    → lookup key (delete k t) ≡ lookup key t
unfolding delete lookup
lookup-delete_ne k key [] h = refl
lookup-delete_ne k key ((j, n) ∷ t) h = elim (Bool-cases (j == k)) [
  | inl p ↦ rw p (rw ((key_eq.decides j k).0 p) (rw h (lookup-delete_ne k key t h)))
  | inr p ↦
      rw p (ap (λ (r : Option ℕ). if j == key then some n else r) (lookup-delete_ne k key t h))
]

counted : Option ℕ → ℕ
counted o = elim o as (λ _. ℕ) [ none ↦ 0 | some m ↦ m ]

in_flight-delete_self : (k : ConcurrencyKey) (t : Tracker) → in_flight k (delete k t) ≡ 0
unfolding in_flight counted
in_flight-delete_self k t = ap counted (lookup-delete_self k t)

in_flight-delete_ne :
    (k key : ConcurrencyKey) (t : Tracker)
    → (k == key) ≡ false
    → in_flight key (delete k t) ≡ in_flight key t
unfolding in_flight counted
in_flight-delete_ne k key t h = ap counted (lookup-delete_ne k key t h)

abbrev lowered : ConcurrencyKey → Tracker → Tracker
lowered k t = if ltb 0 (in_flight k t) then insert k (in_flight k t - 1) t else t

lowered_self : (k : ConcurrencyKey) (t : Tracker) → in_flight k (lowered k t) ≡ in_flight k t - 1
lowered_self k t = elim (Bool-cases (ltb 0 (in_flight k t))) [
  | inl p ↦ rw p (in_flight-insert k (in_flight k t - 1) t)
  | inr p ↦ rw p (ground arith)
]

lowered_ne :
    (k key : ConcurrencyKey) (t : Tracker)
    → (k == key) ≡ false
    → in_flight key (lowered k t) ≡ in_flight key t
lowered_ne k key t h = elim (Bool-cases (ltb 0 (in_flight k t))) [
  | inl p ↦ rw p (in_flight-insert_ne k key (in_flight k t - 1) t h)
  | inr p ↦ rw p refl
]

release_self : (k : ConcurrencyKey) (t : Tracker) → in_flight k (release k t) ≡ in_flight k t - 1
unfolding release
release_self k t = elim (Bool-cases (in_flight k (lowered k t) == 0)) [
  | inl p ↦ rw p (
      in_flight-delete_self k (lowered k t)
      ∙ sym ((nat_eq.decides (in_flight k (lowered k t)) 0).0 p)
      ∙ lowered_self k t)
  | inr p ↦ rw p (lowered_self k t)
]

release_ne :
    (k key : ConcurrencyKey) (t : Tracker)
    → (k == key) ≡ false
    → in_flight key (release k t) ≡ in_flight key t
unfolding release
release_ne k key t h = elim (Bool-cases (in_flight k (lowered k t) == 0)) [
  | inl p ↦ rw p (in_flight-delete_ne k key (lowered k t) h ∙ lowered_ne k key t h)
  | inr p ↦ rw p (lowered_ne k key t h)
]

pub holders-without_self :
    (k : ConcurrencyKey) (ks : List ConcurrencyKey) → holders k (without k ks) ≡ holders k ks - 1
unfolding holders without
holders-without_self k [] = refl
holders-without_self k (j ∷ ks) = elim (Bool-cases (j == k)) [
  | inl p ↦ rw p (omega arith)
  | inr p ↦ rw p (rw p (holders-without_self k ks))
]

pub holders-without_ne :
    (k key : ConcurrencyKey) (ks : List ConcurrencyKey)
    → (k == key) ≡ false
    → holders key (without k ks) ≡ holders key ks
unfolding holders without
holders-without_ne k key [] h = refl
holders-without_ne k key (j ∷ ks) h = elim (Bool-cases (j == k)) [
  | inl p ↦ rw p (rw ((key_eq.decides j k).0 p) (rw h refl))
  | inr p ↦ rw p (ap (λ n. if j == key then suc n else n) (holders-without_ne k key ks h))
]

-- The count of a lane is that of the executions that hold it.
abbrev pub Counts : Tracker → List ConcurrencyKey → Type 0
Counts t ks = (key : ConcurrencyKey) → in_flight key t ≡ holders key ks

pub hold-Counts :
    (k : ConcurrencyKey) (t : Tracker) (ks : List ConcurrencyKey)
    → Counts t ks
    → Counts (hold k t) (k ∷ ks)
unfolding hold holders
hold-Counts k t ks h key = elim (Bool-cases (k == key)) [
  | inl p ↦
      subst
        (λ j.
          in_flight j (insert k (suc (in_flight k t)) t)
          ≡ (if k == j then suc (holders j ks) else holders j ks))
        ((key_eq.decides k key).0 p)
        (in_flight-insert k (suc (in_flight k t)) t ∙ ap suc (h k) ∙ rw (beq_refl k) refl)
  | inr p ↦ rw p (in_flight-insert_ne k key (suc (in_flight k t)) t p ∙ h key)
]

pub release-Counts :
    (k : ConcurrencyKey) (t : Tracker) (ks : List ConcurrencyKey)
    → Counts t ks
    → Counts (release k t) (without k ks)
release-Counts k t ks h key = elim (Bool-cases (k == key)) [
  | inl p ↦
      subst (λ j. in_flight j (release k t) ≡ holders j (without k ks)) ((key_eq.decides k key).0 p)
        (release_self k t ∙ ap (λ n. n - 1) (h k) ∙ sym (holders-without_self k ks))
  | inr p ↦ release_ne k key t p ∙ h key ∙ sym (holders-without_ne k key ks p)
]
