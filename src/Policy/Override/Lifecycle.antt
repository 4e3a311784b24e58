-- ===== src/Policy/Override/Lifecycle.antt =====
-- An override that was used, revoked or expired stays so.
use forge_eng_fabric.Prelude.{
  ℕ, ◌<◌, ◌≡◌, ◌≢◌, refl, sym, ap, ◌∙◌, inl, inr, String, true, false, List, [], ◌∷◌, Option, none,
  some, ◌==◌, string_eq, eq_iff, Bool-cases, Option-cases, arith, if◌then◌else◌,
}
use forge_eng_fabric.Prelude.Assoc.{lookup, insert, lookup-insert_self, lookup-insert_ne}
use forge_eng_fabric.Policy.Override.Types.{
  Template, is_active_state, Override, Manager, GrantInput, Error, already_terminated,
  override_not_found, Result, ok, err,
}
use forge_eng_fabric.Policy.Override.{
  check_grant, grant_with, grant, as_consumed, consume_found, consume, revoke_found, revoke, is_due,
  as_expired, expire_all, reconcile_expired,
}

-- A call of the manager, and the time at which it is made.
pub data Call : Type 0 where
  grants : GrantInput → Call
  consumes : String → String → Call
  revokes : String → String → String → Call
  reconciles : Call

abbrev pub step : (ℕ → String) → Manager → Call × ℕ → Manager
step uuid m (grants input, now) = (grant uuid m input now).0
step uuid m (consumes id by, now) = (consume m id by now).0
step uuid m (revokes id by reason, now) = (revoke m id by reason now).0
step uuid m (reconciles, now) = (reconcile_expired m now).0

abbrev pub run : (ℕ → String) → Manager → List (Call × ℕ) → Manager
run uuid m [] = m
run uuid m (c ∷ cs) = run uuid (step uuid m c) cs

-- What the loop of the reconciler makes of one override.
abbrev pub reconciled : ℕ → Override → Override
reconciled now ov = if is_due now ov then as_expired ov else ov

abbrev map_some : (Override → Override) → Option Override → Option Override
map_some f none = none
map_some f (some ov) = some (f ov)

pub lookup-expire_all :
    (now : ℕ) (id : String) (l : List (String × Override))
    → lookup id (expire_all now l) ≡ map_some (reconciled now) (lookup id l)
unfolding expire_all lookup
lookup-expire_all now id [] = refl
lookup-expire_all now id ((k, ov) ∷ l) = elim (Bool-cases (k == id)) [
  | inl h ↦ rw h refl
  | inr h ↦ rw h (lookup-expire_all now id l)
]

-- The override of an identifier that was drawn, and that is not active any more.
pub record IsTerminated (uuid : ℕ → String) (k : ℕ) (ov : Override) (m : Manager) : Type 0 where
  pub drawn : k < m.ids
  pub entry : lookup (uuid k) m.overrides ≡ some ov
  pub over : is_active_state ov.state ≡ false

clash :
    (v ov : Override)
    → some v ≡ some ov
    → is_active_state v.state ≡ true
    → is_active_state ov.state ≡ false
    → ⊥
clash v ov e live over =
    let same : v ≡ ov = cc in
    let both : is_active_state v.state ≡ is_active_state ov.state =
      ap (λ (o : Override). is_active_state o.state) same in
    cc

module _ (uuid : ℕ → String) (fresh : (a b : ℕ) → uuid a ≡ uuid b → a ≡ b) (k : ℕ)
    (ov : Override) where
  other_key : (n : ℕ) → k < n → (uuid n == uuid k) ≡ false
  other_key n h = elim (Bool-cases (uuid n == uuid k)) [
    | inl e ↦ absurd (let same : n ≡ k = fresh n k ((eq_iff (uuid n) (uuid k)).0 e) in omega arith)
    | inr e ↦ e
  ]

  -- A write to an active override is a write to another one.
  insert-IsTerminated :
      (m : Manager) (id : String) (v w : Override)
      → lookup id m.overrides ≡ some v
      → is_active_state v.state ≡ true
      → IsTerminated uuid k ov m
      → lookup (uuid k) (insert id w m.overrides) ≡ some ov
  insert-IsTerminated m id v w e live h = elim (Bool-cases (id == uuid k)) [
    | inl same ↦ absurd (
        clash v ov (sym e ∙ ap (λ i. lookup i m.overrides) ((eq_iff id (uuid k)).0 same) ∙ h.entry)
          live h.over)
    | inr differs ↦ lookup-insert_ne id (uuid k) w m.overrides differs ∙ h.entry
  ]

  grant_with-IsTerminated :
      (m : Manager) (input : GrantInput) (now : ℕ) (o : Option Template)
      → IsTerminated uuid k ov m
      → IsTerminated uuid k ov (grant_with uuid m input now o).0
  unfolding grant_with
  grant_with-IsTerminated m input now none h = h
  grant_with-IsTerminated m input now (some tpl) h = elim (Option-cases (check_grant tpl input)) [
    | inl e ↦
        rw (e, grant_with)
          (record {
            drawn = omega (arith, h.drawn);
            entry = lookup-insert_ne _ (uuid k) _ m.overrides (other_key m.ids h.drawn) ∙ h.entry;
            over = h.over;
          })
    | inr (x, e) ↦ rw (e, grant_with) h
  ]

  grant-IsTerminated :
      (m : Manager) (input : GrantInput) (now : ℕ)
      → IsTerminated uuid k ov m
      → IsTerminated uuid k ov (grant uuid m input now).0
  unfolding grant
  grant-IsTerminated m input now h =
      grant_with-IsTerminated m input now (lookup input.template_id m.templates) h

  consume_found-IsTerminated :
      (m : Manager) (id by : String) (now : ℕ) (o : Option Override)
      → lookup id m.overrides ≡ o
      → IsTerminated uuid k ov m
      → IsTerminated uuid k ov (consume_found m id by now o).0
  unfolding consume_found
  consume_found-IsTerminated m id by now none e h = h
  consume_found-IsTerminated m id by now (some v) e h =
      elim (Bool-cases (is_active_state v.state)) [
        | inl live ↦ rw live (record {
          drawn = h.drawn;
          entry = insert-IsTerminated m id v (as_consumed v by now) e live h;
          over = h.over;
        })
        | inr over ↦ rw over h
      ]

  consume-IsTerminated :
      (m : Manager) (id by : String) (now : ℕ)
      → IsTerminated uuid k ov m
      → IsTerminated uuid k ov (consume m id by now).0
  unfolding consume
  consume-IsTerminated m id by now h =
      consume_found-IsTerminated m id by now (lookup id m.overrides) refl h

  revoke_found-IsTerminated :
      (m : Manager) (id by reason : String) (now : ℕ) (o : Option Override)
      → lookup id m.overrides ≡ o
      → IsTerminated uuid k ov m
      → IsTerminated uuid k ov (revoke_found m id by reason now o).0
  unfolding revoke_found
  revoke_found-IsTerminated m id by reason now none e h = h
  revoke_found-IsTerminated m id by reason now (some v) e h =
      elim (Bool-cases (is_active_state v.state)) [
        | inl live ↦ rw live (record {
          drawn = h.drawn;
          entry = insert-IsTerminated m id v _ e live h;
          over = h.over;
        })
        | inr over ↦ rw over h
      ]

  revoke-IsTerminated :
      (m : Manager) (id by reason : String) (now : ℕ)
      → IsTerminated uuid k ov m
      → IsTerminated uuid k ov (revoke m id by reason now).0
  unfolding revoke
  revoke-IsTerminated m id by reason now h =
      revoke_found-IsTerminated m id by reason now (lookup id m.overrides) refl h

  reconcile-IsTerminated :
      (m : Manager) (now : ℕ)
      → IsTerminated uuid k ov m
      → IsTerminated uuid k ov (reconcile_expired m now).0
  unfolding reconcile_expired
  reconcile-IsTerminated m now h = record {
    drawn = h.drawn;
    entry = lookup-expire_all now (uuid k) m.overrides ∙ rw h.entry (rw h.over refl);
    over = h.over;
  }

  step-IsTerminated :
      (m : Manager) (c : Call × ℕ)
      → IsTerminated uuid k ov m
      → IsTerminated uuid k ov (step uuid m c)
  step-IsTerminated m (grants input, now) h = grant-IsTerminated m input now h
  step-IsTerminated m (consumes id by, now) h = consume-IsTerminated m id by now h
  step-IsTerminated m (revokes id by reason, now) h = revoke-IsTerminated m id by reason now h
  step-IsTerminated m (reconciles, now) h = reconcile-IsTerminated m now h

  -- Where the identifiers that are drawn are distinct, an override that was consumed, revoked or
  -- expired is the same, to every field, after any calls of the manager, whenever they are made.
  pub ended_for_good :
      (m : Manager) (calls : List (Call × ℕ))
      → IsTerminated uuid k ov m
      → IsTerminated uuid k ov (run uuid m calls)
  ended_for_good m [] h = h
  ended_for_good m (c ∷ cs) h = ended_for_good (step uuid m c) cs (step-IsTerminated m c h)

refused : (e : Error) → ◌≢◌ {A = Result (Unit {0})} (err e) (ok tt)
refused e h = cc

inactive :
    (m : Manager) (id by : String) (now : ℕ) (ov : Override)
    → is_active_state ov.state ≡ false
    → consume_found m id by now (some ov) ≡ (m, err already_terminated)
unfolding consume_found
inactive m id by now ov over = rw over refl

consume_found_ok :
    (m : Manager) (id by : String) (now : ℕ) (o : Option Override)
    → (consume_found m id by now o).1 ≡ ok tt
    → (ov : Override) × (o ≡ some ov)
      × (is_active_state ov.state ≡ true)
      × ((consume_found m id by now o).0.overrides ≡ insert id (as_consumed ov by now) m.overrides)
unfolding consume_found
consume_found_ok m id by now none h = absurd (refused override_not_found h)
consume_found_ok m id by now (some ov) h = elim (Bool-cases (is_active_state ov.state)) [
  | inl live ↦ (ov, refl, live, rw live refl)
  | inr over ↦
      absurd (refused already_terminated (sym (ap (λ p. p.1) (inactive m id by now ov over)) ∙ h))
]

consume_found_again :
    (m : Manager) (id by by' : String) (ov : Override) (now now' : ℕ) (o : Option Override)
    → o ≡ some (as_consumed ov by now)
    → consume_found m id by' now' o ≡ (m, err already_terminated)
unfolding consume_found as_consumed
consume_found_again m id by by' ov now now' o e = rw e refl

-- A call of `consume` succeeds only for an override that is stored and active. It then leaves the
-- override as consumed, by that user and at that time, and a second one is refused and changes
-- nothing.
pub consume_once :
    (m : Manager) (id by by' : String) (now now' : ℕ)
    → (consume m id by now).1 ≡ ok tt
    → (ov : Override) × (lookup id m.overrides ≡ some ov)
      × (is_active_state ov.state ≡ true)
      × (lookup id (consume m id by now).0.overrides ≡ some (as_consumed ov by now))
      × (consume (consume m id by now).0 id by' now'
          ≡ ((consume m id by now).0, err already_terminated))
unfolding consume
consume_once m id by by' now now' h =
    let (ov, e, live, after) = consume_found_ok m id by now (lookup id m.overrides) h in
    let stored : lookup id (consume m id by now).0.overrides ≡ some (as_consumed ov by now) =
      ap (λ l. lookup id l) after ∙ lookup-insert_self id (as_consumed ov by now) m.overrides in
    (
      ov,
      e,
      live,
      stored,
      consume_found_again (consume m id by now).0 id by by' ov now now' _ stored,
    )
