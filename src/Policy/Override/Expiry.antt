-- ===== src/Policy/Override/Expiry.antt =====
-- When an override stops: the bounds that a grant sets, and the sweep of the reconciler.
use forge_eng_fabric.Prelude.{
  ℕ, ◌+◌, ◌*◌, ◌%◌, ◌≤◌, ◌<◌, ◌≡◌, refl, ap₂, inl, inr, String, true, false, ◌&&◌, ◌||◌, List, [],
  ◌∷◌, ◌==◌, string_eq, Bool-cases, arith, if◌then◌else◌, All,
}
use forge_eng_fabric.Prelude.Int.{pos, int_leb}
use forge_eng_fabric.Policy.Override.Types.{Template, Override, Manager, GrantInput}
use forge_eng_fabric.Policy.Override.{
  expiry, is_live, any_live, is_active, is_due, as_expired, expire_all, reconcile_expired,
}

-- The sweep at `now` does not change whether an override is live at a later time.
is_live-sweep :
    (template_id subject : String) (now later : ℕ) (ov : Override)
    → now ≤ later
    → is_live template_id subject later (if is_due now ov then as_expired ov else ov)
      ≡ is_live template_id subject later ov
is_live-sweep template_id subject now later ov h = elim (Bool-cases (is_due now ov)) [
  | inl due ↦ rw due (ground arith)
  | inr kept ↦ rw kept refl
]

any_live-expire_all :
    (template_id subject : String) (now later : ℕ) (l : List (String × Override))
    → now ≤ later
    → any_live template_id subject later (expire_all now l) ≡ any_live template_id subject later l
unfolding any_live expire_all
any_live-expire_all template_id subject now later [] h = refl
any_live-expire_all template_id subject now later ((k, ov) ∷ l) h =
    ap₂ (λ a b. a || b) (is_live-sweep template_id subject now later ov h)
      (any_live-expire_all template_id subject now later l h)

-- A sweep of the reconciler never changes the answer of `IsActive` at that time or later: the code
-- reads the expiry itself, so that a late sweep does not extend an override.
pub sweep_keeps_is_active :
    (m : Manager) (template_id subject : String) (now later : ℕ)
    → now ≤ later
    → is_active (reconcile_expired m now).0 template_id subject later
      ≡ is_active m template_id subject later
unfolding is_active reconcile_expired
sweep_keeps_is_active m template_id subject now later h =
    any_live-expire_all template_id subject now later m.overrides h

is_due-sweep :
    (now : ℕ) (ov : Override) → is_due now (if is_due now ov then as_expired ov else ov) ≡ false
is_due-sweep now ov = elim (Bool-cases (is_due now ov)) [
  | inl due ↦ rw due refl
  | inr kept ↦ rw (kept, kept) refl
]

abbrev pub NotDue : ℕ → String × Override → Type 0
NotDue now (k, ov) = is_due now ov ≡ false

sweep-NotDue : (now : ℕ) (l : List (String × Override)) → All (NotDue now) (expire_all now l)
unfolding expire_all
sweep-NotDue now [] = tt
sweep-NotDue now ((k, ov) ∷ l) = (is_due-sweep now ov, sweep-NotDue now l)

-- After a sweep at a time, no override is active whose expiry has come by that time.
pub sweep_leaves_none_due :
    (m : Manager) (now : ℕ) → All (NotDue now) (reconcile_expired m now).0.overrides
unfolding reconcile_expired
sweep_leaves_none_due m now = sweep-NotDue now m.overrides

-- What the checks of a grant establish.
abbrev pub Checked : Template → GrantInput → Type 0
Checked tpl input =
    (input.approver_role ≡ tpl.required_role)
    × ((n : ℕ) × (input.ttl_seconds ≡ pos n)
        × (0 < n)
        × (int_leb input.ttl_seconds tpl.max_ttl_seconds ≡ true))
    × ((tpl.requires_reason && input.reason == "") ≡ false)
    × ((input.subject == "") ≡ false)

-- The nanoseconds of a time to live that an int64 holds.
pub expiry-fits :
    (now seconds : ℕ) → seconds ≤ 9223372036 → expiry now seconds ≡ now + seconds * 1000000000
unfolding expiry
expiry-fits now seconds h =
    let same : seconds * 1000000000 % 18446744073709551616 ≡ seconds * 1000000000 = (omega arith) in
    rw same (ground arith)
