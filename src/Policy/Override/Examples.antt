-- ===== src/Policy/Override/Examples.antt =====
-- The theorems of the overrides at one override.
use Prim.Native.String.{String}
use forge_eng_fabric.Prelude.{
  nat_eq, string_eq, ℕ, zero, suc, ◌≡◌, refl, ap, true, List, [], ◌∷◌, none, some, arith,
}
use forge_eng_fabric.Prelude.Int.{pos}
use forge_eng_fabric.Prelude.Assoc.{lookup}
use forge_eng_fabric.Prelude.Value.{end}
use forge_eng_fabric.Policy.Override.Types.{
  Template, active, revoked, is_active_state, Override, Manager, GrantInput, already_terminated, ok,
  err,
}
use forge_eng_fabric.Policy.Override.{
  expiry, as_consumed, consume_found, consume, is_active, reconcile_expired,
}
use forge_eng_fabric.Policy.Override.Lifecycle.{
  consumes, reconciles, run, IsTerminated, ended_for_good, consume_once,
}
use forge_eng_fabric.Policy.Override.Expiry.{sweep_keeps_is_active}

-- Distinct identifiers: one letter more at each draw.
unary : ℕ → String
unary zero = ""
unary (suc n) = String.◌∷◌ "a" (unary n)

unary_fresh : (a b : ℕ) → unary a ≡ unary b → a ≡ b
unfolding unary
unary_fresh zero zero h = refl
unary_fresh zero (suc b) h = absurd cc
unary_fresh (suc a) zero h = absurd cc
unary_fresh (suc a) (suc b) h = ap suc (unary_fresh a b cc)

abbrev template : Template
template = record {
  id = "bypass";
  description = "";
  action = "phase";
  target = "sdlc";
  required_role = "release-manager";
  max_ttl_seconds = pos 3600;
  requires_reason = true;
  events_on_grant = "policy.override.granted.v1" ∷ [];
  events_on_consume = "policy.override.consumed.v1" ∷ [];
  events_on_expire = "policy.override.expired.v1" ∷ [];
}

abbrev input : GrantInput
input = record {
  template_id = "bypass";
  workspace_id = "w";
  subject = "initiative/i";
  requested_by = "ana";
  approved_by = "bo";
  approver_role = "release-manager";
  reason = "incident";
  ttl_seconds = pos 60;
  metadata = end;
}

abbrev ov : Override
ov = record {
  id = "";
  template_id = "bypass";
  workspace_id = "w";
  subject = "initiative/i";
  requested_by = "ana";
  approved_by = "bo";
  reason = "incident";
  granted_at = 10;
  expires_at = 60000000010;
  state = active;
  consumed_at = none;
  consumed_by = "";
  metadata = end;
}

abbrev manager : List (String × Override) → ℕ → Manager
manager overrides ids = record {
  templates = ("bypass", template) ∷ [];
  overrides = overrides;
  events = [];
  ids = ids;
}

-- A time to live of ten thousand million seconds ends before it begins.
long_expiry_is_past : expiry 60000000000000000000 10000000000 ≡ 51553255926290448384
unfolding expiry
long_expiry_is_past = refl

consumes_ov : (consume (manager (("", ov) ∷ []) 1) "" "cy" 20).1 ≡ ok tt
unfolding consume consume_found lookup
consumes_ov = refl

consume_once_example :
    (v : Override) × (lookup "" (manager (("", ov) ∷ []) 1).overrides ≡ some v)
    × (is_active_state v.state ≡ true)
    × (lookup "" (consume (manager (("", ov) ∷ []) 1) "" "cy" 20).0.overrides
        ≡ some (as_consumed v "cy" 20))
    × (consume (consume (manager (("", ov) ∷ []) 1) "" "cy" 20).0 "" "di" 30
        ≡ ((consume (manager (("", ov) ∷ []) 1) "" "cy" 20).0, err already_terminated))
consume_once_example = consume_once (manager (("", ov) ∷ []) 1) "" "cy" "di" 20 30 consumes_ov

abbrev gone : Override
gone = record ov { state = revoked }

gone-IsTerminated : IsTerminated unary 0 gone (manager (("", gone) ∷ []) 1)
unfolding lookup unary
gone-IsTerminated = record { drawn = omega arith; entry = refl; over = refl }

ended_for_good_example :
    IsTerminated unary 0 gone
      (run unary (manager (("", gone) ∷ []) 1) ((consumes "" "cy", 20) ∷ (reconciles, 80) ∷ []))
ended_for_good_example =
    ended_for_good unary unary_fresh 0 gone (manager (("", gone) ∷ []) 1)
      ((consumes "" "cy", 20) ∷ (reconciles, 80) ∷ []) gone-IsTerminated

sweep_keeps_is_active_example :
    is_active (reconcile_expired (manager (("", ov) ∷ []) 1) 20).0 "bypass" "initiative/i" 30
    ≡ is_active (manager (("", ov) ∷ []) 1) "bypass" "initiative/i" 30
sweep_keeps_is_active_example =
    sweep_keeps_is_active (manager (("", ov) ∷ []) 1) "bypass" "initiative/i" 20 30 (omega arith)
