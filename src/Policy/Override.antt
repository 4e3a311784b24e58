-- ===== src/Policy/Override.antt =====
-- services/policy-engine/internal/override/override.go: overrides that are granted for a time, used
-- once, revoked or expired. The overrides are shared by pointer
-- between the manager and its callers; every write goes through the manager.
pub mod Types
pub mod Lifecycle
pub mod Expiry
mod Examples
use forge_eng_fabric.Prelude.{
  ℕ, suc, ◌+◌, ◌-◌, ◌*◌, ◌%◌, String, Bool, true, false, not, ◌&&◌, ◌||◌, List, [], ◌∷◌, ◌++◌,
  Option, none, some, map, ltb, ◌==◌, string_eq, if◌then◌else◌,
}
use forge_eng_fabric.Prelude.Int.{ℤ, pos, int_ltb, int_leb, pos_part}
use forge_eng_fabric.Prelude.Assoc.{lookup, insert}
use forge_eng_fabric.Prelude.Value.{Fields, end, field, str}
use forge_eng_fabric.Policy.Override.Types.{
  Template, State, active, consumed, expired, revoked, is_active_state, Override, Event, Manager,
  GrantInput, Error, unknown_template, insufficient_role, ttl_exceeds_max, reason_required,
  subject_required, already_terminated, override_not_found, Result, ok, err,
}

-- LoadTemplates, behind the decoding: a later template replaces an earlier one of its identifier.
load_from : List (String × Template) → List Template → List (String × Template)
load_from out [] = out
load_from out (t ∷ rest) = load_from (insert t.id t out) rest

unfoldable pub load_templates : List Template → List (String × Template)
unfolding load_from
load_templates ts = load_from [] ts

-- One event of each type, in order.
abbrev pub announce : List String → Override → ℕ → Fields → List Event
announce types ov now extra =
    map (λ t. record { event_type = t; override = ov; time = now; extra = extra }) types

-- The checks of `Grant`, in order.
unfoldable pub check_grant : Template → GrantInput → Option Error
check_grant tpl input =
    if not (input.approver_role == tpl.required_role)
    then some insufficient_role
    else if int_leb input.ttl_seconds (pos 0) || int_ltb tpl.max_ttl_seconds input.ttl_seconds
    then some ttl_exceeds_max
    else if tpl.requires_reason && input.reason == ""
    then some reason_required
    else if input.subject == ""
    then some subject_required
    else none

-- `now.Add(time.Duration(seconds) * time.Second)`, in nanoseconds: the product is an int64, which wraps
-- around, so that a great number of seconds may be a time that lies before `now`.
unfoldable pub expiry : ℕ → ℕ → ℕ
expiry now seconds =
    let d = seconds * 1000000000 % 18446744073709551616 in
    if ltb d 9223372036854775808 then now + d else now - (18446744073709551616 - d)

unfoldable pub granted : String → GrantInput → ℕ → Override
unfolding expiry
granted id input now = record {
  id = id;
  template_id = input.template_id;
  workspace_id = input.workspace_id;
  subject = input.subject;
  requested_by = input.requested_by;
  approved_by = input.approved_by;
  reason = input.reason;
  granted_at = now;
  expires_at = expiry now (pos_part input.ttl_seconds);
  state = active;
  consumed_at = none;
  consumed_by = "";
  metadata = input.metadata;
}

-- `uuid n` is the n-th identifier that is drawn.
module _ (uuid : ℕ → String) where
  unfoldable pub grant_checked : Manager → Template → GrantInput → ℕ → Manager × Override
  unfolding granted
  grant_checked m tpl input now =
      let ov = granted (uuid m.ids) input now in
      (
        record m {
          overrides = insert ov.id ov m.overrides;
          events = m.events ++ announce tpl.events_on_grant ov now end;
          ids = suc m.ids;
        },
        ov,
      )

  unfoldable pub grant_with : Manager → GrantInput → ℕ → Option Template → Manager × Result Override
  unfolding grant_checked check_grant
  grant_with m input now none = (m, err unknown_template)
  grant_with m input now (some tpl) = elim (check_grant tpl input) [
    | some e ↦ (m, err e)
    | none ↦ let (m', ov) = grant_checked m tpl input now in (m', ok ov)
  ]

  unfoldable pub grant : Manager → GrantInput → ℕ → Manager × Result Override
  unfolding grant_with
  grant m input now = grant_with m input now (lookup input.template_id m.templates)

-- The events of a template that may be missing: the zero template has none.
abbrev pub events_of : (Template → List String) → Manager → String → List String
events_of f m id = elim (lookup id m.templates) [ none ↦ [] | some t ↦ f t ]

unfoldable pub as_consumed : Override → String → ℕ → Override
as_consumed ov by now = record ov { state = consumed; consumed_at = some now; consumed_by = by }

consume_found : Manager → String → String → ℕ → Option Override → Manager × Result (Unit {0})
unfolding as_consumed
consume_found m id by now none = (m, err override_not_found)
consume_found m id by now (some ov) =
    let ov' = as_consumed ov by now in
    if is_active_state ov.state
    then (
      record m {
        overrides = insert id ov' m.overrides;
        events =
            m.events
            ++ announce (events_of (λ t. t.events_on_consume) m ov.template_id) ov' now
                (field "consumed_by" (str by) end);
      },
      ok tt,
    )
    else (m, err already_terminated)

unfoldable pub consume : Manager → String → String → ℕ → Manager × Result (Unit {0})
unfolding consume_found
consume m id by now = consume_found m id by now (lookup id m.overrides)

revoke_found :
    Manager → String → String → String → ℕ → Option Override → Manager × Result (Unit {0})
revoke_found m id by reason now none = (m, err override_not_found)
revoke_found m id by reason now (some ov) =
    let ov' = record ov { state = revoked } in
    if is_active_state ov.state
    then (
      record m {
        overrides = insert id ov' m.overrides;
        events =
            m.events
            ++ announce ("policy.override.revoked.v1" ∷ []) ov' now
                (field "by" (str by) (field "reason" (str reason) end));
      },
      ok tt,
    )
    else (m, err already_terminated)

unfoldable pub revoke : Manager → String → String → String → ℕ → Manager × Result (Unit {0})
unfolding revoke_found
revoke m id by reason now = revoke_found m id by reason now (lookup id m.overrides)

-- The test of `IsActive` on one override.
abbrev pub is_live : String → String → ℕ → Override → Bool
is_live template_id subject now ov =
    ov.template_id == template_id
    && ov.subject == subject
    && is_active_state ov.state
    && ltb now ov.expires_at

unfoldable pub any_live : String → String → ℕ → List (String × Override) → Bool
any_live template_id subject now [] = false
any_live template_id subject now ((k, ov) ∷ rest) =
    is_live template_id subject now ov || any_live template_id subject now rest

unfoldable pub is_active : Manager → String → String → ℕ → Bool
unfolding any_live
is_active m template_id subject now = any_live template_id subject now m.overrides

-- The test of `ReconcileExpired`.
abbrev pub is_due : ℕ → Override → Bool
is_due now ov = is_active_state ov.state && not (ltb now ov.expires_at)

abbrev pub as_expired : Override → Override
as_expired ov = record ov { state = expired }

-- The first loop of `ReconcileExpired`: the overrides after it, and those that it expired.
unfoldable pub expire_all : ℕ → List (String × Override) → List (String × Override)
expire_all now [] = []
expire_all now ((k, ov) ∷ rest) =
    (k, if is_due now ov then as_expired ov else ov) ∷ expire_all now rest

unfoldable pub newly_expired : ℕ → List (String × Override) → List Override
newly_expired now [] = []
newly_expired now ((k, ov) ∷ rest) =
    let others = newly_expired now rest in if is_due now ov then as_expired ov ∷ others else others

-- The second loop: the events of each.
expiry_events : Manager → ℕ → List Override → List Event
expiry_events m now [] = []
expiry_events m now (ov ∷ rest) =
    announce (events_of (λ t. t.events_on_expire) m ov.template_id) ov now end
    ++ expiry_events m now rest

-- The identifiers of the overrides that were expired are returned.
unfoldable pub reconcile_expired : Manager → ℕ → Manager × List String
unfolding expire_all newly_expired expiry_events
reconcile_expired m now = (
  record m {
    overrides = expire_all now m.overrides;
    events = m.events ++ expiry_events m now (newly_expired now m.overrides);
  },
  map (λ (ov : Override). ov.id) (newly_expired now m.overrides),
)

insert_earliest : Override → List Override → List Override
insert_earliest a [] = a ∷ []
insert_earliest a (b ∷ rest) =
    let placed = insert_earliest a rest in
    if ltb b.expires_at a.expires_at then b ∷ placed else a ∷ b ∷ rest

-- List: all overrides, earliest expiry first.
unfoldable pub list_overrides : List (String × Override) → List Override
unfolding insert_earliest
list_overrides [] = []
list_overrides ((k, ov) ∷ rest) = insert_earliest ov (list_overrides rest)
