-- ===== src/Healing/Trigger/KillSwitch.antt =====
-- The kill switch.
use forge_eng_fabric.Prelude.Assoc.{lookup}
use forge_eng_fabric.Prelude.{
  ◌⊎◌, inl, inr, String, ◌≡◌, ◌≢◌, refl, sym, subst, ap, Bool, true, false, Option, none, some,
  ◌==◌, string_eq, if◌then◌else◌,
}
use forge_eng_fabric.Healing.Types
use forge_eng_fabric.Healing.Types.{
  Level, l1, l2, l3, l4, l5, unlisted, suppressed, blocked_by_rate_limit, Envelope, Action,
  HealingDecision, IncidentInput, rate_limit,
}
use forge_eng_fabric.Healing.World.{
  Store, Env, World, M, pure, ◌>>=◌, ◌>>◌, continue, new_id, clock, emit, read_store, write_store,
  kill_switch_active,
}
use forge_eng_fabric.Healing.Runs.{emit_for}
use forge_eng_fabric.Healing.Trigger.{
  Answer, decided, refused, stop_at, trigger_with, trigger_found, trigger,
}
use forge_eng_fabric.Healing.Trigger.Rules.{decided_injective}

abbrev pub Stopped : World → Answer × World → HealingDecision → Type 0
Stopped w r d = (r.1.calls ≡ w.calls) × (d.level ≡ l1) × (d.outcome ≡ suppressed)

killed-Stopped :
    (env : Env) (input : IncidentInput) (action : Action) (envelope : Envelope) (w : World)
    (d : HealingDecision)
    → (trigger_with env input action envelope true w).0 ≡ decided d
    → Stopped w (trigger_with env input action envelope true w) d
unfolding trigger_with stop_at emit_for emit write_store new_id clock ◌>>=◌ ◌>>◌ continue pure
killed-Stopped env input action envelope w d e =
    let same = decided_injective _ d e in
    (
      refl,
      ap (λ (x : HealingDecision). x.level) (sym same),
      ap (λ (x : HealingDecision). x.outcome) (sym same),
    )

not_refused : (e : Types.Error) (d : HealingDecision) → refused e ≢ decided d
not_refused e d h = cc

found-Stopped :
    (env : Env) (input : IncidentInput) (s : Store) (w : World) (d : HealingDecision)
    (a : Option Action) (e : Option Envelope)
    → kill_switch_active s input.workspace_id ≡ true
    → (trigger_found env input s a e w).0 ≡ decided d
    → Stopped w (trigger_found env input s a e w) d
unfolding trigger_found pure
found-Stopped env input s w d none e k h = absurd (not_refused _ d h)
found-Stopped env input s w d (some action) none k h = absurd (not_refused _ d h)
found-Stopped env input s w d (some action) (some envelope) k h =
    subst
      (λ b.
        (trigger_with env input action envelope b w).0 ≡ decided d
        → Stopped w (trigger_with env input action envelope b w) d)
      (sym k) (killed-Stopped env input action envelope w d) h

if-Stopped :
    (b : Bool) (m n : M Answer) (w : World) (d : HealingDecision)
    → ((if b then m else n) w).0 ≡ decided d
    → ((m w).0 ≡ decided d → Stopped w (m w) d)
    → ((n w).0 ≡ decided d → Stopped w (n w) d)
    → Stopped w ((if b then m else n) w) d
if-Stopped true m n w d h p q = p h
if-Stopped false m n w d h p q = q h

-- The kill switch was set for everyone, or for the workspace.
abbrev pub IsKilled : Store → String → Type 0
IsKilled s workspace_id =
    (s.kill_global ≡ true) ⊎ (lookup workspace_id s.kill_workspace ≡ some true)

workspace_true :
    (b : Bool) (o : Option Bool)
    → o ≡ some true
    → (if b then true else elim o as (λ _. Bool) [ none ↦ false | some x ↦ x ]) ≡ true
workspace_true true o h = refl
workspace_true false o h = ap (λ p. elim p as (λ _. Bool) [ none ↦ false | some x ↦ x ]) h

killed_active :
    (s : Store) (workspace_id : String)
    → IsKilled s workspace_id
    → kill_switch_active s workspace_id ≡ true
unfolding kill_switch_active
killed_active s workspace_id (inl h) =
    ap
      (λ b. if b then true else elim (lookup workspace_id s.kill_workspace) as (λ _. Bool) [
        | none ↦ false
        | some x ↦ x
      ])
      h
killed_active s workspace_id (inr h) = workspace_true s.kill_global _ h

-- While the kill switch is on, for everyone or for the workspace, a decision for an incident of the
-- workspace is suppressed at L1, and nothing at all is asked of the executor or of the approvals
-- client.
pub kill_switch_stops_all :
    (env : Env) (input : IncidentInput) (w : World) (d : HealingDecision)
    → IsKilled w.store input.workspace_id
    → (trigger env input w).0 ≡ decided d
    → Stopped w (trigger env input w) d
unfolding trigger pure ◌>>=◌ continue read_store
kill_switch_stops_all env input w d k h =
    if-Stopped (input.incident_id == "") _ _ w d h (λ e. absurd (not_refused _ d e))
      (found-Stopped env input w.store w d _ _ (killed_active w.store input.workspace_id k))
