-- ===== src/Healing/Trigger/Laws.antt =====
-- When the engine acts on its own.
use forge_eng_fabric.Prelude.{◌≤◌, ◌≡◌, ◌⊎◌, inl, inr, string_eq, arith}
use forge_eng_fabric.Healing.Types.{
  Level, l1, l2, l3, l4, l5, unlisted, Action, HealingDecision, IncidentInput,
}
use forge_eng_fabric.Healing.Level.{rank}
use forge_eng_fabric.Healing.World.{Env, World, M}
use forge_eng_fabric.Healing.World.Frames.{Same, Same-pure, Same-bind, same_rules, executions}
use forge_eng_fabric.Healing.Runs.Calls.{Same-detect, Same-propose, Same-l3, NeverApproves}
use forge_eng_fabric.Healing.Trigger.{decided, skip, run_level, trigger}
use forge_eng_fabric.Healing.Trigger.Rules.{Under-trigger}

Same-skip : {A : Type 0} (m : M A) → Same executions m → Same executions (skip m)
unfolding skip
Same-skip m h = Same-bind executions m _ h (λ _. Same-pure executions tt)

-- The level at which nothing is executed, by the level itself or for want of an approval.
module _ (env : Env) (input : IncidentInput) (action : Action) (d : HealingDecision) where
  Same-run :
      (level : Level)
      → NeverApproves env
      → rank level ≤ 3
      → Same executions (run_level env input action d level)
  unfolding run_level rank
  Same-run l1 never h = search (same_rules, Same-skip, Same-detect)
  Same-run l2 never h = search (same_rules, Same-skip, Same-propose)
  Same-run l3 never h = Same-l3 env input action d never
  Same-run l4 never h = absurd (omega arith)
  Same-run l5 never h = absurd (omega arith)
  Same-run (unlisted s) never h = Same-pure executions _

  Same-low : (level : Level) → rank level ≤ 2 → Same executions (run_level env input action d level)
  unfolding run_level rank
  Same-low l1 h = search (same_rules, Same-skip, Same-detect)
  Same-low l2 h = search (same_rules, Same-skip, Same-propose)
  Same-low l3 h = absurd (omega arith)
  Same-low l4 h = absurd (omega arith)
  Same-low l5 h = absurd (omega arith)
  Same-low (unlisted s) h = Same-pure executions _

low_Same :
    (env : Env) (input : IncidentInput) (w : World) (d : HealingDecision)
    → (trigger env input w).0 ≡ decided d
    → rank d.level ≤ 2
    → executions (trigger env input w).1.calls ≡ executions w.calls
low_Same env input w d e low =
    (Under-trigger executions (λ l. rank l ≤ 2) env input
        (λ action d. Same-low env input action d d.level)).at
      w d e low

unapproved_Same :
    (env : Env) (input : IncidentInput) (w : World) (d : HealingDecision)
    → NeverApproves env
    → (trigger env input w).0 ≡ decided d
    → rank d.level ≤ 3
    → executions (trigger env input w).1.calls ≡ executions w.calls
unapproved_Same env input w d never e low =
    (Under-trigger executions (λ l. rank l ≤ 3) env input
        (λ action d. Same-run env input action d d.level never)).at
      w d e low

-- A decision for an incident has executed no workflow where it is at L1, at L2 or at a level that is
-- none of the constants, or where it is at L3 or below and the approvals client never approves.
pub low_level_executes_nothing :
    (env : Env) (input : IncidentInput) (w : World) (d : HealingDecision)
    → (trigger env input w).0 ≡ decided d
    → (rank d.level ≤ 2) ⊎ ((rank d.level ≤ 3) × NeverApproves env)
    → executions (trigger env input w).1.calls ≡ executions w.calls
low_level_executes_nothing env input w d e (inl low) = low_Same env input w d e low
low_level_executes_nothing env input w d e (inr (low, never)) =
    unapproved_Same env input w d never e low
