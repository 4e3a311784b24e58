-- ===== src/Healing/Runs/Calls.antt =====
-- Which steps execute a workflow, and that none changes the level of the decision.
use forge_eng_fabric.Prelude.{
  ℕ, String, ◌≡◌, ◌≢◌, refl, Bool, true, false, List, not, if◌then◌else◌,
}
use forge_eng_fabric.Healing.Types.{
  Action, HealingDecision, IncidentInput, DetectionInput, ProposeFixInput, L2Suggestion,
  SafetyEvalResult, passed, size_budget_exceeded, protected_path_violation,
  secret_reference_detected,
}
use forge_eng_fabric.Healing.World.{Content, Ask, Reply, ok, err, Env, M, reply_cases}
use forge_eng_fabric.Healing.World.Frames.{
  Same, Same-pure, Same-emit, Same-bind, Same-then, Same-if, Same-cases, Same-new_id, Same-ask-bind,
  Same-create, same_rules, executions, Gives, Gives-pure, Gives-bind, Gives-then, Gives-if,
  Gives-cases,
}
use forge_eng_fabric.Healing.Suggest.{detect, finish_suggestion, propose_fix}
use forge_eng_fabric.Healing.Runs.{
  emit_for, succeed, run_workflow, await_approval, run_l3, run_l4, roll_back, check_run, run_l5,
  undone,
}

pub Same-emit_for :
    (f : List Ask → List Ask) (env : Env) (input : IncidentInput) (c : Content)
    → Same f (emit_for env input c)
unfolding emit_for
Same-emit_for f env input c = Same-emit f env _ _ _ c

pub Same-detect : (env : Env) (input : DetectionInput) → Same executions (detect env input)
unfolding detect
Same-detect env input = search (same_rules, Same-create) depth 12

Same-finish :
    (env : Env) (input : ProposeFixInput) (sg : L2Suggestion) (r : SafetyEvalResult)
    → Same executions (finish_suggestion env input sg r)
unfolding finish_suggestion
Same-finish env input sg passed = search (same_rules, Same-create) depth 12
Same-finish env input sg (size_budget_exceeded a b) = search same_rules depth 12
Same-finish env input sg (protected_path_violation a b) = search same_rules depth 12
Same-finish env input sg (secret_reference_detected a b) = search same_rules depth 12

pub Same-propose : (env : Env) (input : ProposeFixInput) → Same executions (propose_fix env input)
unfolding propose_fix
Same-propose env input = search (same_rules, Same-finish) depth 16

-- No approval is ever given.
abbrev pub NeverApproves : Env → Type 0
NeverApproves env = (n : ℕ) (id : String) → env.on_wait n id ≢ ok true

module _ (env : Env) (input : IncidentInput) (action : Action) where
  answered :
      (d : HealingDecision) (answer : Reply Bool) (onfail : String → M HealingDecision)
      (stop : M HealingDecision)
      → answer ≢ ok true
      → ((e : String) → Same executions (onfail e))
      → Same executions stop
      → Same executions (
          reply_cases answer onfail
            (λ approved. if approved then run_workflow env input action d else stop))
  unfolding reply_cases
  answered d (err e) onfail stop h p q = p e
  answered d (ok true) onfail stop h p q = absurd (h refl)
  answered d (ok false) onfail stop h p q = q

  Same-await :
      (d : HealingDecision) (id : String)
      → NeverApproves env
      → Same executions (await_approval env input action d id)
  unfolding await_approval
  Same-await d id never = Same-ask-bind _ _ _ refl (λ n.
      answered _ (env.on_wait n id) _ _ (never n id) (λ e. Same-pure executions _)
        (Same-pure executions _))

  -- Where no approval is given, L3 executes nothing.
  pub Same-l3 :
      (d : HealingDecision) → NeverApproves env → Same executions (run_l3 env input action d)
  unfolding run_l3
  Same-l3 d never =
      Same-if executions input.synthetic _ _
        (Same-bind executions _ _ (Same-new_id executions env) (λ id.
          Same-then executions _ _ (Same-emit_for executions env input _) (Same-pure executions _)))
        (Same-bind executions _ _ (Same-create _ _ _) (λ r.
          Same-cases executions r _ _ (λ e. Same-pure executions _) (λ id. Same-await d id never)))

-- The level of the decision is kept.
abbrev pub Keeps : HealingDecision → M HealingDecision → Type 0
Keeps d m = Gives (λ d'. d'.level ≡ d.level) m

module _ (env : Env) (input : IncidentInput) (action : Action) (d : HealingDecision) where
  Keeps-succeed : (id : String) → Keeps d (succeed env input d id)
  unfolding succeed
  Keeps-succeed id = Gives-then _ _ (Gives-pure _ refl)

  Keeps-workflow : Keeps d (run_workflow env input action d)
  unfolding run_workflow
  Keeps-workflow =
      Gives-bind _ _
        (λ r. Gives-cases r _ _ (λ e. Gives-then _ _ (Gives-pure _ refl)) Keeps-succeed)

  pub Keeps-l4 : Keeps d (run_l4 env input action d)
  unfolding run_l4
  Keeps-l4 = Keeps-workflow

  undone-level : (id : String) (r : Reply String) → (undone d id r).level ≡ d.level
  undone-level id (err e) = refl
  undone-level id (ok r) = refl

  Keeps-back : (id : String) → Keeps d (roll_back env input action d id)
  unfolding roll_back
  Keeps-back id =
      Gives-bind _ _
        (λ r. Gives-then _ _ (Gives-then _ _ (Gives-then _ _ (Gives-pure _ (undone-level id r)))))

  Keeps-check : (id : String) → Keeps d (check_run env input action d id)
  unfolding check_run
  Keeps-check id = Gives-bind _ _ (λ r. Gives-if _ _ _ (Keeps-succeed id) (Keeps-back id))

  pub Keeps-l5 : Keeps d (run_l5 env input action d)
  unfolding run_l5
  Keeps-l5 = Gives-if (not action.reversible) _ _ (Gives-pure _ refl) (
      Gives-bind _ _ (λ r. Gives-cases r _ _ (λ e. Gives-then _ _ (Gives-pure _ refl)) Keeps-check))

module _ (env : Env) (input : IncidentInput) (action : Action) (d : HealingDecision) where
  Keeps-await : (id : String) → Keeps d (await_approval env input action d id)
  unfolding await_approval
  Keeps-await id = Gives-bind _ _ (λ r.
      Gives-cases r _ _ (λ e. Gives-pure _ refl)
        (λ b. Gives-if b _ _ (Keeps-workflow env input action _) (Gives-pure _ refl)))

  pub Keeps-l3 : Keeps d (run_l3 env input action d)
  unfolding run_l3
  Keeps-l3 =
      Gives-if input.synthetic _ _ (Gives-bind _ _ (λ id. Gives-then _ _ (Gives-pure _ refl)))
        (Gives-bind _ _ (λ r. Gives-cases r _ _ (λ e. Gives-pure _ refl) Keeps-await))
