-- ===== src/Sdlc/Service/Clearance.antt =====
-- What clears a phase: the evidence of its gates, an override, or a plan that has it as optional.
use forge_eng_fabric.Prelude.{
  ℕ, ◌≡◌, ◌≢◌, ◌⊎◌, inl, inr, sym, ◌∙◌, true, string_eq, List, [], ◌∷◌, String, keep, arith, All,
}
use forge_eng_fabric.Prelude.Value.{Fields, at_key}
use forge_eng_fabric.Sdlc.Types.{
  Phase, Initiative, optional, gate_passed, gate_failed, GateResult, CompletePhaseRequest, phase_eq,
  policy_eq,
}
use forge_eng_fabric.Sdlc.Gates.{GateDefinition, required_gates, evaluate_evidence}
use forge_eng_fabric.Sdlc.Gates.Laws.{outcome_cases}
use forge_eng_fabric.Sdlc.Store.{Env}
use forge_eng_fabric.Sdlc.Store.Frames.{Returns, Returns-pure, Returns-bind, Returns-any}
use forge_eng_fabric.Sdlc.Evaluate.{evaluate_all, evaluate_gates, failed_gates, validate_override}
use forge_eng_fabric.Sdlc.Advance.{plan_policy}

-- Every gate that the phase requires is passed by the evidence.
abbrev pub GatesPass : Phase → String → Fields → Type 0
GatesPass p criticality evidence =
    All (λ def. (evaluate_evidence def.gate_name (at_key evidence def.gate_name)).0 ≡ gate_passed)
      (required_gates p criticality)

-- What lets an initiative past a phase.
abbrev pub IsCleared : Initiative → Phase → CompletePhaseRequest → Type 0
IsCleared it p req =
    GatesPass p it.criticality req.evidence
    ⊎ ((validate_override req.override).0 ≡ true)
    ⊎ (plan_policy it.targets p ≡ optional)

-- Where none of the results failed, the evidence passed every gate.
abbrev pub Passing : Fields → List GateDefinition → List GateResult → Type 0
Passing evidence defs rs =
    failed_gates rs ≡ []
    → All (λ def. (evaluate_evidence def.gate_name (at_key evidence def.gate_name)).0 ≡ gate_passed)
        defs

pub failed_gates-passed :
    (r : GateResult) (rs : List GateResult)
    → r.outcome ≡ gate_passed
    → failed_gates (r ∷ rs) ≡ failed_gates rs
unfolding failed_gates keep
failed_gates-passed r rs h = ground arith

failed_gates-failed :
    (r : GateResult) (rs : List GateResult) → r.outcome ≡ gate_failed → failed_gates (r ∷ rs) ≢ []
unfolding failed_gates keep
failed_gates-failed r rs h = ground arith

evaluate_all-Passing :
    (env : Env) (it : Initiative) (p : Phase) (evidence : Fields) (now : ℕ)
    (defs : List GateDefinition)
    → Returns (Passing evidence defs) (evaluate_all env it p evidence now defs)
unfolding evaluate_all
evaluate_all-Passing env it p evidence now [] = Returns-pure [] (λ _. tt)
evaluate_all-Passing env it p evidence now (def ∷ defs) = Returns-bind _ _ (Returns-any _) (λ id _.
    Returns-bind _ _ (evaluate_all-Passing env it p evidence now defs) (λ rest h.
      Returns-pure _ (λ none_failed.
        elim (outcome_cases def.gate_name (at_key evidence def.gate_name)) [
          | inl e ↦ (e, h (sym (failed_gates-passed _ rest e) ∙ none_failed))
          | inr e ↦ absurd (failed_gates-failed _ rest e none_failed)
        ])))

pub evaluate_gates-Passing :
    (env : Env) (it : Initiative) (p : Phase) (evidence : Fields)
    → Returns
        (Passing evidence (required_gates p it.criticality))
        (evaluate_gates env it p evidence)
unfolding evaluate_gates
evaluate_gates-Passing env it p evidence =
    Returns-bind _ _ (Returns-any _)
      (λ now _. evaluate_all-Passing env it p evidence now (required_gates p it.criticality))
