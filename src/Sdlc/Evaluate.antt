-- ===== src/Sdlc/Evaluate.antt =====
-- gates.go and service.go: the results of a phase's gates, and the override of a failure.
use forge_eng_fabric.Prelude.{
  ℕ, String, Bool, true, false, ◌||◌, not, List, [], ◌∷◌, Option, none, some, map, keep, ◌==◌,
  string_eq, if◌then◌else◌,
}
use forge_eng_fabric.Prelude.Int.{pos, int_ltb, int_leb}
use forge_eng_fabric.Prelude.Value.{str, Fields, end, field, at_key}
use forge_eng_fabric.Sdlc.Types.{
  Phase, phase_eq, policy_eq, GateOutcome, gate_passed, gate_failed, gate_skipped, GateResult,
  Initiative, OverrideInput, Error, invalid_override,
}
use forge_eng_fabric.Sdlc.Phases.{name}
use forge_eng_fabric.Sdlc.Gates.{GateDefinition, required_gates, evaluate_evidence}
use forge_eng_fabric.Sdlc.Store.{Env, M, pure, ◌>>=◌, ◌>>◌, new_id, clock}
use forge_eng_fabric.Sdlc.Events.{gate_evaluated, EventContext, publish}

-- EvidenceGateEvaluator.Evaluate: a result for each gate that the phase requires.
unfoldable pub evaluate_all :
    Env → Initiative → Phase → Fields → ℕ → List GateDefinition → M (List GateResult)
evaluate_all env it phase evidence now [] = pure []
evaluate_all env it phase evidence now (def ∷ defs) = do
  let (outcome, reason, detail) = evaluate_evidence def.gate_name (at_key evidence def.gate_name)
  id ← new_id env
  rest ← evaluate_all env it phase evidence now defs
  pure (
      record {
        id = id;
        initiative_id = it.id;
        phase = phase;
        gate = def.gate_name;
        outcome = outcome;
        reason = reason;
        evaluated_at = now;
        detail = detail;
      }
      ∷ rest)

unfoldable pub evaluate_gates : Env → Initiative → Phase → Fields → M (List GateResult)
evaluate_gates env it phase evidence = do
  now ← clock env
  evaluate_all env it phase evidence now (required_gates phase it.criticality)

abbrev pub is_failed : GateResult → Bool
is_failed r = elim r.outcome [ gate_failed ↦ true | _ ↦ false ]

unfoldable pub failed_gates : List GateResult → List GateResult
failed_gates results = keep is_failed results

abbrev pub gate_names : List GateResult → List String
gate_names results = map (λ r. r.gate) results

-- `(bool, error)`
unfoldable pub validate_override : Option OverrideInput → Bool × Option Error
validate_override none = (false, none)
validate_override (some o) =
    if not o.approved
    then (false, none)
    else if not (o.approver_role == "release-manager")
        || o.reason == ""
        || int_leb o.ttl_seconds (pos 0)
        || int_ltb (pos 86400) o.ttl_seconds
    then (false, some invalid_override)
    else (true, none)

unfoldable pub outcome_name : GateOutcome → String
outcome_name gate_passed = "passed"
outcome_name gate_failed = "failed"
outcome_name gate_skipped = "skipped"

unfoldable pub publish_gates :
    Env → Initiative → EventContext → Phase → List GateResult → M (Unit {0})
publish_gates env it ec phase [] = pure tt
publish_gates env it ec phase (r ∷ rs) = do
  publish env it ec gate_evaluated (
      field "initiative_id" (str it.id) (
        field "phase" (str (name phase)) (
          field "gate" (str r.gate)
            (field "outcome" (str (outcome_name r.outcome)) (field "reason" (str r.reason) end)))))
  publish_gates env it ec phase rs
