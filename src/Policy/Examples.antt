-- ===== src/Policy/Examples.antt =====
-- The theorems of the policy engine and of the SDLC gates at small inputs.
use forge_eng_fabric.Prelude.{
  nat_eq, string_eq, any, first, ◌≡◌, refl, true, false, not, List, [], ◌∷◌, none, String,
}
use forge_eng_fabric.Prelude.Assoc.{lookup}
use forge_eng_fabric.Prelude.Value.{end}
use forge_eng_fabric.Policy.Engine.{
  requires_approval, decision_eq, EvaluateRequest, EvaluateResponse, ok, new_engine, default_rules,
  response_of, most_restrictive, Evaluator, eval_condition, matching, collect, respond, evaluate,
  Decision-discrete,
}
use forge_eng_fabric.Policy.Engine.Laws.{
  fails, strictest, is_answer, engine_gives_strictest, engine_answers_iff_none_fails,
}
use forge_eng_fabric.Policy.SdlcGate.{
  SdlcGateTemplate, SdlcGateEvaluateRequest, SdlcGateResult, GateEvaluator, is_selected,
  evaluate_sdlc_gate, judge_all, judge, require_some, is_below, eval_gate_condition,
  merge_thresholds,
}

abbrev prod_request : EvaluateRequest
prod_request = record {
  principal = "ana";
  action = "deploy:prod";
  workspace_id = "w";
  openspec_id = none;
  asset_id = none;
  env = "prod";
  criticality = "high";
  trust_level = "";
  data_classification = "";
  role = "";
  responsible = "";
  target = end;
}

-- The two conditions of the default rules hold of a request for production.
abbrev holds_all : Evaluator
holds_all condition req = ok true

abbrev answer : EvaluateResponse
answer = record {
  decision = requires_approval;
  rationale = "production-impacting actions require approval";
  policy_id = "deploy-prod-requires-approval";
  required_approvers = "release-manager" ∷ [];
}

default_answer : evaluate holds_all (new_engine default_rules) prod_request ≡ ok answer
unfolding evaluate new_engine respond matching collect eval_condition most_restrictive response_of
    first Decision-discrete
default_answer = refl

engine_gives_strictest_example : requires_approval ≡ strictest holds_all prod_request default_rules
engine_gives_strictest_example =
    engine_gives_strictest holds_all default_rules prod_request answer default_answer

engine_answers_iff_none_fails_example :
    is_answer (evaluate holds_all (new_engine default_rules) prod_request)
    ≡ not (any (fails holds_all prod_request) default_rules)
engine_answers_iff_none_fails_example =
    engine_answers_iff_none_fails holds_all default_rules prod_request

abbrev template_of : String → String → SdlcGateTemplate
template_of id phase = record {
  id = id;
  template_type = "sdlc-gate";
  phase = phase;
  gate = "coverage";
  min_criticality = "";
  condition = "evidence.coverage >= thresholds.min";
  rationale = "coverage is below the minimum";
  thresholds = [];
  required_approvers = [];
}

abbrev gate_request : SdlcGateEvaluateRequest
gate_request = record {
  workspace_id = "w";
  initiative_id = "i";
  phase = "development";
  gate = "";
  criticality = "high";
  evidence = end;
  thresholds = [];
}

abbrev refuses_all : GateEvaluator
refuses_all condition req thresholds = ok false

abbrev gate_results : List SdlcGateResult
gate_results =
    (record {
      policy_id = "b";
      phase = "development";
      gate = "coverage";
      outcome = "failed";
      reason = "coverage is below the minimum";
      thresholds = [];
    })
    ∷ []

gate_run :
    evaluate_sdlc_gate refuses_all
      (template_of "a" "qa" ∷ template_of "b" "development" ∷ [])
      gate_request
    ≡ ok gate_results
unfolding evaluate_sdlc_gate judge_all judge require_some is_selected is_below eval_gate_condition
    merge_thresholds lookup
gate_run = refl
