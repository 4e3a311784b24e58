-- ===== src/Policy/Engine.antt =====
-- services/policy-engine/internal/policy/policy.go: rules by priority, and the most restrictive
-- decision among those that match. The evaluation of a CEL condition (`evalCEL`, by the library
-- cel-go) is a parameter: it says whether the condition holds of the request, or fails.
pub mod Laws
use forge_eng_fabric.Prelude.{
  ℕ, String, Bool, true, false, List, [], ◌∷◌, ◌++◌, Option, none, some, first, ◌==◌, string_eq,
  if◌then◌else◌, String-discrete, Eq, discrete_eq,
}
use forge_eng_fabric.Prelude.Int.{ℤ, pos, int_ltb}
use forge_eng_fabric.Prelude.Text.{◌+s◌}
use forge_eng_fabric.Prelude.Value.{Value, Fields, at_key, string_from, map_from}

-- An open string type: `unlisted s` is a string that is none of the constants.
pub data Decision : Type 0 where
  allow requires_approval deny : Decision
  unlisted : String → Decision

unfoldable pub Decision-discrete : Discrete Decision
Decision-discrete = hlevel String-discrete

instance abbrev pub decision_eq : Eq Decision
decision_eq = discrete_eq Decision-discrete

pub record EvaluateRequest : Type 0 where
  pub principal : String
  pub action : String
  pub workspace_id : String
  pub openspec_id : Option String
  pub asset_id : Option String
  pub env : String
  pub criticality : String
  pub trust_level : String
  pub data_classification : String
  pub role : String
  pub responsible : String
  pub target : Fields

pub record EvaluateResponse : Type 0 where
  pub decision : Decision
  pub rationale : String
  pub policy_id : String
  pub required_approvers : List String

pub record Rule : Type 0 where
  pub id : String
  pub priority : ℤ
  pub decision : Decision
  pub condition : String
  pub rationale : String
  pub required_approvers : List String

pub data Outcome {ℓ} (A : Type ℓ) : Type ℓ where
  ok : A → Outcome A
  err : String → Outcome A

-- A rule before those of a lower or equal priority that stand behind it.
insert_rule : Rule → List Rule → List Rule
insert_rule r [] = r ∷ []
insert_rule r (s ∷ rest) =
    let placed = insert_rule r rest in
    if int_ltb r.priority s.priority then s ∷ placed else r ∷ s ∷ rest

-- NewEngine: a stable sort by priority, highest first.
unfoldable pub new_engine : List Rule → List Rule
unfolding insert_rule
new_engine [] = []
new_engine (r ∷ rules) = insert_rule r (new_engine rules)

abbrev pub default_rules : List Rule
default_rules =
    (record {
      id = "deploy-prod-requires-approval";
      priority = pos 100;
      decision = requires_approval;
      condition = "action == \"deploy:prod\" || env == \"prod\"";
      rationale = "production-impacting actions require approval";
      required_approvers = "release-manager" ∷ [];
    })
    ∷ (record {
      id = "default-allow";
      priority = pos 1;
      decision = allow;
      condition = "true";
      rationale = "no restrictive policy matched";
      required_approvers = [];
    })
    ∷ []

unfoldable pub response_of : Rule → EvaluateResponse
response_of r = record {
  decision = r.decision;
  rationale = r.rationale;
  policy_id = r.id;
  required_approvers = r.required_approvers;
}

abbrev pub fallback : String → EvaluateResponse
fallback rationale = record {
  decision = allow;
  rationale = rationale;
  policy_id = "";
  required_approvers = [];
}

-- The outer loop of `mostRestrictive`, over the decisions in turn.
most_restrictive_of : List Decision → List Rule → EvaluateResponse
most_restrictive_of [] rules = fallback "no restrictive policy matched"
most_restrictive_of (d ∷ ds) rules =
    let rest = most_restrictive_of ds rules in
    elim (first (λ r. r.decision == d) rules) [ none ↦ rest | some r ↦ response_of r ]

unfoldable pub most_restrictive : List Rule → EvaluateResponse
unfolding most_restrictive_of response_of
most_restrictive rules = most_restrictive_of (deny ∷ requires_approval ∷ allow ∷ []) rules

-- Whether a condition holds of a request.
abbrev pub Evaluator : Type 0
Evaluator = String → EvaluateRequest → Outcome Bool

-- An empty condition holds without being compiled.
unfoldable pub eval_condition : Evaluator → String → EvaluateRequest → Outcome Bool
eval_condition cel condition req = if condition == "" then ok true else cel condition req

-- One round of the loop of `Evaluate`, given the rest of it.
unfoldable pub collect : Rule → Outcome Bool → Outcome (List Rule) → Outcome (List Rule)
collect r (err e) rest = err ("policy " +s r.id +s ": " +s e)
collect r (ok holds) (err e) = err e
collect r (ok holds) (ok matched) = ok (if holds then r ∷ matched else matched)

-- The loop that collects the matching rules; the first condition that fails ends it.
unfoldable pub matching : Evaluator → EvaluateRequest → List Rule → Outcome (List Rule)
unfolding collect
matching cel req [] = ok []
matching cel req (r ∷ rules) =
    collect r (eval_condition cel r.condition req) (matching cel req rules)

unfoldable pub respond : Outcome (List Rule) → Outcome EvaluateResponse
unfolding most_restrictive
respond (err e) = err e
respond (ok []) = ok (fallback "no policy matched")
respond (ok (r ∷ rules)) = ok (most_restrictive (r ∷ rules))

-- Engine.Evaluate, on the rules of the engine.
unfoldable pub evaluate : Evaluator → List Rule → EvaluateRequest → Outcome EvaluateResponse
evaluate cel policies req = respond (matching cel req policies)

-- The request that a pipeline gate event stands for.
unfoldable pub gate_request : Fields → EvaluateRequest
gate_request event = record {
  principal = string_from (at_key event "principal");
  action = string_from (at_key event "action");
  workspace_id = string_from (at_key event "workspace_id");
  openspec_id = none;
  asset_id = none;
  env = string_from (at_key event "env");
  criticality = string_from (at_key event "criticality");
  trust_level = string_from (at_key event "trust_level");
  data_classification = string_from (at_key event "data_classification");
  role = string_from (at_key event "role");
  responsible = string_from (at_key event "responsible");
  target = map_from (at_key event "target");
}

unfoldable pub evaluate_pipeline_gate : Evaluator → List Rule → Fields → Outcome EvaluateResponse
unfolding gate_request evaluate
evaluate_pipeline_gate cel policies event = evaluate cel policies (gate_request event)
