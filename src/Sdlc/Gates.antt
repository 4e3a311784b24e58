-- ===== src/Sdlc/Gates.antt =====
-- gates.go: which gates a phase has, and what the evidence says of them.
pub mod Laws
use forge_eng_fabric.Prelude.{
  ℕ, String, Bool, true, false, ◌||◌, List, [], ◌∷◌, leb, keep, ◌==◌, string_eq, nat_eq,
  if◌then◌else◌,
}
use forge_eng_fabric.Prelude.Text.{to_lower, trim_space, ◌+s◌}
use forge_eng_fabric.Prelude.Value.{
  Value, null, bool, str, strs, obj, printed, Fields, end, field, at_key, sprint,
}
use forge_eng_fabric.Sdlc.Types.{
  Phase, product, architecture, design, development, qa, security, devops, infrastructure, sre,
  finops, observability, done, unknown, GateOutcome, gate_passed, gate_failed,
}

pub record GateDefinition : Type 0 where
  pub gate_name : String
  pub min_criticality : String

-- A gate of every criticality, and one from a criticality on.
abbrev gate : String → GateDefinition
gate n = record { gate_name = n; min_criticality = "" }

abbrev gate_from : String → String → GateDefinition
gate_from n c = record { gate_name = n; min_criticality = c }

-- The table of `RequiredGates`.
unfoldable pub all_gates : Phase → List GateDefinition
all_gates product = gate "acceptance_criteria_present" ∷ gate "story_size_estimated" ∷ []
all_gates architecture =
    gate "adrs_published"
    ∷ gate "api_contract_published"
    ∷ gate "data_model_documented"
    ∷ gate_from "threat_model_present" "medium"
    ∷ gate "security_review_passed"
    ∷ gate "openspec_updated"
    ∷ []
all_gates design =
    gate "ui_blueprint_present"
    ∷ gate "component_stubs_committed"
    ∷ gate "accessibility_audit_passed"
    ∷ []
all_gates development =
    gate "code_complete" ∷ gate "lint_clean" ∷ gate "unit_tests_passing" ∷ gate "coverage" ∷ []
all_gates qa =
    gate "integration_tests_passing"
    ∷ gate "e2e_tests_passing"
    ∷ gate_from "perf_budget_met" "high"
    ∷ []
all_gates security =
    gate "sast_clean"
    ∷ gate "sca_clean"
    ∷ gate_from "dast_passed" "high"
    ∷ gate "secrets_clean"
    ∷ []
all_gates devops =
    gate "pipelines_green"
    ∷ gate "image_signed"
    ∷ gate "deploy_to_stage_successful"
    ∷ gate "rollback_plan_present"
    ∷ []
all_gates infrastructure = gate "iac_generated" ∷ gate "iac_validated" ∷ gate "iac_applied" ∷ []
all_gates sre =
    gate "slos_defined"
    ∷ gate "runbook_published"
    ∷ gate "alerts_configured"
    ∷ gate "on_call_assigned"
    ∷ []
all_gates finops = gate "cost_estimate_within_budget" ∷ gate "llm_budget_within_limit" ∷ []
all_gates observability =
    gate "dashboards_provisioned" ∷ gate "log_pipeline_active" ∷ gate "tracing_enabled" ∷ []
all_gates done = []
all_gates (unknown s) = []

-- The map `rank` of `criticalityAtLeast`; 0 for any other key.
unfoldable pub criticality_rank : String → ℕ
criticality_rank c =
    if c == "low"
    then 1
    else if c == "medium"
    then 2
    else if c == "high"
    then 3
    else if c == "critical"
    then 4
    else 0

-- The rank of a criticality in any case; one that is not known counts as medium.
unfoldable pub effective_rank : String → ℕ
unfolding criticality_rank
effective_rank value =
    let v = criticality_rank (to_lower value) in if v == 0 then criticality_rank "medium" else v

unfoldable pub criticality_at_least : String → String → Bool
unfolding effective_rank
criticality_at_least value minimum = leb (criticality_rank minimum) (effective_rank value)

unfoldable pub required_gates : Phase → String → List GateDefinition
unfolding criticality_at_least
required_gates phase criticality =
    keep (λ def. def.min_criticality == "" || criticality_at_least criticality def.min_criticality)
      (all_gates phase)

abbrev is_pass : String → Bool
is_pass s = s == "passed" || s == "pass" || s == "true" || s == "ok"

abbrev from_evidence : Fields
from_evidence = field "source" (str "evidence") end

abbrev or_failed : String → String → String
or_failed gate_name reason =
    if reason == "" || reason == "<nil>" then gate_name +s "_failed" else reason

-- The outcome, the reason and the detail.
unfoldable pub evaluate_evidence : String → Value → GateOutcome × String × Fields
evaluate_evidence gate_name (bool true) = (gate_passed, "", from_evidence)
evaluate_evidence gate_name (bool false) = (gate_failed, gate_name +s "_failed", from_evidence)
evaluate_evidence gate_name (str value) =
    let detail = field "source" (str "evidence") (field "value" (str value) end) in
    if is_pass (to_lower (trim_space value))
    then (gate_passed, "", detail)
    else (gate_failed, value, detail)
evaluate_evidence gate_name (obj value) =
    if is_pass (to_lower (sprint (at_key value "outcome")))
    then (gate_passed, "", value)
    else (gate_failed, or_failed gate_name (sprint (at_key value "reason")), value)
evaluate_evidence gate_name null = (gate_failed, "gate_evidence_missing", from_evidence)
evaluate_evidence gate_name (strs l) = (gate_failed, "gate_evidence_missing", from_evidence)
evaluate_evidence gate_name (printed s) = (gate_failed, "gate_evidence_missing", from_evidence)
