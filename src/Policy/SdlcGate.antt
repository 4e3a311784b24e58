-- ===== src/Policy/SdlcGate.antt =====
-- services/policy-engine/internal/policy/sdlc.go: the templates of the SDLC gates. The evaluation of
-- a CEL condition is a parameter, as in `Policy.Engine`.
pub mod Laws
use Prim.Native.String.{compare}
use Prim.Native.Nat.{Ordering}
use forge_eng_fabric.Prelude.{
  ℕ, String, Bool, true, false, not, ◌&&◌, List, [], ◌∷◌, Option, none, some, leb, ◌==◌, nat_eq,
  string_eq, if◌then◌else◌,
}
use forge_eng_fabric.Prelude.Assoc.{lookup, insert}
use forge_eng_fabric.Prelude.Text.{to_lower, ◌+s◌}
use forge_eng_fabric.Prelude.Value.{Value, Fields}
use forge_eng_fabric.Policy.Engine.{Outcome, ok, err}

-- A Go map from names to thresholds; a nil map is an empty one, which reads the same.
abbrev pub Thresholds : Type 0
Thresholds = List (String × Value)

pub record SdlcGateTemplate : Type 0 where
  pub id : String
  pub template_type : String
  pub phase : String
  pub gate : String
  pub min_criticality : String
  pub condition : String
  pub rationale : String
  pub thresholds : List (String × Thresholds)
  pub required_approvers : List String

pub record SdlcGateEvaluateRequest : Type 0 where
  pub workspace_id : String
  pub initiative_id : String
  pub phase : String
  pub gate : String
  pub criticality : String
  pub evidence : Fields
  pub thresholds : Thresholds

pub record SdlcGateResult : Type 0 where
  pub policy_id : String
  pub phase : String
  pub gate : String
  pub outcome : String
  pub reason : String
  pub thresholds : Thresholds

abbrev text_lt : String → String → Bool
text_lt s t = elim (compare s t) [ Ordering.lt ↦ true | _ ↦ false ]

insert_template : SdlcGateTemplate → List SdlcGateTemplate → List SdlcGateTemplate
insert_template t [] = t ∷ []
insert_template t (u ∷ rest) =
    let placed = insert_template t rest in if text_lt u.id t.id then u ∷ placed else t ∷ u ∷ rest

-- NewSDLCGateEngine: a stable sort by identifier.
unfoldable pub new_gate_engine : List SdlcGateTemplate → List SdlcGateTemplate
unfolding insert_template
new_gate_engine [] = []
new_gate_engine (t ∷ ts) = insert_template t (new_gate_engine ts)

-- The map `rank` of `criticalityAtLeast`; 0 for any other key.
unfoldable pub rank : String → ℕ
rank c =
    if c == "low"
    then 1
    else if c == "medium"
    then 2
    else if c == "high"
    then 3
    else if c == "critical"
    then 4
    else 0

-- Both sides are read in any case; a value that is not known counts as medium, a minimum as 0.
unfoldable pub criticality_at_least : String → String → Bool
unfolding rank
criticality_at_least value minimum =
    let v = rank (to_lower value) in
    leb (rank (to_lower minimum)) (if v == 0 then rank "medium" else v)

-- The loop of `mergeThresholds` over the overrides.
overlay : Thresholds → Thresholds → Thresholds
overlay out [] = out
overlay out ((k, v) ∷ rest) = overlay (insert k v out) rest

unfoldable pub merge_thresholds : Thresholds → Thresholds → Thresholds
unfolding overlay
merge_thresholds defaults overrides = overlay (overlay [] defaults) overrides

-- `template.Thresholds[criticality]`
abbrev pub defaults_at : SdlcGateTemplate → String → Thresholds
defaults_at t criticality = elim (lookup criticality t.thresholds) [ none ↦ [] | some m ↦ m ]

abbrev pub GateEvaluator : Type 0
GateEvaluator = String → SdlcGateEvaluateRequest → Thresholds → Outcome Bool

abbrev pub effective_criticality : String → String
effective_criticality c = let lower = to_lower c in if lower == "" then "medium" else lower

-- The three `continue`s before a template is looked at.
unfoldable pub is_selected : SdlcGateEvaluateRequest → SdlcGateTemplate → Bool
is_selected req t =
    t.template_type == "sdlc-gate"
    && t.phase == req.phase
    && not (not (req.gate == "") && not (t.gate == req.gate))

unfoldable pub is_below : String → SdlcGateTemplate → Bool
unfolding criticality_at_least
is_below criticality t =
    not (t.min_criticality == "") && not (criticality_at_least criticality t.min_criticality)

abbrev pub skipped : SdlcGateTemplate → SdlcGateResult
skipped t = record {
  policy_id = t.id;
  phase = t.phase;
  gate = t.gate;
  outcome = "skipped";
  reason = "below_min_criticality";
  thresholds = [];
}

abbrev pub judged : SdlcGateTemplate → Thresholds → Bool → SdlcGateResult
judged t thresholds passed = record {
  policy_id = t.id;
  phase = t.phase;
  gate = t.gate;
  outcome = if passed then "passed" else "failed";
  reason = if passed then "" else t.rationale;
  thresholds = thresholds;
}

-- evalSDLCGateCEL: an empty condition holds without being compiled.
unfoldable pub eval_gate_condition :
    GateEvaluator → String → SdlcGateEvaluateRequest → Thresholds → Outcome Bool
eval_gate_condition cel condition req thresholds =
    if condition == "" then ok true else cel condition req thresholds

-- The result of one template that is selected.
unfoldable pub judge :
    GateEvaluator → SdlcGateEvaluateRequest → SdlcGateTemplate → Outcome SdlcGateResult
unfolding is_below eval_gate_condition
judge cel req t =
    let criticality = effective_criticality req.criticality in
    let thresholds = merge_thresholds (defaults_at t criticality) req.thresholds in
    if is_below criticality t
    then ok (skipped t)
    else elim (eval_gate_condition cel t.condition req thresholds) [
      | err e ↦ err ("sdlc gate " +s t.id +s ": " +s e)
      | ok passed ↦ ok (judged t thresholds passed)
    ]

-- The loop over the templates of the engine.
unfoldable pub judge_all :
    GateEvaluator → SdlcGateEvaluateRequest → List SdlcGateTemplate → Outcome (List SdlcGateResult)
unfolding judge is_selected
judge_all cel req [] = ok []
judge_all cel req (t ∷ ts) =
    let rest = judge_all cel req ts in
    if not (is_selected req t) then rest else elim (judge cel req t) [
      | err e ↦ err e
      | ok r ↦ elim rest [ err e ↦ err e | ok rs ↦ ok (r ∷ rs) ]
    ]

unfoldable pub require_some : Outcome (List SdlcGateResult) → Outcome (List SdlcGateResult)
require_some (err e) = err e
require_some (ok []) = err "no_sdlc_gate_templates_matched"
require_some (ok (r ∷ rs)) = ok (r ∷ rs)

unfoldable pub evaluate_sdlc_gate :
    GateEvaluator → List SdlcGateTemplate → SdlcGateEvaluateRequest → Outcome (List SdlcGateResult)
unfolding judge_all require_some
evaluate_sdlc_gate cel templates req = require_some (judge_all cel req templates)
