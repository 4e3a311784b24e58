-- ===== src/Deploy/Decide.antt =====
-- policy.go and service.go: the decision over all policies, the approvals that it reads, and the
-- outcome of the policy stage of a deployment.
pub mod Laws
pub mod Production
use forge_eng_fabric.Prelude.{
  ℕ, String, Bool, true, false, List, [], ◌∷◌, ◌++◌, Option, none, some, map, string_eq,
}
use forge_eng_fabric.Prelude.Assoc.{lookup, insert}
use forge_eng_fabric.Prelude.Text.{◌+s◌}
use forge_eng_fabric.Deploy.Freeze.{FreezeWindow, Moment}
use forge_eng_fabric.Deploy.Policies.{
  Decision, allow, requires_approval, deny, unlisted, PolicyDecision, DeployRequest, PolicyContext,
  DeploymentPolicy, evaluate,
}

abbrev pub all_allowed : PolicyDecision
all_allowed = record {
  policy_id = "";
  decision = allow;
  rationale = "all policies allowed";
  reason = "";
  required_approvers = [];
}

-- The two pointers of the loops: the first denial and the first request for an approval.
pub record Found : Type 0 where
  pub denial : Option PolicyDecision
  pub approval : Option PolicyDecision

abbrev pub nothing_found : Found
nothing_found = record { denial = none; approval = none }

-- `if x == nil { x = &d }`
abbrev or_first : Option PolicyDecision → PolicyDecision → Option PolicyDecision
or_first none d = some d
or_first (some x) d = some x

note_as : Decision → PolicyDecision → Found → Found
note_as allow d f = f
note_as requires_approval d f = record f { approval = or_first f.approval d }
note_as deny d f = record f { denial = or_first f.denial d }
note_as (unlisted s) d f = f

-- The `switch` of the loops.
unfoldable pub note : PolicyDecision → Found → Found
unfolding note_as
note d f = note_as d.decision d f

unfoldable pub pick : Found → PolicyDecision
pick f = elim f.denial [ some d ↦ d | none ↦ elim f.approval [ some d ↦ d | none ↦ all_allowed ] ]

-- The loop of `EvaluatePolicies`: what was found, and all decisions in order.
unfoldable pub run_policies_from :
    List DeploymentPolicy → DeployRequest → PolicyContext → Found → Found × List PolicyDecision
unfolding note
run_policies_from [] req ctx f = (f, [])
run_policies_from (p ∷ ps) req ctx f =
    let d = evaluate p req ctx in
    let (f', rest) = run_policies_from ps req ctx (note d f) in (f', d ∷ rest)

unfoldable pub evaluate_policies :
    List DeploymentPolicy → DeployRequest → PolicyContext → PolicyDecision × List PolicyDecision
unfolding run_policies_from pick
evaluate_policies ps req ctx =
    let (f, all) = run_policies_from ps req ctx nothing_found in (pick f, all)

-- The loop of `MostRestrictivePolicyDecision`.
unfoldable pub scan : List PolicyDecision → Found → Found
unfolding note
scan [] f = f
scan (d ∷ ds) f = scan ds (note d f)

unfoldable pub most_restrictive : List PolicyDecision → PolicyDecision
unfolding scan pick
most_restrictive all = pick (scan all nothing_found)

-- InMemoryApprovals
pub record Approval : Type 0 where
  pub expires_at : ℕ
  pub revision_id : String

abbrev pub approval_key : String → String → String → String
approval_key workspace_id asset_id env = workspace_id +s "/" +s asset_id +s "/" +s env

unfoldable pub approve :
    String → String → String → String → ℕ → List (String × Approval) → List (String × Approval)
approve workspace_id asset_id env revision_id expires_at approvals =
    insert (approval_key workspace_id asset_id env)
      (record { expires_at = expires_at; revision_id = revision_id }) approvals

-- HasApproval, into the context of the policies.
unfoldable pub with_approval :
    String → String → List (String × Approval) → DeployRequest → PolicyContext → PolicyContext
with_approval workspace_id asset_id approvals req ctx =
    elim (lookup (approval_key workspace_id asset_id req.env) approvals) [
      | none ↦ record ctx {
        has_approval = false;
        approval_expires_at = 0;
        approval_revision_id = "";
      }
      | some a ↦ record ctx {
        has_approval = true;
        approval_expires_at = a.expires_at;
        approval_revision_id = a.revision_id;
      }
    ]

-- The answer of the policy engine, where one is configured: a decision, or the text of an error.
pub data External : Type 0 where
  not_configured : External
  unavailable : String → External
  answered : PolicyDecision → External

abbrev pub engine_unavailable : String → PolicyDecision
engine_unavailable message = record {
  policy_id = "policy-engine";
  decision = deny;
  rationale = message;
  reason = "policy_engine_unavailable";
  required_approvers = [];
}

join_external :
    External → PolicyDecision × List PolicyDecision → PolicyDecision × List PolicyDecision
unfolding most_restrictive
join_external not_configured (decision, all) = (decision, all)
join_external (unavailable message) (decision, all) =
    let all' = all ++ engine_unavailable message ∷ [] in (most_restrictive all', all')
join_external (answered external) (decision, all) =
    let all' = external ∷ all in (most_restrictive all', all')

-- The decision of `runPolicies` and the evaluations that it records.
unfoldable pub decide :
    List DeploymentPolicy
    → DeployRequest
    → PolicyContext
    → External
    → PolicyDecision × List PolicyDecision
unfolding join_external evaluate_policies
decide ps req ctx external = join_external external (evaluate_policies ps req ctx)

-- What the policy stage does to the deployment: it goes on, or it ends with a status and a reason.
pub data StageEnd : Type 0 where
  goes_on : StageEnd
  pending_approval blocked : String → StageEnd

unfoldable pub policy_outcome : PolicyDecision → StageEnd
policy_outcome d = elim d.decision [
  | allow ↦ goes_on
  | requires_approval ↦ pending_approval d.reason
  | deny ↦ blocked d.reason
  | unlisted s ↦ blocked d.reason
]
