-- ===== src/Deploy/Stages.antt =====
-- service.go: the first stages of a deployment, preflight and policy, and what ends one.
use forge_eng_fabric.Prelude.{
  ℕ, String, Bool, false, List, [], ◌∷◌, none, some, string_eq, if◌then◌else◌,
}
use forge_eng_fabric.Prelude.State.{pure, get, ◌>>=◌, ◌>>◌}
use forge_eng_fabric.Prelude.Assoc.{lookup}
use forge_eng_fabric.Prelude.Text.{◌+s◌}
use forge_eng_fabric.Prelude.Value.{str, end, field}
use forge_eng_fabric.Deploy.Freeze.{Moment}
use forge_eng_fabric.Deploy.Policies.{PolicyDecision, PolicyContext, DeployRequest}
use forge_eng_fabric.Deploy.Decide
use forge_eng_fabric.Deploy.Decide.{
  External, not_configured, unavailable, answered, decide, goes_on, policy_outcome,
}
use forge_eng_fabric.Deploy.Types.{
  Status, failed, Stage, stage_name, policy, done, broken, denied, Deployment, DeployResponse,
  Runtime,
}
use forge_eng_fabric.Deploy.Store.{is_terminal, set_status, append_policy_eval}
use forge_eng_fabric.Deploy.World.{
  Reply, ok, err, check_usable, get_runtime, evaluate_policies, request_approval, RuntimeProvider,
  HasApproval, Service, policy_evaluated, deployment_failed, M, new_id, clock, write_store, ask,
  emit, emit_stage_event,
}

-- SetStatus, with the time that a terminal status reads: time.Now in the source, here the service's
-- clock.
unfoldable pub put_status : Service → String → Status → String → M (Unit {0})
put_status s id status reason =
    if is_terminal status
    then (clock s >>= λ now. write_store (set_status id status reason now.instant))
    else write_store (set_status id status reason 0)

-- A response with the deployment as it is stored (mustGet).
unfoldable pub respond : String → Status → String → Bool → M DeployResponse
respond id status reason created = get >>= λ w. pure (record {
  deployment = lookup id w.store.deployments;
  status = status;
  reason = reason;
  created = created;
})

unfoldable pub fail : Service → Deployment → Stage → String → M DeployResponse
fail s d stage message = do
  now ← clock s
  put_status s d.id failed (stage_name stage +s ":" +s message)
  emit_stage_event s d stage broken message end now.instant now.instant
  emit s d (deployment_failed stage message)
  respond d.id failed message false

-- runtimePreflight, once the runtime may be used.
unfoldable pub fetch_runtime : RuntimeProvider → String → M (Reply Runtime)
fetch_runtime p id = do
  answer ← ask (get_runtime id) (λ n. p.get n id)
  pure (elim answer [ err e ↦ err e | ok none ↦ err "runtime_not_found" | ok (some r) ↦ ok r ])

unfoldable pub use_runtime : RuntimeProvider → Deployment → M (Reply Runtime)
use_runtime p d = do
  refusal ← ask (check_usable d.runtime_id) (λ n. p.check_usable_by n d.runtime_id d.workspace_id)
  elim refusal [ some e ↦ pure (err e) | none ↦ fetch_runtime p d.runtime_id ]

unfoldable pub runtime_preflight : Service → Deployment → M (Reply Runtime)
runtime_preflight s d = elim s.runtimes [
  | none ↦ pure (err "runtime provider not configured")
  | some p ↦ use_runtime p d
]

abbrev no_approval : HasApproval
no_approval = record { has_approval = false; expires_at = 0; revision_id = "" }

abbrev approval_for : Service → Deployment → HasApproval
approval_for s d = elim s.approvals [
  | none ↦ no_approval
  | some f ↦ f d.workspace_id d.asset_id d.env d.image_digest
]

-- Whether an override is active, and until when.
abbrev pub override_for : Service → Deployment → Bool × ℕ
override_for s d = elim s.override_allow_unsigned [
  | none ↦ (false, 0)
  | some f ↦ f d.workspace_id d.id
]

unfoldable pub policy_context : Service → Deployment → Moment → PolicyContext
policy_context s d now = record {
  has_approval = (approval_for s d).has_approval;
  approval_revision_id = (approval_for s d).revision_id;
  approval_expires_at = (approval_for s d).expires_at;
  now = now;
  freeze_windows = s.freeze_windows;
  override_allow_unsigned_ttl = (override_for s d).1;
  override_allow_unsigned_active = (override_for s d).0;
}

abbrev pub external_of : Reply PolicyDecision → External
external_of (ok d) = answered d
external_of (err e) = unavailable e

unfoldable pub ask_engine : Service → DeployRequest → M External
ask_engine s req = elim s.policy_engine [
  | none ↦ pure not_configured
  | some f ↦ (ask (evaluate_policies req) (λ n. f n req) >>= λ answer. pure (external_of answer))
]

-- AppendPolicyEval, for each evaluation.
unfoldable pub record_evals : Service → Deployment → List PolicyDecision → M (Unit {0})
record_evals s d [] = pure tt
record_evals s d (e ∷ es) = do
  id ← new_id s
  now ← clock s
  write_store (
      append_policy_eval (record {
        id = id;
        deployment_id = d.id;
        policy_id = e.policy_id;
        outcome = e.decision;
        reason = e.reason;
        rationale = e.rationale;
        required_approvers = e.required_approvers;
        evaluated_at = now.instant;
      }))
  record_evals s d es

-- runPolicies
unfoldable pub run_policies : Service → Deployment → DeployRequest → M PolicyDecision
run_policies s d req = do
  start ← clock s
  external ← ask_engine s req
  let decision = (decide s.policies req (policy_context s d start) external).0
  let all = (decide s.policies req (policy_context s d start) external).1
  record_evals s d all
  emit s d (policy_evaluated decision all)
  elim (policy_outcome decision) [
    | goes_on ↦
        (clock s >>= λ now.
        emit_stage_event s d policy done "" (field "policy_id" (str decision.policy_id) end)
          start.instant now.instant)
    | Decide.pending_approval reason ↦ pure tt
    | Decide.blocked reason ↦ pure tt
  ]
  pure decision

-- policyOutcome, for the two ends of the stage.
unfoldable pub stop_with : Service → Deployment → PolicyDecision → Status → Bool → M DeployResponse
stop_with s d decision status asks_inbox = do
  now ← clock s
  put_status s d.id status decision.reason
  emit_stage_event s d policy denied decision.reason
      (field "policy_id" (str decision.policy_id) end) now.instant now.instant
  if asks_inbox then ask (request_approval d.id decision.reason) (λ n. tt) else pure tt
  respond d.id status decision.reason false
