-- ===== src/Healing/Runs.antt =====
-- service.go: runL3, runL4 and runL5. Each returns the decision as it leaves it.
pub mod Calls
use forge_eng_fabric.Prelude.{String, Bool, true, false, not, if◌then◌else◌}
use forge_eng_fabric.Prelude.Text.{◌+s◌}
use forge_eng_fabric.Healing.Types
use forge_eng_fabric.Healing.Types.{
  Action, HealingDecision, IncidentInput, Reason, approvals_unreachable, approval_wait_failed,
  workflow_execute_failed, rollback_failed, approval_denied_or_timeout, non_reversible_action_at_l5,
  verify_failed_auto_rollback, waiting_approval, failed,
}
use forge_eng_fabric.Healing.World.{
  Content, executed, rolled_back, escalated, Ask, execute, rollback, verify, create_approval,
  wait_approval, Reply, ok, err, Env, M, pure, ◌>>=◌, ◌>>◌, reply_cases, new_id, ask, emit,
}

-- emitExecuted, emitRolledBack, emitEscalated
unfoldable pub emit_for : Env → IncidentInput → Content → M (Unit {0})
emit_for env input content =
    emit env input.tenant_id input.workspace_id ("incident/" +s input.incident_id) content

abbrev pub fails_with : HealingDecision → Reason → HealingDecision
fails_with d reason = record d { outcome = failed; reason = reason }

abbrev pub ran : HealingDecision → String → HealingDecision
ran d run_id = record d { workflow_run_id = run_id; outcome = Types.executed }

unfoldable pub succeed : Env → IncidentInput → HealingDecision → String → M HealingDecision
succeed env input d run_id = do
  emit_for env input (executed (ran d run_id) "executed")
  pure (ran d run_id)

-- The end that L3 and L4 share: execute the workflow.
unfoldable pub run_workflow : Env → IncidentInput → Action → HealingDecision → M HealingDecision
run_workflow env input action d = do
  run ←
      ask (execute action.workflow_ref action.parameters)
        (λ n. env.on_execute n action.workflow_ref action.parameters)
  reply_cases run
      (λ e. do
        let d' = fails_with d (workflow_execute_failed e)
        emit_for env input (executed d' "failed")
        pure d')
      (succeed env input d)

-- runL3, once the approval entry is there.
unfoldable pub await_approval :
    Env → IncidentInput → Action → HealingDecision → String → M HealingDecision
await_approval env input action d approval_id = do
  answer ← ask (wait_approval approval_id) (λ n. env.on_wait n approval_id)
  let d' = record d { approval_id = approval_id; outcome = waiting_approval }
  reply_cases answer (λ e. pure (fails_with d' (approval_wait_failed e)))
      (λ approved.
        if approved
        then run_workflow env input action d'
        else pure (fails_with d' approval_denied_or_timeout))

unfoldable pub run_l3 : Env → IncidentInput → Action → HealingDecision → M HealingDecision
run_l3 env input action d =
    if input.synthetic
    then (do
      id ← new_id env
      let d' = record d { outcome = waiting_approval; approval_id = "approval-synthetic-" +s id }
      emit_for env input (executed d' "waiting_approval")
      pure d')
    else do
      created ← ask (create_approval input.incident_id action.id) env.on_create
      reply_cases created (λ e. pure (fails_with d (approvals_unreachable e)))
          (await_approval env input action d)

unfoldable pub run_l4 : Env → IncidentInput → Action → HealingDecision → M HealingDecision
run_l4 env input action d = run_workflow env input action d

-- What a rollback leaves of the decision.
abbrev pub undone : HealingDecision → String → Reply String → HealingDecision
undone d run_id (err e) = record d {
  workflow_run_id = run_id;
  outcome = failed;
  reason = rollback_failed e;
}
undone d run_id (ok rollback_id) = record d {
  workflow_run_id = run_id +s "+rb=" +s rollback_id;
  outcome = Types.rolled_back;
  reason = verify_failed_auto_rollback;
}

-- "Verify failed — auto-rollback."
unfoldable pub roll_back :
    Env → IncidentInput → Action → HealingDecision → String → M HealingDecision
roll_back env input action d run_id = do
  answer ←
      ask (rollback action.workflow_ref action.parameters)
        (λ n. env.on_rollback n action.workflow_ref action.parameters)
  let d' = undone d run_id answer
  emit_for env input (executed d' "failed")
  emit_for env input (rolled_back d')
  emit_for env input (escalated d')
  pure d'

abbrev pub is_verified : Reply Bool → Bool
is_verified (ok b) = b
is_verified (err e) = false

unfoldable pub check_run :
    Env → IncidentInput → Action → HealingDecision → String → M HealingDecision
check_run env input action d run_id =
    ask (verify run_id) (λ n. env.on_verify n run_id) >>= λ answer.
    if is_verified answer then succeed env input d run_id else roll_back env input action d run_id

unfoldable pub run_l5 : Env → IncidentInput → Action → HealingDecision → M HealingDecision
run_l5 env input action d =
    if not action.reversible then pure (fails_with d non_reversible_action_at_l5) else do
      run ←
          ask (execute action.workflow_ref action.parameters)
            (λ n. env.on_execute n action.workflow_ref action.parameters)
      reply_cases run
          (λ e. do
            let d' = fails_with d (workflow_execute_failed e)
            emit_for env input (executed d' "failed")
            pure d')
          (check_run env input action d)
