-- ===== src/Sdlc/Service.antt =====
-- service.go: `CompletePhase`, `Regress` and `HandleEvent`.
pub mod Rules
pub mod Errors
pub mod Clearance
pub mod Stored
pub mod Skips
pub mod Progress
pub mod Turn
pub mod Success
pub mod Regression
use forge_eng_fabric.Prelude.{
  ℕ, String, false, ◌&&◌, not, List, ◌++◌, Option, none, some, length, ltb, ◌==◌, string_eq,
  if◌then◌else◌,
}
use forge_eng_fabric.Prelude.Value.{str, strs, Fields, end, field, at_key, string_from, map_from}
use forge_eng_fabric.Sdlc.Types.{
  Phase, phase_eq, policy_eq, Phase-discrete, TargetPolicy-discrete, optional, in_progress,
  gate_pending, GateResult, Initiative, CompletePhaseRequest, BusEvent, Error, invalid_phase,
  initiative_id_required, phase_mismatch,
}
use forge_eng_fabric.Sdlc.Phases.{name, of_string, phase_index, index_lt}
use forge_eng_fabric.Sdlc.Store.{
  maybe, Env, M, pure, raise, ◌>>=◌, ◌>>◌, clock, update_initiative, phase_state, with_state,
}
use forge_eng_fabric.Sdlc.Events.{phase_warning, phase_regressed, from_complete, publish}
use forge_eng_fabric.Sdlc.Create.{policy_name, get_initiative}
use forge_eng_fabric.Sdlc.Evaluate.{
  evaluate_gates, failed_gates, gate_names, validate_override, publish_gates,
}
use forge_eng_fabric.Sdlc.Advance.{plan_policy, block_phase, advance_phase}

-- The phase has failed gates, and no valid override.
unfoldable pub refuse_phase :
    Env → Initiative → Phase → CompletePhaseRequest → List GateResult → Option Error → M Initiative
refuse_phase env it phase req failed (some e) = raise e
refuse_phase env it phase req failed none =
    let policy = plan_policy it.targets phase in
    if policy == optional
    then (do
      publish env it (from_complete req) phase_warning (
          field "initiative_id" (str it.id) (
            field "phase" (str (name phase)) (
              field "failed_gates" (strs (gate_names failed))
                (field "target" (str (policy_name policy)) end))))
      advance_phase env it phase req false)
    else block_phase env it phase (from_complete req) policy failed

-- The part of `CompletePhase` behind the gates.
unfoldable pub settle_phase :
    Env → Initiative → Phase → CompletePhaseRequest → List GateResult → M Initiative
settle_phase env it phase req results =
    let failed = failed_gates results in
    let (by_override, override_error) = validate_override req.override in
    if ltb 0 (length failed) && not by_override
    then refuse_phase env it phase req failed override_error
    else advance_phase env it phase req by_override

-- `state.Status = StatusGatePending` and `state.Gates = append(state.Gates, results...)`
abbrev pub pending : Phase → Initiative → Initiative
pending phase it = record it {
  phase_states = with_state phase (λ s. record s { status = gate_pending }) it.phase_states;
}

abbrev pub with_gates : Phase → List GateResult → Initiative → Initiative
with_gates phase results it = record it {
  phase_states = with_state phase (λ s. record s { gates = s.gates ++ results }) it.phase_states;
}

unfoldable pub run_gates : Env → Initiative → Phase → CompletePhaseRequest → M Initiative
run_gates env it phase req = do
  results ← evaluate_gates env (pending phase it) phase req.evidence
  let gated = with_gates phase results (pending phase it)
  publish_gates env gated (from_complete req) phase results
  settle_phase env gated phase req results

-- The checks of `CompletePhase` on the initiative that it found.
unfoldable pub complete_found : Env → Phase → CompletePhaseRequest → Initiative → M Initiative
complete_found env phase req it =
    if index_lt (phase_index phase) (phase_index it.current_phase)
    then pure it
    else if not (it.current_phase == phase)
    then raise (phase_mismatch it.current_phase phase)
    else maybe (phase_state it.phase_states phase) (raise invalid_phase)
        (λ s. run_gates env it phase req)

unfoldable pub complete_phase : Env → String → Phase → CompletePhaseRequest → M Initiative
complete_phase env id phase req =
    maybe (phase_index phase) (raise invalid_phase)
      (λ i. get_initiative id >>= complete_found env phase req)

-- What `Regress` writes.
unfoldable pub regressed : Initiative → Phase → ℕ → Initiative
unfolding with_state
regressed it to now = record it {
  current_phase = to;
  phase_states =
      with_state to (λ s. record s { status = in_progress; entered_at = some now }) it.phase_states;
}

unfoldable pub regress_found : Env → Phase → CompletePhaseRequest → Initiative → M Initiative
regress_found env to req it = do
  -- the clock is read only where the phase has a state
  now ← maybe (phase_state it.phase_states to) (pure 0) (λ s. clock env)
  stored ← update_initiative env (regressed it to now)
  publish env stored (from_complete req) phase_regressed (
      field "initiative_id" (str stored.id)
        (field "from" (str (name it.current_phase)) (field "to" (str (name to)) end)))
  pure stored

unfoldable pub regress : Env → String → Phase → CompletePhaseRequest → M Initiative
regress env id to req =
    maybe (phase_index to) (raise invalid_phase)
      (λ i. get_initiative id >>= regress_found env to req)

-- The request that an event of the bus stands for.
abbrev pub event_request : BusEvent → Fields → CompletePhaseRequest
event_request event evidence = record {
  actor = event.actor;
  tenant_id = event.tenant_id;
  correlation_id = event.correlation_id;
  evidence = evidence;
  override = none;
}

abbrev pub event_phase : String → BusEvent → M Phase
event_phase id event =
    let p = string_from (at_key event.content "phase") in
    if p == "" then (do it ← get_initiative id; pure it.current_phase) else pure (of_string p)

unfoldable pub dispatch_event : Env → String → Phase → BusEvent → M Initiative
dispatch_event env id phase event =
    if event.event_type == "sdlc.phase.regress_requested.v1"
    then regress env id (of_string (string_from (at_key event.content "to_phase")))
        (event_request event end)
    else complete_phase env id phase
        (event_request event (map_from (at_key event.content "evidence")))

unfoldable pub handle_event : Env → BusEvent → M Initiative
handle_event env event =
    let id = string_from (at_key event.content "initiative_id") in
    if id == ""
    then raise initiative_id_required
    else do phase ← event_phase id event; dispatch_event env id phase event
