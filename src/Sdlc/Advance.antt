-- ===== src/Sdlc/Advance.antt =====
-- service.go: the two ends of `CompletePhase`, which block a phase or move on from it.
use forge_eng_fabric.Prelude.{
  ℕ, zero, suc, Bool, true, false, not, List, [], ◌∷◌, ◌++◌, Option, none, some, length, ◌==◌,
  string_eq, if◌then◌else◌,
}
use forge_eng_fabric.Prelude.Value.{str, strs, bool, Fields, end, field}
use forge_eng_fabric.Prelude.Assoc.{lookup}
use forge_eng_fabric.Sdlc.Types.{
  Phase, done, unknown, phase_eq, policy_eq, Phase-discrete, TargetPolicy, required, Targets,
  PhaseState, in_progress, status_passed, overridden, blocked, GateResult, Blocker, Initiative,
  OverrideInput, CompletePhaseRequest, invalid_phase,
}
use forge_eng_fabric.Sdlc.Phases.{ordered_phases, name, next_phase}
use forge_eng_fabric.Sdlc.Store.{
  maybe, Env, M, pure, ◌>>=◌, ◌>>◌, or_raise, new_id, clock, update_initiative, with_state,
}
use forge_eng_fabric.Sdlc.Events.{
  phase_entered, phase_progressed, phase_blocked, phase_skipped, override_consumed, EventContext,
  from_complete, publish,
}
use forge_eng_fabric.Sdlc.Create.{policy_name, is_left_out}
use forge_eng_fabric.Sdlc.Evaluate.{gate_names}

-- The policy of a phase in the plan, which is `required` where the plan does not name it.
unfoldable pub plan_policy : Option Targets → Phase → TargetPolicy
plan_policy none phase = required
plan_policy (some targets) phase = elim (lookup phase targets) [ none ↦ required | some p ↦ p ]

-- The policy by which the plan leaves a phase out, if it does.
unfoldable pub left_out_by : Option Targets → Phase → Option TargetPolicy
left_out_by none phase = none
left_out_by (some targets) phase = elim (lookup phase targets) [
  | none ↦ none
  | some p ↦ if is_left_out p then some p else none
]

-- One blocker for each failed gate.
unfoldable pub block_all : Env → Initiative → Phase → ℕ → List GateResult → M (List Blocker)
block_all env it phase now [] = pure []
block_all env it phase now (r ∷ rs) = do
  id ← new_id env
  rest ← block_all env it phase now rs
  pure (
      record {
        id = id;
        initiative_id = it.id;
        phase = phase;
        gate = r.gate;
        reason = r.reason;
        created_at = now;
        resolved_at = none;
      }
      ∷ rest)

-- The branch of `CompletePhase` in which failed gates block the phase.
unfoldable pub block_phase :
    Env → Initiative → Phase → EventContext → TargetPolicy → List GateResult → M Initiative
block_phase env it phase ec policy failed = do
  now ← clock env
  added ← block_all env it phase now failed
  stored ← update_initiative env (record it {
    phase_states =
        with_state phase (λ s. record s { status = blocked; blockers = s.blockers ++ added })
          it.phase_states;
  })
  publish env stored ec phase_blocked (
      field "initiative_id" (str stored.id) (
        field "phase" (str (name phase)) (
          field "failed_gates" (strs (gate_names failed))
            (field "target" (str (policy_name policy)) end))))
  pure stored

-- The loop that advances past the phases which the plan leaves out. `NextPhase` answers for every
-- phase that it meets, so its failure, which would leave the empty phase, does not arise.
unfoldable pub skip_left_out : Env → Initiative → EventContext → ℕ → Phase → M Phase
skip_left_out env it ec zero next = pure next
skip_left_out env it ec (suc fuel) next =
    let on = λ (q : Phase). skip_left_out env it ec fuel q in
    maybe (if next == done then none else left_out_by it.targets next) (pure next) (λ p.
      publish env it ec phase_skipped (
        field "initiative_id" (str it.id)
          (field "phase" (str (name next)) (field "target" (str (policy_name p)) end)))
      >> maybe (next_phase next) (pure (unknown "")) on)

-- As many rounds as there are phases.
abbrev pub skip_fuel : ℕ
skip_fuel = length ordered_phases

-- `nextState`, where the initiative is not done.
unfoldable pub enter_phase : Phase → ℕ → List PhaseState → List PhaseState
unfolding with_state Phase-discrete
enter_phase next now states =
    if next == done
    then states
    else with_state next (λ s. record s { status = in_progress; entered_at = some now }) states

-- What `CompletePhase` writes once the phase is passed.
unfoldable pub advanced : Initiative → Phase → Bool → ℕ → Phase → Initiative
unfolding enter_phase
advanced it phase by_override now next = record it {
  current_phase = next;
  phase_states = enter_phase next now (
      with_state phase
        (λ s. record s {
          completed_at = some now;
          status = if by_override then overridden else status_passed;
        })
        it.phase_states);
}

unfoldable pub override_content : Initiative → Phase → Option OverrideInput → Fields
override_content it phase none = end
override_content it phase (some o) = field "initiative_id" (str it.id) (
    field "phase" (str (name phase)) (
      field "override" (str "phase-progression-bypass")
        (field "override_id" (str o.id) (field "reason" (str o.reason) end))))

unfoldable pub publish_if : Bool → M (Unit {0}) → M (Unit {0})
publish_if true m = m
publish_if false m = pure tt

-- The rest of `CompletePhase` once the phase counts as passed.
unfoldable pub advance_phase : Env → Initiative → Phase → CompletePhaseRequest → Bool → M Initiative
advance_phase env it phase req by_override = do
  now ← clock env
  publish_if by_override (
      publish env it (from_complete req) override_consumed (override_content it phase req.override))
  first_next ← or_raise invalid_phase (next_phase phase)
  next ← skip_left_out env it (from_complete req) skip_fuel first_next
  stored ← update_initiative env (advanced it phase by_override now next)
  publish env stored (from_complete req) phase_progressed (
      field "initiative_id" (str stored.id) (
        field "from" (str (name it.current_phase))
          (field "to" (str (name next)) (field "override" (bool by_override) end))))
  publish_if (not (next == done)) (
      publish env stored (from_complete req) phase_entered
        (field "initiative_id" (str stored.id) (field "phase" (str (name next)) end)))
  pure stored
