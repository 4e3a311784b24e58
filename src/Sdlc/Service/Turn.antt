-- ===== src/Sdlc/Service/Turn.antt =====
-- Completions out of turn.
use forge_eng_fabric.Prelude.{
  ℕ, ◌<◌, ◌≡◌, ◌≢◌, inl, inr, ap, ◌∙◌, true, false, ◌==◌, string_eq, some, String, arith,
  Bool-cases,
}
use forge_eng_fabric.Prelude.Assoc.{lookup}
use forge_eng_fabric.Sdlc.Types.{
  Phase, Initiative, CompletePhaseRequest, phase_mismatch, ok, err, phase_eq, policy_eq,
}
use forge_eng_fabric.Sdlc.Phases.{phase_index, index_lt}
use forge_eng_fabric.Sdlc.Store.{Env, World, raise, pure}
use forge_eng_fabric.Sdlc.Service.{complete_found, complete_phase}
use forge_eng_fabric.Sdlc.Service.Progress.{complete_run}

beq_ne : (a b : Phase) → a ≢ b → (a == b) ≡ false
beq_ne a b h = elim (Bool-cases (a == b)) [
  | inl e ↦ absurd (h ((phase_eq.decides a b).0 e))
  | inr e ↦ e
]

stale :
    (env : Env) (p : Phase) (req : CompletePhaseRequest) (w : World) (it : Initiative)
    → index_lt (phase_index p) (phase_index it.current_phase) ≡ true
    → complete_found env p req it w ≡ (ok it, w)
unfolding complete_found pure
stale env p req w it h = rw h

early :
    (env : Env) (p : Phase) (req : CompletePhaseRequest) (w : World) (it : Initiative)
    → index_lt (phase_index p) (phase_index it.current_phase) ≡ false
    → it.current_phase ≢ p
    → complete_found env p req it w ≡ (err (phase_mismatch it.current_phase p), w)
unfolding complete_found raise
early env p req w it h n = rw h (rw (beq_ne it.current_phase p n))

other_phase :
    (p q : Phase) (i j : ℕ) → phase_index p ≡ some i → phase_index q ≡ some j → j < i → q ≢ p
other_phase p q i j e f h same =
    let k : phase_index q ≡ phase_index p = ap phase_index same in ground arith

-- A completion of a phase that lies before the current one returns the initiative as it is stored,
-- and changes nothing: no event, no write, no identifier.
pub stale_completion_changes_nothing :
    (env : Env) (id : String) (p : Phase) (req : CompletePhaseRequest) (w : World) (it : Initiative)
    (i j : ℕ)
    → phase_index p ≡ some i
    → lookup id w.initiatives ≡ some it
    → phase_index it.current_phase ≡ some j
    → i < j
    → complete_phase env id p req w ≡ (ok it, w)
stale_completion_changes_nothing env id p req w it i j e f g h =
    complete_run env id p req w it e f ∙ stale env p req w it (rw e (rw g (ground arith)))

-- A completion of a phase that the initiative has not reached is refused, and changes nothing.
pub early_completion_refused :
    (env : Env) (id : String) (p : Phase) (req : CompletePhaseRequest) (w : World) (it : Initiative)
    (i j : ℕ)
    → phase_index p ≡ some i
    → lookup id w.initiatives ≡ some it
    → phase_index it.current_phase ≡ some j
    → j < i
    → complete_phase env id p req w ≡ (err (phase_mismatch it.current_phase p), w)
early_completion_refused env id p req w it i j e f g h =
    complete_run env id p req w it e f
    ∙ early env p req w it (rw e (rw g (ground arith))) (other_phase p it.current_phase i j e g h)
