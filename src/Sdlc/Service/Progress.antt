-- ===== src/Sdlc/Service/Progress.antt =====
-- What a completion of a phase may do to the current phase.
use forge_eng_fabric.Prelude.{
  ℕ, ◌≡◌, ◌⊎◌, inl, inr, refl, ap, sym, ◌∙◌, subst, Bool, true, false, not, ◌&&◌, ◌==◌, string_eq,
  Option, none, some, List, [], ◌∷◌, String, length, ltb, arith, Option-cases,
}
use forge_eng_fabric.Prelude.Assoc.{lookup}
use forge_eng_fabric.Sdlc.Types.{
  Phase, Initiative, Targets, TargetPolicy, optional, GateResult, CompletePhaseRequest, Error,
  invalid_phase, initiative_not_found, Result, ok, err, phase_eq, policy_eq,
}
use forge_eng_fabric.Sdlc.Phases.{phase_index, next_phase, index_lt}
use forge_eng_fabric.Sdlc.Phases.Laws.{index-next}
use forge_eng_fabric.Sdlc.Gates.{required_gates}
use forge_eng_fabric.Sdlc.Store.{
  Env, World, find_initiative, update_initiative, maybe, raise, or_raise, pure, ◌>>=◌, continue,
}
use forge_eng_fabric.Sdlc.Store.Frames.{
  Returns, Returns-pure, Returns-raise, Returns-bind, Returns-then, Returns-maybe, Returns-if,
  Returns-any,
}
use forge_eng_fabric.Sdlc.Events.{EventContext, from_complete}
use forge_eng_fabric.Sdlc.Create.{get_initiative}
use forge_eng_fabric.Sdlc.Evaluate.{failed_gates, validate_override}
use forge_eng_fabric.Sdlc.Advance.{plan_policy, skip_fuel, advanced, advance_phase, block_phase}
use forge_eng_fabric.Sdlc.Service.{
  refuse_phase, settle_phase, pending, with_gates, run_gates, complete_found, complete_phase,
}
use forge_eng_fabric.Sdlc.Service.Skips.{Landed, skip-Landed}
use forge_eng_fabric.Sdlc.Service.Clearance.{IsCleared, Passing, evaluate_gates-Passing}

-- From `p` to the first phase after it that the plan does not leave out.
abbrev pub MovesOn : Option Targets → Phase → Phase → Type 0
MovesOn t p q = (r : Phase) × (next_phase p ≡ some r) × Landed t r q

or_raise-Returns :
    {A : Type 0} (e : Error) (o : Option A) → Returns (λ a. o ≡ some a) (or_raise e o)
unfolding or_raise
or_raise-Returns e none = Returns-raise e
or_raise-Returns e (some a) = Returns-pure a refl

next-Returns :
    (p : Phase) → Returns (λ q. next_phase p ≡ some q) (or_raise invalid_phase (next_phase p))
next-Returns p = or_raise-Returns invalid_phase (next_phase p)

-- A write keeps the phase that the initiative is in.
pub update-phase :
    (env : Env) (it : Initiative)
    → Returns (λ s. s.current_phase ≡ it.current_phase) (update_initiative env it)
unfolding update_initiative
update-phase env it =
    Returns-bind _ _ (Returns-any _) (λ t _. Returns-then _ _ (Returns-pure _ refl))

pub advance-MovesOn :
    (env : Env) (it : Initiative) (p : Phase) (req : CompletePhaseRequest) (b : Bool) {i : ℕ}
    → phase_index p ≡ some i
    → Returns (λ s. MovesOn it.targets p s.current_phase) (advance_phase env it p req b)
unfolding advance_phase advanced
advance-MovesOn env it p req b known = Returns-bind _ _ (Returns-any _) (λ now _. Returns-then _ _ (
    Returns-bind _ _ (next-Returns p) (λ first first_is.
      Returns-bind {Q = Landed it.targets first} _ _
        (skip-Landed env it (from_complete req) skip_fuel first _
          (index-next p first known first_is) (omega arith))
        (λ next landed.
          Returns-bind _ _ (update-phase env (advanced it p b now next)) (λ stored same.
            Returns-then _ _ (
              Returns-then _ _ (
                Returns-pure stored
                  (first, first_is, subst (Landed it.targets first) (sym same) landed))))))))

block-stays :
    (env : Env) (it : Initiative) (p : Phase) (ec : EventContext) (policy : TargetPolicy)
    (failed : List GateResult)
    → Returns (λ s. s.current_phase ≡ it.current_phase) (block_phase env it p ec policy failed)
unfolding block_phase
block-stays env it p ec policy failed = Returns-bind _ _ (Returns-any _) (λ now _.
    Returns-bind _ _ (Returns-any _) (λ added _.
      Returns-bind _ _ (update-phase env _)
        (λ stored same. Returns-then _ _ (Returns-pure stored same))))

-- The phase stays, or the initiative is cleared and moves on.
abbrev pub Completed : Initiative → Phase → CompletePhaseRequest → Initiative → Type 0
Completed it p req s =
    (s.current_phase ≡ it.current_phase)
    ⊎ ((it.current_phase ≡ p) × MovesOn it.targets p s.current_phase × IsCleared it p req)

moved :
    (env : Env) (it : Initiative) (p : Phase) (req : CompletePhaseRequest) (b : Bool) {i : ℕ}
    → phase_index p ≡ some i
    → it.current_phase ≡ p
    → IsCleared it p req
    → Returns (Completed it p req) (advance_phase env it p req b)
moved env it p req b known here cleared = record {
  at = λ w s h. inr (here, (advance-MovesOn env it p req b known).at w s h, cleared);
}

refuse-Completed :
    (env : Env) (it : Initiative) (p : Phase) (req : CompletePhaseRequest)
    (failed : List GateResult) (o : Option Error) {i : ℕ}
    → phase_index p ≡ some i
    → it.current_phase ≡ p
    → Returns (Completed it p req) (refuse_phase env it p req failed o)
unfolding refuse_phase
refuse-Completed env it p req failed (some e) known here = Returns-raise e
refuse-Completed env it p req failed none known here =
    Returns-if (plan_policy it.targets p == optional) _ _
      (λ is_optional. Returns-then _ _ (
        moved env it p req false known here
          (inr (inr ((policy_eq.decides (plan_policy it.targets p) optional).0 is_optional)))))
      (λ _. record {
        at = λ w s h. inl ((block-stays env it p (from_complete req) _ failed).at w s h);
      })

none_or_override :
    (fs : List GateResult) (b : Bool)
    → (ltb 0 (length fs) && not b) ≡ false
    → (fs ≡ []) ⊎ (b ≡ true)
none_or_override [] b h = inl refl
none_or_override (f ∷ fs) true h = inr refl
none_or_override (f ∷ fs) false h = ground arith

settle-Completed :
    (env : Env) (it : Initiative) (p : Phase) (req : CompletePhaseRequest) (rs : List GateResult)
    {i : ℕ}
    → phase_index p ≡ some i
    → it.current_phase ≡ p
    → Passing req.evidence (required_gates p it.criticality) rs
    → Returns (Completed it p req) (settle_phase env it p req rs)
unfolding settle_phase
settle-Completed env it p req rs known here pass =
    Returns-if (ltb 0 (length (failed_gates rs)) && not (validate_override req.override).0) _ _
      (λ _. refuse-Completed env it p req _ _ known here)
      (λ h. moved env it p req _ known here (elim (none_or_override (failed_gates rs) _ h) [
        | inl e ↦ inl (pass e)
        | inr e ↦ inr (inl e)
      ]))

run_gates-Completed :
    (env : Env) (it : Initiative) (p : Phase) (req : CompletePhaseRequest) {i : ℕ}
    → phase_index p ≡ some i
    → it.current_phase ≡ p
    → Returns (Completed it p req) (run_gates env it p req)
unfolding run_gates
run_gates-Completed env it p req known here =
    Returns-bind _ _ (evaluate_gates-Passing env (pending p it) p req.evidence) (λ rs pass.
      Returns-then _ _
        (settle-Completed env (with_gates p rs (pending p it)) p req rs known here pass))

not-false : {b : Bool} → not b ≡ false → b ≡ true
not-false {b} h = ground arith

ok≢err : {A : Type 0} {a : A} {e : Error} → ok a ≡ err e → ⊥
ok≢err h = cc

found-Completed :
    (env : Env) (p : Phase) (req : CompletePhaseRequest) (it : Initiative) {i : ℕ}
    → phase_index p ≡ some i
    → Returns (Completed it p req) (complete_found env p req it)
unfolding complete_found
found-Completed env p req it known =
    Returns-if (index_lt (phase_index p) (phase_index it.current_phase)) _ _
      (λ _. Returns-pure it (inl refl))
      (λ _.
        Returns-if (not (it.current_phase == p)) _ _ (λ _. Returns-raise _)
          (λ same.
            Returns-maybe _ _ _ (λ _. Returns-raise _)
              (λ s _.
                run_gates-Completed env it p req known
                  ((phase_eq.decides it.current_phase p).0 (not-false same)))))

-- A call with a known phase and identifier is the checks on the stored initiative.
pub complete_run :
    (env : Env) (id : String) (p : Phase) (req : CompletePhaseRequest) (w : World) {i : ℕ}
    (it : Initiative)
    → phase_index p ≡ some i
    → lookup id w.initiatives ≡ some it
    → complete_phase env id p req w ≡ complete_found env p req it w
unfolding complete_phase get_initiative find_initiative or_raise maybe pure ◌>>=◌ continue
complete_run env id p req w it known stored = rw known (rw stored)

-- A call with an unknown phase is refused and changes nothing.
pub unknown_phase_refused :
    (env : Env) (id : String) (p : Phase) (req : CompletePhaseRequest) (w : World)
    → phase_index p ≡ none
    → complete_phase env id p req w ≡ (err invalid_phase, w)
unfolding complete_phase maybe raise
unknown_phase_refused env id p req w e = rw e

-- A call with an unknown identifier is refused and changes nothing.
pub unknown_initiative_refused :
    (env : Env) (id : String) (p : Phase) (req : CompletePhaseRequest) (w : World) (i : ℕ)
    → phase_index p ≡ some i
    → lookup id w.initiatives ≡ none
    → complete_phase env id p req w ≡ (err initiative_not_found, w)
unfolding complete_phase get_initiative find_initiative or_raise maybe pure raise ◌>>=◌ continue
unknown_initiative_refused env id p req w i e f = rw e (rw f)

-- Where a completion of phase `p` succeeds, the initiative was stored; its current phase is what it
-- was, or it was `p` and is now the first later phase that the plan does not leave out (or `done`),
-- and then the evidence passed every gate that `p` requires, or a valid override was given, or
-- the plan has `p` as optional.
pub complete_moves_only_if_cleared :
    (env : Env) (id : String) (p : Phase) (req : CompletePhaseRequest) (w : World) (s : Initiative)
    → (complete_phase env id p req w).0 ≡ ok s
    → (it : Initiative) × (lookup id w.initiatives ≡ some it) × Completed it p req s
complete_moves_only_if_cleared env id p req w s h = elim (Option-cases (phase_index p)) [
  | inl e ↦ absurd (
      ok≢err (
        sym h
        ∙ ap (λ (r : Result Initiative × World). r.0) (unknown_phase_refused env id p req w e)))
  | inr (i, e) ↦ elim (Option-cases (lookup id w.initiatives)) [
    | inl f ↦ absurd (
        ok≢err (
          sym h
          ∙ ap (λ (r : Result Initiative × World). r.0)
              (unknown_initiative_refused env id p req w i e f)))
    | inr (it, f) ↦ (
      it,
      f,
      (found-Completed env p req it e).at w s (
          sym (ap (λ (r : Result Initiative × World). r.0) (complete_run env id p req w it e f))
          ∙ h),
    )
  ]
]
