-- ===== src/Sdlc/Service/Success.antt =====
-- A completion in turn, with evidence that passes the gates, succeeds.
use forge_eng_fabric.Prelude.{
  keep, ℕ, zero, suc, ◌≡◌, ◌≢◌, refl, ap, ◌∙◌, subst, Bool, true, false, ◌==◌, Option, none, some,
  List, [], ◌∷◌, String, arith, All, string_eq,
}
use forge_eng_fabric.Prelude.Assoc.{lookup}
use forge_eng_fabric.Prelude.Value.{Fields, at_key}
use forge_eng_fabric.Sdlc.Types.{
  Phase, done, Initiative, gate_passed, GateResult, PhaseState, CompletePhaseRequest, Error, Result,
  ok, err, phase_eq,
}
use forge_eng_fabric.Sdlc.Phases.{phase_index, next_phase, index_lt}
use forge_eng_fabric.Sdlc.Phases.Laws.{next-total}
use forge_eng_fabric.Sdlc.Gates.{GateDefinition, evaluate_evidence}
use forge_eng_fabric.Sdlc.Store.{Env, World, M, maybe, or_raise, ◌>>=◌, ◌>>◌, continue, phase_state}
use forge_eng_fabric.Sdlc.Store.Frames.{
  Total, Returns, Returns-pure, Returns-bind, Returns-any, Total-pure, Total-bind, Total-then,
  Total-clock, Total-new_id,
}
use forge_eng_fabric.Sdlc.Events.{EventContext}
use forge_eng_fabric.Sdlc.Evaluate.{evaluate_all, evaluate_gates, failed_gates, publish_gates}
use forge_eng_fabric.Sdlc.Advance.{skip_left_out, skip_fuel, advance_phase}
use forge_eng_fabric.Sdlc.Service.{
  settle_phase, pending, with_gates, run_gates, complete_found, complete_phase,
}
use forge_eng_fabric.Sdlc.Service.Rules.{Total-maybe, Total-publish, service_totals}
use forge_eng_fabric.Sdlc.Service.Stored.{Stores-run_gates}
use forge_eng_fabric.Sdlc.Service.Clearance.{GatesPass, failed_gates-passed}
use forge_eng_fabric.Sdlc.Service.Progress.{MovesOn, advance-MovesOn, complete_run}

-- The action succeeds, and `Q` holds of its result.
record Yields {A : Type 0} (Q : A → Type 0) (m : M A) : Type 0 where
  pub at : (w : World) → (a : A) × ((m w).0 ≡ ok a) × Q a

yields : {A : Type 0} {Q : A → Type 0} (m : M A) → Total m → Returns Q m → Yields Q m
yields m h k = record { at = λ w. let (a, e) = h.at w in (a, e, k.at w a e) }

continue-Yields :
    {A B : Type 0} {P : A → Type 0} {Q : B → Type 0} (r : Result A × World) (f : A → M B)
    → ((a : A) × (r.0 ≡ ok a) × P a)
    → ((a : A) → P a → Yields Q (f a))
    → (b : B) × ((continue r f).0 ≡ ok b) × Q b
unfolding continue
continue-Yields {P} (ok a, w) f (a', e, h) k = let same : a' ≡ a = cc in (k a (subst P same h)).at w
continue-Yields (err x, w) f (a', e, h) k = cc e

Yields-bind :
    {A B : Type 0} {P : A → Type 0} {Q : B → Type 0} (m : M A) (f : A → M B)
    → Yields P m
    → ((a : A) → P a → Yields Q (f a))
    → Yields Q (m >>= f)
unfolding ◌>>=◌
Yields-bind m f h k = record { at = λ w. continue-Yields (m w) f (h.at w) k }

Yields-then :
    {B : Type 0} {Q : B → Type 0} (m : M (Unit {0})) (k : M B)
    → Total m
    → Yields Q k
    → Yields Q (m >> k)
unfolding ◌>>◌
Yields-then m k h j =
    Yields-bind {P = λ _. Unit {0}} m (λ _. k) (yields m h (Returns-any m)) (λ _ _. j)

Total-evaluate_all :
    (env : Env) (it : Initiative) (p : Phase) (evidence : Fields) (now : ℕ)
    (defs : List GateDefinition)
    → Total (evaluate_all env it p evidence now defs)
unfolding evaluate_all
Total-evaluate_all env it p evidence now [] = Total-pure []
Total-evaluate_all env it p evidence now (def ∷ defs) =
    Total-bind _ _ (Total-new_id env)
      (λ id. Total-bind _ _ (Total-evaluate_all env it p evidence now defs) (λ rest. Total-pure _))

none_failed :
    (env : Env) (it : Initiative) (p : Phase) (evidence : Fields) (now : ℕ)
    (defs : List GateDefinition)
    → All
        (λ def. (evaluate_evidence def.gate_name (at_key evidence def.gate_name)).0 ≡ gate_passed)
        defs
    → Returns (λ rs. failed_gates rs ≡ []) (evaluate_all env it p evidence now defs)
unfolding evaluate_all failed_gates keep
none_failed env it p evidence now [] h = Returns-pure [] refl
none_failed env it p evidence now (def ∷ defs) h = Returns-bind _ _ (Returns-any _) (λ id _.
    Returns-bind _ _ (none_failed env it p evidence now defs h.1)
      (λ rest e. Returns-pure _ (failed_gates-passed _ rest h.0 ∙ e)))

Yields-evaluate :
    (env : Env) (it : Initiative) (p : Phase) (evidence : Fields)
    → GatesPass p it.criticality evidence
    → Yields (λ rs. failed_gates rs ≡ []) (evaluate_gates env it p evidence)
unfolding evaluate_gates
Yields-evaluate env it p evidence h =
    yields _ (Total-bind _ _ (Total-clock env) (λ now. Total-evaluate_all env it p evidence now _))
      (Returns-bind _ _ (Returns-any _) (λ now _. none_failed env it p evidence now _ h))

Total-publish_gates :
    (env : Env) (it : Initiative) (ec : EventContext) (p : Phase) (rs : List GateResult)
    → Total (publish_gates env it ec p rs)
unfolding publish_gates
Total-publish_gates env it ec p [] = Total-pure tt
Total-publish_gates env it ec p (r ∷ rs) =
    Total-then _ _ (Total-publish env it ec _ _) (Total-publish_gates env it ec p rs)

Total-skip :
    (env : Env) (it : Initiative) (ec : EventContext) (fuel : ℕ) (p : Phase)
    → Total (skip_left_out env it ec fuel p)
unfolding skip_left_out
Total-skip env it ec zero p = Total-pure p
Total-skip env it ec (suc fuel) p = Total-maybe _ _ _ (Total-pure p) (λ policy.
    Total-then _ _ (Total-publish env it ec _ _)
      (Total-maybe _ _ _ (Total-pure _) (Total-skip env it ec fuel)))

Total-or_raise : {A : Type 0} (e : Error) (o : Option A) → o ≢ none → Total (or_raise e o)
unfolding or_raise
Total-or_raise e none h = absurd (h refl)
Total-or_raise e (some a) h = Total-pure a

Total-advance :
    (env : Env) (it : Initiative) (p : Phase) (req : CompletePhaseRequest) (b : Bool)
    → next_phase p ≢ none
    → Total (advance_phase env it p req b)
unfolding advance_phase
Total-advance env it p req b h = Total-bind _ _ (Total-clock env) (λ now.
    Total-then _ _ (search service_totals) (
      Total-bind _ _ (Total-or_raise _ (next_phase p) h) (λ first_next.
        Total-bind _ _ (Total-skip env it _ skip_fuel first_next)
          (λ next. search service_totals depth 9))))

Yields-settle :
    (env : Env) (it : Initiative) (p : Phase) (req : CompletePhaseRequest) (rs : List GateResult)
    (i : ℕ)
    → phase_index p ≡ some i
    → p ≢ done
    → failed_gates rs ≡ []
    → Yields (λ s. MovesOn it.targets p s.current_phase) (settle_phase env it p req rs)
unfolding settle_phase
Yields-settle env it p req rs i known open_phase none_left = rw none_left (
    yields _ (Total-advance env it p req _ (next-total p known open_phase))
      (advance-MovesOn env it p req _ known))

Yields-run_gates :
    (env : Env) (it : Initiative) (p : Phase) (req : CompletePhaseRequest) (i : ℕ)
    → phase_index p ≡ some i
    → p ≢ done
    → GatesPass p it.criticality req.evidence
    → Yields (λ s. MovesOn it.targets p s.current_phase) (run_gates env it p req)
unfolding run_gates
Yields-run_gates env it p req i known open_phase pass =
    Yields-bind _ _ (Yields-evaluate env (pending p it) p req.evidence pass) (λ rs e.
      Yields-then _ _ (Total-publish_gates env _ _ p rs)
        (Yields-settle env (with_gates p rs (pending p it)) p req rs i known open_phase e))

in_turn :
    (env : Env) (p : Phase) (req : CompletePhaseRequest) (it : Initiative) (w : World) (i : ℕ)
    → phase_index p ≡ some i
    → it.current_phase ≡ p
    → phase_state it.phase_states p ≢ none
    → complete_found env p req it w ≡ run_gates env it p req w
unfolding complete_found maybe run_gates
in_turn env p req it w i known here has = go (phase_state it.phase_states p) refl
  where
    same : (it.current_phase == p) ≡ true
    same = (phase_eq.decides it.current_phase p).1 here

    level : index_lt (phase_index p) (phase_index it.current_phase) ≡ false
    level = rw (here, known) (ground arith)

    go :
        (o : Option PhaseState)
        → phase_state it.phase_states p ≡ o
        → complete_found env p req it w ≡ run_gates env it p req w
    go none e = absurd (has e)
    go (some s) e = rw (level, same, e) refl

-- A completion of the phase that a stored initiative is in, where the phase is not `done`, the
-- initiative has a state for it, and the evidence passes every gate that the phase requires, succeeds:
-- the initiative that it returns, which then stands in the store under its identifier, is in the
-- first later phase that the plan does not leave out, or in `done`.
pub complete_succeeds :
    (env : Env) (id : String) (p : Phase) (req : CompletePhaseRequest) (w : World) (it : Initiative)
    (i : ℕ)
    → phase_index p ≡ some i
    → p ≢ done
    → lookup id w.initiatives ≡ some it
    → it.current_phase ≡ p
    → phase_state it.phase_states p ≢ none
    → GatesPass p it.criticality req.evidence
    → (s : Initiative) × ((complete_phase env id p req w).0 ≡ ok s)
      × (lookup it.id (complete_phase env id p req w).1.initiatives ≡ some s)
      × MovesOn it.targets p s.current_phase
complete_succeeds env id p req w it i known open_phase stored here has pass =
    let (s, e, moves) = (Yields-run_gates env it p req i known open_phase pass).at w in
    let run =
      complete_run env id p req w it known stored ∙ in_turn env p req it w i known here has in
    (
      s,
      ap (λ (r : Result Initiative × World). r.0) run ∙ e,
      ap (λ (r : Result Initiative × World). lookup it.id r.1.initiatives) run
          ∙ (Stores-run_gates env it p req).at w s e,
      moves,
    )
