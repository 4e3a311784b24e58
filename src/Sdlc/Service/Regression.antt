-- ===== src/Sdlc/Service/Regression.antt =====
-- What a regression does to the current phase.
use forge_eng_fabric.Prelude.{ℕ, ◌≡◌, ap, ◌∙◌, some, String, string_eq}
use forge_eng_fabric.Prelude.Assoc.{lookup}
use forge_eng_fabric.Sdlc.Types.{Phase, Initiative, CompletePhaseRequest, Result, ok}
use forge_eng_fabric.Sdlc.Phases.{phase_index}
use forge_eng_fabric.Sdlc.Store.{
  Env, World, maybe, or_raise, pure, ◌>>=◌, continue, find_initiative,
}
use forge_eng_fabric.Sdlc.Store.Frames.{
  Total, Returns, Returns-pure, Returns-bind, Returns-then, Returns-any, Total-pure, Total-bind,
  Total-then, Total-clock, Total-update,
}
use forge_eng_fabric.Sdlc.Create.{get_initiative}
use forge_eng_fabric.Sdlc.Service.{regressed, regress_found, regress}
use forge_eng_fabric.Sdlc.Service.Rules.{Total-maybe, Total-publish}
use forge_eng_fabric.Sdlc.Service.Stored.{Stores-regress}
use forge_eng_fabric.Sdlc.Service.Progress.{update-phase}

Total-regress :
    (env : Env) (to : Phase) (req : CompletePhaseRequest) (it : Initiative)
    → Total (regress_found env to req it)
unfolding regress_found
Total-regress env to req it =
    Total-bind _ _ (Total-maybe _ _ _ (Total-pure 0) (λ s. Total-clock env)) (λ now.
      Total-bind _ _ (Total-update env _)
        (λ stored. Total-then _ _ (Total-publish env _ _ _ _) (Total-pure stored)))

regress-phase :
    (env : Env) (to : Phase) (req : CompletePhaseRequest) (it : Initiative)
    → Returns (λ s. s.current_phase ≡ to) (regress_found env to req it)
unfolding regress_found regressed
regress-phase env to req it = Returns-bind _ _ (Returns-any _) (λ now _.
    Returns-bind _ _ (update-phase env (regressed it to now))
      (λ stored same. Returns-then _ _ (Returns-pure stored same)))

regress_run :
    (env : Env) (id : String) (to : Phase) (req : CompletePhaseRequest) (w : World)
    (it : Initiative) (i : ℕ)
    → phase_index to ≡ some i
    → lookup id w.initiatives ≡ some it
    → regress env id to req w ≡ regress_found env to req it w
unfolding regress get_initiative find_initiative or_raise maybe pure ◌>>=◌ continue
regress_run env id to req w it i known stored = rw known (rw stored)

-- A regression of a stored initiative to any known phase succeeds, whether the phase lies before the
-- current one, behind it, or is `done`, and no gate is asked: the initiative that it returns, which
-- then stands in the store under its identifier, is in that phase.
pub regress_reaches_any_phase :
    (env : Env) (id : String) (to : Phase) (req : CompletePhaseRequest) (w : World)
    (it : Initiative) (i : ℕ)
    → phase_index to ≡ some i
    → lookup id w.initiatives ≡ some it
    → (s : Initiative) × ((regress env id to req w).0 ≡ ok s)
      × (lookup it.id (regress env id to req w).1.initiatives ≡ some s)
      × (s.current_phase ≡ to)
regress_reaches_any_phase env id to req w it i known stored =
    let (s, e) = (Total-regress env to req it).at w in
    let run = regress_run env id to req w it i known stored in
    (
      s,
      ap (λ (r : Result Initiative × World). r.0) run ∙ e,
      ap (λ (r : Result Initiative × World). lookup it.id r.1.initiatives) run
          ∙ (Stores-regress env it to req).at w s e,
      (regress-phase env to req it).at w s e,
    )
