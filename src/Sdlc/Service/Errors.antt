-- ===== src/Sdlc/Service/Errors.antt =====
-- A call that fails leaves the stored initiatives as they were.
use forge_eng_fabric.Prelude.{
  ◌==◌, string_eq, ◌≡◌, Bool, false, String, List, [], ◌∷◌, Option, none, some, string_eq,
}
use forge_eng_fabric.Sdlc.Types.{
  missing_workspace, missing_open_spec, Phase, Initiative, CompletePhaseRequest,
  CreateInitiativeRequest, GateResult, BusEvent, Error, Targets, TargetPolicy, err,
}
use forge_eng_fabric.Sdlc.Store.{Env, World}
use forge_eng_fabric.Sdlc.Store.Frames.{
  Frames-of_result, Frames, Total, Guarded, frame_rules, total_rules, Guarded-Total, Guarded-Frames,
  Guarded-bind, Guarded-then, Guarded-maybe, Guarded-if, Total-if, Total-then, Frames-clock,
  Frames-pure, Frames-raise,
}
use forge_eng_fabric.Sdlc.Events.{EventContext}
use forge_eng_fabric.Sdlc.Targets.{promote}
use forge_eng_fabric.Sdlc.Create.{
  effective_targets, create_initiative, create_with, publish_left_out, get_initiative,
}
use forge_eng_fabric.Sdlc.Advance.{block_phase, advance_phase}
use forge_eng_fabric.Sdlc.Service.{
  refuse_phase, settle_phase, run_gates, complete_found, complete_phase, regress_found, regress,
  dispatch_event, handle_event,
}
use forge_eng_fabric.Sdlc.Service.Rules.{
  Frames-publish, Total-publish, Frames-evaluate, Frames-publish_gates, service_frames,
  service_totals,
}

-- Once the initiative is written, nothing fails any more.
Guarded-advance :
    (env : Env) (it : Initiative) (p : Phase) (req : CompletePhaseRequest) (b : Bool)
    → Guarded (advance_phase env it p req b)
unfolding advance_phase
Guarded-advance env it p req b = Guarded-bind _ _ (Frames-clock env) (λ now.
    Guarded-then _ _ (search service_frames) (
      Guarded-bind _ _ (search service_frames) (λ first_next.
        Guarded-bind _ _ (search service_frames)
          (λ next. Guarded-Total _ (search service_totals depth 9)))))

Guarded-block :
    (env : Env) (it : Initiative) (p : Phase) (ec : EventContext) (policy : TargetPolicy)
    (failed : List GateResult)
    → Guarded (block_phase env it p ec policy failed)
unfolding block_phase
Guarded-block env it p ec policy failed = Guarded-bind _ _ (Frames-clock env) (λ now.
    Guarded-bind _ _ (search service_frames)
      (λ added. Guarded-Total _ (search service_totals depth 9)))

Guarded-refuse :
    (env : Env) (it : Initiative) (p : Phase) (req : CompletePhaseRequest)
    (failed : List GateResult) (o : Option Error)
    → Guarded (refuse_phase env it p req failed o)
unfolding refuse_phase
Guarded-refuse env it p req failed none =
    Guarded-if _ _ _
      (Guarded-then _ _ (Frames-publish env it _ _ _) (Guarded-advance env it p req false))
      (Guarded-block env it p _ _ failed)
Guarded-refuse env it p req failed (some e) = Guarded-Frames _ (Frames-raise e)

Guarded-settle :
    (env : Env) (it : Initiative) (p : Phase) (req : CompletePhaseRequest) (rs : List GateResult)
    → Guarded (settle_phase env it p req rs)
unfolding settle_phase
Guarded-settle env it p req rs =
    Guarded-if _ _ _ (Guarded-refuse env it p req _ _) (Guarded-advance env it p req _)

Guarded-run_gates :
    (env : Env) (it : Initiative) (p : Phase) (req : CompletePhaseRequest)
    → Guarded (run_gates env it p req)
unfolding run_gates
Guarded-run_gates env it p req =
    Guarded-bind _ _ (Frames-evaluate env _ p _)
      (λ rs. Guarded-then _ _ (Frames-publish_gates env _ _ p rs) (Guarded-settle env _ p req rs))

Guarded-found :
    (env : Env) (p : Phase) (req : CompletePhaseRequest) (it : Initiative)
    → Guarded (complete_found env p req it)
unfolding complete_found
Guarded-found env p req it = Guarded-if _ _ _ (Guarded-Frames _ (Frames-pure it)) (
    Guarded-if _ _ _ (Guarded-Frames _ (Frames-raise _)) (
      Guarded-maybe _ _ _ (Guarded-Frames _ (Frames-raise _))
        (λ s. Guarded-run_gates env it p req)))

pub Frames-get : (id : String) → Frames (get_initiative id)
unfolding get_initiative
Frames-get id = search frame_rules

Guarded-complete :
    (env : Env) (id : String) (p : Phase) (req : CompletePhaseRequest)
    → Guarded (complete_phase env id p req)
unfolding complete_phase
Guarded-complete env id p req =
    Guarded-maybe _ _ _ (Guarded-Frames _ (Frames-raise _))
      (λ i. Guarded-bind _ _ (Frames-get id) (Guarded-found env p req))

Guarded-regress_found :
    (env : Env) (to : Phase) (req : CompletePhaseRequest) (it : Initiative)
    → Guarded (regress_found env to req it)
unfolding regress_found
Guarded-regress_found env to req it =
    Guarded-bind _ _ (search service_frames)
      (λ now. Guarded-Total _ (search service_totals depth 9))

Guarded-regress :
    (env : Env) (id : String) (to : Phase) (req : CompletePhaseRequest)
    → Guarded (regress env id to req)
unfolding regress
Guarded-regress env id to req =
    Guarded-maybe _ _ _ (Guarded-Frames _ (Frames-raise _))
      (λ i. Guarded-bind _ _ (Frames-get id) (Guarded-regress_found env to req))

Guarded-dispatch :
    (env : Env) (id : String) (p : Phase) (event : BusEvent)
    → Guarded (dispatch_event env id p event)
unfolding dispatch_event
Guarded-dispatch env id p event =
    Guarded-if _ _ _ (Guarded-regress env id _ _) (Guarded-complete env id p _)

Guarded-handle : (env : Env) (event : BusEvent) → Guarded (handle_event env event)
unfolding handle_event
Guarded-handle env event =
    Guarded-if _ _ _ (Guarded-Frames _ (Frames-raise _))
      (Guarded-bind _ _ (search (frame_rules, Frames-get)) (λ p. Guarded-dispatch env _ p event))

Total-left_out :
    (env : Env) (it : Initiative) (ec : EventContext) (targets : Targets) (ps : List Phase)
    → Total (publish_left_out env it ec targets ps)
unfolding publish_left_out
Total-left_out env it ec targets [] = search total_rules
Total-left_out env it ec targets (p ∷ ps) = Total-if _ _ _ (Total-left_out env it ec targets ps) (
    Total-if _ _ _
      (Total-then _ _ (Total-publish env it _ _ _) (Total-left_out env it ec targets ps))
      (Total-left_out env it ec targets ps))

Total-create_with :
    (env : Env) (req : CreateInitiativeRequest) (targets : Targets)
    → Total (create_with env req targets)
unfolding create_with
Total-create_with env req targets = search (service_totals, Total-left_out) depth 12

Guarded-create : (env : Env) (req : CreateInitiativeRequest) → Guarded (create_initiative env req)
unfolding create_initiative
Guarded-create env req =
    Guarded-if (req.workspace_id == "") _ _ (Guarded-Frames _ (Frames-raise missing_workspace)) (
      Guarded-if (req.open_spec_root == "") _ _ (Guarded-Frames _ (Frames-raise missing_open_spec))
        (Guarded-bind _ _ (Frames-of_result (effective_targets req.targets req.targets_override))
          (λ targets. Guarded-Total _ (Total-create_with env req (promote targets req.include)))))

-- An event of the bus that ends in an error, whether it asked for a completion or a regression, has
-- changed no stored initiative. (It may have emitted events and drawn identifiers.)
pub handle_error_keeps_store :
    (env : Env) (event : BusEvent) (w : World) (e : Error)
    → (handle_event env event w).0 ≡ err e
    → (handle_event env event w).1.initiatives ≡ w.initiatives
handle_error_keeps_store env event w e h = (Guarded-handle env event).at w e h

-- A completion of a phase that ends in an error has changed no stored initiative.
pub complete_error_keeps_store :
    (env : Env) (id : String) (p : Phase) (req : CompletePhaseRequest) (w : World) (e : Error)
    → (complete_phase env id p req w).0 ≡ err e
    → (complete_phase env id p req w).1.initiatives ≡ w.initiatives
complete_error_keeps_store env id p req w e h = (Guarded-complete env id p req).at w e h

-- A creation that ends in an error has stored nothing.
pub create_error_keeps_store :
    (env : Env) (req : CreateInitiativeRequest) (w : World) (e : Error)
    → (create_initiative env req w).0 ≡ err e
    → (create_initiative env req w).1.initiatives ≡ w.initiatives
create_error_keeps_store env req w e h = (Guarded-create env req).at w e h
