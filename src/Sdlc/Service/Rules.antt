-- ===== src/Sdlc/Service/Rules.antt =====
-- Which of the service's steps leave the stored initiatives alone, and which never fail.
use forge_eng_fabric.Prelude.{
  Option, none, some, string_eq, ℕ, zero, suc, Bool, true, false, String, List, [], ◌∷◌, string_eq,
}
use forge_eng_fabric.Prelude.Value.{Fields}
use forge_eng_fabric.Sdlc.Types.{Phase, Initiative, GateResult}
use forge_eng_fabric.Sdlc.Gates.{GateDefinition}
use forge_eng_fabric.Sdlc.Store.{maybe, Env, M}
use forge_eng_fabric.Sdlc.Store.Frames.{
  Frames-of_result, Frames, Total, Guarded, frame_rules, total_rules, Total-update, Total-insert,
  Guarded-Total, Guarded-Frames, Guarded-bind, Guarded-then, Guarded-maybe, Guarded-if, Total-if,
  Total-then, Frames-bind, Frames-then, Frames-maybe, Frames-new_id, Frames-clock, Frames-pure,
  Frames-raise,
}
use forge_eng_fabric.Sdlc.Events.{EventContext, new_event, publish}
use forge_eng_fabric.Sdlc.Evaluate.{evaluate_all, evaluate_gates, publish_gates}
use forge_eng_fabric.Sdlc.Advance.{skip_left_out, block_all, publish_if}

pub Frames-new_event :
    (env : Env) (it : Initiative) (ec : EventContext) (t : String) (c : Fields)
    → Frames (new_event env it ec t c)
unfolding new_event
Frames-new_event env it ec t c = search frame_rules

pub Frames-publish :
    (env : Env) (it : Initiative) (ec : EventContext) (t : String) (c : Fields)
    → Frames (publish env it ec t c)
unfolding publish
Frames-publish env it ec t c = search (frame_rules, Frames-new_event)

pub Total-new_event :
    (env : Env) (it : Initiative) (ec : EventContext) (t : String) (c : Fields)
    → Total (new_event env it ec t c)
unfolding new_event
Total-new_event env it ec t c = search total_rules

pub Total-publish :
    (env : Env) (it : Initiative) (ec : EventContext) (t : String) (c : Fields)
    → Total (publish env it ec t c)
unfolding publish
Total-publish env it ec t c = search (total_rules, Total-new_event)

pub Frames-evaluate_all :
    (env : Env) (it : Initiative) (p : Phase) (evidence : Fields) (now : ℕ)
    (defs : List GateDefinition)
    → Frames (evaluate_all env it p evidence now defs)
unfolding evaluate_all
Frames-evaluate_all env it p evidence now [] = search frame_rules
Frames-evaluate_all env it p evidence now (def ∷ defs) =
    Frames-bind _ _ (Frames-new_id env) (λ id.
      Frames-bind _ _ (Frames-evaluate_all env it p evidence now defs) (λ rest. Frames-pure _))

pub Frames-evaluate :
    (env : Env) (it : Initiative) (p : Phase) (evidence : Fields)
    → Frames (evaluate_gates env it p evidence)
unfolding evaluate_gates
Frames-evaluate env it p evidence = search (frame_rules, Frames-evaluate_all)

pub Frames-publish_gates :
    (env : Env) (it : Initiative) (ec : EventContext) (p : Phase) (rs : List GateResult)
    → Frames (publish_gates env it ec p rs)
unfolding publish_gates
Frames-publish_gates env it ec p [] = search frame_rules
Frames-publish_gates env it ec p (r ∷ rs) =
    Frames-then _ _ (Frames-publish env it ec _ _) (Frames-publish_gates env it ec p rs)

pub Frames-block_all :
    (env : Env) (it : Initiative) (p : Phase) (now : ℕ) (rs : List GateResult)
    → Frames (block_all env it p now rs)
unfolding block_all
Frames-block_all env it p now [] = search frame_rules
Frames-block_all env it p now (r ∷ rs) =
    Frames-bind _ _ (Frames-new_id env)
      (λ id. Frames-bind _ _ (Frames-block_all env it p now rs) (λ rest. Frames-pure _))

pub Frames-publish_if : (b : Bool) (m : M Unit) → Frames m → Frames (publish_if b m)
unfolding publish_if
Frames-publish_if true m h = h
Frames-publish_if false m h = search frame_rules

pub Total-publish_if : (b : Bool) (m : M Unit) → Total m → Total (publish_if b m)
unfolding publish_if
Total-publish_if true m h = h
Total-publish_if false m h = search total_rules

pub Frames-skip :
    (env : Env) (it : Initiative) (ec : EventContext) (fuel : ℕ) (p : Phase)
    → Frames (skip_left_out env it ec fuel p)
unfolding skip_left_out
Frames-skip env it ec zero p = search frame_rules
Frames-skip env it ec (suc fuel) p = Frames-maybe _ _ _ (Frames-pure p) (λ policy.
    Frames-then _ _ (Frames-publish env it ec _ _)
      (Frames-maybe _ _ _ (Frames-pure _) (Frames-skip env it ec fuel)))

pub Total-maybe :
    {A B : Type 0} (o : Option A) (m : M B) (f : A → M B)
    → Total m
    → ((a : A) → Total (f a))
    → Total (maybe o m f)
unfolding maybe
Total-maybe none m f h k = h
Total-maybe (some a) m f h k = k a

pub ruleset service_frames = (
  frame_rules, Frames-publish, Frames-evaluate, Frames-publish_gates, Frames-block_all,
  Frames-publish_if, Frames-skip,
)

pub ruleset service_totals =
    (total_rules, Total-publish, Total-publish_if, Total-update, Total-insert)
