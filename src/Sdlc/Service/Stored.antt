-- ===== src/Sdlc/Service/Stored.antt =====
-- What a call returns is what it stores.
use forge_eng_fabric.Prelude.{
  ◌≡◌, refl, ap, ◌∙◌, subst, sym, Bool, true, false, not, ◌&&◌, Option, none, some, List, String,
  string_eq, ltb, length, ◌==◌, if◌then◌else◌,
}
use forge_eng_fabric.Prelude.Assoc.{lookup, insert, lookup-insert_self}
use forge_eng_fabric.Sdlc.Types.{
  Phase, Initiative, GateResult, TargetPolicy, optional, policy_eq, CompletePhaseRequest, Error,
  Result, ok, err,
}
use forge_eng_fabric.Sdlc.Store.{
  Env, World, M, pure, raise, continue, ◌>>=◌, ◌>>◌, clock, put, update_initiative,
}
use forge_eng_fabric.Sdlc.Store.Frames.{
  Frames, Returns, Returns-pure, Returns-then, Frames-then, Frames-pure,
}
use forge_eng_fabric.Sdlc.Events.{EventContext}
use forge_eng_fabric.Sdlc.Evaluate.{failed_gates, validate_override}
use forge_eng_fabric.Sdlc.Advance.{plan_policy, block_phase, advance_phase, advanced}
use forge_eng_fabric.Sdlc.Service.{refuse_phase, settle_phase, run_gates, regress_found, regressed}
use forge_eng_fabric.Sdlc.Service.Rules.{Frames-publish, Frames-publish_if}

-- The initiative that the action returns stands in the store under the identifier.
pub record Stores (id : String) (m : M Initiative) : Type 0 where
  pub at : (w : World) (s : Initiative) → (m w).0 ≡ ok s → lookup id (m w).1.initiatives ≡ some s

continue-Stores :
    {A : Type 0} {id : String} (r : Result A × World) (f : A → M Initiative) (s : Initiative)
    → ((a : A) → Stores id (f a))
    → (continue r f).0 ≡ ok s
    → lookup id (continue r f).1.initiatives ≡ some s
unfolding continue
continue-Stores (ok a, w) f s k h = (k a).at w s h
continue-Stores (err e, w) f s k h = cc

Stores-bind :
    {A : Type 0} {id : String} (m : M A) (f : A → M Initiative)
    → ((a : A) → Stores id (f a))
    → Stores id (m >>= f)
unfolding ◌>>=◌
Stores-bind m f k = record { at = λ w s h. continue-Stores (m w) f s k h }

Stores-then : {id : String} (m : M (Unit {0})) (k : M Initiative) → Stores id k → Stores id (m >> k)
unfolding ◌>>◌
Stores-then m k h = Stores-bind m (λ _. k) (λ _. h)

Stores-raise : {id : String} (e : Error) → Stores id (raise e)
unfolding raise
Stores-raise e = record { at = λ w s h. cc }

Stores-if :
    {id : String} (b : Bool) (m n : M Initiative)
    → Stores id m
    → Stores id n
    → Stores id (if b then m else n)
Stores-if true m n h k = h
Stores-if false m n h k = k

-- A write, after which the store is left alone and what was written is returned.
Stores-written :
    {id : String} (env : Env) (it : Initiative) (f : Initiative → M Initiative)
    → it.id ≡ id
    → ((s : Initiative) → Frames (f s))
    → ((s : Initiative) → Returns (λ a. a ≡ s) (f s))
    → Stores id (update_initiative env it >>= f)
unfolding update_initiative ◌>>=◌ ◌>>◌ continue clock put pure
Stores-written env it f same frames returns = record {
  at = λ w s h.
      let stored : Initiative = record it { updated_at = env.now w.readings } in
      ap (lookup _) ((frames stored).at _)
      ∙ subst (λ j. lookup j (insert it.id stored w.initiatives) ≡ some stored) same
          (lookup-insert_self it.id stored w.initiatives)
      ∙ ap some (sym ((returns stored).at _ s h));
}

pub Stores-advance :
    (env : Env) (it : Initiative) (p : Phase) (req : CompletePhaseRequest) (b : Bool)
    → Stores it.id (advance_phase env it p req b)
unfolding advance_phase advanced
Stores-advance env it p req b = Stores-bind _ _ (λ now. Stores-then _ _ (
    Stores-bind _ _ (λ first. Stores-bind _ _ (λ next.
      Stores-written env _ _ refl
        (λ s.
          Frames-then _ _ (Frames-publish env s _ _ _)
            (Frames-then _ _ (Frames-publish_if _ _ (Frames-publish env s _ _ _)) (Frames-pure s)))
        (λ s. Returns-then _ _ (Returns-then _ _ (Returns-pure s refl)))))))

Stores-block :
    (env : Env) (it : Initiative) (p : Phase) (ec : EventContext) (policy : TargetPolicy)
    (failed : List GateResult)
    → Stores it.id (block_phase env it p ec policy failed)
unfolding block_phase
Stores-block env it p ec policy failed = Stores-bind _ _ (λ now. Stores-bind _ _ (λ added.
    Stores-written env _ _ refl (λ s. Frames-then _ _ (Frames-publish env s _ _ _) (Frames-pure s))
      (λ s. Returns-then _ _ (Returns-pure s refl))))

Stores-refuse :
    (env : Env) (it : Initiative) (p : Phase) (req : CompletePhaseRequest)
    (failed : List GateResult) (o : Option Error)
    → Stores it.id (refuse_phase env it p req failed o)
unfolding refuse_phase
Stores-refuse env it p req failed (some e) = Stores-raise e
Stores-refuse env it p req failed none =
    Stores-if (plan_policy it.targets p == optional) _ _
      (Stores-then _ _ (Stores-advance env it p req false)) (Stores-block env it p _ _ failed)

Stores-settle :
    (env : Env) (it : Initiative) (p : Phase) (req : CompletePhaseRequest) (rs : List GateResult)
    → Stores it.id (settle_phase env it p req rs)
unfolding settle_phase
Stores-settle env it p req rs =
    Stores-if (ltb 0 (length (failed_gates rs)) && not (validate_override req.override).0) _ _
      (Stores-refuse env it p req _ _) (Stores-advance env it p req _)

-- Whether the gates let the phase pass or block it.
pub Stores-run_gates :
    (env : Env) (it : Initiative) (p : Phase) (req : CompletePhaseRequest)
    → Stores it.id (run_gates env it p req)
unfolding run_gates
Stores-run_gates env it p req =
    Stores-bind _ _ (λ rs. Stores-then _ _ (Stores-settle env _ p req rs))

pub Stores-regress :
    (env : Env) (it : Initiative) (to : Phase) (req : CompletePhaseRequest)
    → Stores it.id (regress_found env to req it)
unfolding regress_found regressed
Stores-regress env it to req = Stores-bind _ _ (λ now.
    Stores-written env _ _ refl (λ s. Frames-then _ _ (Frames-publish env s _ _ _) (Frames-pure s))
      (λ s. Returns-then _ _ (Returns-pure s refl)))
