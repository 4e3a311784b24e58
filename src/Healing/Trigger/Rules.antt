-- ===== src/Healing/Trigger/Rules.antt =====
-- What every decision that the trigger takes leaves as it was, by the level of the decision.
use forge_eng_fabric.Prelude.{
  ◌≡◌, refl, sym, subst, ap, ◌∙◌, Bool, true, false, List, Option, none, some, ◌==◌, string_eq,
  if◌then◌else◌,
}
use forge_eng_fabric.Healing.Types.{
  Level, l1, l2, l3, l4, l5, unlisted, Envelope, Action, HealingDecision, IncidentInput,
}
use forge_eng_fabric.Healing.World.{
  Ask, Store, Env, World, M, pure, ◌>>=◌, ◌>>◌, continue, write_store, save_decision,
}
use forge_eng_fabric.Healing.World.Frames.{
  Same, Same-pure, Same-read, Same-new_id, Same-clock, Same-track, same_rules, Gives-pure,
  Gives-then,
}
use forge_eng_fabric.Healing.Runs.Calls.{Same-emit_for, Keeps, Keeps-l3, Keeps-l4, Keeps-l5}
use forge_eng_fabric.Healing.Trigger.{
  Answer, decided, run_level, stop_at, run_decision, limit_rate, trigger_with, trigger_found,
  trigger,
}

-- An action whose result, where it is a decision, satisfies `Q` and then has changed nothing that
-- `f` sees of the calls.
pub record Under (f : List Ask → List Ask) (Q : HealingDecision → Type 0) (m : M Answer)
    : Type 0 where
  pub at :
      (w : World) (d : HealingDecision) → (m w).0 ≡ decided d → Q d → f (m w).1.calls ≡ f w.calls

module _ (f : List Ask → List Ask) (Q : HealingDecision → Type 0) where
  pub Under-Same : (m : M Answer) → Same f m → Under f Q m
  Under-Same m h = record { at = λ w d e q. h.at w }

  continue-Under :
      {A : Type 0} (r : A × World) (g : A → M Answer) (w : World) (d : HealingDecision)
      → f r.1.calls ≡ f w.calls
      → ((a : A) → Under f Q (g a))
      → (continue r g).0 ≡ decided d
      → Q d
      → f (continue r g).1.calls ≡ f w.calls
  unfolding continue
  continue-Under (a, w') g w d h k e q = (k a).at w' d e q ∙ h

  pub Under-bind :
      {A : Type 0} (m : M A) (g : A → M Answer)
      → Same f m
      → ((a : A) → Under f Q (g a))
      → Under f Q (m >>= g)
  unfolding ◌>>=◌
  Under-bind m g h k = record { at = λ w d e q. continue-Under (m w) g w d (h.at w) k e q }

  pub Under-then : (m : M (Unit {0})) (k : M Answer) → Same f m → Under f Q k → Under f Q (m >> k)
  unfolding ◌>>◌
  Under-then m k h j = Under-bind m (λ _. k) h (λ _. j)

  pub Under-if :
      (b : Bool) (m n : M Answer) → Under f Q m → Under f Q n → Under f Q (if b then m else n)
  Under-if true m n h k = h
  Under-if false m n h k = k

Same-stop :
    (f : List Ask → List Ask) (env : Env) (input : IncidentInput) (envelope : Envelope)
    (d : HealingDecision) (b : Bool)
    → Same f (stop_at env input envelope d b)
unfolding stop_at
Same-stop f env input envelope d b = search (same_rules, Same-emit_for)

Keeps-run :
    (env : Env) (input : IncidentInput) (action : Action) (d : HealingDecision) (level : Level)
    → Keeps d (run_level env input action d level)
unfolding run_level
Keeps-run env input action d l1 = Gives-then _ _ (Gives-pure _ refl)
Keeps-run env input action d l2 = Gives-then _ _ (Gives-pure _ refl)
Keeps-run env input action d l3 = Keeps-l3 env input action d
Keeps-run env input action d l4 = Keeps-l4 env input action d
Keeps-run env input action d l5 = Keeps-l5 env input action d
Keeps-run env input action d (unlisted s) = Gives-pure _ refl

pub decided_injective : (a b : HealingDecision) → decided a ≡ decided b → a ≡ b
decided_injective a b h = cc

module _ (f : List Ask → List Ask) (P : Level → Type 0) (env : Env) (input : IncidentInput)
    (action : Action)
    (runs : (d : HealingDecision) → P d.level → Same f (run_level env input action d d.level)) where
  settle :
      (d0 d : HealingDecision) (r : HealingDecision × World) (w : World)
      → r.0.level ≡ d0.level
      → (P d0.level → f r.1.calls ≡ f w.calls)
      → (continue r (λ d'. write_store (save_decision d') >> pure (decided d'))).0 ≡ decided d
      → P d.level
      → f (continue r (λ d'. write_store (save_decision d') >> pure (decided d'))).1.calls
        ≡ f w.calls
  unfolding continue write_store pure ◌>>◌ ◌>>=◌
  settle d0 d (d1, w1) w kept k e p =
      k (subst P (sym (ap (λ (x : HealingDecision). x.level) (decided_injective d1 d e)) ∙ kept) p)

  Under-ran :
      (d : HealingDecision)
      → Under f
          (λ x. P x.level)
          (run_level env input action d d.level >>= λ d'.
            write_store (save_decision d') >> pure (decided d'))
  unfolding ◌>>=◌
  Under-ran d = record {
    at = λ w d' e p.
        settle d d' (run_level env input action d d.level w) w
          ((Keeps-run env input action d d.level).at w) (λ q. (runs d q).at w) e p;
  }

  Under-run_decision :
      (envelope : Envelope) (d : HealingDecision)
      → Under f (λ x. P x.level) (run_decision env input action envelope d)
  unfolding run_decision
  Under-run_decision envelope d =
      Under-then f _ _ _ (Same-emit_for f env input _)
        (Under-then f _ _ _ (Same-emit_for f env input _) (Under-ran d))

  Under-limit :
      (envelope : Envelope) (d : HealingDecision)
      → Under f (λ x. P x.level) (limit_rate env input action envelope d)
  unfolding limit_rate
  Under-limit envelope d =
      Under-if f _ _ _ _
        (Under-bind f _ _ _ (Same-clock f env) (λ now.
          Under-bind f _ _ _ (Same-track f _ now) (λ count.
            Under-if f _ _ _ _ (Under-Same f _ _ (Same-stop f env input envelope _ false))
              (Under-run_decision envelope d))))
        (Under-run_decision envelope d)

  Under-with :
      (envelope : Envelope) (b : Bool)
      → Under f (λ x. P x.level) (trigger_with env input action envelope b)
  unfolding trigger_with
  Under-with envelope b = Under-bind f _ _ _ (Same-new_id f env) (λ id.
      Under-bind f _ _ _ (Same-clock f env) (λ now.
        Under-if f _ b _ _ (Under-Same f _ _ (Same-stop f env input envelope _ true))
          (Under-limit envelope _)))

module _ (f : List Ask → List Ask) (P : Level → Type 0) (env : Env) (input : IncidentInput)
    (runs : (action : Action) (d : HealingDecision)
      → P d.level
      → Same f (run_level env input action d d.level)) where
  Under-found :
      (s : Store) (a : Option Action) (e : Option Envelope)
      → Under f (λ x. P x.level) (trigger_found env input s a e)
  unfolding trigger_found
  Under-found s none e = Under-Same f _ _ (Same-pure f _)
  Under-found s (some action) none = Under-Same f _ _ (Same-pure f _)
  Under-found s (some action) (some envelope) =
      Under-with f P env input action (runs action) envelope _

  pub Under-trigger : Under f (λ x. P x.level) (trigger env input)
  unfolding trigger
  Under-trigger =
      Under-if f _ (input.incident_id == "") _ _ (Under-Same f _ _ (Same-pure f _))
        (Under-bind f _ _ _ (Same-read f) (λ s. Under-found s _ _))
