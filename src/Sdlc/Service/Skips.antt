-- ===== src/Sdlc/Service/Skips.antt =====
-- The loop of `CompletePhase` over the phases that the plan leaves out.
use forge_eng_fabric.Prelude.{
  ℕ, zero, suc, ◌+◌, ◌≤◌, ◌<◌, ◌≡◌, ◌≢◌, ◌⊎◌, inl, inr, ap, ◌∙◌, subst, sym, dec_lt, Bool, true,
  false, ◌==◌, Option, none, some, arith, if◌then◌else◌, Bool-cases,
}
use forge_eng_fabric.Sdlc.Types.{Phase, done, Initiative, Targets, TargetPolicy, phase_eq}
use forge_eng_fabric.Sdlc.Phases.{phase_index}
use forge_eng_fabric.Sdlc.Phases.Laws.{
  index-next, index_injective, index_done, index-le, next-total,
}
use forge_eng_fabric.Sdlc.Store.{Env}
use forge_eng_fabric.Sdlc.Store.Frames.{Returns, Returns-pure, Returns-maybe, Returns-then}
use forge_eng_fabric.Sdlc.Events.{EventContext}
use forge_eng_fabric.Sdlc.Advance.{left_out_by, skip_left_out}

-- `q` is the first phase from `p` on that the plan does not leave out, or `done`.
pub record Landed (t : Option Targets) (p q : Phase) : Type 0 where
  pub from : ℕ
  pub to : ℕ
  pub from_index : phase_index p ≡ some from
  pub to_index : phase_index q ≡ some to
  pub forward : from ≤ to
  pub stops : (q ≡ done) ⊎ (left_out_by t q ≡ none)
  pub passes :
      (r : Phase) (k : ℕ) → phase_index r ≡ some k → from ≤ k → k < to → left_out_by t r ≢ none

stay :
    (t : Option Targets) (p : Phase) (i : ℕ)
    → phase_index p ≡ some i
    → (p ≡ done) ⊎ (left_out_by t p ≡ none)
    → Landed t p p
stay t p i e h = record {
  from = i;
  to = i;
  from_index = e;
  to_index = e;
  forward = omega arith;
  stops = h;
  passes = λ r k _ a b. absurd (omega arith);
}

passes_one :
    (t : Option Targets) (p r q s : Phase) (i k : ℕ) (l : Landed t r q)
    → phase_index p ≡ some i
    → l.from ≡ suc i
    → left_out_by t p ≢ none
    → phase_index s ≡ some k
    → i ≤ k
    → k < l.to
    → left_out_by t s ≢ none
passes_one t p r q s i k l e f out g a b = elim (dec_lt i k) [
  | yes h ↦ l.passes s k g (omega arith) b
  | no h ↦
      let same : k ≡ i = omega arith in
      let again : phase_index s ≡ some i = cc in
      subst (λ x. left_out_by t x ≢ none) (index_injective p s e again) out
]

none≢some : {A : Type 0} {a : A} → none ≡ some a → ⊥
none≢some h = cc

true≢false : {b : Bool} → b ≡ true → b ≡ false → ⊥
true≢false h k = cc

stopped :
    (t : Option Targets) (p : Phase)
    → (if p == done then none else left_out_by t p) ≡ none
    → (p ≡ done) ⊎ (left_out_by t p ≡ none)
stopped t p h = elim (Bool-cases (p == done)) [
  | inl d ↦ inl ((phase_eq.decides p done).0 d)
  | inr d ↦ inr (rw d at h)
]

left_out :
    (t : Option Targets) (p : Phase) {policy : TargetPolicy}
    → (if p == done then none else left_out_by t p) ≡ some policy
    → (p ≢ done) × (left_out_by t p ≢ none)
left_out t p h = elim (Bool-cases (p == done)) [
  | inl d ↦ absurd (none≢some (rw d at h))
  | inr d ↦
      (λ e. true≢false ((phase_eq.decides p done).1 e) d, λ e. none≢some (sym e ∙ (rw d at h)))
]

step :
    (t : Option Targets) (p r q : Phase) (i : ℕ) (l : Landed t r q)
    → phase_index p ≡ some i
    → phase_index r ≡ some (suc i)
    → left_out_by t p ≢ none
    → Landed t p q
step t p r q i l e f out =
    let f' : l.from ≡ suc i = ground (arith, l.from_index) in
    record {
      from = i;
      to = l.to;
      from_index = e;
      to_index = l.to_index;
      forward = omega (arith, l.forward);
      stops = l.stops;
      passes = λ s k g a b. passes_one t p r q s i k l e f' out g a b;
    }

-- Which phase the loop ends at: enough fuel is one round for each phase that is left.
pub skip-Landed :
    (env : Env) (it : Initiative) (ec : EventContext) (fuel : ℕ) (p : Phase) (i : ℕ)
    → phase_index p ≡ some i
    → 11 ≤ fuel + i
    → Returns (Landed it.targets p) (skip_left_out env it ec fuel p)
unfolding skip_left_out
skip-Landed env it ec zero p i e h =
    let last : i ≡ 11 = omega (arith, index-le p e) in
    let at_end : p ≡ done = index_injective p done (e ∙ ap some last) index_done in
    Returns-pure p (stay it.targets p i e (inl at_end))
skip-Landed env it ec (suc fuel) p i e h =
    Returns-maybe _ _ _ (λ stop. Returns-pure p (stay it.targets p i e (stopped it.targets p stop)))
      (λ policy out. Returns-then _ _ (
        Returns-maybe _ _ _
          (λ none_next. absurd (next-total p e (left_out it.targets p out).0 none_next))
          (λ r next. record {
            at = λ w q got.
                step it.targets p r q i
                  ((skip-Landed env it ec fuel r (suc i) (index-next p r e next) (omega arith)).at w
                    q got)
                  e (index-next p r e next) (left_out it.targets p out).1;
          })))
