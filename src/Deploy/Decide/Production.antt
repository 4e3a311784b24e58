-- ===== src/Deploy/Decide/Production.antt =====
-- What a deployment satisfies that the policy stage lets through.
use forge_eng_fabric.Prelude.{
  ◌≡◌, ◌≢◌, refl, sym, ap, ◌∙◌, inl, inr, String, Bool, true, false, not, ◌&&◌, ◌||◌, List, [], ◌∷◌,
  ◌++◌, Option, none, some, map, first, All, Bool-cases, if◌then◌else◌, ltb, ◌==◌, nat_eq,
  string_eq, arith,
}
use forge_eng_fabric.Prelude.Text.{trim_space, equal_fold}
use forge_eng_fabric.Deploy.Freeze.{FreezeWindow, is_in}
use forge_eng_fabric.Deploy.Policies.{
  Decision, allow, requires_approval, deny, unlisted, PolicyDecision, DeployRequest, PolicyContext,
  DeploymentPolicy, evaluate, evaluate_approval_prod, evaluate_freeze, evaluate_canary,
  evaluate_rollback_plan, is_high_criticality, default_policies,
}
use forge_eng_fabric.Deploy.Decide.{
  pick, External, not_configured, unavailable, answered, engine_unavailable, decide, goes_on,
  pending_approval, blocked, policy_outcome,
}
use forge_eng_fabric.Deploy.Decide.Laws.{
  is_deny, is_approval, strictest, recorded, decide_by_first_denial,
}

-- Neither a denial nor a request for an approval.
abbrev pub is_open : PolicyDecision → Bool
is_open d = not (is_deny d) && not (is_approval d)

some_not_none : (x : PolicyDecision) → some x ≢ none
some_not_none x h = cc

first-none :
    (p : PolicyDecision → Bool) (ds : List PolicyDecision)
    → first p ds ≡ none
    → All (λ d. p d ≡ false) ds
unfolding first
first-none p [] h = tt
first-none p (d ∷ ds) h = elim (Bool-cases (p d)) [
  | inl u ↦ absurd (some_not_none d (sym (ap (λ b. if b then some d else first p ds) u) ∙ h))
  | inr u ↦ (u, first-none p ds (sym (ap (λ b. if b then some d else first p ds) u) ∙ h))
]

some_injective : (x y : PolicyDecision) → some x ≡ some y → x ≡ y
some_injective x y h = cc

first-some :
    (p : PolicyDecision → Bool) (ds : List PolicyDecision) (x : PolicyDecision)
    → first p ds ≡ some x
    → p x ≡ true
unfolding first
first-some p [] x h = absurd cc
first-some p (d ∷ ds) x h = elim (Bool-cases (p d)) [
  | inl u ↦
      ap p (sym (some_injective d x (sym (ap (λ b. if b then some d else first p ds) u) ∙ h))) ∙ u
  | inr u ↦ first-some p ds x (sym (ap (λ b. if b then some d else first p ds) u) ∙ h)
]

true_not_false : (b : Bool) → b ≡ true → b ≡ false → ⊥
true_not_false b h k = cc

blocked_not_on : (s : String) → blocked s ≢ goes_on
blocked_not_on s h = cc

pending_not_on : (s : String) → pending_approval s ≢ goes_on
pending_not_on s h = cc

-- Only a decision that allows lets the deployment go on.
on_allows :
    (d : PolicyDecision) (x : Decision)
    → d.decision ≡ x
    → policy_outcome d ≡ goes_on
    → is_open d ≡ true
unfolding policy_outcome
on_allows d allow e h = rw e refl
on_allows d requires_approval e h = absurd (
    pending_not_on d.reason
      (sym (let k : policy_outcome d ≡ pending_approval d.reason = rw e refl in k) ∙ h))
on_allows d deny e h = absurd (
    blocked_not_on d.reason
      (sym (let k : policy_outcome d ≡ blocked d.reason = rw e refl in k) ∙ h))
on_allows d (unlisted s) e h = absurd (
    blocked_not_on d.reason
      (sym (let k : policy_outcome d ≡ blocked d.reason = rw e refl in k) ∙ h))

pick_open :
    (ds : List PolicyDecision) (a b : Option PolicyDecision)
    → first is_deny ds ≡ a
    → first is_approval ds ≡ b
    → is_open (pick (record { denial = a; approval = b })) ≡ true
    → All (λ d. is_open d ≡ true) ds
unfolding pick
pick_open ds (some x) b e k h = absurd (
    let u : is_deny x ≡ true = first-some is_deny ds x e in
    true_not_false (is_open x) h (rw u refl))
pick_open ds none (some x) e k h = absurd (
    let u : is_approval x ≡ true = first-some is_approval ds x k in
    true_not_false (is_open x) h (rw u (ground arith)))
pick_open ds none none e k h = both ds (first-none is_deny ds e) (first-none is_approval ds k)
  where
    both :
        (ds : List PolicyDecision)
        → All (λ d. is_deny d ≡ false) ds
        → All (λ d. is_approval d ≡ false) ds
        → All (λ d. is_open d ≡ true) ds
    both [] u v = tt
    both (d ∷ ds) u v = (rw (u.0, v.0) refl, both ds u.1 v.1)

approval_prod_open :
    (req : DeployRequest) (ctx : PolicyContext)
    → equal_fold req.env "prod" ≡ true
    → is_open (evaluate_approval_prod req ctx) ≡ true
    → (ctx.has_approval ≡ true)
      × ((not (ctx.approval_expires_at == 0) && ltb ctx.approval_expires_at ctx.now.instant)
          ≡ false)
      × ((not (ctx.approval_revision_id == "")
            && not (req.image_digest == "")
            && not (equal_fold ctx.approval_revision_id req.image_digest))
          ≡ false)
unfolding evaluate_approval_prod
approval_prod_open req ctx prod h = (ground arith, ground arith, ground arith)

freeze_open :
    (req : DeployRequest) (ctx : PolicyContext) (ws : List FreezeWindow)
    → is_open (evaluate_freeze req ctx ws) ≡ true
    → All (λ w. ((w.env == "" || equal_fold w.env req.env) && is_in w ctx.now) ≡ false) ws
unfolding evaluate_freeze
freeze_open req ctx [] h = tt
freeze_open req ctx (w ∷ ws) h = (ground arith, freeze_open req ctx ws (ground arith))

canary_open :
    (req : DeployRequest)
    → equal_fold req.env "prod" ≡ true
    → is_open (evaluate_canary req) ≡ true
    → (is_high_criticality req.criticality
        && not (req.strategy == "canary" || req.strategy == "blue_green"))
      ≡ false
unfolding evaluate_canary
canary_open req prod h = ground arith

rollback_open :
    (req : DeployRequest)
    → is_open (evaluate_rollback_plan req) ≡ true
    → (is_high_criticality req.criticality && trim_space req.rollback_plan == "") ≡ false
unfolding evaluate_rollback_plan
rollback_open req h = ground arith

-- The stage lets a deployment through only if nothing that it records denies or asks for an approval.
goes_on_open :
    (ps : List DeploymentPolicy) (req : DeployRequest) (ctx : PolicyContext) (external : External)
    → policy_outcome (decide ps req ctx external).0 ≡ goes_on
    → All (λ d. is_open d ≡ true) (recorded ps req ctx external)
unfolding pick
goes_on_open ps req ctx external h =
    let ds = recorded ps req ctx external in
    let g : policy_outcome (strictest ds) ≡ goes_on =
      sym (ap (λ r. policy_outcome r.0) (decide_by_first_denial ps req ctx external)) ∙ h in
    pick_open ds (first is_deny ds) (first is_approval ds) refl refl
      (on_allows (strictest ds) (strictest ds).decision refl g)

last_open :
    (ds : List PolicyDecision) (d : PolicyDecision)
    → All (λ x. is_open x ≡ true) (ds ++ d ∷ [])
    → is_open d ≡ true
last_open [] d h = h.0
last_open (x ∷ ds) d h = last_open ds d h.1

-- The stage fails closed: where the policy engine does not answer, no deployment goes on, whatever
-- the built-in policies say.
pub engine_failure_blocks :
    (ps : List DeploymentPolicy) (req : DeployRequest) (ctx : PolicyContext) (message : String)
    → policy_outcome (decide ps req ctx (unavailable message)).0 ≢ goes_on
engine_failure_blocks ps req ctx message h =
    let u =
      last_open (map (λ p. evaluate p req ctx) ps) (engine_unavailable message)
        (goes_on_open ps req ctx (unavailable message) h) in
    true_not_false (is_open (engine_unavailable message)) u refl

inner_open :
    (req : DeployRequest) (ctx : PolicyContext) (external : External)
    → All (λ d. is_open d ≡ true) (recorded default_policies req ctx external)
    → All (λ d. is_open d ≡ true) (map (λ p. evaluate p req ctx) default_policies)
inner_open req ctx not_configured h = h
inner_open req ctx (unavailable message) h =
    (h.0, (h.1.0, (h.1.1.0, (h.1.1.1.0, (h.1.1.1.1.0, tt)))))
inner_open req ctx (answered d) h = h.1

-- A production deployment that the default policies let through, whatever the policy engine answers,
-- has an approval that is not expired (where it has an expiry) and not for another revision (where
-- the approval and the request name one), is in no freeze window of its environment or of all
-- environments, and, where its criticality is high or critical, goes by canary or blue/green and
-- has a rollback plan.
pub production_deploy_is_safe :
    (req : DeployRequest) (ctx : PolicyContext) (external : External)
    → equal_fold req.env "prod" ≡ true
    → policy_outcome (decide default_policies req ctx external).0 ≡ goes_on
    → (ctx.has_approval ≡ true)
      × ((not (ctx.approval_expires_at == 0) && ltb ctx.approval_expires_at ctx.now.instant)
          ≡ false)
      × ((not (ctx.approval_revision_id == "")
            && not (req.image_digest == "")
            && not (equal_fold ctx.approval_revision_id req.image_digest))
          ≡ false)
      × All
          (λ w. ((w.env == "" || equal_fold w.env req.env) && is_in w ctx.now) ≡ false)
          ctx.freeze_windows
      × ((is_high_criticality req.criticality
            && not (req.strategy == "canary" || req.strategy == "blue_green"))
          ≡ false)
      × ((is_high_criticality req.criticality && trim_space req.rollback_plan == "") ≡ false)
unfolding evaluate
production_deploy_is_safe req ctx external prod h =
    let open_all = inner_open req ctx external (goes_on_open default_policies req ctx external h) in
    let (has, unexpired, bound) = approval_prod_open req ctx prod open_all.1.0 in
    (
      has,
      unexpired,
      bound,
      freeze_open req ctx ctx.freeze_windows open_all.1.1.0,
      canary_open req prod open_all.1.1.1.0,
      rollback_open req open_all.1.1.1.1.0,
    )
