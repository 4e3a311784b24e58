-- ===== src/Deploy/Decide/Laws.antt =====
-- What the policy stage decides, and what a deployment that it lets through satisfies.
use forge_eng_fabric.Prelude.{
  ◌≡◌, refl, sym, ap, ◌∙◌, inl, inr, Bool, true, false, List, [], ◌∷◌, ◌++◌, Option, none, some,
  map, first, Option-cases, ap₂, if◌then◌else◌,
}
use forge_eng_fabric.Deploy.Policies.{
  Decision, allow, requires_approval, deny, unlisted, PolicyDecision, DeployRequest, PolicyContext,
  DeploymentPolicy, evaluate,
}
use forge_eng_fabric.Deploy.Decide.{
  Found, nothing_found, note, pick, run_policies_from, evaluate_policies, scan, most_restrictive,
  External, not_configured, unavailable, answered, engine_unavailable, decide,
}

abbrev pub is_deny : PolicyDecision → Bool
is_deny d = elim d.decision [
  | deny ↦ true
  | allow ↦ false
  | requires_approval ↦ false
  | unlisted s ↦ false
]

abbrev pub is_approval : PolicyDecision → Bool
is_approval d = elim d.decision [
  | deny ↦ false
  | allow ↦ false
  | requires_approval ↦ true
  | unlisted s ↦ false
]

abbrev or_else : {A : Type 0} → Option A → Option A → Option A
or_else none o = o
or_else (some a) o = some a

is_deny_of :
    (d : PolicyDecision) (f : Found) (rest : Option PolicyDecision) (x : Decision)
    → d.decision ≡ x
    → (or_else (note d f).denial rest ≡ or_else f.denial (if is_deny d then some d else rest))
unfolding note
is_deny_of d f rest allow e = rw e refl
is_deny_of d f rest requires_approval e = rw e refl
is_deny_of d f rest deny e =
    rw e (elim (Option-cases f.denial) [ inl n ↦ rw n refl | inr (a, n) ↦ rw n refl ])
is_deny_of d f rest (unlisted s) e = rw e refl

is_approval_of :
    (d : PolicyDecision) (f : Found) (rest : Option PolicyDecision) (x : Decision)
    → d.decision ≡ x
    → (or_else (note d f).approval rest
        ≡ or_else f.approval (if is_approval d then some d else rest))
unfolding note
is_approval_of d f rest allow e = rw e refl
is_approval_of d f rest deny e = rw e refl
is_approval_of d f rest requires_approval e =
    rw e (elim (Option-cases f.approval) [ inl n ↦ rw n refl | inr (a, n) ↦ rw n refl ])
is_approval_of d f rest (unlisted s) e = rw e refl

or_else-none : (o : Option PolicyDecision) → or_else o none ≡ o
or_else-none none = refl
or_else-none (some d) = refl

scan_denial :
    (ds : List PolicyDecision) (f : Found)
    → (scan ds f).denial ≡ or_else f.denial (first is_deny ds)
unfolding scan first
scan_denial [] f = sym (or_else-none f.denial)
scan_denial (d ∷ ds) f =
    scan_denial ds (note d f) ∙ is_deny_of d f (first is_deny ds) d.decision refl

scan_approval :
    (ds : List PolicyDecision) (f : Found)
    → (scan ds f).approval ≡ or_else f.approval (first is_approval ds)
unfolding scan first
scan_approval [] f = sym (or_else-none f.approval)
scan_approval (d ∷ ds) f =
    scan_approval ds (note d f) ∙ is_approval_of d f (first is_approval ds) d.decision refl

-- The first denial, else the first request for an approval, else that all policies allow.
abbrev pub strictest : List PolicyDecision → PolicyDecision
strictest ds = elim (first is_deny ds) as (λ _. PolicyDecision) [
  | some d ↦ d
  | none ↦ elim (first is_approval ds) as (λ _. PolicyDecision) [
    | some d ↦ d
    | none ↦ record {
      policy_id = "";
      decision = allow;
      rationale = "all policies allowed";
      reason = "";
      required_approvers = [];
    }
  ]
]

most_restrictive-strictest : (ds : List PolicyDecision) → most_restrictive ds ≡ strictest ds
unfolding most_restrictive pick
most_restrictive-strictest ds =
    ap₂ (λ a b. pick (record { denial = a; approval = b })) (scan_denial ds nothing_found)
      (scan_approval ds nothing_found)

run_policies_lem :
    (ps : List DeploymentPolicy) (req : DeployRequest) (ctx : PolicyContext) (f : Found)
    → run_policies_from ps req ctx f
      ≡ (scan (map (λ p. evaluate p req ctx) ps) f, map (λ p. evaluate p req ctx) ps)
unfolding run_policies_from scan
run_policies_lem [] req ctx f = refl
run_policies_lem (p ∷ ps) req ctx f =
    ap (λ r. (r.0, evaluate p req ctx ∷ r.1))
      (run_policies_lem ps req ctx (note (evaluate p req ctx) f))

-- What the policy stage records: the evaluation of each policy in order, with the answer of the policy
-- engine before them, or its failure after them.
abbrev pub recorded :
    List DeploymentPolicy → DeployRequest → PolicyContext → External → List PolicyDecision
recorded ps req ctx not_configured = map (λ p. evaluate p req ctx) ps
recorded ps req ctx (unavailable message) =
    map (λ p. evaluate p req ctx) ps ++ engine_unavailable message ∷ []
recorded ps req ctx (answered d) = d ∷ map (λ p. evaluate p req ctx) ps

-- The policy stage decides by the first denial of what it records, else by the first request for an
-- approval, else it allows; and it records every evaluation, with the answer of the policy engine
-- first, or its failure last.
pub decide_by_first_denial :
    (ps : List DeploymentPolicy) (req : DeployRequest) (ctx : PolicyContext) (external : External)
    → decide ps req ctx external
      ≡ (strictest (recorded ps req ctx external), recorded ps req ctx external)
unfolding decide evaluate_policies
decide_by_first_denial ps req ctx not_configured = rw (run_policies_lem ps req ctx nothing_found) (
    ap (λ d. (d, map (λ p. evaluate p req ctx) ps))
      (most_restrictive-strictest (map (λ p. evaluate p req ctx) ps)))
decide_by_first_denial ps req ctx (unavailable message) =
    rw (run_policies_lem ps req ctx nothing_found) (
      ap (λ d. (d, recorded ps req ctx (unavailable message)))
        (most_restrictive-strictest (recorded ps req ctx (unavailable message))))
decide_by_first_denial ps req ctx (answered d) = rw (run_policies_lem ps req ctx nothing_found) (
    ap (λ x. (x, recorded ps req ctx (answered d)))
      (most_restrictive-strictest (recorded ps req ctx (answered d))))
