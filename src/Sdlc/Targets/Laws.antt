-- ===== src/Sdlc/Targets/Laws.antt =====
-- The merge of a spec's targets into the application's only tightens.
use forge_eng_fabric.Prelude.{
  ◌≤◌, ◌≡◌, refl, sym, ap, subst, ◌∙◌, inl, inr, Bool, true, false, Option, none, some, List, [],
  ◌∷◌, ltb, ◌==◌, Bool-cases, arith, if◌then◌else◌,
}
use forge_eng_fabric.Prelude.Assoc.{lookup, insert, lookup-insert_self, lookup-insert_ne}
use forge_eng_fabric.Sdlc.Types.{
  Phase, TargetPolicy, required, optional, opt_in, skipped, other, Targets, Result, ok, err,
  cannot_relax_required, phase_eq, policy_eq,
}
use forge_eng_fabric.Sdlc.Targets.{policy_of, rank, merge_from, merge_targets, promote}

policy_of-insert_self :
    (p : Phase) (v : TargetPolicy) (m : Targets) → policy_of (insert p v m) p ≡ v
unfolding policy_of
policy_of-insert_self p v m = rw (lookup-insert_self p v m, policy_of) refl

policy_of-insert_ne :
    (p q : Phase) (v : TargetPolicy) (m : Targets)
    → (p == q) ≡ false
    → policy_of (insert p v m) q ≡ policy_of m q
unfolding policy_of
policy_of-insert_ne p q v m h = rw (lookup-insert_ne p q v m h, policy_of) refl

-- One write of the loop lowers no policy.
insert-tightens :
    (p q : Phase) (v : TargetPolicy) (m : Targets)
    → ltb (rank v) (rank (policy_of m p)) ≡ false
    → rank (policy_of m q) ≤ rank (policy_of (insert p v m) q)
insert-tightens p q v m h = elim (Bool-cases (p == q)) [
  | inl same ↦
      let e : p ≡ q = (phase_eq.decides p q).0 same in
      let w : policy_of (insert p v m) q ≡ v =
        ap (λ r. policy_of (insert p v m) r) (sym e) ∙ policy_of-insert_self p v m in
      let u : policy_of m q ≡ policy_of m p = ap (λ r. policy_of m r) (sym e) in
      rw (w, u) (ground arith)
  | inr differs ↦ rw (policy_of-insert_ne p q v m differs) (ground arith)
]

err≢ok :
    (p : Phase) (a b : TargetPolicy) (m : Targets)
    → ◌≡◌ {A = Result Targets} (err (cannot_relax_required p a b)) (ok m)
    → ⊥
err≢ok p a b m h = cc

merge_from-tightens :
    (app rest m : Targets) (q : Phase)
    → merge_from app rest ≡ ok m
    → rank (policy_of app q) ≤ rank (policy_of m q)
unfolding merge_from
merge_from-tightens app [] m q h = let e : app ≡ m = cc in rw e (omega arith)
merge_from-tightens app ((p, v) ∷ rest) m q h =
    elim (Bool-cases (ltb (rank v) (rank (policy_of app p)))) [
      | inl lower ↦ absurd (
          err≢ok p (policy_of app p) v m (
            sym (
              ap
                (λ b.
                  if b
                  then err (cannot_relax_required p (policy_of app p) v)
                  else merge_from (insert p v app) rest)
                lower)
            ∙ h))
      | inr higher ↦
          let k = merge_from-tightens (insert p v app) rest m q (
            sym (
              ap
                (λ b.
                  if b
                  then err (cannot_relax_required p (policy_of app p) v)
                  else merge_from (insert p v app) rest)
                higher)
            ∙ h) in
          let u = insert-tightens p q v app higher in omega (arith, k, u)
    ]

-- What a spec may make of a policy: what is required stays required, what is optional stays in the
-- plan without being asked for, and what is opt-in is not skipped.
unfoldable pub is_as_tight : TargetPolicy → TargetPolicy → Bool
is_as_tight required required = true
is_as_tight required _ = false
is_as_tight optional required = true
is_as_tight optional optional = true
is_as_tight optional _ = false
is_as_tight opt_in required = true
is_as_tight opt_in optional = true
is_as_tight opt_in opt_in = true
is_as_tight opt_in _ = false
is_as_tight skipped _ = true
is_as_tight (other s) _ = true

rank-is_as_tight : (a b : TargetPolicy) → rank a ≤ rank b → is_as_tight a b ≡ true
unfolding rank is_as_tight
rank-is_as_tight required required h = refl
rank-is_as_tight required optional h = absurd (omega arith)
rank-is_as_tight required opt_in h = absurd (omega arith)
rank-is_as_tight required skipped h = absurd (omega arith)
rank-is_as_tight required (other s) h = absurd (omega arith)
rank-is_as_tight optional required h = refl
rank-is_as_tight optional optional h = refl
rank-is_as_tight optional opt_in h = absurd (omega arith)
rank-is_as_tight optional skipped h = absurd (omega arith)
rank-is_as_tight optional (other s) h = absurd (omega arith)
rank-is_as_tight opt_in required h = refl
rank-is_as_tight opt_in optional h = refl
rank-is_as_tight opt_in opt_in h = refl
rank-is_as_tight opt_in skipped h = absurd (omega arith)
rank-is_as_tight opt_in (other s) h = absurd (omega arith)
rank-is_as_tight skipped b h = refl
rank-is_as_tight (other s) b h = refl

insert-lists :
    (p q : Phase) (u v : TargetPolicy) (m : Targets)
    → lookup q m ≡ some v
    → (v' : TargetPolicy) × (lookup q (insert p u m) ≡ some v')
insert-lists p q u v m h = elim (Bool-cases (p == q)) [
  | inl same ↦ (
    u,
    subst (λ r. lookup r (insert p u m) ≡ some u) ((phase_eq.decides p q).0 same)
        (lookup-insert_self p u m),
  )
  | inr differs ↦ (v, lookup-insert_ne p q u m differs ∙ h)
]

merge_from-lists :
    (app rest m : Targets) (q : Phase) (v : TargetPolicy)
    → merge_from app rest ≡ ok m
    → lookup q app ≡ some v
    → (v' : TargetPolicy) × (lookup q m ≡ some v')
unfolding merge_from
merge_from-lists app [] m q v h k =
    let e : app ≡ m = cc in (v, subst (λ t. lookup q t ≡ some v) e k)
merge_from-lists app ((p, u) ∷ rest) m q v h k =
    elim (Bool-cases (ltb (rank u) (rank (policy_of app p)))) [
      | inl lower ↦ absurd (err≢ok p (policy_of app p) u m (sym (branch lower) ∙ h))
      | inr higher ↦
          let (v', k') = insert-lists p q u v app k in
          merge_from-lists (insert p u app) rest m q v' (sym (branch higher) ∙ h) k'
    ]
  where
    branch :
        {b : Bool}
        → ltb (rank u) (rank (policy_of app p)) ≡ b
        → merge_from app ((p, u) ∷ rest) ≡ (
            if b
            then err (cannot_relax_required p (policy_of app p) u)
            else merge_from (insert p u app) rest)
    branch e =
        ap
          (λ c.
            if c
            then err (cannot_relax_required p (policy_of app p) u)
            else merge_from (insert p u app) rest)
          e

policy_of-listed :
    (m : Targets) (q : Phase) (v : TargetPolicy) → lookup q m ≡ some v → policy_of m q ≡ v
unfolding policy_of
policy_of-listed m q v h =
    ap (λ (o : Option TargetPolicy). elim o as (λ _. TargetPolicy) [ none ↦ other "" | some u ↦ u ])
      h

-- Where a merge succeeds, each phase that the application's targets list is listed after it: as
-- required, if it was required; as required or optional, if it was optional; and not as skipped or
-- by a policy that is none of the constants, if it was opt-in.
pub merge_only_tightens :
    (app override m : Targets) (q : Phase) (v : TargetPolicy)
    → merge_targets app override ≡ ok m
    → lookup q app ≡ some v
    → (v' : TargetPolicy) × (lookup q m ≡ some v') × (is_as_tight v v' ≡ true)
unfolding merge_targets
merge_only_tightens app override m q v h k =
    let (v', k') = merge_from-lists app override m q v h k in
    let before = policy_of-listed app q v k in
    let after = policy_of-listed m q v' k' in
    let higher = merge_from-tightens app override m q h in
    (
      v',
      k',
      rank-is_as_tight v v' (
          subst (λ u. rank u ≤ rank v') before
            (subst (λ u. rank (policy_of app q) ≤ rank u) after higher)),
    )

required_top : (v : TargetPolicy) → ltb (rank required) (rank v) ≡ false
unfolding rank
required_top required = refl
required_top optional = refl
required_top opt_in = refl
required_top skipped = refl
required_top (other s) = refl

-- The phases that a request includes: promoting them lowers the policy of no phase.
pub promote_only_tightens :
    (targets : Targets) (included : List Phase) (q : Phase)
    → rank (policy_of targets q) ≤ rank (policy_of (promote targets included) q)
unfolding promote
promote_only_tightens targets [] q = omega arith
promote_only_tightens targets (p ∷ ps) q = elim (Bool-cases (policy_of targets p == opt_in)) [
  | inl asks ↦ rw asks (
      let k = promote_only_tightens (insert p required targets) ps q in
      let u = insert-tightens p q required targets (required_top (policy_of targets p)) in
      omega (arith, k, u))
  | inr other_policy ↦ rw other_policy (promote_only_tightens targets ps q)
]
