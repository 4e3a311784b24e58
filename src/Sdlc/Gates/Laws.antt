-- ===== src/Sdlc/Gates/Laws.antt =====
-- What the gates ask for, and what the evidence decides.
use forge_eng_fabric.Prelude.{
  leb, ℕ, ◌≤◌, ◌≡◌, ◌⊎◌, refl, inl, inr, String, Bool, true, false, ◌||◌, List, [], ◌∷◌, keep, ◌==◌,
  string_eq, if◌then◌else◌, arith, Member,
}
use forge_eng_fabric.Prelude.Value.{Value}
use forge_eng_fabric.Sdlc.Types.{Phase, gate_passed, gate_failed}
use forge_eng_fabric.Sdlc.Gates.{
  GateDefinition, all_gates, criticality_rank, effective_rank, criticality_at_least, required_gates,
  evaluate_evidence,
}

-- Evidence passes a gate or fails it.
pub outcome_cases :
    (gate_name : String) (v : Value)
    → ((evaluate_evidence gate_name v).0 ≡ gate_passed)
      ⊎ ((evaluate_evidence gate_name v).0 ≡ gate_failed)
unfolding evaluate_evidence
outcome_cases gate_name v = ground arith

keep-Member :
    {A : Type 0} (p q : A → Bool) (a : A) (xs : List A)
    → ((x : A) → p x ≡ true → q x ≡ true)
    → Member a (keep p xs)
    → Member a (keep q xs)
unfolding keep
keep-Member p q a [] h m = m
keep-Member p q a (x ∷ xs) h m = go (keep-Member p q a xs h) (p x) (q x) refl refl m
  where
    go :
        (Member a (keep p xs) → Member a (keep q xs))
        → (b c : Bool) → p x ≡ b
        → q x ≡ c
        → Member a (if b then x ∷ keep p xs else keep p xs)
        → Member a (if c then x ∷ keep q xs else keep q xs)
    go rest true true e k (inl same) = inl same
    go rest true true e k (inr m') = inr (rest m')
    go rest true false e k m' = absurd (let u = h x e in cc)
    go rest false true e k m' = inr (rest m')
    go rest false false e k m' = rest m'

leb_trans : (a b c : ℕ) → leb a b ≡ true → b ≤ c → leb a c ≡ true
leb_trans a b c h k = ground arith

at_least-monotone :
    (low high minimum : String)
    → effective_rank low ≤ effective_rank high
    → criticality_at_least low minimum ≡ true
    → criticality_at_least high minimum ≡ true
unfolding criticality_at_least
at_least-monotone low high minimum h e =
    leb_trans (criticality_rank minimum) (effective_rank low) (effective_rank high) e h

-- A criticality that ranks higher asks for every gate that a lower one asks for, in each phase.
pub gates_grow_with_criticality :
    (phase : Phase) (low high : String) (def : GateDefinition)
    → effective_rank low ≤ effective_rank high
    → Member def (required_gates phase low)
    → Member def (required_gates phase high)
unfolding required_gates
gates_grow_with_criticality phase low high def h m =
    keep-Member _ _ def (all_gates phase) (λ x e. step x (x.min_criticality == "") e) m
  where
    step :
        (x : GateDefinition) (b : Bool)
        → (b || criticality_at_least low x.min_criticality) ≡ true
        → (b || criticality_at_least high x.min_criticality) ≡ true
    step x true e = refl
    step x false e = at_least-monotone low high x.min_criticality h e
