-- ===== src/Policy/Engine/Laws.antt =====
-- The decision of the engine, described without its loops.
use forge_eng_fabric.Prelude.{
  ◌≡◌, refl, ap, ap₂, sym, ◌∙◌, ◌⊎◌, inl, inr, String, Bool, true, false, not, ◌&&◌, ◌||◌, List, [],
  ◌∷◌, none, some, first, any, ◌==◌, if◌then◌else◌, arith, Bool-cases,
}
use forge_eng_fabric.Policy.Engine.{
  Decision, allow, requires_approval, deny, decision_eq, EvaluateRequest, EvaluateResponse, Rule,
  Outcome, ok, err, new_engine, insert_rule, most_restrictive, Evaluator, eval_condition, collect,
  matching, respond, evaluate,
}

abbrev pub is_ok_true : Outcome Bool → Bool
is_ok_true (ok holds) = holds
is_ok_true (err e) = false

abbrev pub is_err : Outcome Bool → Bool
is_err (ok holds) = false
is_err (err e) = true

-- The condition of the rule holds of the request.
abbrev pub matches : Evaluator → EvaluateRequest → Rule → Bool
matches cel req r = is_ok_true (eval_condition cel r.condition req)

-- The evaluation of the rule's condition fails.
abbrev pub fails : Evaluator → EvaluateRequest → Rule → Bool
fails cel req r = is_err (eval_condition cel r.condition req)

-- The strictest decision for which some rule matches; `allow` where none denies or asks for approval.
abbrev pub strictest : Evaluator → EvaluateRequest → List Rule → Decision
strictest cel req rules =
    if any (λ r. matches cel req r && r.decision == deny) rules
    then deny
    else if any (λ r. matches cel req r && r.decision == requires_approval) rules
    then requires_approval
    else allow

any-first :
    (d : Decision) (rules : List Rule)
    → ((first (λ r. r.decision == d) rules ≡ none) × (any (λ r. r.decision == d) rules ≡ false))
      ⊎ ((r : Rule) × (first (λ r. r.decision == d) rules ≡ some r)
          × (r.decision ≡ d)
          × (any (λ r. r.decision == d) rules ≡ true))
unfolding first
any-first d [] = inl (refl, refl)
any-first d (r ∷ rules) = elim (Bool-cases (r.decision == d)) [
  | inl h ↦ inr (r, rw h refl, (decision_eq.decides r.decision d).0 h, rw h refl)
  | inr h ↦ rw h (any-first d rules)
]

-- The decision of the nested loops.
most_restrictive-decision :
    (rules : List Rule)
    → (most_restrictive rules).decision ≡ (
        if any (λ r. r.decision == deny) rules
        then deny
        else if any (λ r. r.decision == requires_approval) rules
        then requires_approval
        else allow)
unfolding most_restrictive
most_restrictive-decision rules =
    ground (arith, any-first deny rules, any-first requires_approval rules, any-first allow rules)

err≢ok : {A : Type 0} {e : String} {a : A} → err e ≡ ok a → ⊥
err≢ok h = cc

ok-injective : {A : Type 0} {a b : A} → Outcome.ok a ≡ ok b → a ≡ b
ok-injective h = cc

any-collect :
    (d : Decision) (r : Rule) (o : Outcome Bool) (rest : Outcome (List Rule)) (matched : List Rule)
    → collect r o rest ≡ ok matched
    → (ms : List Rule) × (rest ≡ ok ms)
      × (any (λ s. s.decision == d) matched
          ≡ ((is_ok_true o && r.decision == d) || any (λ s. s.decision == d) ms))
unfolding collect
any-collect d r (err e) rest matched h = absurd (err≢ok h)
any-collect d r (ok b) (err e) matched h = absurd (err≢ok h)
any-collect d r (ok true) (ok ms) matched h =
    (ms, refl, ap (any (λ s. s.decision == d)) (sym (ok-injective h)))
any-collect d r (ok false) (ok ms) matched h =
    (ms, refl, ap (any (λ s. s.decision == d)) (sym (ok-injective h)))

-- What is collected are the rules that match.
any-matching :
    (cel : Evaluator) (req : EvaluateRequest) (d : Decision) (rules matched : List Rule)
    → matching cel req rules ≡ ok matched
    → any (λ r. r.decision == d) matched ≡ any (λ r. matches cel req r && r.decision == d) rules
unfolding matching
any-matching cel req d [] matched h = ap (any (λ r. r.decision == d)) (sym (ok-injective h))
any-matching cel req d (r ∷ rules) matched h =
    let (ms, rest, e) =
      any-collect d r (eval_condition cel r.condition req) (matching cel req rules) matched h in
    e
    ∙ ap (λ (x : Bool). (matches cel req r && r.decision == d) || x)
        (any-matching cel req d rules ms rest)

-- The loop, over what is known of its rest.
abbrev Answers : Bool → Outcome (List Rule) → Type 0
Answers failed o =
    ((failed ≡ true) × ((e : String) × (o ≡ err e)))
    ⊎ ((failed ≡ false) × ((ms : List Rule) × (o ≡ ok ms)))

collect-Answers :
    (r : Rule) (o : Outcome Bool) (rest : Outcome (List Rule)) (failed : Bool)
    → Answers failed rest
    → Answers (is_err o || failed) (collect r o rest)
unfolding collect
collect-Answers r (err e) rest failed h = inl (refl, (_, refl))
collect-Answers r (ok b) (err e) failed (inl h) = inl (h.0, (_, refl))
collect-Answers r (ok b) (err e) failed (inr h) = absurd (err≢ok (h.1).1)
collect-Answers r (ok b) (ok ms) failed (inl h) = absurd (err≢ok (sym (h.1).1))
collect-Answers r (ok b) (ok ms) failed (inr h) = inr (h.0, (_, refl))

matching-Answers :
    (cel : Evaluator) (req : EvaluateRequest) (rules : List Rule)
    → Answers (any (fails cel req) rules) (matching cel req rules)
unfolding matching
matching-Answers cel req [] = inr (refl, ([], refl))
matching-Answers cel req (r ∷ rules) =
    collect-Answers r (eval_condition cel r.condition req) (matching cel req rules)
      (any (fails cel req) rules) (matching-Answers cel req rules)

any-insert :
    (p : Rule → Bool) (r : Rule) (rules : List Rule)
    → any p (insert_rule r rules) ≡ (p r || any p rules)
unfolding insert_rule
any-insert p r [] = refl
any-insert p r (s ∷ rules) = ground (arith, any-insert p r rules)

any-new_engine : (p : Rule → Bool) (rules : List Rule) → any p (new_engine rules) ≡ any p rules
unfolding new_engine
any-new_engine p [] = refl
any-new_engine p (r ∷ rules) =
    any-insert p r (new_engine rules) ∙ ap (λ (b : Bool). p r || b) (any-new_engine p rules)

respond_err_is : (e : String) → respond (err e) ≡ err e
unfolding respond
respond_err_is e = refl

respond_err : (e : String) {resp : EvaluateResponse} → respond (err e) ≡ ok resp → ⊥
unfolding respond
respond_err e h = cc

respond_ok : (ms : List Rule) → (resp : EvaluateResponse) × (respond (ok ms) ≡ ok resp)
unfolding respond
respond_ok [] = (_, refl)
respond_ok (m ∷ ms) = (_, refl)

respond-decision :
    (ms : List Rule) (resp : EvaluateResponse)
    → respond (ok ms) ≡ ok resp
    → resp.decision ≡ (
        if any (λ r. r.decision == deny) ms
        then deny
        else if any (λ r. r.decision == requires_approval) ms
        then requires_approval
        else allow)
unfolding respond
respond-decision [] resp h = ap (λ (r : EvaluateResponse). r.decision) (sym (ok-injective h))
respond-decision (m ∷ ms) resp h =
    ap (λ (r : EvaluateResponse). r.decision) (sym (ok-injective h))
    ∙ most_restrictive-decision (m ∷ ms)

evaluate-strictest :
    (cel : Evaluator) (rules : List Rule) (req : EvaluateRequest) (resp : EvaluateResponse)
    → evaluate cel rules req ≡ ok resp
    → resp.decision ≡ strictest cel req rules
unfolding evaluate
evaluate-strictest cel rules req resp h = elim (matching-Answers cel req rules) [
  | inl (f, (e, m)) ↦ absurd (respond_err e (rw m at h))
  | inr (f, (ms, m)) ↦
      respond-decision ms resp (rw m at h)
      ∙ ap₂ (λ (a b : Bool). if a then deny else if b then requires_approval else allow)
          (any-matching cel req deny rules ms m) (any-matching cel req requires_approval rules ms m)
]

-- An engine that answers gives the strictest decision for which one of the policies that it was
-- built from matches: `deny` before `requires_approval` before `allow`. Neither the order of the
-- policies nor their priorities can change it.
pub engine_gives_strictest :
    (cel : Evaluator) (rules : List Rule) (req : EvaluateRequest) (resp : EvaluateResponse)
    → evaluate cel (new_engine rules) req ≡ ok resp
    → resp.decision ≡ strictest cel req rules
engine_gives_strictest cel rules req resp h =
    evaluate-strictest cel (new_engine rules) req resp h
    ∙ ap₂ (λ (a b : Bool). if a then deny else if b then requires_approval else allow)
        (any-new_engine _ rules) (any-new_engine _ rules)

-- The engine answers, rather than failing.
abbrev pub is_answer : Outcome EvaluateResponse → Bool
is_answer (ok resp) = true
is_answer (err e) = false

-- The engine answers exactly where no condition fails: where the condition of any policy fails, of
-- whatever priority, the request gets an error and no decision.
pub engine_answers_iff_none_fails :
    (cel : Evaluator) (rules : List Rule) (req : EvaluateRequest)
    → is_answer (evaluate cel (new_engine rules) req) ≡ not (any (fails cel req) rules)
unfolding evaluate
engine_answers_iff_none_fails cel rules req =
    let same = any-new_engine (fails cel req) rules in
    elim (matching-Answers cel req (new_engine rules)) [
      | inl (f, (e, m)) ↦ rw (m, sym same ∙ f) (ap is_answer (respond_err_is e))
      | inr (f, (ms, m)) ↦ rw (m, sym same ∙ f) (ap is_answer (respond_ok ms).1)
    ]
