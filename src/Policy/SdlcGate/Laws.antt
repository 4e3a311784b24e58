-- ===== src/Policy/SdlcGate/Laws.antt =====
-- What an evaluation of the SDLC gates returns.
use forge_eng_fabric.Prelude.{
  ◌≡◌, ◌≢◌, refl, sym, ap, ap₂, ◌∙◌, String, Bool, true, false, List, [], ◌∷◌, map, keep, string_eq,
}
use forge_eng_fabric.Prelude.Text.{◌+s◌}
use forge_eng_fabric.Policy.Engine.{Outcome, ok, err}
use forge_eng_fabric.Policy.SdlcGate.{
  Thresholds, SdlcGateTemplate, SdlcGateEvaluateRequest, SdlcGateResult, GateEvaluator,
  effective_criticality, is_selected, is_below, skipped, judged, eval_gate_condition,
  merge_thresholds, defaults_at, judge, judge_all, require_some, evaluate_sdlc_gate,
}

ok_injective : {A : Type 0} (x y : A) → ok x ≡ ok y → x ≡ y
ok_injective x y h = cc

err≢ok : {A : Type 0} (e : String) (y : A) → ◌≡◌ {A = Outcome A} (err e) (ok y) → ⊥
err≢ok e y h = cc

module _ (cel : GateEvaluator) (req : SdlcGateEvaluateRequest) where
  abbrev thresholds_of : SdlcGateTemplate → Thresholds
  thresholds_of t =
      merge_thresholds (defaults_at t (effective_criticality req.criticality)) req.thresholds

  judge-id :
      (t : SdlcGateTemplate) (r : SdlcGateResult) → judge cel req t ≡ ok r → r.policy_id ≡ t.id
  unfolding judge
  judge-id t r h =
      go (is_below (effective_criticality req.criticality) t)
        (eval_gate_condition cel t.condition req (thresholds_of t)) refl refl
    where
      of_ok :
          (x : SdlcGateResult) → x.policy_id ≡ t.id → judge cel req t ≡ ok x → r.policy_id ≡ t.id
      of_ok x e k = ap (λ (y : SdlcGateResult). y.policy_id) (ok_injective r x (sym h ∙ k)) ∙ e

      go :
          (b : Bool) (o : Outcome Bool)
          → is_below (effective_criticality req.criticality) t ≡ b
          → eval_gate_condition cel t.condition req (thresholds_of t) ≡ o
          → r.policy_id ≡ t.id
      go true o eb eo = of_ok (skipped t) refl (rw (eb, judge) refl)
      go false (ok passed) eb eo =
          of_ok (judged t (thresholds_of t) passed) refl (rw (eb, eo, judge) refl)
      go false (err e) eb eo = absurd (
          err≢ok ("sdlc gate " +s t.id +s ": " +s e) r (
            sym (
              let k : judge cel req t ≡ err ("sdlc gate " +s t.id +s ": " +s e) =
                rw (eb, eo, judge) refl in
              k)
            ∙ h))

  judge_all-ids :
      (ts : List SdlcGateTemplate) (rs : List SdlcGateResult)
      → judge_all cel req ts ≡ ok rs
      → map (λ (r : SdlcGateResult). r.policy_id) rs
        ≡ map (λ (t : SdlcGateTemplate). t.id) (keep (is_selected req) ts)
  unfolding judge_all keep
  judge_all-ids [] rs h =
      ap (map (λ (r : SdlcGateResult). r.policy_id)) (ok_injective rs [] (sym h))
  judge_all-ids (t ∷ ts) rs h =
      go (judge_all-ids ts) (is_selected req t) (judge cel req t) (judge_all cel req ts) refl refl
        refl
    where
      go :
          ((rest : List SdlcGateResult)
            → judge_all cel req ts ≡ ok rest
            → map (λ (r : SdlcGateResult). r.policy_id) rest
              ≡ map (λ (t : SdlcGateTemplate). t.id) (keep (is_selected req) ts))
          → (b : Bool) (o : Outcome SdlcGateResult) (all : Outcome (List SdlcGateResult))
          → is_selected req t ≡ b
          → judge cel req t ≡ o
          → judge_all cel req ts ≡ all
          → map (λ (r : SdlcGateResult). r.policy_id) rs
            ≡ map (λ (t : SdlcGateTemplate). t.id) (keep (is_selected req) (t ∷ ts))
      go rec false o all eb eo ea =
          let k : judge_all cel req (t ∷ ts) ≡ judge_all cel req ts = rw (eb, judge_all) refl in
          rw eb (rec rs (sym k ∙ h))
      go rec true (err e) all eb eo ea =
          let k : judge_all cel req (t ∷ ts) ≡ err e = rw (eb, eo, judge_all) refl in
          absurd (err≢ok e rs (sym k ∙ h))
      go rec true (ok r) (err e) eb eo ea =
          let k : judge_all cel req (t ∷ ts) ≡ err e = rw (eb, eo, ea, judge_all) refl in
          absurd (err≢ok e rs (sym k ∙ h))
      go rec true (ok r) (ok rest) eb eo ea =
          let k : judge_all cel req (t ∷ ts) ≡ ok (r ∷ rest) = rw (eb, eo, ea, judge_all) refl in
          rw eb (
            ap (map (λ (x : SdlcGateResult). x.policy_id)) (ok_injective rs (r ∷ rest) (sym h ∙ k))
            ∙ ap₂ (λ a l. a ∷ l) (judge-id t r eo) (rec rest ea))

  require_some_ok :
      (o : Outcome (List SdlcGateResult)) (rs : List SdlcGateResult)
      → require_some o ≡ ok rs
      → (o ≡ ok rs) × (rs ≢ [])
  unfolding require_some
  require_some_ok (err e) rs h = absurd (err≢ok e rs h)
  require_some_ok (ok []) rs h = absurd (err≢ok "no_sdlc_gate_templates_matched" rs h)
  require_some_ok (ok (r ∷ rest)) rs h =
      (h, λ e. cons_not_nil r rest (ok_injective (r ∷ rest) rs h ∙ e))
    where
      cons_not_nil : (x : SdlcGateResult) (xs : List SdlcGateResult) → x ∷ xs ≢ []
      cons_not_nil x xs k = cc

  -- An evaluation that succeeds returns one result or more: one for each template that is selected
  -- for the request, in the order of the templates, and none for any other.
  pub gate_results_are_the_selected :
      (ts : List SdlcGateTemplate) (rs : List SdlcGateResult)
      → evaluate_sdlc_gate cel ts req ≡ ok rs
      → (rs ≢ [])
        × (map (λ (r : SdlcGateResult). r.policy_id) rs
            ≡ map (λ (t : SdlcGateTemplate). t.id) (keep (is_selected req) ts))
  unfolding evaluate_sdlc_gate
  gate_results_are_the_selected ts rs h =
      let (all_ok, some_result) = require_some_ok (judge_all cel req ts) rs h in
      (some_result, judge_all-ids ts rs all_ok)
