-- ===== src/Deploy/Pipeline/FailClosed.antt =====
-- A policy engine that does not answer.
use forge_eng_fabric.Prelude.{ℕ, ◌≡◌, ◌≢◌, sym, ap, subst, String, Option, none, some, length}
use forge_eng_fabric.Prelude.State.{
  pure, bind, continue, ◌>>=◌, Gives, Gives-pure, Gives-when, Gives-bind,
}
use forge_eng_fabric.Deploy.Policies.{PolicyDecision, DeployRequest}
use forge_eng_fabric.Deploy.Decide.{
  External, not_configured, unavailable, goes_on, decide, policy_outcome,
}
use forge_eng_fabric.Deploy.Decide.Production.{engine_failure_blocks}
use forge_eng_fabric.Deploy.Types.{Deployment}
use forge_eng_fabric.Deploy.World.{Reply, err, evaluate_policies, Service, World, M, ask}
use forge_eng_fabric.Deploy.Stages.{policy_context, external_of, ask_engine, run_policies}
use forge_eng_fabric.Deploy.Pipeline.{deploy}
use forge_eng_fabric.Deploy.Pipeline.Frames.{applications}
use forge_eng_fabric.Deploy.Pipeline.Guards.{Same-decided, Same-deploy}

-- A policy engine is configured, and every call of it ends in an error.
pub record EngineDown (s : Service) : Type 0 where
  pub engine : ℕ → DeployRequest → Reply PolicyDecision
  pub configured : s.policy_engine ≡ some engine
  pub message : ℕ → DeployRequest → String
  pub fails : (n : ℕ) (req : DeployRequest) → engine n req ≡ err (message n req)

abbrev IsUnavailable : External → Type 0
IsUnavailable e = (m : String) × (e ≡ unavailable m)

abbrev Blocks : PolicyDecision → Type 0
Blocks p = policy_outcome p ≢ goes_on

module _ (s : Service) (down : EngineDown s) where
  asked :
      (f : ℕ → DeployRequest → Reply PolicyDecision) (req : DeployRequest)
      → ((n : ℕ) → f n req ≡ err (down.message n req))
      → Gives IsUnavailable
          (ask (evaluate_policies req) (λ n. f n req) >>= λ a. pure (external_of a))
  unfolding ask bind continue pure
  asked f req h = record {
    at = λ w. (down.message (length w.calls) req, ap external_of (h (length w.calls)));
  }

  engine_unavailable : (req : DeployRequest) → Gives IsUnavailable (ask_engine s req)
  unfolding ask_engine
  engine_unavailable req =
      subst
        (λ (o : Option (ℕ → DeployRequest → Reply PolicyDecision)).
          Gives IsUnavailable (elim o as (λ _. M External) [
            | none ↦ pure not_configured
            | some f ↦ (ask (evaluate_policies req) (λ n. f n req) >>= λ a. pure (external_of a))
          ]))
        (sym down.configured) (asked down.engine req (λ n. down.fails n req))

  decided-Blocks : (d : Deployment) (req : DeployRequest) → Gives Blocks (run_policies s d req)
  unfolding run_policies
  decided-Blocks d req = Gives-bind _ _ (λ start.
      Gives-when IsUnavailable _ _ (engine_unavailable req) (λ e h. Gives-bind _ _ (λ u.
        Gives-bind _ _ (λ u. Gives-bind _ _ (λ u. Gives-pure _ (
          subst (λ x. Blocks (decide s.policies req (policy_context s d start) x).0) (sym h.1)
            (engine_failure_blocks s.policies req (policy_context s d start) h.0)))))))

-- Where the configured policy engine fails at every call, a deploy request applies nothing to any
-- cluster, whatever the built-in policies, the approvals and the overrides say.
pub EngineDown-applies_nothing :
    (s : Service) (req : DeployRequest) (w : World)
    → EngineDown s
    → applications (deploy s req w).1 ≡ applications w
EngineDown-applies_nothing s req w down =
    (Same-deploy s req (λ d c r.
        Same-decided s req d c r Blocks (decided-Blocks s down d req) (λ p h e. absurd (h e)))).at
      w
