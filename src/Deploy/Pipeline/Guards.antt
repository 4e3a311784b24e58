-- ===== src/Deploy/Pipeline/Guards.antt =====
-- Where no deployment gets past the policy stage or the image verification, none is applied.
use forge_eng_fabric.Prelude.{
  ℕ, ◌≡◌, ◌≢◌, refl, String, Bool, true, false, Option, none, some, string_eq,
}
use forge_eng_fabric.Prelude.State.{
  pure, ◌>>=◌, ◌>>◌, Same, Same-pure, Same-get, Same-bind, Same-if, Same-when, Gives,
}
use forge_eng_fabric.Prelude.Assoc.{lookup}
use forge_eng_fabric.Prelude.Text.{◌+s◌}
use forge_eng_fabric.Deploy.Policies.{PolicyDecision, DeployRequest}
use forge_eng_fabric.Deploy.Decide.{StageEnd, goes_on, pending_approval, blocked, policy_outcome}
use forge_eng_fabric.Deploy.Types
use forge_eng_fabric.Deploy.Types.{Deployment, DeployResponse, Runtime, preflight, image_verify}
use forge_eng_fabric.Deploy.Store.{insert_new}
use forge_eng_fabric.Deploy.World.{write_store, Reply, ok, err, Connector, Service, World, M}
use forge_eng_fabric.Deploy.Stages.{fail, run_policies, stop_with}
use forge_eng_fabric.Deploy.ImageStage.{run_image_verify}
use forge_eng_fabric.Deploy.Rollback.{answer_with, insert, fill}
use forge_eng_fabric.Deploy.Rollout.{manifest_for, render_and_apply}
use forge_eng_fabric.Deploy.Pipeline.{
  verify_image, decide_policies, check_connector, run_stages, existing, run_inserted, deploy,
}
use forge_eng_fabric.Deploy.Pipeline.Frames.{
  applications, Same-new_id, Same-clock, Same-write, Same-emit, Same-ask, Same-or_new_id,
  Same-stage_event, Same-fail, Same-preflight,
}
use forge_eng_fabric.Deploy.Pipeline.StageFrames.{Same-policies, Same-stop, Same-verify_image}

module _ (s : Service) (req : DeployRequest) where
  -- An image that is not verified is not applied.
  pub Same-unverified :
      (d : Deployment) (c : Connector) (r : Runtime)
      → Gives (λ (o : Option String). o ≢ none) (run_image_verify s d)
      → Same applications (verify_image s d req c r)
  unfolding verify_image
  Same-unverified d c r h =
      Same-when applications (λ o. o ≢ none) _ _ h (Same-verify_image s d) by_failure
    where
      by_failure :
          (o : Option String)
          → o ≢ none
          → Same applications (elim o as (λ _. M DeployResponse) [
            | some e ↦ fail s d image_verify e
            | none ↦ render_and_apply s d c r (manifest_for req d)
          ])
      by_failure (some e) k = Same-fail s d image_verify e
      by_failure none k = absurd (k refl)

  -- The policy stage, by what it may decide.
  pub Same-decided :
      (d : Deployment) (c : Connector) (r : Runtime) (P : PolicyDecision → Type 0)
      → Gives P (run_policies s d req)
      → ((p : PolicyDecision)
          → P p
          → policy_outcome p ≡ goes_on
          → Same applications (verify_image s d req c r))
      → Same applications (decide_policies s d req c r)
  unfolding decide_policies
  Same-decided d c r P h k =
      Same-when applications P _ _ h (Same-policies s d req)
        (λ p q. by_end p (policy_outcome p) (k p q))
    where
      by_end :
          (p : PolicyDecision) (e : StageEnd)
          → (e ≡ goes_on → Same applications (verify_image s d req c r))
          → Same applications (elim e as (λ _. M DeployResponse) [
            | goes_on ↦ verify_image s d req c r
            | pending_approval reason ↦ stop_with s d p Types.pending_approval s.has_inbox
            | blocked reason ↦ stop_with s d p Types.blocked false
          ])
      by_end p goes_on j = j refl
      by_end p (pending_approval reason) j = Same-stop s d p Types.pending_approval s.has_inbox
      by_end p (blocked reason) j = Same-stop s d p Types.blocked false

  module _
      (hold : (d : Deployment) (c : Connector) (r : Runtime)
        → Same applications (decide_policies s d req c r)) where
    Same-connector :
        (d : Deployment) (c : Connector) (r : Runtime)
        → Same applications (check_connector s d req c r)
    unfolding check_connector
    Same-connector d c r = Same-bind applications _ _ (Same-ask _ _ refl) (λ check.
        Same-if applications _ _ _
          (Same-bind applications _ _ (Same-clock s) (λ t1.
            Same-bind applications _ _ (Same-clock s) (λ t2.
              Same-bind applications _ _ (Same-stage_event s d _ _ _ _ _ _) (λ u. hold d c r))))
          (Same-fail s d preflight _))

    Same-stages : (d : Deployment) (now : ℕ) → Same applications (run_stages s d req now)
    unfolding run_stages
    Same-stages d now = Same-bind applications _ _ (Same-stage_event s d _ _ _ _ _ _) (λ u.
        Same-bind applications _ _ (Same-emit s d _)
          (λ u. Same-bind applications _ _ (Same-preflight s d) by_runtime))
      where
        by_connector :
            (r : Runtime) (o : Option Connector)
            → Same applications (elim o as (λ _. M DeployResponse) [
              | none ↦
                  fail s d preflight
                    ("deployer_missing: no deployer registered for type=" +s r.type)
              | some c ↦ check_connector s d req c r
            ])
        by_connector r none = Same-fail s d preflight _
        by_connector r (some c) = Same-connector d c r

        by_runtime :
            (a : Reply Runtime)
            → Same applications (elim a as (λ _. M DeployResponse) [
              | err e ↦ fail s d preflight e
              | ok r ↦ elim (lookup r.type s.deployers) as (λ _. M DeployResponse) [
                | none ↦
                    fail s d preflight
                      ("deployer_missing: no deployer registered for type=" +s r.type)
                | some c ↦ check_connector s d req c r
              ]
            ])
        by_runtime (err e) = Same-fail s d preflight e
        by_runtime (ok r) = by_connector r (lookup r.type s.deployers)

    Same-existing : (o : Option Deployment) → Same applications (existing o)
    Same-existing none = Same-pure applications _
    Same-existing (some d) = Same-pure applications _

    Same-inserted :
        (now : ℕ) (x : Option Deployment × Bool) → Same applications (run_inserted s req now x)
    Same-inserted now (some d, true) = Same-stages d now
    Same-inserted now (none, true) = Same-existing none
    Same-inserted now (o, false) = Same-existing o

    filled : (d : Deployment) → Same applications (fill s d)
    unfolding fill
    filled d = Same-bind applications _ _ (Same-or_new_id s d.id) (λ id.
        Same-bind applications _ _ (Same-or_new_id s d.correlation_id) (λ c.
          Same-if applications _ _ _
            (Same-bind applications _ _ (Same-clock s) (λ now. Same-pure applications _))
            (Same-pure applications _)))

    inserted : (d : Deployment) → Same applications (insert s d)
    unfolding insert
    inserted d =
        Same-bind applications _ _ (Same-get applications)
          (λ w. by_request w (lookup d.request_id w.store.by_request))
      where
        by_request :
            (w : World) (o : Option String)
            → Same applications (elim o as (λ _. M (Option Deployment × Bool)) [
              | some id ↦ pure (lookup id w.store.deployments, false)
              | none ↦ (fill s d >>= λ x. write_store (insert_new x) >> pure (some x, true))
            ])
        by_request w (some id) = Same-pure applications _
        by_request w none =
            Same-bind applications _ _ (filled d)
              (λ x. Same-bind applications _ _ (Same-write _) (λ u. Same-pure applications _))

    pub Same-deploy : Same applications (deploy s req)
    unfolding deploy answer_with
    Same-deploy = Same-if applications _ _ _ (Same-pure applications _) (
        Same-bind applications _ _
          (Same-bind applications _ _ (Same-or_new_id s req.request_id) (λ id.
            Same-bind applications _ _ (Same-clock s) (λ now.
              Same-bind applications _ _ (Same-new_id s) (λ rev.
                Same-bind applications _ _ (inserted _) (λ x. Same-inserted now.instant x)))))
          (λ r. Same-pure applications _))
