-- ===== src/Deploy/Pipeline/StageFrames.antt =====
-- The stages before the connector renders apply nothing to a cluster.
use forge_eng_fabric.Prelude.{
  ℕ, refl, String, Bool, List, [], ◌∷◌, Option, none, some, string_eq, nat_eq,
}
use forge_eng_fabric.Prelude.State.{pure, ◌>>=◌, Same, Same-pure, Same-bind, Same-if}
use forge_eng_fabric.Deploy.Policies.{PolicyDecision, DeployRequest}
use forge_eng_fabric.Prelude.Text.{◌+s◌}
use forge_eng_fabric.Cosign.{ImageMetadata, Result, combined}
use forge_eng_fabric.Deploy.Decide.{
  External, not_configured, StageEnd, goes_on, pending_approval, blocked,
}
use forge_eng_fabric.Deploy.Types.{Status, Deployment}
use forge_eng_fabric.Deploy.World.{
  resolve_image, evaluate_policies, Reply, ok, err, Service, M, ask,
}
use forge_eng_fabric.Deploy.Stages.{ask_engine, external_of, record_evals, run_policies, stop_with}
use forge_eng_fabric.Deploy.ImageStage.{
  plain_metadata, skip_verification, settle_verification, resolve_metadata, run_image_verify,
}
use forge_eng_fabric.Deploy.Pipeline.Frames.{
  applications, Same-new_id, Same-clock, Same-write, Same-emit, Same-ask, Same-stage_event,
  Same-put_status, Same-respond, written,
}

Same-record :
    (s : Service) (d : Deployment) (es : List PolicyDecision)
    → Same applications (record_evals s d es)
unfolding record_evals
Same-record s d [] = Same-pure applications tt
Same-record s d (e ∷ es) = Same-bind applications _ _ (Same-new_id s) (λ id.
    Same-bind applications _ _ (Same-clock s)
      (λ now. Same-bind applications _ _ (Same-write _) (λ u. Same-record s d es)))

Same-engine : (s : Service) (req : DeployRequest) → Same applications (ask_engine s req)
unfolding ask_engine
Same-engine s req = of_engine s.policy_engine
  where
    of_engine :
        (o : Option (ℕ → DeployRequest → Reply PolicyDecision))
        → Same applications (elim o as (λ _. M External) [
          | none ↦ pure not_configured
          | some f ↦
              (ask (evaluate_policies req) (λ n. f n req) >>= λ answer. pure (external_of answer))
        ])
    of_engine none = Same-pure applications _
    of_engine (some f) =
        Same-bind applications _ _ (Same-ask _ _ refl) (λ a. Same-pure applications _)

told :
    (s : Service) (d : Deployment) (e : StageEnd) (m : M (Unit {0}))
    → Same applications m
    → Same applications (elim e as (λ _. M (Unit {0})) [
      | goes_on ↦ m
      | pending_approval reason ↦ pure tt
      | blocked reason ↦ pure tt
    ])
told s d goes_on m h = h
told s d (pending_approval r) m h = Same-pure applications tt
told s d (blocked r) m h = Same-pure applications tt

pub Same-policies :
    (s : Service) (d : Deployment) (req : DeployRequest) → Same applications (run_policies s d req)
unfolding run_policies
Same-policies s d req = Same-bind applications _ _ (Same-clock s) (λ start.
    Same-bind applications _ _ (Same-engine s req) (λ external.
      Same-bind applications _ _ (Same-record s d _) (λ u.
        Same-bind applications _ _ (Same-emit s d _) (λ u.
          Same-bind applications _ _
            (told s d _ _
              (Same-bind applications _ _ (Same-clock s) (λ now. Same-stage_event s d _ _ _ _ _ _)))
            (λ u. Same-pure applications _)))))

pub Same-stop :
    (s : Service) (d : Deployment) (p : PolicyDecision) (status : Status) (b : Bool)
    → Same applications (stop_with s d p status b)
unfolding stop_with
Same-stop s d p status b = Same-bind applications _ _ (Same-clock s) (λ now.
    Same-bind applications _ _ (Same-put_status s d.id status _) (λ u.
      Same-bind applications _ _ (Same-stage_event s d _ _ _ _ _ _) (λ u.
        Same-bind applications _ _
          (Same-if applications b _ _ (Same-ask _ _ refl) (Same-pure applications tt))
          (λ u. Same-respond d.id status _ _))))

Same-skip : (s : Service) (d : Deployment) (t : ℕ) → Same applications (skip_verification s d t)
unfolding skip_verification
Same-skip s d t = search written depth 20

Same-settle :
    (s : Service) (d : Deployment) (t : ℕ) (r : Result)
    → Same applications (settle_verification s d t r)
unfolding settle_verification
Same-settle s d t r = search written depth 20

Same-metadata : (s : Service) (d : Deployment) → Same applications (resolve_metadata s d)
unfolding resolve_metadata
Same-metadata s d = of_resolver s.image_metadata
  where
    of_resolver :
        (o : Option (ℕ → String → String → Reply ImageMetadata))
        → Same applications (elim o as (λ _. M (Reply ImageMetadata)) [
          | none ↦ pure (ok (plain_metadata d))
          | some f ↦ ask (resolve_image d.image d.image_digest) (λ n. f n d.image d.image_digest)
        ])
    of_resolver none = Same-pure applications _
    of_resolver (some f) = Same-ask _ _ refl

pub Same-verify_image : (s : Service) (d : Deployment) → Same applications (run_image_verify s d)
unfolding run_image_verify
Same-verify_image s d = Same-bind applications _ _ (Same-clock s) (λ start.
    Same-if applications _ _ _ (Same-skip s d _)
      (Same-bind applications _ _ (Same-metadata s d) (λ r. resolved start.instant r)))
  where
    resolved :
        (start : ℕ) (r : Reply ImageMetadata)
        → Same applications (elim r as (λ _. M (Option String)) [
          | err e ↦ pure (some ("metadata: " +s e))
          | ok meta ↦ settle_verification s d start (combined s.cosign d.workspace_id meta)
        ])
    resolved start (err e) = Same-pure applications _
    resolved start (ok meta) = Same-settle s d start _
