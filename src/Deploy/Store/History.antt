-- ===== src/Deploy/Store/History.antt =====
-- What the store keeps of a deployment, whatever is written after it.
use forge_eng_fabric.Prelude.{
  ℕ, ◌≡◌, ◌≢◌, refl, sym, ap, ◌∙◌, subst, String, Bool, false, List, Option, none, some, Bool-cases,
  inl, inr, ◌==◌, string_eq,
}
use forge_eng_fabric.Prelude.Assoc.{lookup, insert, lookup-insert_self, lookup-insert_ne}
use forge_eng_fabric.Deploy.Types.{
  Status, pending, Deployment, DeploymentEvent, ImageVerificationResult, RollbackRecord,
}
use forge_eng_fabric.Deploy.Store.{
  PolicyEvalResult, Store, insert_new, adjust, set_status, set_verified, set_manifest_sha,
  append_event, append_policy_eval, append_image_verification, append_rollback,
}

-- The writes of the store, where a deployment is inserted under an identifier that is not in use.
pub data Step : Store → Store → Type 0 where
  insert_step :
      (d : Deployment) (s : Store) → lookup d.id s.deployments ≡ none → Step s (insert_new d s)
  status_step :
      (id : String) (status : Status) (reason : String) (now : ℕ) (s : Store)
      → Step s (set_status id status reason now s)
  verified_step : (id : String) (a b : Bool) (s : Store) → Step s (set_verified id a b s)
  sha_step : (id sha : String) (s : Store) → Step s (set_manifest_sha id sha s)
  event_step : (ev : DeploymentEvent) (s : Store) → Step s (append_event ev s)
  policy_step : (r : PolicyEvalResult) (s : Store) → Step s (append_policy_eval r s)
  image_step : (r : ImageVerificationResult) (s : Store) → Step s (append_image_verification r s)
  rollback_step : (r : RollbackRecord) (s : Store) → Step s (append_rollback r s)

pub data Steps : Store → Store → Type 0 where
  stop : (s : Store) → Steps s s
  then_step : {s t u : Store} → Step s t → Steps t u → Steps s u

-- The deployment without its status, the times and marks that go with it, and the digest of its
-- manifest.
abbrev pub frozen : Deployment → Deployment
frozen d = record d {
  status = pending;
  status_reason = "";
  completed_at = none;
  verified_signature = false;
  verified_attestation = false;
  manifest_sha = "";
}

-- The store holds the deployment, but for what `frozen` leaves out.
abbrev pub Holds : String → Deployment → Store → Type 0
Holds id d s = (d' : Deployment) × (lookup id s.deployments ≡ some d') × (frozen d' ≡ frozen d)

some_injective : (a b : Deployment) → some a ≡ some b → a ≡ b
some_injective a b h = cc

-- A write of one entry keeps a deployment that it leaves frozen, or does not touch.
written_keeps :
    (id k : String) (d d' x : Deployment) (m : List (String × Deployment))
    → lookup id m ≡ some d'
    → (k ≡ id → frozen x ≡ frozen d')
    → frozen d' ≡ frozen d
    → (y : Deployment) × (lookup id (insert k x m) ≡ some y) × (frozen y ≡ frozen d)
written_keeps id k d d' x m e same h = elim (Bool-cases (k == id)) [
  | inl p ↦ (
    x,
    subst (λ j. lookup j (insert k x m) ≡ some x) ((string_eq.decides k id).0 p)
        (lookup-insert_self k x m),
    same ((string_eq.decides k id).0 p) ∙ h,
  )
  | inr p ↦ (d', lookup-insert_ne k id x m p ∙ e, h)
]

adjust_keeps :
    (id : String) (d : Deployment) (k : String) (f : Deployment → Deployment) (s : Store)
    → ((x : Deployment) → frozen (f x) ≡ frozen x)
    → Holds id d s
    → Holds id d (adjust k f s)
unfolding adjust
adjust_keeps id d k f s same (d', e, h) = of_entry (lookup k s.deployments) refl
  where
    of_entry :
        (o : Option Deployment)
        → lookup k s.deployments ≡ o
        → Holds id d (elim o as (λ _. Store) [
          | none ↦ s
          | some x ↦ record s { deployments = insert k (f x) s.deployments }
        ])
    of_entry none q = (d', e, h)
    of_entry (some x) q =
        written_keeps id k d d' (f x) s.deployments e
          (λ p.
            same x
            ∙ ap frozen (some_injective x d' (sym q ∙ ap (λ j. lookup j s.deployments) p ∙ e)))
          h

insert_keeps :
    (id : String) (d x : Deployment) (s : Store)
    → lookup x.id s.deployments ≡ none
    → Holds id d s
    → Holds id d (insert_new x s)
unfolding insert_new
insert_keeps id d x s fresh (d', e, h) =
    written_keeps id x.id d d' x s.deployments e
      (λ p. absurd (not_both d' (sym fresh ∙ ap (λ j. lookup j s.deployments) p ∙ e))) h
  where
    not_both : (y : Deployment) → none ≢ some y
    not_both y q = cc

Step-Holds : (id : String) (d : Deployment) {s t : Store} → Step s t → Holds id d s → Holds id d t
unfolding set_status set_verified set_manifest_sha append_event append_policy_eval
    append_image_verification append_rollback
Step-Holds id d (insert_step x s fresh) h = insert_keeps id d x s fresh h
Step-Holds id d (status_step k status reason now s) h = adjust_keeps id d k _ s (λ x. refl) h
Step-Holds id d (verified_step k a b s) h = adjust_keeps id d k _ s (λ x. refl) h
Step-Holds id d (sha_step k sha s) h = adjust_keeps id d k _ s (λ x. refl) h
Step-Holds id d (event_step ev s) h = h
Step-Holds id d (policy_step r s) h = h
Step-Holds id d (image_step r s) h = h
Step-Holds id d (rollback_step r s) h = h

Steps-Holds : (id : String) (d : Deployment) {s t : Store} → Steps s t → Holds id d s → Holds id d t
Steps-Holds id d (stop s) h = h
Steps-Holds id d (then_step p ps) h = Steps-Holds id d ps (Step-Holds id d p h)

-- Through any sequence of writes, in which deployments are inserted under identifiers that are not
-- in use, a stored deployment stays in the store, and no field of it changes but its status with the
-- reason and the time of its end, the marks of its verification, and the digest of its manifest.
pub history_is_immutable :
    (id : String) (d : Deployment) (s t : Store)
    → lookup id s.deployments ≡ some d
    → Steps s t
    → Holds id d t
history_is_immutable id d s t e ps = Steps-Holds id d ps (d, e, refl)
