-- ===== src/Deploy/Store.antt =====
-- types.go: the in-memory store. A deployment is kept once, under its identifier, where Go's maps
-- share a pointer; `revisions` keeps identifiers.
pub mod History
use forge_eng_fabric.Prelude.{
  ℕ, String, Bool, true, false, not, ◌&&◌, List, [], ◌∷◌, ◌++◌, Option, none, some, ◌==◌, string_eq,
  if◌then◌else◌,
}
use forge_eng_fabric.Prelude.Assoc.{lookup, insert}
use forge_eng_fabric.Prelude.Text.{◌+s◌}
use forge_eng_fabric.Deploy.Types.{
  Status, completed, failed, rolled_back, pending, running, pending_approval, blocked, Deployment,
  DeploymentEvent, ImageVerificationResult, RollbackRecord,
}
use forge_eng_fabric.Deploy.Policies.{Decision}

-- `Detail` holds the rationale and the required approvers.
pub record PolicyEvalResult : Type 0 where
  pub id : String
  pub deployment_id : String
  pub policy_id : String
  pub outcome : Decision
  pub reason : String
  pub rationale : String
  pub required_approvers : List String
  pub evaluated_at : ℕ

pub record Store : Type 0 where
  pub deployments : List (String × Deployment)
  pub by_request : List (String × String)
  pub events : List (String × List DeploymentEvent)
  pub policy_evals : List (String × List PolicyEvalResult)
  pub image_results : List (String × List ImageVerificationResult)
  pub rollbacks : List (String × List RollbackRecord)
  pub revisions : List (String × List String)

-- `m[key]` of a map of lists.
abbrev pub listed : {A : Type 0} → String → List (String × List A) → List A
listed key m = elim (lookup key m) [ none ↦ [] | some l ↦ l ]

-- `m[key] = append(m[key], a)`
unfoldable pub append_at :
    {A : Type 0} → String → A → List (String × List A) → List (String × List A)
append_at key a m = insert key (listed key m ++ a ∷ []) m

abbrev pub revision_key : String → String → String
revision_key asset_id env = asset_id +s "|" +s env

-- The writes of Insert, for a deployment that has its identifier.
unfoldable pub insert_new : Deployment → Store → Store
insert_new d s = record s {
  deployments = insert d.id d s.deployments;
  by_request = insert d.request_id d.id s.by_request;
  revisions = append_at (revision_key d.asset_id d.env) d.id s.revisions;
}

-- A change of a deployment that is there.
unfoldable pub adjust : String → (Deployment → Deployment) → Store → Store
adjust id f s = elim (lookup id s.deployments) [
  | none ↦ s
  | some d ↦ record s { deployments = insert id (f d) s.deployments }
]

abbrev pub is_terminal : Status → Bool
is_terminal completed = true
is_terminal failed = true
is_terminal rolled_back = true
is_terminal pending = false
is_terminal running = false
is_terminal pending_approval = false
is_terminal blocked = false

-- What SetStatus writes.
abbrev pub with_status : Status → String → ℕ → Deployment → Deployment
with_status status reason now d = record d {
  status = status;
  status_reason = reason;
  completed_at = if is_terminal status then some now else d.completed_at;
}

unfoldable pub set_status : String → Status → String → ℕ → Store → Store
set_status id status reason now s = adjust id (with_status status reason now) s

abbrev pub with_verified : Bool → Bool → Deployment → Deployment
with_verified signature attestation d = record d {
  verified_signature = signature;
  verified_attestation = attestation;
}

unfoldable pub set_verified : String → Bool → Bool → Store → Store
set_verified id signature attestation s = adjust id (with_verified signature attestation) s

abbrev pub with_manifest_sha : String → Deployment → Deployment
with_manifest_sha sha d = record d { manifest_sha = sha }

unfoldable pub set_manifest_sha : String → String → Store → Store
set_manifest_sha id sha s = adjust id (with_manifest_sha sha) s

unfoldable pub append_event : DeploymentEvent → Store → Store
append_event ev s = record s { events = append_at ev.deployment_id ev s.events }

unfoldable pub append_policy_eval : PolicyEvalResult → Store → Store
append_policy_eval r s = record s { policy_evals = append_at r.deployment_id r s.policy_evals }

unfoldable pub append_image_verification : ImageVerificationResult → Store → Store
append_image_verification r s = record s {
  image_results = append_at r.deployment_id r s.image_results;
}

unfoldable pub append_rollback : RollbackRecord → Store → Store
append_rollback r s = record s { rollbacks = append_at r.deployment_id r s.rollbacks }

abbrev pub is_completed : Status → Bool
is_completed completed = true
is_completed pending = false
is_completed running = false
is_completed failed = false
is_completed rolled_back = false
is_completed pending_approval = false
is_completed blocked = false

-- Whether PreviousRevision may return the deployment.
abbrev pub is_candidate : String → Deployment → Bool
is_candidate current d = not (d.id == current) && is_completed d.status

-- The loop of PreviousRevision, from the last revision to the first: a later one hides this one.
latest : String → List (String × Deployment) → List String → Option Deployment
latest current ds [] = none
latest current ds (id ∷ ids) =
    let later = latest current ds ids in
    elim later [
      | some d ↦ some d
      | none ↦ elim (lookup id ds) [
        | none ↦ none
        | some d ↦ if is_candidate current d then some d else none
      ]
    ]

unfoldable pub previous_revision : String → String → String → Store → Option Deployment
unfolding latest
previous_revision asset_id env current s =
    latest current s.deployments (listed (revision_key asset_id env) s.revisions)
