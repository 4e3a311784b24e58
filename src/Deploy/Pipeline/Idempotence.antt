-- ===== src/Deploy/Pipeline/Idempotence.antt =====
-- A request that is repeated.
use forge_eng_fabric.Prelude.{
  ◌≡◌, ◌≢◌, ap, ◌∙◌, String, false, some, ◌==◌, string_eq, if◌then◌else◌, Bool-cases, inl, inr,
}
use forge_eng_fabric.Prelude.State.{pure, bind, continue, get, ◌>>=◌}
use forge_eng_fabric.Prelude.Assoc.{lookup}
use forge_eng_fabric.Deploy.Policies.{DeployRequest}
use forge_eng_fabric.Deploy.Types.{Deployment, DeployResponse, runtime_required}
use forge_eng_fabric.Deploy.World.{Service, World, M, new_id, or_new_id, clock}
use forge_eng_fabric.Deploy.Rollback.{Answer, answer, refused, answer_with, insert}
use forge_eng_fabric.Deploy.Pipeline.{deployment_of, run_inserted, deploy}

-- The world but for the counters of identifiers and clock readings.
abbrev pub SameWorld : World → World → Type 0
SameWorld w w' = (w'.store ≡ w.store) × (w'.events ≡ w.events) × (w'.calls ≡ w.calls)

abbrev response_of : Deployment → DeployResponse
response_of d = record {
  deployment = some d;
  status = d.status;
  reason = d.status_reason;
  created = false;
}

-- What a repeated request is answered.
abbrev pub repeated : Deployment → Answer
repeated d = answer (response_of d)

-- `Deploy`, once it has the identifier of the request.
abbrev run_known : Service → DeployRequest → String → M DeployResponse
run_known s req request_id = clock s >>= λ now. new_id s >>= λ revision_id.
    insert s (deployment_of s req request_id revision_id now.instant) >>= λ inserted.
    run_inserted s req now.instant inserted

not_empty : (id : String) → id ≢ "" → (id == "") ≡ false
not_empty id h = elim (Bool-cases (id == "")) [
  | inl p ↦ absurd (h ((string_eq.decides id "").0 p))
  | inr p ↦ p
]

bind_at :
    {A B : Type 0} (m : M A) (f : A → M B) (w : World) (a : A) (w' : World)
    → m w ≡ (a, w')
    → bind m f w ≡ f a w'
unfolding bind continue
bind_at m f w a w' h = ap (λ r. continue r f) h

same_request : (s : Service) (id : String) (w : World) → id ≢ "" → or_new_id s id w ≡ (id, w)
unfolding or_new_id pure
same_request s id w h = ap (λ b. (if b then new_id s else pure id) w) (not_empty id h)

known_insert :
    (s : Service) (x d : Deployment) (w : World) (id : String)
    → lookup x.request_id w.store.by_request ≡ some id
    → lookup id w.store.deployments ≡ some d
    → insert s x w ≡ ((some d, false), w)
unfolding insert bind continue get pure lookup
known_insert s x d w id h k = rw h (ap (λ o. ((o, false), w)) k)

-- The world after a reading of the clock and an identifier.
abbrev moved : Service → World → World
moved s w = (new_id s (clock s w).1).1

body_known :
    (s : Service) (req : DeployRequest) (w : World) (id : String) (d : Deployment)
    → lookup req.request_id w.store.by_request ≡ some id
    → lookup id w.store.deployments ≡ some d
    → run_known s req req.request_id w ≡ (response_of d, moved s w)
unfolding new_id clock bind continue pure
body_known s req w id d known stored =
    let draft : Deployment =
      deployment_of s req req.request_id (s.uuid w.ids) (s.now w.readings).instant in
    bind_at (insert s draft) (run_inserted s req (s.now w.readings).instant) (moved s w)
      (some d, false) (moved s w) (known_insert s draft d (moved s w) id known stored)

-- A deploy request that names a runtime, and whose identifier has been stored before, returns the
-- stored deployment in its present status, not as created, and changes neither the store nor the
-- events, and calls no one.
pub repeated_request_changes_nothing :
    (s : Service) (req : DeployRequest) (w : World) (id : String) (d : Deployment)
    → req.runtime_id ≢ ""
    → req.request_id ≢ ""
    → lookup req.request_id w.store.by_request ≡ some id
    → lookup id w.store.deployments ≡ some d
    → ((deploy s req w).0 ≡ repeated d) × SameWorld w (deploy s req w).1
unfolding deploy answer_with new_id clock pure
repeated_request_changes_nothing s req w id d has_runtime has_request known stored = (
  ap (λ (r : Answer × World). r.0) run,
  (
    ap (λ (r : Answer × World). r.1.store) run,
    ap (λ (r : Answer × World). r.1.events) run,
    ap (λ (r : Answer × World). r.1.calls) run,
  ),
)
  where
    run : deploy s req w ≡ (repeated d, moved s w)
    run =
        ap
          (λ b.
            (if b
                then pure (refused runtime_required)
                else answer_with (bind (or_new_id s req.request_id) (run_known s req)))
              w)
          (not_empty req.runtime_id has_runtime)
        ∙ bind_at (bind (or_new_id s req.request_id) (run_known s req)) (λ r. pure (answer r)) w
            (response_of d) (moved s w)
            (bind_at (or_new_id s req.request_id) (run_known s req) w req.request_id w
                (same_request s req.request_id w has_request)
              ∙ body_known s req w id d known stored)
