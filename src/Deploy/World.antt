-- ===== src/Deploy/World.antt =====
-- service.go and events.go: what the service is configured with, the calls that it makes of others,
-- and its events.
use forge_eng_fabric.Prelude.{
  ℕ, suc, String, Bool, List, [], ◌∷◌, ◌++◌, Option, length, ◌==◌, string_eq, if◌then◌else◌,
}
use forge_eng_fabric.Prelude.State.{State, pure, ◌>>=◌}
use forge_eng_fabric.Prelude.Value.{Fields}
use forge_eng_fabric.Cosign.{ImageMetadata, Verifier}
use forge_eng_fabric.Deploy.Freeze.{FreezeWindow, Moment}
use forge_eng_fabric.Deploy.Policies.{DeploymentPolicy, PolicyDecision, DeployRequest}
use forge_eng_fabric.Deploy.Types.{
  Stage, StageOutcome, Deployment, Runtime, Manifest, Params, RenderedArtifacts, PreflightResult,
  VerifyResult,
}
use forge_eng_fabric.Deploy.Store.{Store, append_event}

pub data Reply (A : Type 0) : Type 0 where
  ok : A → Reply A
  err : String → Reply A

-- A call of the runtimes, of a connector, of the image registry, of the policy engine, of the
-- approvals inbox or of the asset registry.
pub data Call : Type 0 where
  check_usable get_runtime : String → Call
  resolve_image : String → String → Call
  evaluate_policies : DeployRequest → Call
  preflight_runtime : Runtime → Call
  render_manifest : Manifest → Params → Call
  apply_artifacts : Runtime → RenderedArtifacts → Params → Call
  verify_rollout : Runtime → Manifest → Params → Call
  roll_back_to : Runtime → Manifest → Params → Call
  request_approval : String → String → Call
  record_asset : Option Deployment → Call

-- `Deployer`, as the service uses it; each answers by the number of calls made before. Apply and
-- Rollback give their outcome or an error.
pub record Connector : Type 0 where
  pub preflight : ℕ → Runtime → PreflightResult
  pub render : ℕ → Manifest → Params → Reply RenderedArtifacts
  pub apply : ℕ → Runtime → RenderedArtifacts → Params → Reply String
  pub verify : ℕ → Runtime → Manifest → Params → VerifyResult
  pub rollback : ℕ → Runtime → Manifest → Params → Reply String

-- RuntimeProvider
pub record RuntimeProvider : Type 0 where
  pub get : ℕ → String → Reply (Option Runtime)
  pub check_usable_by : ℕ → String → String → Option String

-- What HasApproval answers.
pub record HasApproval : Type 0 where
  pub has_approval : Bool
  pub expires_at : ℕ
  pub revision_id : String

-- A field that is nil in Go is `none`; of the inbox and of the recorder only that they are called is
-- seen. `uuid` and `now` are the identifiers and the readings of the clock, in order.
pub record Service : Type 0 where
  pub uuid : ℕ → String
  pub now : ℕ → Moment
  pub deployers : List (String × Connector)
  pub cosign : Verifier
  pub image_metadata : Option (ℕ → String → String → Reply ImageMetadata)
  pub runtimes : Option RuntimeProvider
  pub approvals : Option (String → String → String → String → HasApproval)
  pub has_inbox : Bool
  pub policy_engine : Option (ℕ → DeployRequest → Reply PolicyDecision)
  pub policies : List DeploymentPolicy
  pub freeze_windows : List FreezeWindow
  pub auto_rollback_by_env : List (String × Bool)
  pub override_allow_unsigned : Option (String → String → Bool × ℕ)
  pub has_recorder : Bool

-- The type of an event and its data, as far as they are not fields of the deployment.
pub data Content : Type 0 where
  deployment_requested : Content
  image_verified : String → String → Content
  policy_evaluated : PolicyDecision → List PolicyDecision → Content
  override_consumed : Content
  image_rejected : String → Content
  applied : String → Content
  deployment_failed : Stage → String → Content
  deployment_verified : Content
  deployment_rolled_back : String → String → String → Bool → Content

pub record CloudEvent : Type 0 where
  pub id : String
  pub deployment_id : String
  pub tenant_id : String
  pub workspace_id : String
  pub actor : String
  pub correlation_id : String
  pub time : ℕ
  pub content : Content

pub record World : Type 0 where
  pub store : Store
  pub events : List CloudEvent
  pub calls : List Call
  pub ids : ℕ
  pub readings : ℕ

abbrev pub M : Type 0 → Type 0
M A = State World A

unfoldable pub new_id : Service → M String
new_id s w = (s.uuid w.ids, record w { ids = suc w.ids })

unfoldable pub clock : Service → M Moment
clock s w = (s.now w.readings, record w { readings = suc w.readings })

-- `if id == "" { id = newID() }`
unfoldable pub or_new_id : Service → String → M String
or_new_id s id = if id == "" then new_id s else pure id

unfoldable pub write_store : (Store → Store) → M (Unit {0})
write_store f w = (tt, record w { store = f w.store })

unfoldable pub ask : {A : Type 0} → Call → (ℕ → A) → M A
ask c answer w = (answer (length w.calls), record w { calls = w.calls ++ c ∷ [] })

-- newDeploymentEvent and MemorySink.Emit
unfoldable pub emit : Service → Deployment → Content → M (Unit {0})
emit s d content w = (
  tt,
  record w {
    ids = suc w.ids;
    readings = suc w.readings;
    events =
        w.events
        ++ record {
          id = s.uuid w.ids;
          deployment_id = d.id;
          tenant_id = d.tenant_id;
          workspace_id = d.workspace_id;
          actor = d.actor;
          correlation_id = d.correlation_id;
          time = (s.now w.readings).instant;
          content = content;
        }
          ∷ [];
  },
)

-- emitStageEvent, with AppendEvent.
unfoldable pub emit_stage_event :
    Service → Deployment → Stage → StageOutcome → String → Fields → ℕ → ℕ → M (Unit {0})
emit_stage_event s d stage outcome reason detail started ended = do
  id ← new_id s
  write_store (
      append_event (record {
        id = id;
        deployment_id = d.id;
        stage = stage;
        outcome = outcome;
        reason = reason;
        detail = detail;
        started_at = started;
        ended_at = ended;
      }))
