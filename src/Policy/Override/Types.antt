-- ===== src/Policy/Override/Types.antt =====
-- The data of services/policy-engine/internal/override/override.go. A time is a number of
-- nanoseconds since the zero time.
-- An event holds the override as it is when the event is emitted.
use forge_eng_fabric.Prelude.{ℕ, String, Bool, true, false, List, [], Option}
use forge_eng_fabric.Prelude.Int.{ℤ}
use forge_eng_fabric.Prelude.Value.{Fields}

pub record Template : Type 0 where
  pub id : String
  pub description : String
  pub action : String
  pub target : String
  pub required_role : String
  pub max_ttl_seconds : ℤ
  pub requires_reason : Bool
  pub events_on_grant : List String
  pub events_on_consume : List String
  pub events_on_expire : List String

pub data State : Type 0 where
  active consumed expired revoked : State

abbrev pub is_active_state : State → Bool
is_active_state active = true
is_active_state _ = false

pub record Override : Type 0 where
  pub id : String
  pub template_id : String
  pub workspace_id : String
  pub subject : String
  pub requested_by : String
  pub approved_by : String
  pub reason : String
  pub granted_at : ℕ
  pub expires_at : ℕ
  pub state : State
  pub consumed_at : Option ℕ
  pub consumed_by : String
  pub metadata : Fields

pub record Event : Type 0 where
  pub event_type : String
  pub override : Override
  pub time : ℕ
  pub extra : Fields

-- The manager, the events of its sink, and how many identifiers were drawn.
pub record Manager : Type 0 where
  pub templates : List (String × Template)
  pub overrides : List (String × Override)
  pub events : List Event
  pub ids : ℕ

abbrev pub new_manager : List (String × Template) → Manager
new_manager templates = record { templates = templates; overrides = []; events = []; ids = 0 }

pub record GrantInput : Type 0 where
  pub template_id : String
  pub workspace_id : String
  pub subject : String
  pub requested_by : String
  pub approved_by : String
  pub approver_role : String
  pub reason : String
  pub ttl_seconds : ℤ
  pub metadata : Fields

pub data Error : Type 0 where
  unknown_template insufficient_role ttl_exceeds_max reason_required subject_required : Error
  already_terminated override_not_found : Error

pub data Result {ℓ} (A : Type ℓ) : Type ℓ where
  ok : A → Result A
  err : Error → Result A
