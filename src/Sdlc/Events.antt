-- ===== src/Sdlc/Events.antt =====
-- events.go: the events of the service.
use forge_eng_fabric.Prelude.{String, List, ◌==◌, string_eq, if◌then◌else◌, keep}
use forge_eng_fabric.Prelude.Text.{◌+s◌}
use forge_eng_fabric.Prelude.Value.{Fields}
use forge_eng_fabric.Sdlc.Types.{Initiative, CreateInitiativeRequest, CompletePhaseRequest}
use forge_eng_fabric.Sdlc.Store.{CloudEvent, Env, M, pure, ◌>>=◌, new_id, clock, emit}

abbrev pub phase_entered : String
phase_entered = "sdlc.phase.entered.v1"

abbrev pub gate_evaluated : String
gate_evaluated = "sdlc.phase.gate_evaluated.v1"

abbrev pub phase_progressed : String
phase_progressed = "sdlc.phase.progressed.v1"

abbrev pub phase_blocked : String
phase_blocked = "sdlc.phase.blocked.v1"

abbrev pub phase_skipped : String
phase_skipped = "sdlc.phase.skipped.v1"

abbrev pub phase_warning : String
phase_warning = "sdlc.phase.warning.v1"

abbrev pub phase_regressed : String
phase_regressed = "sdlc.phase.regressed.v1"

abbrev pub override_consumed : String
override_consumed = "policy.override.consumed.v1"

-- MemorySink.ByType
unfoldable pub by_type : String → List CloudEvent → List CloudEvent
by_type event_type events = keep (λ e. e.event_type == event_type) events

pub record EventContext : Type 0 where
  pub tenant_id : String
  pub actor : String
  pub correlation_id : String

abbrev pub value_or : String → String → String
value_or value fallback = if value == "" then fallback else value

abbrev pub from_create : CreateInitiativeRequest → EventContext
from_create req = record {
  tenant_id = req.tenant_id;
  actor = value_or req.actor "alfred";
  correlation_id = req.correlation_id;
}

abbrev pub from_complete : CompletePhaseRequest → EventContext
from_complete req = record {
  tenant_id = req.tenant_id;
  actor = value_or req.actor "alfred";
  correlation_id = req.correlation_id;
}

unfoldable pub new_event : Env → Initiative → EventContext → String → Fields → M CloudEvent
new_event env it ec event_type content = do
  id ← new_id env
  t ← clock env
  pure (record {
    spec_version = "1.0";
    id = id;
    source = "forge://service/sdlc-orchestrator";
    event_type = event_type;
    subject = "sdlc-initiative/" +s it.id;
    time = t;
    content_type = "application/json";
    tenant_id = ec.tenant_id;
    workspace_id = it.workspace_id;
    actor = ec.actor;
    correlation_id = ec.correlation_id;
    content = content;
  })

-- `s.Sink.Emit(newEvent(…))`
unfoldable pub publish : Env → Initiative → EventContext → String → Fields → M (Unit {0})
publish env it ec event_type content = do event ← new_event env it ec event_type content; emit event
