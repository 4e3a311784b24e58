-- ===== src/Sdlc.antt =====
-- services/sdlc-orchestrator/internal/sdlc: the phases of an initiative, the gates between them,
-- and the service that moves an initiative from phase to phase.
pub mod Types
pub mod Phases
pub mod Targets
pub mod Gates
pub mod Store
pub mod Events
pub mod Create
pub mod Evaluate
pub mod Advance
pub mod Service
mod Examples
