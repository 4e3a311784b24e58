-- ===== src/Policy.antt =====
-- services/policy-engine/internal: the rule engine, the SDLC gate templates and the overrides.
pub mod Engine
pub mod SdlcGate
pub mod Override
mod Examples
