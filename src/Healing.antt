-- ===== src/Healing.antt =====
-- services/healing-engine/internal/engine: incidents, the level of autonomy that an envelope allows,
-- and the runs, approvals and suggestions that follow.
pub mod Types
pub mod Level
pub mod World
pub mod Safety
pub mod Suggest
pub mod Runs
pub mod Trigger
pub mod Promote
mod Examples
