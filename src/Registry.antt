-- ===== src/Registry.antt =====
-- services/workflow-registry: workflows, their versions and what changed between two of them.
pub mod SemVer
pub mod Migrate
pub mod Diff
pub mod Service
pub mod Publish
pub mod Runs
mod Examples
