-- ===== src/Deploy.antt =====
-- services/deploy-orchestrator/internal/deploy: the policies that stand between a deploy request and
-- the cluster, the stages of a deployment, and its rollback.
pub mod Types
pub mod Store
pub mod Listing
pub mod World
pub mod Runtimes
pub mod Stages
pub mod ImageStage
pub mod Rollback
pub mod Rollout
pub mod Pipeline
pub mod Freeze
pub mod Policies
pub mod Decide
mod Examples
