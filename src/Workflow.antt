-- ===== src/Workflow.antt =====
-- services/workflow-runtime/internal/runtime: how executions of one trigger share a lane.
pub mod Ast
pub mod Lint
pub mod Dsl
pub mod Concurrency
mod Examples
