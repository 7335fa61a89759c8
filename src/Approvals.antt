-- ===== src/Approvals.antt =====
-- hooks/approval-listener.mjs: what a prompt of the human does to the workflow.
pub mod Phrases
pub mod Workspace
pub mod SpecFiles
pub mod Lanes
pub mod SpecNote
pub mod Listener
pub mod Commands
pub mod Prompts
pub mod Starts
pub mod LaneMoves
pub mod FeatureStart
pub mod Gates
pub mod Advances
pub mod ApprovalGates
pub mod PlanAndPr
pub mod CommandGates
pub mod SteeringGates
pub mod PromptGates
pub mod Steps
pub mod PlanCommit
pub mod Writes
