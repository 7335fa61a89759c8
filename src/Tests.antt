-- ===== src/Tests.antt =====
-- Runs of the model at concrete inputs, and each theorem at an input that meets its hypotheses.
mod Samples
mod Gates
mod TaskState
mod Glob
mod Partition
mod Dispatch
mod Guard
mod Migrate
mod Loop
mod Lock
mod EditGuard
mod Shell
mod Evidence
mod Human
mod Progress
mod Prompts
mod Subagents
