-- ===== src/TaskState.antt =====
-- The task state of .devmate/state/task.json: lib/task-state.mjs.
pub mod Validate
pub mod Moves
pub mod Store
pub mod Versions
pub mod Retry
pub mod Blind
pub mod Migrate
pub mod Rename
