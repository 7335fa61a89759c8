-- ===== src/Gates.antt =====
-- Workflow gates: lib/gate-transitions.mjs.
pub mod Tables
pub mod Sets
pub mod Edges
pub mod ResumePointer
pub mod Transition
