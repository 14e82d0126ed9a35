-- ===== src/Task.antt =====
-- The task of the board (crates/ditch_core/src/tasks.rs): its drafts, its workflow, and its laws.
pub mod Draft
pub mod Basics
pub mod Workflow
