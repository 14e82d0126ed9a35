-- ===== src/Runtime.antt =====
-- The daemon's shared state and the helpers that every task handler calls
-- (crates/ditchd/src/task_runtime.rs and crates/ditchd/src/runtime_shared.rs).
pub mod State
pub mod Sync
pub mod Writers
pub mod Admission
