-- ===== src/Queue.antt =====
-- The durable project-local queue of the board (crates/ditchd/src/task_queue_runtime.rs).
pub mod Board
pub mod Claim
pub mod Execution
pub mod Edit
pub mod Enqueue
pub mod Select
pub mod Reorder
pub mod Requests
