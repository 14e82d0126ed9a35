-- ===== src/Requests.antt =====
-- `prepare_task_request` (crates/ditchd/src/task_runtime.rs): the requests on the board's cards that
-- no other handler has taken. Create makes and lists cards, Place moves one within a column or
-- between columns, Edits holds the other changes of one card, and Prepare composes them.
pub mod Create
pub mod Place
pub mod Edits
pub mod Prepare
