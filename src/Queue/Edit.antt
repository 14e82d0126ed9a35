-- ===== src/Queue/Edit.antt =====
-- What a request on the queue changes, and the positions of a project's queue entries
-- (`board_queue_request` of crates/ditchd/src/task_queue_runtime.rs).
use ditch.Prelude.{
  ℕ, ◌+◌, ◌^◌, ltb, Bool, ◌&&◌, is_some, List, [], ◌∷◌, text, Result, ok, err, if◌then◌else◌,
}
use ditch.Core.{AgentRun, Task, TaskAudit, TaskError, TaskErrorCode}
use ditch.Task.Basics.{task_error}
use ditch.Queue.Claim.{position}

-- The variables `task`, `changes` and `agent_changes`, and the count of identities drawn.
pub record Edit : Type 0 where
  pub task : Task
  pub changes : List (Task × TaskAudit)
  pub agents : List AgentRun
  pub drawn : ℕ

abbrev pub larger : ℕ → ℕ → ℕ
larger a b = if ltb a b then b else a

-- `filter_map(|t| t.execution_queue.as_ref().map(|q| q.position)).max().unwrap_or(0)` over the tasks
-- that a filter passes.
unfoldable pub queue_max : (Task → Bool) → List Task → ℕ
queue_max f [] = 0
queue_max f (t ∷ ts) =
    let rest = queue_max f ts in
    if f t && is_some t.execution_queue then larger (position t) rest else rest

-- `checked_add` on a `u64`, and the error of its callers.
unfoldable pub checked_position : ℕ → ℕ → Result TaskError ℕ
checked_position base n =
    if ltb (base + n) (2 ^ 64)
    then ok (base + n)
    else err (task_error TaskErrorCode.invalid_input (text "Queue position limit reached"))
