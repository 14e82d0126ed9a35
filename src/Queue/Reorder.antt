-- ===== src/Queue/Reorder.antt =====
-- The arm `ReorderQueue` of `board_queue_request` (crates/ditchd/src/task_queue_runtime.rs): put a
-- waiting task before another one or at the end, and number the waiting tasks again.
pub mod Order
pub mod Pending
pub mod Place
pub mod Laws
use ditch.Prelude.{
  ℕ, zero, suc, ◌+◌, ◌==◌, ltb, leb, Bool, true, false, not, ◌&&◌, ◌||◌, Option, none, some,
  is_some, List, [], ◌∷◌, ◌++◌, keep, length, opt_eq, Text, text, Result, ok, err, ◌>>=◌, ◌>>◌,
  reject_if, if◌then◌else◌,
}
use ditch.Core.{
  Task, TaskActor, TaskAudit, TaskColumn, TaskError, TaskErrorCode, TaskExecutionQueue, TaskId,
}
use ditch.Task.Basics.{waiting_in_queue, touch, audit, task_error}
use ditch.Runtime.State.{RuntimeState, Env, tasks_of}
use ditch.Queue.Claim.{position}
use ditch.Queue.Edit.{Edit, queue_max, checked_position}
use ditch.Queue.Enqueue.{same_project}

-- `sort_by_key` on the positions; the sort is stable.
unfoldable pub insert_by_position : Task → List Task → List Task
insert_by_position t [] = t ∷ []
insert_by_position t (u ∷ us) =
    let rest = insert_by_position t us in
    if leb (position t) (position u) then t ∷ u ∷ us else u ∷ rest

unfoldable pub sort_by_position : List Task → List Task
sort_by_position [] = []
sort_by_position (t ∷ ts) = insert_by_position t (sort_by_position ts)

-- `pending`: the project's other waiting tasks, in their order.
unfoldable pub pending_tasks : RuntimeState → Task → List Task
pending_tasks s t =
    sort_by_position (
      keep (λ (u : Task). same_project t u && waiting_in_queue u && not (u.id == t.id))
        (tasks_of s))

abbrev pub moved_on : Result TaskError (List Task) → Task → Result TaskError (List Task)
moved_on rest u = do us ← rest; ok (u ∷ us)

-- `position(|t| t.id == before)`, and `insert` at that index.
unfoldable pub insert_before : TaskId → Task → List Task → Result TaskError (List Task)
insert_before before t [] = err (
    task_error TaskErrorCode.revision_conflict
      (text "The destination is no longer waiting in this project's queue."))
insert_before before t (u ∷ us) =
    let rest = insert_before before t us in
    if u.id == before then ok (t ∷ u ∷ us) else moved_on rest u

unfoldable pub insert_at : Option TaskId → Task → List Task → Result TaskError (List Task)
insert_at none t us = ok (us ++ t ∷ [])
insert_at (some before) t us = insert_before before t us

abbrev pub at_position : ℕ → Option TaskExecutionQueue → Option TaskExecutionQueue
at_position n none = none
at_position n (some q) = some (record q { position = n })

unfoldable pub renumbered : Env → ℕ → Task → Task
renumbered env n t = touch env.now (record t { execution_queue = at_position n t.execution_queue })

unfoldable pub numbered_change : Env → ℕ → Task → ℕ → Task × TaskAudit
numbered_change env n t drawn =
    let next = renumbered env n t in
    (
      next,
      audit env.now (env.uuid drawn) next TaskActor.user (text "queue_reorder")
          (some TaskColumn.in_progress) none,
    )

-- The body of the loop, before the changes of the later tasks.
unfoldable pub number_one :
    Env → TaskId → ℕ → Task → ℕ → List (Task × TaskAudit) → List (Task × TaskAudit)
number_one env id n t drawn rest =
    if not (position t == n) || t.id == id then numbered_change env n t drawn ∷ rest else rest

abbrev pub drawn_by : TaskId → ℕ → Task → ℕ → ℕ
drawn_by id n t drawn = if not (position t == n) || t.id == id then suc drawn else drawn

-- The loop; `index` counts from 1.
unfoldable pub number_tasks :
    Env → TaskId → ℕ → ℕ → List Task → ℕ → Result TaskError (List (Task × TaskAudit))
number_tasks env id base index [] drawn = ok []
number_tasks env id base index (t ∷ ts) drawn = do
  n ← checked_position base index
  rest ← number_tasks env id base (suc index) ts (drawn_by id n t drawn)
  ok (number_one env id n t drawn rest)

-- `task = next.clone()`, at the task's own turn.
unfoldable pub changed_task : TaskId → Task → List (Task × TaskAudit) → Task
changed_task id t [] = t
changed_task id t ((u, entry) ∷ changes) =
    let rest = changed_task id t changes in if u.id == id then u else rest

abbrev pub reorder_base : RuntimeState → Task → ℕ
reorder_base s t =
    queue_max (λ (u : Task). same_project t u && not (waiting_in_queue u)) (tasks_of s)

unfoldable pub reorder_edit : Task → ℕ → List (Task × TaskAudit) → Edit
reorder_edit t drawn changes = record {
  task = changed_task t.id t changes;
  changes = changes;
  agents = [];
  drawn = drawn + length changes;
}

-- The arm `ReorderQueue`.
unfoldable pub reorder : Env → Option TaskId → Task → RuntimeState → Result TaskError Edit
reorder env before t s = do
  reject_if (not (waiting_in_queue t) || opt_eq before (some t.id))
      (task_error TaskErrorCode.illegal_transition (text "Only waiting tasks can be reordered."))
  order ← insert_at before t (pending_tasks s t)
  changes ← number_tasks env t.id (reorder_base s t) 1 order s.drawn
  ok (reorder_edit t s.drawn changes)
