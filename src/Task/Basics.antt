-- ===== src/Task/Basics.antt =====
-- The readers and small writers of `impl Task` (crates/ditch_core/src/tasks.rs). A reading of the
-- clock and a fresh UUID are arguments.
use ditch.Prelude.{
  ℕ, ◌+◌, ◌%◌, ◌==◌, Bool, true, false, not, ◌&&◌, Option, none, some, is_some, is_none, Text, text,
  Result, reject_if, u64_mod,
}
use ditch.Core.{
  Uuid, Time, Task, TaskState, TaskColumn, TaskCondition, TaskActor, TaskAudit, TaskError,
  TaskErrorCode,
}

-- `Task::column`.
abbrev pub state_column : TaskState → TaskColumn
state_column TaskState.backlog = TaskColumn.backlog
state_column TaskState.draft = TaskColumn.todo
state_column TaskState.ready = TaskColumn.todo
state_column TaskState.cancelled = TaskColumn.todo
state_column TaskState.running = TaskColumn.in_progress
state_column TaskState.blocked = TaskColumn.in_progress
state_column TaskState.rejected = TaskColumn.in_progress
state_column TaskState.in_review = TaskColumn.in_review
state_column TaskState.accepted = TaskColumn.done

abbrev pub column : Task → TaskColumn
column t = state_column t.state

-- `==` on columns and on conditions: comparison of the enum's discriminants.
abbrev pub column_index : TaskColumn → ℕ
column_index TaskColumn.backlog = 0
column_index TaskColumn.todo = 1
column_index TaskColumn.in_progress = 2
column_index TaskColumn.in_review = 3
column_index TaskColumn.done = 4

abbrev pub column_eq : TaskColumn → TaskColumn → Bool
column_eq a b = column_index a == column_index b

abbrev pub condition_index : TaskCondition → ℕ
condition_index TaskCondition.idle = 0
condition_index TaskCondition.queued = 1
condition_index TaskCondition.running = 2
condition_index TaskCondition.awaiting_approval = 3
condition_index TaskCondition.blocked = 4
condition_index TaskCondition.failed = 5
condition_index TaskCondition.cancelled = 6

abbrev pub condition_eq : TaskCondition → TaskCondition → Bool
condition_eq a b = condition_index a == condition_index b

-- `matches!(condition, Queued | Running | AwaitingApproval)`.
abbrev pub condition_live : TaskCondition → Bool
condition_live TaskCondition.queued = true
condition_live TaskCondition.running = true
condition_live TaskCondition.awaiting_approval = true
condition_live TaskCondition.idle = false
condition_live TaskCondition.blocked = false
condition_live TaskCondition.failed = false
condition_live TaskCondition.cancelled = false

-- `TaskError::new`.
abbrev pub task_error : TaskErrorCode → Text → TaskError
task_error code message = record { code = code; message = message }

-- `Task::check_revision`.
unfoldable pub check_revision : Task → ℕ → Result TaskError (Unit {0})
check_revision t expected =
    reject_if (not (t.revision == expected))
      (task_error TaskErrorCode.revision_conflict (text "This task changed. Refresh it and retry."))

-- `Task::waiting_in_queue`.
unfoldable pub waiting_in_queue : Task → Bool
waiting_in_queue t =
    is_some t.execution_queue
    && column_eq (column t) TaskColumn.in_progress
    && condition_eq t.condition TaskCondition.queued
    && is_none t.assigned_agent_id
    && not t.archived

-- `Task::touch`; the `u64` wraps.
unfoldable pub touch : Time → Task → Task
touch now t = record t { revision = (t.revision + 1) % u64_mod; updated_at = some now }

-- `Task::audit`.
unfoldable pub audit :
    Time → Uuid → Task → TaskActor → Text → Option TaskColumn → Option Text → TaskAudit
audit now fresh t actor action from_column reason = record {
  id = fresh;
  task_id = t.id;
  actor = actor;
  action = action;
  from_column = from_column;
  to_column = column t;
  agent_id = t.assigned_agent_id;
  created_at = now;
  reason = reason;
  summary = none;
}
