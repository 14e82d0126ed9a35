-- ===== src/Task/Draft.antt =====
-- `TaskDraft::validate`, `Task::new` and `ProjectRelease::new` (crates/ditch_core/src/tasks.rs), and
-- `new_backlog_task` (crates/ditchd/src/task_runtime.rs).
pub mod Laws
use ditch.Prelude.{
  ℕ, ltb, Bool, false, ◌||◌, none, some, is_empty, [], any, length, Text, text, byte_len, trim,
  is_blank, Result, ok, ◌>>=◌, ◌>>◌, reject_if,
}
use ditch.Core.{
  Uuid, Time, ProjectId, TaskId, Task, TaskDraft, TaskState, TaskCondition, TaskActor, TaskError,
  TaskErrorCode, ProjectRelease, default_acceptance,
}
use ditch.Task.Basics.{task_error}

bad_criterion : Text → Bool
bad_criterion s = is_blank s || ltb 4096 (byte_len s)

invalid_draft : TaskDraft → Bool
unfolding bad_criterion
invalid_draft d =
    is_blank d.title
    || ltb 512 (byte_len d.title)
    || ltb 65536 (byte_len d.description)
    || ltb 100 (length d.acceptance_criteria)
    || any bad_criterion d.acceptance_criteria

-- `TaskDraft::validate`.
unfoldable pub validate : TaskDraft → Result TaskError (Unit {0})
unfolding invalid_draft
validate d = reject_if (invalid_draft d) (
    task_error TaskErrorCode.invalid_input (
      text
        "Provide a title (up to 512 bytes), description (64 KiB), and up to 100 non-empty criteria."))

fresh_task : Time → TaskId → ProjectId → TaskDraft → ℕ → Task
fresh_task now id project_id d order_key = record {
  release_id = none;
  issue_kind = d.issue_kind;
  execution_queue = none;
  planning = record { text = []; job = none };
  remote_pending = false;
  github_source = none;
  coordinator_group = none;
  continue_agent_id = none;
  acceptance = default_acceptance;
  skills = d.skills;
  id = id;
  project_id = project_id;
  title = trim d.title;
  description = d.description;
  state = TaskState.ready;
  acceptance_criteria = d.acceptance_criteria;
  created_at = now;
  condition = TaskCondition.idle;
  order_key = order_key;
  priority = d.priority;
  creator = TaskActor.user;
  assigned_agent_id = none;
  revision = 1;
  updated_at = some now;
  started_at = none;
  submitted_at = none;
  completed_at = none;
  cancelled_at = none;
  archived = false;
  last_reason = none;
  review_summary = none;
}

-- `Task::new`.
unfoldable pub new_task : Time → TaskId → ProjectId → TaskDraft → ℕ → Result TaskError Task
unfolding fresh_task
new_task now id project_id d order_key = do
  validate d
  ok (fresh_task now id project_id d order_key)

-- `new_backlog_task`.
unfoldable pub new_backlog_task :
    Time → TaskId → ProjectId → TaskDraft → ℕ → Bool → Result TaskError Task
new_backlog_task now id project_id d order_key remote_pending = do
  t ← new_task now id project_id d order_key
  ok (record t { state = TaskState.backlog; remote_pending = remote_pending })

-- `ProjectRelease::new`.
unfoldable pub new_release : Time → Uuid → ProjectId → Text → Result TaskError ProjectRelease
new_release now id project_id given = do
  let name = trim given
  reject_if (is_empty name || ltb 128 (byte_len name)) (
      task_error TaskErrorCode.invalid_input
        (text "Release names must contain 1–128 bytes after trimming."))
  ok (record { id = id; project_id = project_id; name = name; created_at = now })
