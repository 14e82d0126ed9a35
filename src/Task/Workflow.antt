-- ===== src/Task/Workflow.antt =====
-- `Task::transition` (crates/ditch_core/src/tasks.rs): one workflow action on a task. Each action is
-- a function that answers `none` where the source falls through to its last arm.
pub mod Rules
pub mod Effects
pub mod History
use ditch.Prelude.{
  ℕ, Bool, true, false, not, ◌&&◌, ◌||◌, Option, none, some, is_some_and, Text, text, take,
  byte_len, is_blank, leb, if◌then◌else◌, Result, ok, err, ◌>>◌, reject_if,
}
use ditch.Core.{
  Uuid, Time, Task, TaskState, TaskColumn, TaskCondition, TaskAction, TaskActor, TaskAudit,
  TaskError, TaskErrorCode, is_user,
}
use ditch.Task.Basics.{column, column_eq, condition_eq, check_revision, touch, audit, task_error}

-- What an arm of the `match` leaves behind: `next`, its name, `reason` and `summary`.
pub record Applied : Type 0 where
  pub next : Task
  pub name : Text
  pub reason : Option Text
  pub summary : Option Text

-- `!self.archived && self.condition != TaskCondition::Cancelled`.
abbrev pub active : Task → Bool
active t = not t.archived && not (condition_eq t.condition TaskCondition.cancelled)

-- `get_or_insert`.
abbrev get_or_insert : Option Time → Time → Option Time
get_or_insert none now = some now
get_or_insert (some at) now = some at

-- An arm that stands behind its guard.
abbrev arm : Bool → Task → Text → Option Text → Option Text → Option Applied
arm guard next name reason summary =
    if guard
    then some (record { next = next; name = name; reason = reason; summary = summary })
    else none

-- The text of a submission or of a feedback: not blank, and 64 KiB at most.
abbrev pub is_evidence : Text → Bool
is_evidence s = not (is_blank s) && leb (byte_len s) 65536

unfoldable pub apply_action : Time → Task → TaskAction → Bool → Option Applied
apply_action now t TaskAction.prioritize user =
    arm (user && active t && column_eq (column t) TaskColumn.backlog)
      (record t { state = TaskState.ready }) (text "prioritize") none none
apply_action now t TaskAction.return_to_backlog user =
    arm (user && active t && column_eq (column t) TaskColumn.todo)
      (record t { state = TaskState.backlog }) (text "return_to_backlog") none none
apply_action now t TaskAction.start user =
    arm
      (active t
        && (column_eq (column t) TaskColumn.todo || column_eq (column t) TaskColumn.in_progress))
      (record t {
        state = TaskState.running;
        condition = TaskCondition.idle;
        started_at = get_or_insert t.started_at now;
      })
      (text "start") none none
apply_action now t (TaskAction.submit summary) user =
    arm (active t && column_eq (column t) TaskColumn.in_progress && is_evidence summary)
      (record t {
        state = TaskState.in_review;
        condition = TaskCondition.idle;
        review_summary = some summary;
        submitted_at = some now;
      })
      (text "submit") none (some summary)
apply_action now t (TaskAction.request_changes feedback) user =
    arm (user && active t && column_eq (column t) TaskColumn.in_review && is_evidence feedback)
      (record t {
        state = TaskState.running;
        condition = TaskCondition.idle;
        last_reason = some feedback;
      })
      (text "request_changes") (some feedback) none
apply_action now t TaskAction.accept user =
    arm
      (user
        && active t
        && column_eq (column t) TaskColumn.in_review
        && is_some_and t.review_summary (λ s. not (is_blank s)))
      (record t { state = TaskState.accepted; completed_at = some now }) (text "accept") none none
apply_action now t (TaskAction.cancel reason) user =
    arm (user && active t && not (column_eq (column t) TaskColumn.done))
      (record t { condition = TaskCondition.cancelled; archived = true; cancelled_at = some now })
      (text "cancel") (some (take 4096 reason)) none
apply_action now t TaskAction.reopen user =
    arm (user && (column_eq (column t) TaskColumn.done || not (active t)))
      (record t {
        state = TaskState.ready;
        condition = TaskCondition.idle;
        archived = false;
        completed_at = none;
        release_id = none;
        cancelled_at = none;
      })
      (text "reopen") none none
apply_action now t (TaskAction.return_to_todo reason) user =
    arm (user && active t && column_eq (column t) TaskColumn.in_progress && not (is_blank reason))
      (record t { state = TaskState.ready; condition = TaskCondition.idle }) (text "return_to_todo")
      (some (take 4096 reason)) none

-- The last lines of `transition`: `next.touch()`, the audit entry and its summary.
unfoldable pub finish : Time → Uuid → Task → TaskActor → Applied → Task × TaskAudit
finish now fresh t actor applied =
    let next = touch now applied.next in
    let entry = audit now fresh next actor applied.name (some (column t)) applied.reason in
    (next, record entry { summary = applied.summary })

abbrev pub illegal_transition : TaskError
illegal_transition = task_error TaskErrorCode.illegal_transition (
    text
      "This transition is not allowed. Done requires explicit human acceptance from In Review; review and backward moves require a summary or feedback.")

abbrev pub agent_busy : TaskError
agent_busy =
    task_error TaskErrorCode.agent_busy
      (text "Stop the active agent before changing this task's workflow.")

abbrev pub settle :
    Time → Uuid → Task → TaskActor → Option Applied → Result TaskError (Task × TaskAudit)
settle now fresh t actor none = err illegal_transition
settle now fresh t actor (some applied) = ok (finish now fresh t actor applied)

-- `Task::transition`.
unfoldable pub transition :
    Time → Uuid → Task → TaskAction → TaskActor → ℕ → Bool → Result TaskError (Task × TaskAudit)
transition now fresh t action actor expected live_child = do
  check_revision t expected
  reject_if live_child agent_busy
  settle now fresh t actor (apply_action now t action (is_user actor))
