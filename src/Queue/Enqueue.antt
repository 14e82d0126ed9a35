-- ===== src/Queue/Enqueue.antt =====
-- Work that enters the queue at its end: `Enqueue`, and `RequestChanges` of a queued task
-- (crates/ditchd/src/task_queue_runtime.rs).
pub mod Tail
use ditch.Prelude.{
  ℕ, suc, ◌==◌, Bool, false, not, ◌&&◌, ◌||◌, Option, none, some, or_else, unwrap_or, List, [], ◌∷◌,
  Text, text, Result, ok, err, ◌>>=◌, ◌>>◌, reject_if, if◌then◌else◌,
}
use ditch.Core.{
  AgentId, AgentExecutionProfile, AgentTransport, Task, TaskAction, TaskActor, TaskAudit,
  TaskColumn, TaskCondition, TaskError, TaskErrorCode, TaskExecutionQueue, TaskState,
}
use ditch.Task.Basics.{column, column_eq, waiting_in_queue, touch, audit, task_error}
use ditch.Task.Workflow.{transition}
use ditch.Runtime.State.{RuntimeState, Env, tasks_of}
use ditch.Queue.Board.{queue_agent}
use ditch.Queue.Claim.{queue_feedback}
use ditch.Queue.Edit.{Edit, queue_max, checked_position}

abbrev pub in_progress : Task → Bool
in_progress t = column_eq (column t) TaskColumn.in_progress

abbrev pub in_todo : Task → Bool
in_todo t = column_eq (column t) TaskColumn.todo

abbrev pub same_project : Task → Task → Bool
same_project t u = u.project_id == t.project_id

-- The position behind every entry of the project.
abbrev pub tail_position : RuntimeState → Task → Result TaskError ℕ
tail_position s t = checked_position (queue_max (same_project t) (tasks_of s)) 1

abbrev pub queue_profile : Option TaskExecutionQueue → Option AgentExecutionProfile
queue_profile none = none
queue_profile (some q) = some q.profile

-- The agent that a queue entry names: a retry keeps the agent of the last attempt.
unfoldable pub queued_agent : Task → Option AgentId
queued_agent t =
    if in_progress t
    then or_else (or_else (queue_agent t.execution_queue) t.continue_agent_id) t.assigned_agent_id
    else or_else t.continue_agent_id t.assigned_agent_id

unfoldable pub queued_profile : Task → AgentExecutionProfile → AgentExecutionProfile
queued_profile t profile =
    record (if in_progress t
      then unwrap_or (queue_profile t.execution_queue) profile
      else profile) { transport = AgentTransport.app_server; skills = t.skills }

unfoldable pub queue_at : Env → Task → AgentExecutionProfile → ℕ → Task
queue_at env t profile place = touch env.now (record t {
  execution_queue = some (record {
    agent_id = queued_agent t;
    position = place;
    profile = queued_profile t profile;
    feedback = queue_feedback t.execution_queue;
  });
  state = TaskState.running;
  condition = TaskCondition.queued;
  assigned_agent_id = none;
  acceptance = record t.acceptance { current_submission = none };
  last_reason = none;
})

unfoldable pub queue_edit : Env → Task → AgentExecutionProfile → ℕ → ℕ → Edit
queue_edit env t profile drawn place =
    let next = queue_at env t profile place in
    let entry =
      audit env.now (env.uuid drawn) next TaskActor.user (text "queue") (some (column t)) none in
    record { task = next; changes = (next, entry) ∷ []; agents = []; drawn = suc drawn }

-- The arm `Enqueue`.
unfoldable pub enqueue : Env → AgentExecutionProfile → Task → RuntimeState → Result TaskError Edit
enqueue env profile t s = do
  reject_if (not (in_todo t || in_progress t) || waiting_in_queue t) (
      task_error TaskErrorCode.illegal_transition
        (text "Move a Todo task into In Progress to queue it."))
  place ← tail_position s t
  ok (queue_edit env t profile s.drawn place)

-- The queue entry of a task that is sent back; the code unwraps the entry.
abbrev pub sent_back_entry : Task → Text → ℕ → Option TaskExecutionQueue → Option TaskExecutionQueue
sent_back_entry t feedback place none = none
sent_back_entry t feedback place (some q) = some (record q {
  agent_id = or_else (or_else q.agent_id t.continue_agent_id) t.assigned_agent_id;
  position = place;
  feedback = some feedback;
})

unfoldable pub sent_back : Task → Text → ℕ → Task → Task
sent_back t feedback place next = record next {
  execution_queue = sent_back_entry t feedback place next.execution_queue;
  condition = TaskCondition.queued;
  assigned_agent_id = none;
  acceptance = record next.acceptance { current_submission = none };
}

unfoldable pub sent_back_edit : Task → Text → ℕ → (Task × TaskAudit) → ℕ → Edit
sent_back_edit t feedback drawn (next, entry) place =
    let back = sent_back t feedback place next in
    record { task = back; changes = (back, entry) ∷ []; agents = []; drawn = suc drawn }

-- The arm `Transition` with `RequestChanges`.
unfoldable pub request_again : Env → Text → Task → RuntimeState → Result TaskError Edit
request_again env feedback t s = do
  step ←
      transition env.now (env.uuid s.drawn) t (TaskAction.request_changes feedback) TaskActor.user
        t.revision false
  place ← tail_position s t
  ok (sent_back_edit t feedback s.drawn step place)
