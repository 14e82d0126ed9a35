-- ===== src/Queue/Select.antt =====
-- The arm `SelectAgent` of `board_queue_request` (crates/ditchd/src/task_queue_runtime.rs): bind a
-- stopped agent to a Todo task, and free the agents and tasks of the old bindings.
pub mod Choice
pub mod Links
use ditch.Prelude.{
  ℕ, suc, ◌+◌, ◌==◌, Bool, not, ◌&&◌, ◌||◌, Option, none, some, is_none, is_some, is_some_and,
  or_else, List, [], ◌∷◌, ◌++◌, length, lookup, has_key, opt_eq, opt_text_eq, Text, text, Result,
  ok, err, ◌>>=◌, ◌>>◌, reject_if, if◌then◌else◌,
}
use ditch.Core.{AgentId, AgentRun, Task, TaskActor, TaskAudit, TaskError, TaskErrorCode, TaskId}
use ditch.Task.Basics.{touch, audit, task_error}
use ditch.Runtime.State.{RuntimeState, Env, AgentRecord, task_live}
use ditch.Queue.Board.{board_agent_idle, linked_to}
use ditch.Queue.Edit.{Edit}
use ditch.Queue.Enqueue.{in_todo}

-- What the new binding changes beside the task: the task that the agent leaves, and the agent's run.
pub record Binding : Type 0 where
  pub changes : List (Task × TaskAudit)
  pub agents : List AgentRun

unfoldable pub detached : Env → Task → Task
detached env o =
    touch env.now
      (record o { assigned_agent_id = none; continue_agent_id = none; execution_queue = none })

unfoldable pub detach_task :
    Env
    → Option TaskId
    → Option ℕ
    → RuntimeState
    → Option Task
    → Result TaskError (List (Task × TaskAudit))
detach_task env replace_id replace_revision s none =
    err (task_error TaskErrorCode.not_found (text "The agent's current task is unavailable"))
detach_task env replace_id replace_revision s (some o) = do
  reject_if (not (in_todo o) || o.archived || is_some o.coordinator_group || task_live s o) (
      task_error TaskErrorCode.agent_busy
        (text "The agent is locked to another task. Return that task to Todo first."))
  reject_if (not (opt_eq replace_id (some o.id)) || not (opt_eq replace_revision (some o.revision)))
      (task_error TaskErrorCode.revision_conflict
        (text "Confirm reassignment from the agent's current Todo task."))
  let next = detached env o
  ok (
      (
        next,
        audit env.now (env.uuid s.drawn) next TaskActor.user (text "agent_detached") none
            (some (text "Reassigned to another Todo task")),
      )
      ∷ [])

-- `run.task_id.filter(|other| *other != task.id)`.
abbrev pub other_than : TaskId → Option TaskId → Option TaskId
other_than id none = none
other_than id (some other) = if other == id then none else some other

unfoldable pub detach_other :
    Env
    → Option TaskId
    → Option ℕ
    → RuntimeState
    → Option TaskId
    → Result TaskError (List (Task × TaskAudit))
detach_other env replace_id replace_revision s none = do
  reject_if (is_some replace_id || is_some replace_revision) (
      task_error TaskErrorCode.revision_conflict
        (text "Agent assignment changed. Reopen the selector."))
  ok []
detach_other env replace_id replace_revision s (some id) =
    detach_task env replace_id replace_revision s (lookup id s.tasks)

unfoldable pub bind_record :
    Env
    → Option TaskId
    → Option ℕ
    → Task
    → RuntimeState
    → AgentId
    → Option AgentRecord
    → Result TaskError Binding
bind_record env replace_id replace_revision t s id none =
    err (task_error TaskErrorCode.not_found (text "Agent unavailable"))
bind_record env replace_id replace_revision t s id (some a) = do
  reject_if
      (not (board_agent_idle s id)
        || not (a.run.project_id == t.project_id)
        || is_some a.run.coordinator_group)
      (task_error TaskErrorCode.agent_busy
        (text "Choose a stopped user-managed agent in this project."))
  changes ← detach_other env replace_id replace_revision s (other_than t.id a.run.task_id)
  reject_if
      (is_none a.run.native_session_id
        || is_some a.run.resume_block_reason
        || not (opt_text_eq a.run.origin_codex_home s.codex_home))
      (task_error TaskErrorCode.invalid_input
        (text "This agent has no resumable conversation under the current Codex account."))
  ok (record { changes = changes; agents = record a.run { task_id = some t.id } ∷ [] })

unfoldable pub bind :
    Env → Option TaskId → Option ℕ → Task → RuntimeState → Option AgentId → Result TaskError Binding
bind env replace_id replace_revision t s none = ok (record { changes = []; agents = [] })
bind env replace_id replace_revision t s (some id) =
    bind_record env replace_id replace_revision t s id (lookup id s.agents)

-- The run of the previous agent, where it is linked to the task.
abbrev pub unlinked : Task → Option AgentRecord → List AgentRun
unlinked t none = []
unlinked t (some a) =
    if opt_eq a.run.task_id (some t.id) then record a.run { task_id = none } ∷ [] else []

unfoldable pub unlink_previous :
    Task → RuntimeState → Option AgentId → Option AgentId → List AgentRun
unlink_previous t s agent none = []
unlink_previous t s agent (some old) =
    if opt_eq (some old) agent then [] else unlinked t (lookup old s.agents)

unfoldable pub bound : Env → Task → Option AgentId → Task
bound env t agent =
    touch env.now
      (record t { assigned_agent_id = agent; continue_agent_id = agent; execution_queue = none })

unfoldable pub bound_edit :
    Env → Task → RuntimeState → Option AgentId → Option AgentId → Binding → Edit
bound_edit env t s previous agent b =
    let next = bound env t agent in
    let drawn = s.drawn + length b.changes in
    let entry =
      audit env.now (env.uuid drawn) next TaskActor.user (text "agent_selected") none none in
    record {
      task = next;
      changes = b.changes ++ (next, entry) ∷ [];
      agents = b.agents ++ unlink_previous t s agent previous;
      drawn = suc drawn;
    }

-- The arm `SelectAgent`.
unfoldable pub select_agent :
    Env → Option AgentId → Option TaskId → Option ℕ → Task → RuntimeState → Result TaskError Edit
select_agent env agent replace_id replace_revision t s = do
  reject_if (not (in_todo t)) (
      task_error TaskErrorCode.illegal_transition
        (text "Move the task to Todo before changing its agent."))
  let previous = or_else t.continue_agent_id t.assigned_agent_id
  reject_if (is_some_and previous (λ id. has_key id s.agents && not (board_agent_idle s id)))
      (task_error TaskErrorCode.agent_busy (text "Stop the current agent before changing it."))
  b ← bind env replace_id replace_revision t s agent
  ok (bound_edit env t s previous agent b)
