-- ===== src/Queue/Requests.antt =====
-- `board_queue_request` (crates/ditchd/src/task_queue_runtime.rs): the requests that put a task into
-- its project's queue, order the queue, or choose an agent.
pub mod Accepted
use ditch.Prelude.{
  ℕ, suc, ◌==◌, Bool, not, ◌&&◌, ◌||◌, Option, none, some, is_some, List, [], ◌∷◌, any, lookup,
  insert, opt_eq, Text, text, Result, ok, err, ◌>>=◌, ◌>>◌, reject_if, if◌then◌else◌,
}
use ditch.Core.{
  AgentRun, Project, ProjectId, Task, TaskAction, TaskError, TaskErrorCode, TaskId, TaskOperation,
  TaskRequest, TaskResponse, is_remote,
}
use ditch.Task.Basics.{check_revision, task_error}
use ditch.Store.{Store, receipt_of, save_task_agent_changes, task_replay}
use ditch.Runtime.State.{RuntimeState, Env, AgentRecord, archived, publish_tasks, task_live}
use ditch.Runtime.Writers.{broadcast_agent}
use ditch.Queue.Edit.{Edit}
use ditch.Queue.Enqueue.{enqueue, request_again}
use ditch.Queue.Select.{select_agent}
use ditch.Queue.Reorder.{reorder}

abbrev pub Reply : Type 0
Reply = RuntimeState × TaskResponse

abbrev pub in_queue : Option Task → Bool
in_queue none = Bool.false
in_queue (some t) = is_some t.execution_queue

-- The task and the revision that the operation names, where it is one of the queue's.
unfoldable pub queue_target : RuntimeState → TaskOperation → Option (TaskId × ℕ)
queue_target s (TaskOperation.enqueue id revision profile) = some (id, revision)
queue_target s (TaskOperation.reorder_queue id revision before) = some (id, revision)
queue_target s (TaskOperation.select_agent id revision agent replace_id replace_revision) =
    some (id, revision)
queue_target s (TaskOperation.transition id revision (TaskAction.request_changes feedback)) =
    if in_queue (lookup id s.tasks) then some (id, revision) else none
queue_target s _ = none

-- The last arm is `unreachable!()`: `queue_target` has turned away the other operations.
unfoldable pub edit : Env → TaskOperation → Task → RuntimeState → Result TaskError Edit
edit env (TaskOperation.enqueue id revision profile) t s = enqueue env profile t s
edit env (TaskOperation.reorder_queue id revision before) t s = reorder env before t s
edit env (TaskOperation.select_agent id revision agent replace_id replace_revision) t s =
    select_agent env agent replace_id replace_revision t s
edit env (TaskOperation.transition id revision (TaskAction.request_changes feedback)) t s =
    request_again env feedback t s
edit env _ t s = err (task_error TaskErrorCode.unsupported (text "unreachable"))

abbrev pub of_project : Option ProjectId → Option Task → Result TaskError Task
of_project named none = err (task_error TaskErrorCode.not_found (text "Task not found"))
of_project named (some t) =
    if opt_eq (some t.project_id) named
    then ok t
    else err (task_error TaskErrorCode.not_found (text "Task not found"))

abbrev pub serves : Task → Project → Bool
serves t p = p.id == t.project_id && not (is_remote p) && not (archived p.archived_at)

unfoldable pub checked_edit : Env → TaskRequest → TaskId → ℕ → RuntimeState → Result TaskError Edit
checked_edit env request id revision s = do
  t ← of_project request.project_id (lookup id s.tasks)
  check_revision t revision
  reject_if (not (any (serves t) s.projects)) (
      task_error TaskErrorCode.unsupported
        (text "Use the project's connected runtime to queue work."))
  reject_if (t.archived || is_some t.coordinator_group || task_live s t) (
      task_error TaskErrorCode.agent_busy
        (text "Only idle user-managed tasks can enter or change this queue."))
  edit env request.operation t s

-- `s.agents.get_mut(&run.id)`.
abbrev pub with_run : AgentRun → RuntimeState → Option AgentRecord → RuntimeState
with_run run s none = s
with_run run s (some a) = record s { agents = insert run.id (record a { run = run }) s.agents }

unfoldable pub announce : Env → List AgentRun → RuntimeState → RuntimeState
announce env [] s = s
announce env (run ∷ runs) s =
    announce env runs (broadcast_agent env run (with_run run s (lookup run.id s.agents)))

unfoldable pub committed : Env → RuntimeState → Edit → Result Text Store → Reply
committed env s e (err reason) =
    (record s { drawn = e.drawn }, TaskResponse.error (task_error TaskErrorCode.storage reason))
committed env s e (ok store) = (
  publish_tasks e.changes (announce env e.agents (record s { store = store; drawn = e.drawn })),
  TaskResponse.changed e.task,
)

unfoldable pub save_edit : Env → TaskRequest → RuntimeState → Result TaskError Edit → Reply
save_edit env request s (err e) = (s, TaskResponse.error e)
save_edit env request s (ok e) = committed env s e (
    save_task_agent_changes env.disk e.changes
      (some (receipt_of env.to_json request (TaskResponse.changed e.task))) e.agents s.store)

unfoldable pub new_request :
    Env → TaskRequest → TaskId → ℕ → RuntimeState → Result Text (Option TaskResponse) → Reply
new_request env request id revision s (err e) =
    (s, TaskResponse.error (task_error TaskErrorCode.storage e))
new_request env request id revision s (ok (some replay)) = (s, replay)
new_request env request id revision s (ok none) =
    save_edit env request s (checked_edit env request id revision s)

unfoldable pub targeted_request :
    Env → TaskRequest → RuntimeState → Option (TaskId × ℕ) → Option Reply
targeted_request env request s none = none
targeted_request env request s (some (id, revision)) =
    some (new_request env request id revision s (task_replay env.to_json env.disk request s.store))

-- `board_queue_request`.
unfoldable pub board_queue_request : Env → TaskRequest → RuntimeState → Option Reply
board_queue_request env request s =
    targeted_request env request s (queue_target s request.operation)
