-- ===== src/Requests/Prepare.antt =====
-- `prepare_task_request` (crates/ditchd/src/task_runtime.rs) as a whole: the checks before an
-- operation, what a card's way back to Todo does to its place in the queue, the plan that a card
-- brought from the backlog asks for, the transaction, and what is published. The thread that runs a
-- plan is outside: its launch is part of the answer.
pub mod Queue
pub mod Laws
use ditch.Prelude.{
  ℕ, suc, ◌==◌, Bool, true, false, not, ◌&&◌, ◌||◌, Option, none, some, is_some, or_else, List, [],
  ◌∷◌, ◌++◌, find, has_key, lookup, insert, remove, Text, text, Result, ok, err, ◌>>=◌, ◌>>◌,
  reject_if, if◌then◌else◌,
}
use ditch.Core.{
  AgentExecutionProfile, AgentId, AgentRun, Project, ProjectId, Task, TaskColumn, TaskCondition,
  TaskError, TaskErrorCode, TaskExecutionQueue, TaskId, TaskOperation, TaskRequest, TaskResponse,
  TaskAudit,
}
use ditch.Task.Basics.{check_revision, column, column_eq, task_error, waiting_in_queue}
use ditch.Store.{Store, delete_draft_task, receipt_of, save_task_changes, task_detail, task_replay}
use ditch.Runtime.State.{
  RuntimeState, Env, AgentRecord, ServerEvent, archived, publish_tasks, send, task_live,
}
use ditch.Runtime.Sync.{task_attention}
use ditch.Runtime.Writers.{broadcast_agent, reap_orphan_writers}
use ditch.Queue.Board.{queue_agent}
use ditch.Planning.{TaskPlanLaunch, prepare_automatic_task_plan}
use ditch.Requests.Create.{
  Answer, board_projects, created, created_backlog, created_identified, list_tasks, storage,
  store_new,
}
use ditch.Requests.Place.{Change, move_task}
use ditch.Requests.Edits.{link_task, start_task, transition_task, update_task}

-- `PreparedTask`, with the plan that is launched.
pub record Prepared : Type 0 where
  pub response : TaskResponse
  pub start : Option (Task × Project × AgentExecutionProfile)
  pub launch : Option TaskPlanLaunch

abbrev pub Reply : Type 0
Reply = RuntimeState × Result TaskError Prepared

abbrev pub answered : TaskResponse → Prepared
answered response = record { response = response; start = none; launch = none }

abbrev pub answer_only : Answer TaskResponse → Reply
answer_only (s, err e) = (s, err e)
answer_only (s, ok response) = (s, ok (answered response))

-- The arms that leave a change; the others return before, or are `unreachable!()`.
unfoldable pub edit_task :
    Env → TaskOperation → Project → Task → RuntimeState → Result TaskError Change
edit_task env (TaskOperation.update id revision draft) p t s = update_task env draft t s
edit_task env (TaskOperation.transition id revision action) p t s = transition_task env action t s
edit_task env (TaskOperation.move id revision to before) p t s = move_task env to before t s
edit_task env (TaskOperation.start id revision profile) p t s = start_task env profile p t s
edit_task env (TaskOperation.link id revision agent) p t s = link_task env agent t s
edit_task env _ p t s = err (task_error TaskErrorCode.unsupported (text "unreachable"))

-- A card that leaves the queue.
abbrev pub unqueued : Task → Task
unqueued t = record t { execution_queue = none; condition = TaskCondition.idle; last_reason = none }

abbrev pub known_agent : RuntimeState → Option AgentId → Option AgentId
known_agent s none = none
known_agent s (some id) = if has_key id s.agents then some id else none

abbrev pub last_agent : RuntimeState → Task → Option AgentId
last_agent s t =
    known_agent s
      (or_else (or_else (queue_agent t.execution_queue) t.continue_agent_id) t.assigned_agent_id)

unfoldable pub leave_queue : RuntimeState → Task → Task → Task
leave_queue s t next =
    if is_some t.execution_queue && column_eq (column next) TaskColumn.todo
    then unqueued
        (record next { continue_agent_id = last_agent s t; assigned_agent_id = last_agent s t })
    else if waiting_in_queue t && not (column_eq (column next) TaskColumn.in_progress)
    then unqueued next
    else next

-- The plan for a card that comes from the backlog.
unfoldable pub plan_next :
    Env → Project → Task → Change → RuntimeState → Task × Option TaskPlanLaunch
plan_next env p t c s =
    let next = leave_queue s t c.next in
    if column_eq (column t) TaskColumn.backlog && column_eq (column next) TaskColumn.todo
    then prepare_automatic_task_plan env s p (env.uuid c.drawn) next
    else (next, none)

-- `record.run = run.clone()` and the event.
abbrev pub with_run : AgentRun → Option AgentRecord → RuntimeState → RuntimeState
with_run run none s = s
with_run run (some a) s = record s { agents = insert run.id (record a { run = run }) s.agents }

unfoldable pub announce_link : Env → Option AgentRun → RuntimeState → RuntimeState
announce_link env none s = s
announce_link env (some run) s = broadcast_agent env run (with_run run (lookup run.id s.agents) s)

unfoldable pub attend : Env → Task → RuntimeState → RuntimeState
attend env next s =
    let noticed = task_attention env next s in
    if column_eq (column next) TaskColumn.in_review then noticed else s

unfoldable pub saved_change :
    Env → Change → Task → Option TaskPlanLaunch → RuntimeState → Result Text Store → Reply
saved_change env c next launch s (err e) = (s, err (task_error TaskErrorCode.storage e))
saved_change env c next launch s (ok store) = (
  attend env next (
      publish_tasks (c.changes ++ (next, c.entry) ∷ [])
        (announce_link env c.linked (record s { store = store; drawn = suc c.drawn }))),
  ok (record { response = TaskResponse.changed next; start = c.start; launch = launch }),
)

-- From the end of the `match` on.
unfoldable pub commit_change :
    Env → TaskRequest → Project → Task → RuntimeState → Result TaskError Change → Reply
commit_change env request p t s (err e) = (s, err e)
commit_change env request p t s (ok c) =
    let planned = plan_next env p t c s in
    let next = planned.0 in
    saved_change env c next planned.1 s (
      save_task_changes env.disk (c.changes ++ (next, c.entry) ∷ [])
        (some (receipt_of env.to_json request (TaskResponse.changed next))) c.linked s.store)

-- The arm `Delete`.
unfoldable pub deleted : Task → RuntimeState → Result Text Store → Reply
deleted t s (err e) = (s, err (task_error TaskErrorCode.has_history e))
deleted t s (ok store) = (
  send (ServerEvent.task_deleted t.id t.project_id)
      (record s { store = store; tasks = remove t.id s.tasks }),
  ok (answered (TaskResponse.deleted t.id)),
)

unfoldable pub delete_task : Env → TaskRequest → Task → RuntimeState → Reply
delete_task env request t s = deleted t s (
    delete_draft_task env.disk t (receipt_of env.to_json request (TaskResponse.deleted t.id))
      s.store)

unfoldable pub act : Env → TaskRequest → TaskOperation → Project → Task → RuntimeState → Reply
act env request (TaskOperation.delete id revision) p t s = delete_task env request t s
act env request operation p t s = commit_change env request p t s (edit_task env operation p t s)

-- The task that the operation names, at the revision it expects.
abbrev pub found_task : ProjectId → Option Task → Result TaskError Task
found_task project_id none =
    err (task_error TaskErrorCode.not_found (text "Task not found in this project."))
found_task project_id (some t) =
    if t.project_id == project_id
    then ok t
    else err (task_error TaskErrorCode.not_found (text "Task not found in this project."))

unfoldable pub task_at : Project → TaskId → ℕ → RuntimeState → Result TaskError Task
task_at p id revision s = do
  t ← found_task p.id (lookup id s.tasks)
  check_revision t revision
  reject_if (task_live s t) (
      task_error TaskErrorCode.agent_busy
        (text "Stop the active task agent before changing this task."))
  ok t

abbrev pub act_on : Env → TaskRequest → Project → RuntimeState → Result TaskError Task → Reply
act_on env request p s (err e) = (s, err e)
act_on env request p s (ok t) = act env request request.operation p t s

unfoldable pub detail_of : Env → Project → TaskId → RuntimeState → Result TaskError Prepared
detail_of env p id s = do
  t ← found_task p.id (lookup id s.tasks)
  detail ← storage (task_detail env.disk t s.store)
  ok (answered (TaskResponse.detail detail))

-- The operation, on its project.
unfoldable pub on_board : Env → TaskRequest → TaskOperation → Project → RuntimeState → Reply
on_board env request (TaskOperation.create_backlog draft) p s =
    answer_only (store_new env request s (created_backlog env p draft s))
on_board env request (TaskOperation.create draft) p s =
    answer_only (store_new env request s (created env p draft s))
on_board env request (TaskOperation.create_identified board_task id group agent draft) p s =
    answer_only
      (store_new env request s (created_identified env p board_task id group agent draft s))
on_board env request (TaskOperation.get id) p s = (s, detail_of env p id s)
on_board env request (TaskOperation.update id revision draft) p s =
    act_on env request p s (task_at p id revision s)
on_board env request (TaskOperation.transition id revision action) p s =
    act_on env request p s (task_at p id revision s)
on_board env request (TaskOperation.move id revision to before) p s =
    act_on env request p s (task_at p id revision s)
on_board env request (TaskOperation.start id revision profile) p s =
    act_on env request p s (task_at p id revision s)
on_board env request (TaskOperation.link id revision agent) p s =
    act_on env request p s (task_at p id revision s)
on_board env request (TaskOperation.delete id revision) p s =
    act_on env request p s (task_at p id revision s)
on_board env request _ p s = (s, err (task_error TaskErrorCode.unsupported (text "unreachable")))

abbrev pub found_board : RuntimeState → Option ProjectId → Result TaskError Project
found_board s none =
    err (task_error TaskErrorCode.invalid_input (text "A task action must name its project."))
found_board s (some id) =
    elim (find (λ (p : Project). p.id == id && not (archived p.archived_at)) s.projects) [
      | none ↦ err (task_error TaskErrorCode.not_found (text "Project not found."))
      | some p ↦ ok p
    ]

unfoldable pub on_found : Env → TaskRequest → RuntimeState → Result TaskError Project → Reply
on_found env request s (err e) = (s, err e)
on_found env request s (ok p) = on_board env request request.operation p s

unfoldable pub unless_replayed :
    Env → TaskRequest → RuntimeState → Result Text (Option TaskResponse) → Reply
unless_replayed env request s (err e) = (s, err (task_error TaskErrorCode.storage e))
unless_replayed env request s (ok (some replay)) = (s, ok (answered replay))
unless_replayed env request s (ok none) = on_found env request s (found_board s request.project_id)

-- A retry is looked for, but for the operations that read.
unfoldable pub prepare : Env → TaskRequest → TaskOperation → RuntimeState → Reply
prepare env request (TaskOperation.board_projects members) s =
    answer_only (board_projects env request.project_id members s)
prepare env request (TaskOperation.list c include_archived) s =
    (s, ok (answered (TaskResponse.tasks (list_tasks request.project_id c include_archived s))))
prepare env request (TaskOperation.get id) s =
    on_found env request s (found_board s request.project_id)
prepare env request operation s =
    unless_replayed env request s (task_replay env.to_json env.disk request s.store)

-- `prepare_task_request`.
unfoldable pub prepare_task_request : Env → TaskRequest → RuntimeState → Reply
prepare_task_request env request s =
    prepare env request request.operation (reap_orphan_writers env s)
