-- ===== src/Queue/Claim.antt =====
-- `claim_board_task` (crates/ditchd/src/task_queue_runtime.rs): under one lock, choose the first
-- waiting task of a project and reserve the workspace for it, or say why it waits.
pub mod Least
pub mod Grant
pub mod Laws
pub mod Exclusive
use ditch.Prelude.{
  ℕ, suc, ◌==◌, ltb, Bool, true, false, not, ◌&&◌, ◌||◌, Option, none, some, is_some, is_some_and,
  or_else, unwrap_or, List, [], ◌∷◌, any, keep, lookup, has_key, values, Text, text, text_eq,
  opt_eq, opt_text_eq, is_blank, Result, ok, err, if◌then◌else◌,
}
use ditch.Core.{
  AgentId, BoardExecutionState, Project, Task, TaskActor, TaskAudit, TaskCondition,
  TaskExecutionQueue, TaskPlanJob, is_remote,
}
use ditch.Task.Basics.{waiting_in_queue, touch, audit}
use ditch.Store.{Store, save_task_changes}
use ditch.Runtime.State.{RuntimeState, Env, tasks_of, publish_tasks, draw, archived}
use ditch.Runtime.Writers.{reap_orphan_writers}
use ditch.Queue.Board.{
  board_execution, board_agent_idle, board_agent_thread, board_execution_busy, queue_agent,
}

-- A handler's new state and its answer.
abbrev pub Outcome : Type 0 → Type 0
Outcome A = RuntimeState × Result Text A

abbrev pub queue_position : Option TaskExecutionQueue → ℕ
queue_position none = 0
queue_position (some q) = q.position

abbrev pub position : Task → ℕ
position t = queue_position t.execution_queue

-- `min_by_key`: the first of the least.
unfoldable pub earlier : Task → Option Task → Option Task
earlier t none = some t
earlier t (some u) = if ltb (position u) (position t) then some u else some t

unfoldable pub min_by_position : List Task → Option Task
min_by_position [] = none
min_by_position (t ∷ ts) = earlier t (min_by_position ts)

unfoldable pub waiting_tasks : RuntimeState → Project → List Task
waiting_tasks s project =
    keep (λ (t : Task). t.project_id == project.id && waiting_in_queue t) (tasks_of s)

-- The agent that the queue entry or the task names.
abbrev pub selected_agent : Task → Option AgentId
selected_agent t = or_else (queue_agent t.execution_queue) t.continue_agent_id

abbrev pub job_running : Option TaskPlanJob → Bool
job_running none = false
job_running (some j) = text_eq j.status (text "running")

-- `reason`.
unfoldable pub waiting_reason : Env → RuntimeState → Project → Task → Option Text
waiting_reason env s project t =
    if is_some_and (selected_agent t) (λ id. has_key id s.agents && not (board_agent_idle s id))
    then some (text "Waiting for the selected agent to become idle")
    else if board_execution_busy env s project none
    then some (text "Waiting for another board task in this project")
    else if job_running t.planning.job
    then some (text "Waiting for implementation plan")
    else if is_blank t.planning.text
    then some (text "Add an implementation plan to run this task")
    else none

unfoldable pub publish_saved :
    Task → TaskAudit → Option Task → RuntimeState → Result Text Store → Outcome (Option Task)
publish_saved t entry answer s (err e) = (record s { drawn = suc s.drawn }, err e)
publish_saved t entry answer s (ok store) =
    (publish_tasks ((t, entry) ∷ []) (record s { drawn = suc s.drawn; store = store }), ok answer)

-- One changed task, its entry, the transaction and the publication.
unfoldable pub record_change :
    Env → Task → Text → Option Text → Option Task → RuntimeState → Outcome (Option Task)
record_change env t action reason answer s =
    let entry = audit env.now (env.uuid s.drawn) t TaskActor.daemon action none reason in
    publish_saved t entry answer s (save_task_changes env.disk ((t, entry) ∷ []) none none s.store)

-- A task that waits tells its reason once.
unfoldable pub note_waiting : Env → Task → Text → RuntimeState → Outcome (Option Task)
note_waiting env t reason s =
    if opt_text_eq t.last_reason (some reason)
    then (s, ok none)
    else record_change env (touch env.now (record t { last_reason = some reason }))
        (text "queue_waiting") (some reason) none s

-- A conversation that cannot go on blocks the task.
unfoldable pub block_resume : Env → Task → Text → RuntimeState → Outcome (Option Task)
block_resume env t reason s =
    record_change env
      (touch env.now (record t { condition = TaskCondition.blocked; last_reason = some reason }))
      (text "queue_resume_blocked") (some reason) none s

abbrev pub with_agent : AgentId → Option TaskExecutionQueue → Option TaskExecutionQueue
with_agent owner none = none
with_agent owner (some q) = some (record q { agent_id = some owner })

abbrev pub queue_feedback : Option TaskExecutionQueue → Option Text
queue_feedback none = none
queue_feedback (some q) = q.feedback

-- The task as it is dispatched to its owner.
unfoldable pub dispatched : Env → Task → AgentId → Bool → Task
dispatched env t owner resumes = touch env.now (record t {
  continue_agent_id = if resumes then some owner else t.continue_agent_id;
  execution_queue = with_agent owner t.execution_queue;
  assigned_agent_id = some owner;
  started_at = some env.now;
  last_reason = queue_feedback t.execution_queue;
})

unfoldable pub dispatch : Env → Task → AgentId → Bool → RuntimeState → Outcome (Option Task)
dispatch env t owner resumes s =
    let next = dispatched env t owner resumes in
    record_change env next (text "queue_dispatch") none (some next) s

unfoldable pub admit_thread :
    Env → Task → AgentId → Result Text (Option Text) → RuntimeState → Outcome (Option Task)
admit_thread env t owner (err reason) s = block_resume env t reason s
admit_thread env t owner (ok thread) s = dispatch env t owner (is_some thread) s

-- The resume check, which a fresh agent does not need.
unfoldable pub admit : Env → Task → AgentId → RuntimeState → Outcome (Option Task)
admit env t owner s =
    if has_key owner s.agents || opt_eq t.continue_agent_id (some owner)
    then admit_thread env t owner (board_agent_thread s t owner) s
    else dispatch env t owner false s

-- The owner: the selected agent, or a new identity.
unfoldable pub claim_ready : Env → Task → Option AgentId → RuntimeState → Outcome (Option Task)
claim_ready env t (some owner) s = admit env t owner s
claim_ready env t none s = admit env t (env.uuid s.drawn) (record s { drawn = suc s.drawn })

unfoldable pub claim_or_wait : Env → Task → Option Text → RuntimeState → Outcome (Option Task)
claim_or_wait env t (some reason) s = note_waiting env t reason s
claim_or_wait env t none s = claim_ready env t (selected_agent t) s

unfoldable pub claim_first : Env → Project → Option Task → RuntimeState → Outcome (Option Task)
claim_first env project none s = (s, ok none)
claim_first env project (some t) s = claim_or_wait env t (waiting_reason env s project t) s

abbrev pub is_open : Project → Project → Bool
is_open project p = p.id == project.id && not (archived p.archived_at) && not (is_remote p)

unfoldable pub claim_running :
    Env → Project → Result Text BoardExecutionState → RuntimeState → Outcome (Option Task)
claim_running env project (err e) s = (s, err e)
claim_running env project (ok execution) s =
    if execution.paused || not (any (is_open project) s.projects)
    then (s, ok none)
    else claim_first env project (min_by_position (waiting_tasks s project)) s

-- The claim after the orphans are reaped; maintenance is tested before the setting is read.
unfoldable pub claim_queue : Env → Project → RuntimeState → Outcome (Option Task)
claim_queue env project s =
    if s.remote_maintenance
    then (s, ok none)
    else claim_running env project (board_execution env s project.id) s

-- `claim_board_task`.
unfoldable pub claim_board_task : Env → Project → RuntimeState → Outcome (Option Task)
claim_board_task env project s = claim_queue env project (reap_orphan_writers env s)
