-- ===== src/Queue/Board.antt =====
-- What the queue asks of the state: the pause switch, idle agents, resumable threads, ownership of an
-- agent by a board task, and whether a workspace is busy
-- (crates/ditchd/src/task_queue_runtime.rs).
use ditch.Prelude.{
  ℕ, ◌==◌, Bool, true, false, not, ◌&&◌, ◌||◌, Option, none, some, is_none, is_some, is_some_and,
  List, [], ◌∷◌, any, lookup, has_key, member, Text, text, text_eq, opt_eq, opt_text_eq, unwrap_or,
  Result, ok, err, ◌>>=◌, ◌>>◌, reject_if, if◌then◌else◌,
}
use ditch.Core.{
  ProjectId, TaskId, AgentId, AgentRun, AgentResumeBlockReason, Project, ProjectExecutionTarget,
  Task, TaskColumn, TaskExecutionQueue, BoardExecutionState, is_remote, state_busy,
}
use ditch.Task.Basics.{column, column_eq, condition_live}
use ditch.Store.{setting}
use ditch.Runtime.State.{RuntimeState, Env, AgentRecord, tasks_of, runs_of}

abbrev pub running : ProjectId → BoardExecutionState
running project_id = record { project_id = project_id; paused = false; revision = 0 }

-- A project that nobody paused runs its queue.
abbrev pub parsed : Env → ProjectId → Option Text → Result Text BoardExecutionState
parsed env project_id none = ok (running project_id)
parsed env project_id (some value) = env.parse_execution value

-- `board_execution`.
unfoldable pub board_execution : Env → RuntimeState → ProjectId → Result Text BoardExecutionState
board_execution env s project_id = do
  value ← setting env.disk (env.execution_key project_id) s.store
  parsed env project_id value

abbrev pub record_idle : Option AgentRecord → Bool
record_idle none = false
record_idle (some a) = not a.run.can_stop && not (state_busy a.run.state)

-- `board_agent_idle`.
unfoldable pub board_agent_idle : RuntimeState → AgentId → Bool
board_agent_idle s id =
    not (member id s.children)
    && not (has_key id s.writer_leases)
    && not (member id s.acceptance_owners)
    && record_idle (lookup id s.agents)

abbrev pub is_no_thread : AgentResumeBlockReason → Bool
is_no_thread AgentResumeBlockReason.no_codex_thread = true
is_no_thread AgentResumeBlockReason.codex_home_mismatch = false

abbrev pub other_task : Option TaskId → TaskId → Bool
other_task none id = false
other_task (some other) id = not (other == id)

-- The tests of `board_agent_thread` on the agent's run.
unfoldable pub run_thread : RuntimeState → Task → AgentRun → Result Text (Option Text)
run_thread s t run = do
  reject_if (not (run.project_id == t.project_id) || is_some run.coordinator_group)
      (text "Choose a user-managed agent from this project")
  reject_if (other_task run.task_id t.id)
      (text "The selected agent belongs to another task. Return to Todo to reassign it.")
  reject_if (is_some t.continue_agent_id && is_none run.native_session_id) (
      text
        "The selected conversation has no resumable thread. Move the task to Todo to choose another agent.")
  reject_if
      (is_some run.resume_block_reason
        && not (
            is_none run.native_session_id
            && is_none t.continue_agent_id
            && is_some_and run.resume_block_reason is_no_thread))
      (text "This agent cannot resume. Move the task to Todo to choose another agent.")
  reject_if (not (opt_text_eq run.origin_codex_home s.codex_home)) (
      text
        "This agent belongs to a different Codex account. Move the task to Todo to choose another agent.")
  ok run.native_session_id

abbrev pub record_thread : RuntimeState → Task → Option AgentRecord → Result Text (Option Text)
record_thread s t none =
    err (text "The selected agent is unavailable. Move the task to Todo to choose another agent.")
record_thread s t (some a) = run_thread s t a.run

-- `board_agent_thread`.
unfoldable pub board_agent_thread : RuntimeState → Task → AgentId → Result Text (Option Text)
board_agent_thread s t id = record_thread s t (lookup id s.agents)

abbrev pub target_name : Env → ProjectExecutionTarget → Text
target_name env ProjectExecutionTarget.local = text "local"
target_name env (ProjectExecutionTarget.remote machine alias) = env.show_uuid machine

unfoldable pub workspace_root : Env → Project → Text
workspace_root env p =
    if is_remote p
    then p.root
    else (let root = unwrap_or (env.canonicalize p.root) p.root in
        if env.is_macos then env.lowercase root else root)

-- `board_workspace`, and the test that two projects have the same one.
unfoldable pub same_workspace : Env → Project → Project → Bool
same_workspace env p q =
    text_eq (target_name env p.execution_target) (target_name env q.execution_target)
    && text_eq (workspace_root env p) (workspace_root env q)

abbrev pub queue_agent : Option TaskExecutionQueue → Option AgentId
queue_agent none = none
queue_agent (some q) = q.agent_id

abbrev pub linked_to : Option AgentRecord → TaskId → Bool
linked_to none id = false
linked_to (some a) id = opt_eq a.run.task_id (some id)

-- `board_task_owns_agent`.
unfoldable pub board_task_owns_agent : RuntimeState → Task → AgentId → Bool
board_task_owns_agent s t id =
    is_some t.execution_queue
    && (opt_eq t.assigned_agent_id (some id)
        || opt_eq (queue_agent t.execution_queue) (some id)
        || linked_to (lookup id s.agents) t.id
        || opt_eq (lookup t.id s.acceptance_controls) (some id))

-- `board_agent_owned`.
unfoldable pub board_agent_owned : RuntimeState → AgentId → Bool
board_agent_owned s id = any (λ t. board_task_owns_agent s t id) (tasks_of s)

-- `Some(id) != except`.
abbrev pub is_not : Option AgentId → AgentId → Bool
is_not except id = not (opt_eq (some id) except)

-- The keys of a map.
unfoldable pub keys : {V : Type 0} → List (ℕ × V) → List ℕ
keys [] = []
keys ((k, v) ∷ m) = k ∷ keys m

-- The first case of the test: the launch is authorized, though no process runs yet.
unfoldable pub admitted : Option AgentId → Task → Bool
admitted except t =
    column_eq (column t) TaskColumn.in_progress
    && not t.archived
    && is_some_and t.assigned_agent_id (is_not except)
    && condition_live t.condition

-- The other cases: a control, an owner, a lease, a child or a busy run that is the task's.
unfoldable pub still_owned : RuntimeState → Option AgentId → Task → Bool
still_owned s except t =
    let owns = λ (id : AgentId). is_not except id && board_task_owns_agent s t id in
    is_some_and (lookup t.id s.acceptance_controls) (is_not except)
    || any owns s.acceptance_owners
    || any owns (keys s.writer_leases)
    || any owns s.children
    || any (λ (a : AgentRecord). owns a.run.id && (a.run.can_stop || state_busy a.run.state))
        (runs_of s)

unfoldable pub in_workspace : Env → RuntimeState → Project → Task → Bool
in_workspace env s project t =
    any (λ (p : Project). p.id == t.project_id && same_workspace env p project) s.projects

-- `board_execution_busy`.
unfoldable pub board_execution_busy : Env → RuntimeState → Project → Option AgentId → Bool
board_execution_busy env s project except =
    any
      (λ (t : Task).
        is_some t.execution_queue
        && in_workspace env s project t
        && (admitted except t || still_owned s except t))
      (tasks_of s)
