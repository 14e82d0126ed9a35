-- ===== src/Runtime/State.antt =====
-- `RuntimeState` (crates/ditchd/src/runtime_shared.rs), as far as the task handlers read and write
-- it. A handler holds the state's lock from its first line to its last, so it is a function of the
-- state. A map stands for its entries; a live child, a validator or a loop's control for its key.
use ditch.Prelude.{
  ℕ, suc, Bool, true, false, not, ◌&&◌, ◌||◌, Option, none, some, List, [], ◌∷◌, lookup, has_key,
  insert, values, member, Text, opt_eq, Result,
}
use ditch.Core.{
  Uuid, Time, ProjectId, TaskId, AgentId, AgentRun, Project, Task, TaskAudit, BoardExecutionState,
  WorkspaceLease, TaskRequest, RuntimeAttention, ProjectRelease,
}
use ditch.Task.Basics.{condition_live, waiting_in_queue}
use ditch.Store.{Store, Disk}

-- `AgentChatRole` and `AgentChatMessage` (crates/ditch_protocol/src/lib.rs).
pub data AgentChatRole : Type 0 where
  user assistant system tool : AgentChatRole

pub record AgentChatMessage : Type 0 where
  pub agent_id : AgentId
  pub role : AgentChatRole
  pub text : Text
  pub created_at : Time

pub record AgentRecord : Type 0 where
  pub run : AgentRun
  pub project_root : Text
  pub messages : List AgentChatMessage
  pub terminal_failure : Option Text

-- The events that the task handlers and the maintenance send.
pub data ServerEvent : Type 0 where
  task_changed : Task → ServerEvent
  task_deleted : TaskId → ProjectId → ServerEvent
  agent_changed : AgentRun → ServerEvent
  attention_raised : RuntimeAttention → ServerEvent
  board_execution_changed : BoardExecutionState → ServerEvent
  project_terminal_exited : Uuid → ServerEvent
  release_created : ProjectRelease → ServerEvent

-- `remote_maintenance` is the answer of `remote_maintenance_active`; `sent` holds the events in the
-- order of their sending, the last one first, and `killed` the process groups that were signalled;
-- `drawn` counts the identities that `Uuid::new_v4` has given.
pub record RuntimeState : Type 0 where
  pub store : Store
  pub projects : List Project
  pub agents : List (AgentId × AgentRecord)
  pub tasks : List (TaskId × Task)
  pub acceptance_controls : List (TaskId × AgentId)
  pub acceptance_owners : List AgentId
  pub validator_owners : List AgentId
  pub writer_leases : List (AgentId × WorkspaceLease)
  pub orphan_writer_groups : List (AgentId × ℕ)
  pub children : List AgentId
  pub attention : List RuntimeAttention
  pub releases : List (Uuid × ProjectRelease)
  pub codex_home : Option Text
  pub codex_binary : Option Text
  pub remote_runtime : Bool
  pub remote_maintenance : Bool
  pub sent : List ServerEvent
  pub killed : List ℕ
  pub drawn : ℕ

-- What a call sees of the world outside: the clock, the disk, fresh identities, the processes, the
-- file system's canonical paths or its error for a path, letter case, and serde's texts.
pub record Env : Type 0 where
  pub now : Time
  pub disk : Disk
  pub uuid : ℕ → Uuid
  pub process_group_exists : ℕ → Bool
  pub canonicalize : Text → Option Text
  pub path_error : Text → Text
  pub is_macos : Bool
  pub lowercase : Text → Text
  pub show_uuid : Uuid → Text
  pub to_json : TaskRequest → Text
  pub execution_key : ProjectId → Text
  pub execution_json : BoardExecutionState → Text
  pub parse_execution : Text → Result Text BoardExecutionState
  pub members_key : ProjectId → Text
  pub members_json : List ProjectId → Text
  pub parse_members : Text → Result Text (List ProjectId)

-- The tasks, agents and leases of the state.
abbrev pub tasks_of : RuntimeState → List Task
tasks_of s = values s.tasks

abbrev pub runs_of : RuntimeState → List AgentRecord
runs_of s = values s.agents

-- A project that is open on this machine: `!p.is_remote() && p.archived_at.is_none()`.
abbrev pub archived : Option Time → Bool
archived none = false
archived (some at) = true

unfoldable pub draw : Env → RuntimeState → Uuid × RuntimeState
draw env s = (env.uuid s.drawn, record s { drawn = suc s.drawn })

-- `broadcast` of an event that is no `AgentChanged`.
unfoldable pub send : ServerEvent → RuntimeState → RuntimeState
send event s = record s { sent = event ∷ s.sent }

-- `publish_tasks`.
unfoldable pub publish_tasks : List (Task × TaskAudit) → RuntimeState → RuntimeState
unfolding send
publish_tasks [] s = s
publish_tasks ((t, a) ∷ changes) s =
    publish_tasks changes
      (send (ServerEvent.task_changed t) (record s { tasks = insert t.id t s.tasks }))

-- `self.agents.get(&id).is_none_or(|a| a.run.task_id == Some(task.id))`.
abbrev pub none_or_linked : Option AgentRecord → TaskId → Bool
none_or_linked none id = true
none_or_linked (some a) id = opt_eq a.run.task_id (some id)

unfoldable pub assigned_live : RuntimeState → TaskId → Option AgentId → Bool
assigned_live s task_id none = false
assigned_live s task_id (some id) =
    none_or_linked (lookup id s.agents) task_id
    && (member id s.children || has_key id s.writer_leases)

-- `task_live`.
unfoldable pub task_live : RuntimeState → Task → Bool
task_live s t =
    not (waiting_in_queue t)
    && (has_key t.id s.acceptance_controls
        || assigned_live s t.id t.assigned_agent_id
        || condition_live t.condition)
