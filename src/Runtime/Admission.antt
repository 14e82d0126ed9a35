-- ===== src/Runtime/Admission.antt =====
-- The admission of writers: `WriterGuard` with its methods and its `Drop`
-- (crates/ditchd/src/task_runtime.rs), and `WorkspaceLease::conflicts`
-- (crates/ditch_core/src/tasks.rs).
pub mod Leases
pub mod Granted
pub mod Kept
pub mod Laws
pub mod Steps
use ditch.Prelude.{
  ℕ, ◌==◌, Bool, true, false, not, ◌&&◌, ◌||◌, Option, none, some, is_some, is_some_and, or_else,
  List, [], ◌∷◌, ◌++◌, any, find, lookup, has_key, insert, remove, values, member, opt_eq, Text,
  text, text_eq, Result, ok, err, is_ok, ◌>>=◌, ◌>>◌, reject_if, if◌then◌else◌,
}
use ditch.Core.{
  AgentId, AgentExecutionProfile, AgentApprovalPreset, Project, Task, TaskColumn, TaskCondition,
  TaskId, Uuid, WorkspaceLease, is_remote, is_full_access,
}
use ditch.Task.Basics.{column, column_eq, condition_eq}
use ditch.Store.{Store}
use ditch.Store.Reservations.{reserve_writer, transfer_writer, writer_started}
use ditch.Runtime.State.{RuntimeState, Env, AgentRecord, tasks_of}
use ditch.Runtime.Writers.{reap_orphan_writers, release_writer}
use ditch.Queue.Board.{board_agent_owned, board_execution_busy, queue_agent, target_name}

pub data WriterAdmission : Type 0 where
  task_launch direct_prompt : WriterAdmission

abbrev pub is_direct : WriterAdmission → Bool
is_direct WriterAdmission.task_launch = false
is_direct WriterAdmission.direct_prompt = true

-- The guard, without the reference to the state.
pub record WriterGuard : Type 0 where
  pub agent_id : AgentId
  pub retained : Bool
  pub process_group : Option ℕ

-- `WorkspaceLease::conflicts`.
unfoldable pub conflicts : WorkspaceLease → WorkspaceLease → Bool
conflicts lease other =
    is_some lease.coordinator_group
    && opt_eq lease.coordinator_group other.coordinator_group
    && text_eq lease.target other.target
    && text_eq lease.root other.root

abbrev pub group_of_task : Option Task → Option Uuid
group_of_task none = none
group_of_task (some t) = t.coordinator_group

abbrev pub group_of_agent : Option AgentRecord → Option Uuid
group_of_agent none = none
group_of_agent (some a) = a.run.coordinator_group

-- `agent_coordinator_group`.
unfoldable pub agent_coordinator_group : RuntimeState → AgentId → Option Uuid
agent_coordinator_group s id =
    or_else
      (group_of_task (
        find (λ (t : Task). opt_eq t.assigned_agent_id (some id) && is_some t.coordinator_group)
          (tasks_of s)))
      (group_of_agent (lookup id s.agents))

abbrev pub resolved : Env → Text → Option Text → Result Text Text
resolved env path none = err (text "Cannot resolve project workspace: " ++ env.path_error path)
resolved env path (some root) = ok (if env.is_macos then env.lowercase root else root)

-- The root of the lease.
unfoldable pub lease_root : Env → Project → Result Text Text
lease_root env p = if is_remote p then ok p.root else resolved env p.root (env.canonicalize p.root)

-- A queued task that names the agent.
unfoldable pub reserves : AgentId → Task → Bool
reserves id t =
    condition_eq t.condition TaskCondition.queued
    && (opt_eq t.assigned_agent_id (some id)
        || opt_eq (queue_agent t.execution_queue) (some id)
        || (is_some t.execution_queue && opt_eq t.continue_agent_id (some id)))

unfoldable pub lease_of :
    Env → Project → AgentExecutionProfile → Option Uuid → Text → RuntimeState → WorkspaceLease
lease_of env p profile group root s = record {
  coordinator_group = group;
  target = target_name env p.execution_target;
  root = root;
  unconfined = s.remote_runtime || is_remote p || is_full_access profile.approval;
}

abbrev pub can_stop : Option AgentRecord → Bool
can_stop none = false
can_stop (some a) = a.run.can_stop

-- The agent is active, or its lease would conflict.
unfoldable pub excluded : AgentId → WorkspaceLease → RuntimeState → Bool
excluded id lease s =
    member id s.children
    || can_stop (lookup id s.agents)
    || has_key id s.writer_leases
    || any (conflicts lease) (values s.writer_leases)

abbrev pub id_of : Option Task → Option TaskId
id_of none = none
id_of (some t) = some t.id

abbrev pub run_task : Option AgentRecord → Option TaskId
run_task none = none
run_task (some a) = a.run.task_id

-- The task that the agent works on.
unfoldable pub linked_task : AgentId → RuntimeState → Option TaskId
linked_task id s =
    or_else
      (id_of (
        find
          (λ (t : Task).
            opt_eq t.assigned_agent_id (some id) && condition_eq t.condition TaskCondition.queued)
          (tasks_of s)))
      (run_task (lookup id s.agents))

unfoldable pub check_task : AgentId → Project → Bool → Option Task → Result Text Unit
check_task id p managed none = err (text "The linked task is unavailable.")
check_task id p managed (some t) = do
  reject_if (not (t.project_id == p.id)) (text "The linked task belongs to another project.")
  reject_if
      (managed
        && (not (column_eq (column t) TaskColumn.in_progress)
            || t.archived
            || not (opt_eq t.assigned_agent_id (some id))))
      (text "Use Request Changes or reopen the linked task before sending more work.")

unfoldable pub check_linked :
    AgentId → Project → Bool → RuntimeState → Option TaskId → Result Text Unit
check_linked id p managed s none = ok tt
check_linked id p managed s (some task_id) = check_task id p managed (lookup task_id s.tasks)

-- The tests that stand before the answer to an agent which owns an acceptance loop.
unfoldable pub check_owner :
    Env → AgentId → Project → WriterAdmission → RuntimeState → Result Text Unit
check_owner env id p intent s = do
  reject_if (is_direct intent && member id s.acceptance_owners)
      (text "Use Cancel loop before changing its worker prompt.")
  reject_if (is_direct intent && any (reserves id) (tasks_of s))
      (text "This agent is reserved for a pending task launch.")
  reject_if (board_agent_owned s id && board_execution_busy env s p (some id))
      (text "Another board task is already running in this project.")

-- The owner of an acceptance loop keeps the lease that it has.
abbrev pub holds_loop : AgentId → RuntimeState → Bool
holds_loop id s =
    member id s.acceptance_owners && has_key id s.writer_leases && not (member id s.children)

unfoldable pub check_lease :
    AgentId → Project → WriterAdmission → WorkspaceLease → RuntimeState → Result Text Unit
check_lease id p intent lease s = do
  reject_if (excluded id lease s) (
      text
        "This agent is still active, or Ditchmaster already has a worker in this project. Wait for it to finish or stop it.")
  check_linked id p (not (is_direct intent) || is_some lease.coordinator_group) s (linked_task id s)

-- The lease that a launch needs: `none` where the loop's lease serves.
unfoldable pub needed_lease :
    Env
    → AgentId
    → Project
    → AgentExecutionProfile
    → Option Uuid
    → WriterAdmission
    → Text
    → RuntimeState
    → Result Text (Option WorkspaceLease)
needed_lease env id p profile group intent root s = do
  check_owner env id p intent s
  let lease = lease_of env p profile (or_else (agent_coordinator_group s id) group) root s
  checked ← if holds_loop id s then ok tt else check_lease id p intent lease s
  ok (if holds_loop id s then none else some lease)

abbrev pub guard : AgentId → Bool → WriterGuard
guard id retained = record { agent_id = id; retained = retained; process_group = none }

abbrev pub Granted : Type 0
Granted = RuntimeState × Result Text WriterGuard

unfoldable pub record_lease : AgentId → WorkspaceLease → RuntimeState → Result Text Store → Granted
record_lease id lease s (err e) = (s, err e)
record_lease id lease s (ok store) = (
  record s { store = store; writer_leases = insert id lease s.writer_leases },
  ok (guard id false),
)

unfoldable pub grant : Env → AgentId → RuntimeState → Result Text (Option WorkspaceLease) → Granted
grant env id s (err e) = (s, err e)
grant env id s (ok none) = (s, ok (guard id true))
grant env id s (ok (some lease)) =
    record_lease id lease s (reserve_writer env.disk id lease s.store)

unfoldable pub acquire_at :
    Env
    → AgentId
    → Project
    → AgentExecutionProfile
    → Option Uuid
    → WriterAdmission
    → RuntimeState
    → Result Text Text
    → Granted
acquire_at env id p profile group intent s (err e) = (s, err e)
acquire_at env id p profile group intent s (ok root) =
    let reaped = reap_orphan_writers env s in
    if s.remote_maintenance
    then (s, err (text "Remote runtime is being upgraded; retry when repair finishes."))
    else grant env id reaped (needed_lease env id p profile group intent root reaped)

-- `acquire_with_intent`.
unfoldable pub acquire_with_intent :
    Env
    → AgentId
    → Project
    → AgentExecutionProfile
    → Option Uuid
    → WriterAdmission
    → RuntimeState
    → Granted
acquire_with_intent env id p profile group intent s =
    acquire_at env id p profile group intent s (lease_root env p)

-- `acquire_for_group`, `acquire` and `acquire_direct_prompt`. `acquire` takes the lock twice.
unfoldable pub acquire_for_group :
    Env → AgentId → Project → AgentExecutionProfile → Option Uuid → RuntimeState → Granted
acquire_for_group env id p profile group s =
    acquire_with_intent env id p profile group WriterAdmission.task_launch s

unfoldable pub acquire :
    Env → AgentId → Project → AgentExecutionProfile → RuntimeState → RuntimeState → Granted
acquire env id p profile before s =
    acquire_for_group env id p profile (agent_coordinator_group before id) s

unfoldable pub acquire_direct_prompt :
    Env → AgentId → Project → AgentExecutionProfile → RuntimeState → Granted
acquire_direct_prompt env id p profile s =
    acquire_with_intent env id p profile none WriterAdmission.direct_prompt s

abbrev pub Saved : Type 0
Saved = RuntimeState × Result Text Unit

unfoldable pub with_store : RuntimeState → Result Text Store → Saved
with_store s (err e) = (s, err e)
with_store s (ok store) = (record s { store = store }, ok tt)

-- `started`: the guard, the state, and whether the store took the process group.
unfoldable pub started : Env → ℕ → WriterGuard → RuntimeState → WriterGuard × Saved
started env pid g s = (
  record g { process_group = some pid },
  with_store s (writer_started env.disk g.agent_id pid s.store),
)

unfoldable pub retain : WriterGuard → WriterGuard
retain g = record g { retained = true }

unfoldable pub move_lease : AgentId → AgentId → RuntimeState → Option WorkspaceLease → RuntimeState
move_lease old new s none = s
move_lease old new s (some lease) = record s {
  writer_leases = insert new lease (remove old s.writer_leases);
}

unfoldable pub transferred : AgentId → AgentId → RuntimeState → Result Text Store → RuntimeState
transferred old new s (err e) = s
transferred old new s (ok store) =
    move_lease old new (record s { store = store }) (lookup old s.writer_leases)

-- `retain_as`.
unfoldable pub retain_as : Env → AgentId → WriterGuard → RuntimeState → WriterGuard × RuntimeState
retain_as env new g s =
    (retain g, transferred g.agent_id new s (transfer_writer env.disk g.agent_id new s.store))

unfoldable pub drop_held : Env → AgentId → Option ℕ → RuntimeState → RuntimeState
drop_held env id none s = release_writer env id s
drop_held env id (some pid) s =
    let released = release_writer env id s in
    if env.process_group_exists pid
    then record s {
      killed = pid ∷ s.killed;
      orphan_writer_groups = insert id pid s.orphan_writer_groups;
    }
    else released

-- `Drop`: a guard that nobody retained kills its process group, or gives its lease back.
unfoldable pub drop : Env → WriterGuard → RuntimeState → RuntimeState
drop env g s =
    let held = drop_held env g.agent_id g.process_group s in if g.retained then s else held
