-- ===== src/Runtime/Writers.antt =====
-- The release of writer reservations: `release_writer`, `reap_orphan_writers`, and `broadcast` of an
-- agent's change, which calls the first (crates/ditchd/src/task_runtime.rs and
-- crates/ditchd/src/runtime_shared.rs).
pub mod Release
use ditch.Prelude.{
  Result, Text, ℕ, ◌==◌, Bool, not, ◌&&◌, ◌||◌, Option, none, some, List, [], ◌∷◌, any, insert,
  remove, member, delete, opt_eq, ok, err, if◌then◌else◌,
}
use ditch.Core.{AgentId, AgentRun, Project, Task, is_remote, state_busy}
use ditch.Task.Basics.{condition_live}
use ditch.Store.{Store}
use ditch.Store.Reservations.{release_writer as delete_reservation, reserved_group}
use ditch.Runtime.State.{RuntimeState, Env, ServerEvent, send, tasks_of}
use ditch.Runtime.Sync.{sync_agent_task}

-- A live task of a remote project holds its agent's reservation.
abbrev pub held_remotely : RuntimeState → AgentId → Bool
held_remotely s id =
    any
      (λ (t : Task).
        opt_eq t.assigned_agent_id (some id)
        && condition_live t.condition
        && any (λ (p : Project). p.id == t.project_id && is_remote p) s.projects)
      (tasks_of s)

-- The process group that still runs for a reservation.
abbrev pub running_group : Env → Option ℕ → Option ℕ
running_group env none = none
running_group env (some pid) = if env.process_group_exists pid then some pid else none

-- The leader is gone, and other processes of its group are not: kill them, and keep the lease.
unfoldable pub keep_orphan : AgentId → ℕ → RuntimeState → RuntimeState
keep_orphan id pid s = record s {
  killed = if member id s.validator_owners then s.killed else pid ∷ s.killed;
  orphan_writer_groups = insert id pid s.orphan_writer_groups;
}

unfoldable pub dropped : AgentId → RuntimeState → Result Text Store → RuntimeState
dropped id s (err e) = s
dropped id s (ok store) = record s {
  store = store;
  validator_owners = delete id s.validator_owners;
  writer_leases = remove id s.writer_leases;
  orphan_writer_groups = remove id s.orphan_writer_groups;
}

unfoldable pub drop_reservation : Env → AgentId → RuntimeState → RuntimeState
drop_reservation env id s = dropped id s (delete_reservation env.disk id s.store)

unfoldable pub settle_reservation : Env → AgentId → Option ℕ → RuntimeState → RuntimeState
settle_reservation env id none s = drop_reservation env id s
settle_reservation env id (some pid) s = keep_orphan id pid s

-- `release_writer`.
unfoldable pub release_writer : Env → AgentId → RuntimeState → RuntimeState
release_writer env id s =
    if member id s.acceptance_owners || held_remotely s id || not env.disk.readable
    then s
    else settle_reservation env id (running_group env (reserved_group id s.store.reservations)) s

unfoldable pub exited : Env → List (AgentId × ℕ) → List AgentId
exited env [] = []
exited env ((id, pid) ∷ groups) =
    let rest = exited env groups in if env.process_group_exists pid then rest else id ∷ rest

unfoldable pub release_all : Env → List AgentId → RuntimeState → RuntimeState
release_all env [] s = s
release_all env (id ∷ ids) s =
    release_all env ids (sync_agent_task env id (release_writer env id s))

-- `reap_orphan_writers`.
unfoldable pub reap_orphan_writers : Env → RuntimeState → RuntimeState
reap_orphan_writers env s = release_all env (exited env s.orphan_writer_groups) s

-- `broadcast(ServerEvent::AgentChanged(run))`.
unfoldable pub broadcast_agent : Env → AgentRun → RuntimeState → RuntimeState
broadcast_agent env run s =
    let idle = not run.can_stop && not (member run.id s.children) && not (state_busy run.state) in
    send (ServerEvent.agent_changed run)
      (sync_agent_task env run.id (if idle then release_writer env run.id s else s))
