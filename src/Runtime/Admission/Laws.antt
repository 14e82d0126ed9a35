-- ===== src/Runtime/Admission/Laws.antt =====
-- No two writers hold conflicting leases, whatever is admitted, moved and released.
use ditch.Prelude.{
  ◌≡◌, refl, ap, Bool, false, not, ◌||◌, Option, none, some, is_some, ◌∷◌, any, lookup, or_else,
  ◌&&◌, values, member, has_key, text_eq, insert, opt_eq, Text, ok,
}
use ditch.Task.Basics.{condition_eq}
use ditch.Core.{
  TaskCondition, is_remote, is_full_access, AgentId, AgentExecutionProfile, Project, Task, TaskId,
  Uuid, WorkspaceLease,
}
use ditch.Store.{Store}
use ditch.Store.Reservations.{owned_by}
use ditch.Runtime.State.{RuntimeState, Env, tasks_of}
use ditch.Queue.Board.{board_agent_owned, board_execution_busy, queue_agent, target_name}
use ditch.Runtime.Writers.{reap_orphan_writers}
use ditch.Runtime.Admission.{
  WriterAdmission, WriterGuard, acquire_with_intent, needed_lease, lease_of, linked_task,
  agent_coordinator_group, is_direct, excluded, lease_root, can_stop, reserves, conflicts,
}
use ditch.Runtime.Admission.Granted.{
  IsLinked, none_of, needed-free, check_linked-IsLinked, added_row, owner_free, needed_facts,
  granted_ok, acquired_ok,
}

-- The two leases are held for one coordinator group in one workspace of one target.
abbrev pub collide : WorkspaceLease → WorkspaceLease → Bool
collide lease other =
    is_some lease.coordinator_group
    && opt_eq lease.coordinator_group other.coordinator_group
    && text_eq lease.target other.target
    && text_eq lease.root other.root

-- A new guard: the lease that it stands for, and what the state held before.
pub record IsAdmitted (env : Env) (id : AgentId) (p : Project) (profile : AgentExecutionProfile)
    (group : Option Uuid) (intent : WriterAdmission) (s s' : RuntimeState) : Type 0 where
  pub in_service : s.remote_maintenance ≡ false
  pub reaped : RuntimeState
  pub cleared : reaped ≡ reap_orphan_writers env s
  pub root : Text
  pub resolved_root : lease_root env p ≡ ok root
  pub lease : WorkspaceLease
  pub lease_root_kept : lease.root ≡ root
  pub lease_target : lease.target ≡ target_name env p.execution_target
  pub lease_group : lease.coordinator_group ≡ or_else (agent_coordinator_group reaped id) group
  pub lease_bounds :
      lease.unconfined ≡ (reaped.remote_runtime || is_remote p || is_full_access profile.approval)
  pub childless : member id reaped.children ≡ false
  pub idle : can_stop (lookup id reaped.agents) ≡ false
  pub leaseless : has_key id reaped.writer_leases ≡ false
  pub alone : any (collide lease) (values reaped.writer_leases) ≡ false
  pub no_loop : (is_direct intent && member id reaped.acceptance_owners) ≡ false
  pub unpromised :
      (is_direct intent
        && any
            (λ (t : Task).
              condition_eq t.condition TaskCondition.queued
              && (opt_eq t.assigned_agent_id (some id)
                  || opt_eq (queue_agent t.execution_queue) (some id)
                  || (is_some t.execution_queue && opt_eq t.continue_agent_id (some id))))
            (tasks_of reaped))
      ≡ false
  pub board_free :
      (board_agent_owned reaped id && board_execution_busy env reaped p (some id)) ≡ false
  pub store : Store
  pub unreserved : any (owned_by id) reaped.store.reservations ≡ false
  pub row : store ≡ record (reaped.store) {
    reservations =
        record { agent_id = id; lease = lease; process_group_id = none; validator = false }
        ∷ reaped.store.reservations;
  }
  pub after :
      s' ≡ record reaped { store = store; writer_leases = insert id lease reaped.writer_leases }
  pub linked :
      (task_id : TaskId)
      → linked_task id reaped ≡ some task_id
      → IsLinked id p (not (is_direct intent) || is_some lease.coordinator_group) reaped task_id

-- An acquired guard that is not retained stands for a new lease outside maintenance: of the
-- project's root and target, for the agent's coordinator group, and unconfined as the profile and the
-- runtime say. Once the orphans were reaped, the agent had no child, no work that can be stopped, no
-- lease and no reservation; no held lease is for the same group, target and root; and where the board
-- owns the agent, no other board task runs in the workspace. A directly prompted agent owned no
-- acceptance loop, and no queued task had reserved it. The store and the state then hold the lease.
-- The agent's task is of the project; for a launch, and for an agent of a coordinator group, it is
-- started, open and assigned to the agent.
pub acquire-IsAdmitted :
    (env : Env) (id : AgentId) (p : Project) (profile : AgentExecutionProfile) (group : Option Uuid)
    (intent : WriterAdmission) (s s' : RuntimeState) (g : WriterGuard)
    → acquire_with_intent env id p profile group intent s ≡ (s', ok g)
    → g.retained ≡ false
    → IsAdmitted env id p profile group intent s s'
unfolding acquire_with_intent excluded conflicts reserves lease_of
acquire-IsAdmitted env id p profile group intent s s' g h own =
    let reaped = reap_orphan_writers env s in
    let (root, resolved_root, in_service, granted) =
      acquired_ok env id p profile group intent s s' (lease_root env p) g h in
    let (lease, store, needed, reserved, after) =
      granted_ok env id reaped s' (needed_lease env id p profile group intent root reaped) g granted
        own in
    let (free, checked) = needed-free env id p profile group intent root reaped lease needed in
    let (owner, made) = needed_facts env id p profile group intent root reaped lease needed in
    let (no_loop, unpromised, board_free) = owner_free env id p intent reaped owner in
    let (childless, idle, leaseless, alone) =
      none_of (member id reaped.children) (can_stop (lookup id reaped.agents))
        (has_key id reaped.writer_leases) (any (collide lease) (values reaped.writer_leases))
        free in
    let (unreserved, row) = added_row env id lease reaped.store store reserved in
    record {
      in_service = in_service;
      reaped = reaped;
      cleared = refl;
      root = root;
      resolved_root = resolved_root;
      lease = lease;
      lease_root_kept = ap (λ (l : WorkspaceLease). l.root) made;
      lease_target = ap (λ (l : WorkspaceLease). l.target) made;
      lease_group = ap (λ (l : WorkspaceLease). l.coordinator_group) made;
      lease_bounds = ap (λ (l : WorkspaceLease). l.unconfined) made;
      childless = childless;
      idle = idle;
      leaseless = leaseless;
      alone = alone;
      no_loop = no_loop;
      unpromised = unpromised;
      board_free = board_free;
      store = store;
      unreserved = unreserved;
      row = row;
      after = after;
      linked =
          check_linked-IsLinked id p (not (is_direct intent) || is_some lease.coordinator_group)
            reaped (linked_task id reaped) checked;
    }
