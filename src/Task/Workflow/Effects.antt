-- ===== src/Task/Workflow/Effects.antt =====
-- What a successful transition changes, what it leaves, and what it records.
use ditch.Prelude.{ℕ, ◌+◌, ◌%◌, ◌≡◌, refl, Bool, false, Option, none, some, ok, u64_mod, arith}
use ditch.Core.{Uuid, Time, Task, TaskAction, TaskActor, TaskAudit, is_user}
use ditch.Task.Basics.{column, check_revision, touch, audit}
use ditch.Task.Workflow.{Applied, apply_action, finish, settle, transition}

-- The shape of a success: a current revision, no live child, and an arm that applies.
pub record IsApplied (now : Time) (fresh : Uuid) (t : Task) (action : TaskAction)
    (actor : TaskActor) (expected : ℕ) (live : Bool) (r : Task × TaskAudit) : Type 0 where
  pub current : t.revision ≡ expected
  pub dead : live ≡ false
  pub applied : Applied
  pub arm : apply_action now t action (is_user actor) ≡ some applied
  pub result : r ≡ finish now fresh t actor applied

settle-ok :
    (now : Time) (fresh : Uuid) (t : Task) (actor : TaskActor) (o : Option Applied)
    (r : Task × TaskAudit)
    → settle now fresh t actor o ≡ ok r
    → (a : Applied) × (o ≡ some a) × (r ≡ finish now fresh t actor a)
settle-ok now fresh t actor none r h = cc
settle-ok now fresh t actor (some a) r h = (a, refl, cc)

pub transition-IsApplied :
    (now : Time) (fresh : Uuid) (t : Task) (action : TaskAction) (actor : TaskActor) (expected : ℕ)
    (live : Bool) (r : Task × TaskAudit)
    → transition now fresh t action actor expected live ≡ ok r
    → IsApplied now fresh t action actor expected live r
unfolding transition check_revision
transition-IsApplied now fresh t action actor expected live r h =
    let s =
      settle-ok now fresh t actor (apply_action now t action (is_user actor)) r (ground arith) in
    record { current = ground arith; dead = ground arith; applied = s.0; arm = s.1; result = s.2 }

-- What no workflow action touches.
pub record SameContent (t u : Task) : Type 0 where
  pub id : u.id ≡ t.id
  pub project_id : u.project_id ≡ t.project_id
  pub title : u.title ≡ t.title
  pub description : u.description ≡ t.description
  pub acceptance_criteria : u.acceptance_criteria ≡ t.acceptance_criteria
  pub skills : u.skills ≡ t.skills
  pub acceptance : u.acceptance ≡ t.acceptance
  pub order_key : u.order_key ≡ t.order_key
  pub assigned_agent_id : u.assigned_agent_id ≡ t.assigned_agent_id
  pub continue_agent_id : u.continue_agent_id ≡ t.continue_agent_id
  pub coordinator_group : u.coordinator_group ≡ t.coordinator_group
  pub execution_queue : u.execution_queue ≡ t.execution_queue
  pub planning : u.planning ≡ t.planning
  pub created_at : u.created_at ≡ t.created_at

pub apply-SameContent :
    (now : Time) (t : Task) (action : TaskAction) (user : Bool) (a : Applied)
    → apply_action now t action user ≡ some a
    → SameContent t a.next
unfolding apply_action
apply-SameContent now t TaskAction.prioritize user a h = ground arith
apply-SameContent now t _ user a h = ground arith

apply-revision :
    (now : Time) (t : Task) (action : TaskAction) (user : Bool) (a : Applied)
    → apply_action now t action user ≡ some a
    → a.next.revision ≡ t.revision
unfolding apply_action
apply-revision now t TaskAction.prioritize user a h = ground arith
apply-revision now t _ user a h = ground arith

-- The audit entry that a transition returns beside the task.
pub record IsRecorded (now : Time) (fresh : Uuid) (t : Task) (actor : TaskActor) (u : Task)
    (entry : TaskAudit) : Type 0 where
  pub revision : u.revision ≡ (t.revision + 1) % u64_mod
  pub updated_at : u.updated_at ≡ some now
  pub id : entry.id ≡ fresh
  pub task_id : entry.task_id ≡ t.id
  pub actor_kept : entry.actor ≡ actor
  pub from_column : entry.from_column ≡ some (column t)
  pub to_column : entry.to_column ≡ column u
  pub agent_id : entry.agent_id ≡ t.assigned_agent_id
  pub created_at : entry.created_at ≡ now

-- A successful transition counts the revision up by one, stamps the task, leaves its identity,
-- content, agents, queue entry and evidence as they were, and returns an audit entry that names
-- the task, the actor, the agent, and the columns before and after.
pub transition-IsRecorded :
    (now : Time) (fresh : Uuid) (t : Task) (action : TaskAction) (actor : TaskActor) (expected : ℕ)
    (live : Bool) (u : Task) (entry : TaskAudit)
    → transition now fresh t action actor expected live ≡ ok (u, entry)
    → SameContent t u × IsRecorded now fresh t actor u entry
unfolding finish touch audit
transition-IsRecorded now fresh t action actor expected live u entry h =
    let p = transition-IsApplied now fresh t action actor expected live (u, entry) h in
    let same = apply-SameContent now t action (is_user actor) p.applied p.arm in
    let counted = apply-revision now t action (is_user actor) p.applied p.arm in
    (ground arith, ground arith)
