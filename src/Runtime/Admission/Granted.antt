-- ===== src/Runtime/Admission/Granted.antt =====
-- What the tests of `acquire_with_intent` (crates/ditchd/src/task_runtime.rs) tell of a grant.
use ditch.Prelude.{
  ◌==◌, ◌≡◌, refl, ap, sym, subst, Bool, true, false, not, ◌||◌, Option, none, some, is_some, ◌∷◌,
  any, lookup, or_else, ◌&&◌, member, insert, opt_eq, Text, text, Result, ok, err, ◌>>=◌, >>=-eq-ok,
  reject_if, if◌then◌else◌, arith,
}
use ditch.Task.Basics.{column, column_eq}
use ditch.Core.{
  TaskColumn, AgentId, AgentExecutionProfile, Project, Task, TaskId, Uuid, WorkspaceLease,
}
use ditch.Store.{commit, Store}
use ditch.Store.Reservations.{reserve_writer, owned_by}
use ditch.Runtime.State.{RuntimeState, Env, tasks_of}
use ditch.Queue.Board.{board_agent_owned, board_execution_busy}
use ditch.Runtime.Writers.{reap_orphan_writers}
use ditch.Runtime.Admission.{
  WriterAdmission, WriterGuard, Granted, acquire_at, grant, record_lease, needed_lease, check_owner,
  check_lease, check_linked, check_task, lease_of, linked_task, agent_coordinator_group, holds_loop,
  is_direct, guard, excluded, reserves,
}

pub none_of :
    (a b c d : Bool)
    → (a || b || c || d) ≡ false
    → (a ≡ false) × (b ≡ false) × (c ≡ false) × (d ≡ false)
none_of a b c d h = (ground arith, ground arith, ground arith, ground arith)

ok-injective :
    (a b : Option WorkspaceLease) (r : Result Text (Option WorkspaceLease))
    → r ≡ ok a
    → r ≡ ok b
    → a ≡ b
ok-injective a b r h k = cc

-- The task of an admitted agent.
pub record IsLinked (id : AgentId) (p : Project) (managed : Bool) (s : RuntimeState)
    (task_id : TaskId) : Type 0 where
  pub task : Task
  pub found : lookup task_id s.tasks ≡ some task
  pub own : task.project_id ≡ p.id
  pub started :
      managed ≡ true
      → (column_eq (column task) TaskColumn.in_progress ≡ true)
        × (task.archived ≡ false)
        × (opt_eq task.assigned_agent_id (some id) ≡ true)

pub check_linked-IsLinked :
    (id : AgentId) (p : Project) (managed : Bool) (s : RuntimeState) (m : Option TaskId)
    → check_linked id p managed s m ≡ ok tt
    → (task_id : TaskId) → m ≡ some task_id
    → IsLinked id p managed s task_id
unfolding check_linked check_task
check_linked-IsLinked id p managed s none h task_id e = absurd (cc)
check_linked-IsLinked id p managed s (some k) h task_id e =
    let same : k ≡ task_id = cc in
    subst (λ (x : TaskId). IsLinked id p managed s x) same (by_found (lookup k s.tasks) refl h)
  where
    by_found :
        (o : Option Task)
        → lookup k s.tasks ≡ o
        → check_task id p managed o ≡ ok tt
        → IsLinked id p managed s k
    by_found none f c = absurd (cc)
    by_found (some t) f c =
        let (u1, own, c1) = >>=-eq-ok (reject_if (not (t.project_id == p.id)) _) _ c in
        record { task = t; found = f; own = ground arith; started = λ must. ground arith }

-- A lease is needed only where nothing excludes it and the agent's task permits it.
pub needed-free :
    (env : Env) (id : AgentId) (p : Project) (profile : AgentExecutionProfile) (group : Option Uuid)
    (intent : WriterAdmission) (root : Text) (s : RuntimeState) (lease : WorkspaceLease)
    → needed_lease env id p profile group intent root s ≡ ok (some lease)
    → (excluded id lease s ≡ false)
      × (check_linked id p
            (not (is_direct intent) || is_some lease.coordinator_group)
            s
            (linked_task id s)
          ≡ ok tt)
unfolding needed_lease check_lease
needed-free env id p profile group intent root s lease h =
    let (u1, checked, h1) = >>=-eq-ok (check_owner env id p intent s) _ h in
    by_test (lease_of env p profile (or_else (agent_coordinator_group s id) group) root s)
      (holds_loop id s) h1
  where
    by_test :
        (asked : WorkspaceLease) (b : Bool)
        → ((if b then ok tt else check_lease id p intent asked s) >>= λ done.
            ok (if b then none else some asked))
          ≡ ok (some lease)
        → (excluded id lease s ≡ false)
          × (check_linked id p
                (not (is_direct intent) || is_some lease.coordinator_group)
                s
                (linked_task id s)
              ≡ ok tt)
    by_test asked true k = absurd (cc)
    by_test asked false k =
        let (u2, passed, k1) = >>=-eq-ok (check_lease id p intent asked s) _ k in
        let (u3, free, k2) = >>=-eq-ok (reject_if (excluded id asked s) _) _ passed in
        let same : asked ≡ lease = cc in
        subst
          (λ (x : WorkspaceLease).
            (excluded id x s ≡ false)
            × (check_linked id p (not (is_direct intent) || is_some x.coordinator_group) s
                  (linked_task id s)
                ≡ ok tt))
          same (ground arith, k2)

pub added_row :
    (env : Env) (id : AgentId) (lease : WorkspaceLease) (s store : Store)
    → reserve_writer env.disk id lease s ≡ ok store
    → (any (owned_by id) s.reservations ≡ false)
      × (store ≡ record s {
        reservations =
            record { agent_id = id; lease = lease; process_group_id = none; validator = false }
            ∷ s.reservations;
      })
unfolding reserve_writer
added_row env id lease s store h =
    let (u1, fresh, h1) = >>=-eq-ok (reject_if (any (owned_by id) s.reservations) _) _ h in
    let (u2, written, h2) = >>=-eq-ok (commit env.disk) _ h1 in (ground arith, sym (cc))

-- The tests that stand before the lease, for every agent that is admitted.
pub owner_free :
    (env : Env) (id : AgentId) (p : Project) (intent : WriterAdmission) (s : RuntimeState)
    → check_owner env id p intent s ≡ ok tt
    → ((is_direct intent && member id s.acceptance_owners) ≡ false)
      × ((is_direct intent && any (reserves id) (tasks_of s)) ≡ false)
      × ((board_agent_owned s id && board_execution_busy env s p (some id)) ≡ false)
unfolding check_owner
owner_free env id p intent s h =
    let (u1, e1, h1) =
      >>=-eq-ok (reject_if (is_direct intent && member id s.acceptance_owners) _) _ h in
    let (u2, e2, h2) =
      >>=-eq-ok (reject_if (is_direct intent && any (reserves id) (tasks_of s)) _) _ h1 in
    (ground arith, ground arith, ground arith)

pub needed_facts :
    (env : Env) (id : AgentId) (p : Project) (profile : AgentExecutionProfile) (group : Option Uuid)
    (intent : WriterAdmission) (root : Text) (s : RuntimeState) (lease : WorkspaceLease)
    → needed_lease env id p profile group intent root s ≡ ok (some lease)
    → (check_owner env id p intent s ≡ ok tt)
      × (lease ≡ lease_of env p profile (or_else (agent_coordinator_group s id) group) root s)
unfolding needed_lease
needed_facts env id p profile group intent root s lease h =
    let (u1, checked, h1) = >>=-eq-ok (check_owner env id p intent s) _ h in
    let (u2, allowed, h2) =
      >>=-eq-ok
        (if holds_loop id s
          then ok tt
          else check_lease id p intent
              (lease_of env p profile (or_else (agent_coordinator_group s id) group) root s) s)
        _ h1 in
    (
      checked,
      by_test (lease_of env p profile (or_else (agent_coordinator_group s id) group) root s)
          (holds_loop id s) (ok-injective _ _ _ refl h2),
    )
  where
    by_test :
        (asked : WorkspaceLease) (b : Bool)
        → (if b then none else some asked) ≡ some lease
        → lease ≡ asked
    by_test asked true k = absurd (cc)
    by_test asked false k = sym (cc)

-- A grant takes a lease that is needed, or none and the guard is retained.
recorded_ok :
    (id : AgentId) (lease : WorkspaceLease) (s s' : RuntimeState) (r : Result Text Store)
    (g : WriterGuard)
    → record_lease id lease s r ≡ (s', ok g)
    → (store : Store) × (r ≡ ok store)
      × (s' ≡ record s { store = store; writer_leases = insert id lease s.writer_leases })
unfolding record_lease
recorded_ok id lease s s' (err e) g h = absurd (cc)
recorded_ok id lease s s' (ok store) g h = (store, refl, sym (ap (λ (x : Granted). x.0) h))

pub granted_ok :
    (env : Env) (id : AgentId) (s s' : RuntimeState) (r : Result Text (Option WorkspaceLease))
    (g : WriterGuard)
    → grant env id s r ≡ (s', ok g)
    → g.retained ≡ false
    → (lease : WorkspaceLease) × (store : Store) × (r ≡ ok (some lease))
      × (reserve_writer env.disk id lease s.store ≡ ok store)
      × (s' ≡ record s { store = store; writer_leases = insert id lease s.writer_leases })
unfolding grant
granted_ok env id s s' (err e) g h own = absurd (cc)
granted_ok env id s s' (ok none) g h own =
    let same : guard id true ≡ g = cc in absurd (ground arith)
granted_ok env id s s' (ok (some lease)) g h own =
    let (store, reserved, after) =
      recorded_ok id lease s s' (reserve_writer env.disk id lease s.store) g h in
    (lease, store, refl, reserved, after)

pub acquired_ok :
    (env : Env) (id : AgentId) (p : Project) (profile : AgentExecutionProfile) (group : Option Uuid)
    (intent : WriterAdmission) (s s' : RuntimeState) (r : Result Text Text) (g : WriterGuard)
    → acquire_at env id p profile group intent s r ≡ (s', ok g)
    → (root : Text) × (r ≡ ok root)
      × (s.remote_maintenance ≡ false)
      × (grant env id
            (reap_orphan_writers env s)
            (needed_lease env id p profile group intent root (reap_orphan_writers env s))
          ≡ (s', ok g))
unfolding acquire_at
acquired_ok env id p profile group intent s s' (err e) g h = absurd (cc)
acquired_ok env id p profile group intent s s' (ok root) g h =
    let (in_service, granted) = by_test s.remote_maintenance refl h in
    (root, refl, in_service, granted)
  where
    by_test :
        (b : Bool)
        → s.remote_maintenance ≡ b
        → (if b
            then (s, err (text "Remote runtime is being upgraded; retry when repair finishes."))
            else grant env id
                (reap_orphan_writers env s)
                (needed_lease env id p profile group intent root (reap_orphan_writers env s)))
          ≡ (s', ok g)
        → (s.remote_maintenance ≡ false)
          × (grant env id
                (reap_orphan_writers env s)
                (needed_lease env id p profile group intent root (reap_orphan_writers env s))
              ≡ (s', ok g))
    by_test true e k = absurd (cc)
    by_test false e k = (e, k)
