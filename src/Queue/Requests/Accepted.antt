-- ===== src/Queue/Requests/Accepted.antt =====
-- What a request on the queue had passed when it is answered with a changed task.
use ditch.Prelude.{
  ℕ, ◌≡◌, refl, ap, sym, subst, Bool, true, false, not, ◌||◌, Option, none, some, any, lookup,
  opt_eq, opt_eq→eq, is_some, Text, text, Result, ok, err, >>=-eq-ok, reject_if, arith,
  if◌then◌else◌,
}
use ditch.Core.{Task, TaskError, TaskErrorCode, TaskId, TaskRequest, TaskResponse}
use ditch.Task.Basics.{check_revision, task_error}
use ditch.Store.{Store, receipt_of, save_task_agent_changes, task_replay}
use ditch.Runtime.State.{RuntimeState, Env, publish_tasks, task_live}
use ditch.Queue.Edit.{Edit}
use ditch.Queue.Requests.{
  Reply, board_queue_request, targeted_request, new_request, save_edit, committed, checked_edit,
  edit, of_project, queue_target, announce, serves,
}

-- The task of an accepted request, and the tests that it has passed.
pub record IsChecked (env : Env) (request : TaskRequest) (id : TaskId) (revision : ℕ)
    (s : RuntimeState) (e : Edit) : Type 0 where
  pub task : Task
  pub found : lookup id s.tasks ≡ some task
  pub own : some task.project_id ≡ request.project_id
  pub current : task.revision ≡ revision
  pub served : any (serves task) s.projects ≡ true
  pub kept : task.archived ≡ false
  pub unmanaged : is_some task.coordinator_group ≡ false
  pub idle : task_live s task ≡ false
  pub edited : edit env request.operation task s ≡ ok e

pub found_ok :
    (named : Option ℕ) (m : Option Task) (t : Task)
    → of_project named m ≡ ok t
    → (m ≡ some t) × (some t.project_id ≡ named)
found_ok named none t h = cc
found_ok named (some u) t h = by_test (opt_eq (some u.project_id) named) refl h
  where
    by_test :
        (b : Bool)
        → opt_eq (some u.project_id) named ≡ b
        → (if b then ok u else err (task_error TaskErrorCode.not_found (text "Task not found")))
          ≡ ok t
        → (some u ≡ some t) × (some t.project_id ≡ named)
    by_test true e k =
        let same : u ≡ t = cc in
        (
          cc,
          subst (λ (x : Task). some x.project_id ≡ named) same
              (opt_eq→eq (some u.project_id) named e),
        )
    by_test false e k = cc

pub checked_edit-IsChecked :
    (env : Env) (request : TaskRequest) (id : TaskId) (revision : ℕ) (s : RuntimeState) (e : Edit)
    → checked_edit env request id revision s ≡ ok e
    → IsChecked env request id revision s e
unfolding checked_edit check_revision
checked_edit-IsChecked env request id revision s e h =
    let (t, found, h1) = >>=-eq-ok (of_project request.project_id (lookup id s.tasks)) _ h in
    let (u1, current, h2) = >>=-eq-ok (check_revision t revision) _ h1 in
    let (u2, served, h3) = >>=-eq-ok (reject_if (not (any (serves t) s.projects)) _) _ h2 in
    let (u3, idle, h4) =
      >>=-eq-ok (reject_if (t.archived || is_some t.coordinator_group || task_live s t) _) _ h3 in
    record {
      task = t;
      found = (found_ok request.project_id (lookup id s.tasks) t found).0;
      own = (found_ok request.project_id (lookup id s.tasks) t found).1;
      current = ground arith;
      served = ground arith;
      kept = ground arith;
      unmanaged = ground arith;
      idle = ground arith;
      edited = h4;
    }

-- An accepted request: the target, the edit, the transaction and the state that was published.
pub record IsAccepted (env : Env) (request : TaskRequest) (s s' : RuntimeState) (u : Task)
    : Type 0 where
  pub id : TaskId
  pub revision : ℕ
  pub target : queue_target s request.operation ≡ some (id, revision)
  pub change : Edit
  pub checks : IsChecked env request id revision s change
  pub answered : u ≡ change.task
  pub store : Store
  pub saved :
      save_task_agent_changes env.disk change.changes
        (some (receipt_of env.to_json request (TaskResponse.changed change.task)))
        change.agents
        s.store
      ≡ ok store
  pub published :
      s'
      ≡ publish_tasks change.changes
          (announce env change.agents (record s { store = store; drawn = change.drawn }))

committed_ok :
    (env : Env) (s s' : RuntimeState) (e : Edit) (r : Result Text Store) (u : Task)
    → committed env s e r ≡ (s', TaskResponse.changed u)
    → (store : Store) × (r ≡ ok store)
      × (u ≡ e.task)
      × (s'
          ≡ publish_tasks e.changes
              (announce env e.agents (record s { store = store; drawn = e.drawn })))
unfolding committed
committed_ok env s s' e (err reason) u h = cc
committed_ok env s s' e (ok store) u h = (store, refl, cc, sym (ap (λ (x : Reply). x.0) h))

refused_edit :
    (env : Env) (request : TaskRequest) (s s' : RuntimeState) (e : TaskError) (u : Task)
    → save_edit env request s (err e) ≡ (s', TaskResponse.changed u)
    → ⊥
unfolding save_edit
refused_edit env request s s' e u h = cc

saved_ok :
    (env : Env) (request : TaskRequest) (s s' : RuntimeState) (r : Result TaskError Edit) (u : Task)
    → save_edit env request s r ≡ (s', TaskResponse.changed u)
    → (e : Edit) × (r ≡ ok e) × (save_edit env request s (ok e) ≡ (s', TaskResponse.changed u))
saved_ok env request s s' (err e) u h = absurd (refused_edit env request s s' e u h)
saved_ok env request s s' (ok e) u h = (e, refl, h)

targeted_ok :
    (env : Env) (request : TaskRequest) (s s' : RuntimeState) (m : Option (TaskId × ℕ)) (u : Task)
    → targeted_request env request s m ≡ some (s', TaskResponse.changed u)
    → (id : TaskId) × (revision : ℕ) × (m ≡ some (id, revision))
      × (new_request env request id revision s (task_replay env.to_json env.disk request s.store)
          ≡ (s', TaskResponse.changed u))
unfolding targeted_request
targeted_ok env request s s' none u h = cc
targeted_ok env request s s' (some (id, revision)) u h = (id, revision, refl, cc)

-- A request that is no retry and is answered with a changed task named a task of its project at its
-- current revision, which is idle, neither archived nor managed by a coordinator, and in an open
-- project of this machine. Its edit was committed in one transaction with its receipt, and then
-- published.
pub request-IsAccepted :
    (env : Env) (request : TaskRequest) (s s' : RuntimeState) (u : Task)
    → task_replay env.to_json env.disk request s.store ≡ ok none
    → board_queue_request env request s ≡ some (s', TaskResponse.changed u)
    → IsAccepted env request s s' u
unfolding board_queue_request new_request save_edit
request-IsAccepted env request s s' u new h =
    let (id, revision, target, h1) = targeted_ok env request s s' _ u h in
    let fresh : save_edit env request s (checked_edit env request id revision s)
        ≡ (s', TaskResponse.changed u) =
      subst
        (λ (r : Result Text (Option TaskResponse)).
          new_request env request id revision s r ≡ (s', TaskResponse.changed u))
        new h1 in
    let (e, checked, h2) = saved_ok env request s s' _ u fresh in
    let (store, saved, answered, published) = committed_ok env s s' e _ u h2 in
    record {
      id = id;
      revision = revision;
      target = target;
      change = e;
      checks = checked_edit-IsChecked env request id revision s e checked;
      answered = answered;
      store = store;
      saved = saved;
      published = published;
    }
