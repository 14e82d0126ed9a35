-- ===== src/Requests/Prepare/Laws.antt =====
-- What a request that edits one card had passed when it is answered with the changed card.
use ditch.Prelude.{
  ℕ, suc, ◌==◌, ==→eq, ◌≡◌, refl, ap, sym, subst, ◌∙◌, Bool, true, false, Option, none, some, [],
  ◌∷◌, ◌++◌, lookup, Text, text, Result, ok, err, >>=-eq-ok, reject_if, arith, if◌then◌else◌,
}
use ditch.Core.{
  Project, ProjectId, Task, TaskColumn, TaskError, TaskErrorCode, TaskId, TaskOperation,
  TaskRequest, TaskResponse,
}
use ditch.Task.Basics.{check_revision, column, column_eq, task_error}
use ditch.Store.{Store, receipt_of, save_task_changes, task_replay}
use ditch.Runtime.State.{RuntimeState, Env, publish_tasks, task_live}
use ditch.Runtime.Writers.{reap_orphan_writers}
use ditch.Planning.{TaskPlanLaunch}
use ditch.Requests.Place.{Change}
use ditch.Requests.Prepare.Queue.{plan_next-none}
use ditch.Requests.Prepare.{
  Prepared, Reply, act, act_on, announce_link, attend, commit_change, edit_task, found_board,
  found_task, on_board, on_found, plan_next, prepare, prepare_task_request, saved_change, task_at,
  unless_replayed, answered,
}

-- The card and the revision that an editing operation names.
abbrev pub edit_target : TaskOperation → Option (TaskId × ℕ)
edit_target (TaskOperation.update id revision draft) = some (id, revision)
edit_target (TaskOperation.transition id revision action) = some (id, revision)
edit_target (TaskOperation.move id revision to before) = some (id, revision)
edit_target (TaskOperation.start id revision profile) = some (id, revision)
edit_target (TaskOperation.link id revision agent) = some (id, revision)
edit_target _ = none

-- An edit goes the way of an edit at each turn.
prepare-edit :
    (env : Env) (request : TaskRequest) (operation : TaskOperation) (s : RuntimeState)
    (at : TaskId × ℕ)
    → edit_target operation ≡ some at
    → prepare env request operation s
      ≡ unless_replayed env request s (task_replay env.to_json env.disk request s.store)
unfolding prepare
prepare-edit env request (TaskOperation.update id revision draft) s at h = refl
prepare-edit env request (TaskOperation.transition id revision action) s at h = refl
prepare-edit env request (TaskOperation.move id revision to before) s at h = refl
prepare-edit env request (TaskOperation.start id revision profile) s at h = refl
prepare-edit env request (TaskOperation.link id revision agent) s at h = refl
prepare-edit env request _ s at h = cc

on_board-edit :
    (env : Env) (request : TaskRequest) (operation : TaskOperation) (p : Project) (s : RuntimeState)
    (id : TaskId) (revision : ℕ)
    → edit_target operation ≡ some (id, revision)
    → on_board env request operation p s ≡ act_on env request p s (task_at p id revision s)
unfolding on_board
on_board-edit env request (TaskOperation.update a b draft) p s id revision h = ground arith
on_board-edit env request (TaskOperation.transition a b action) p s id revision h = ground arith
on_board-edit env request (TaskOperation.move a b to before) p s id revision h = ground arith
on_board-edit env request (TaskOperation.start a b profile) p s id revision h = ground arith
on_board-edit env request (TaskOperation.link a b agent) p s id revision h = ground arith
on_board-edit env request _ p s id revision h = cc

act-edit :
    (env : Env) (request : TaskRequest) (operation : TaskOperation) (p : Project) (t : Task)
    (s : RuntimeState) (at : TaskId × ℕ)
    → edit_target operation ≡ some at
    → act env request operation p t s
      ≡ commit_change env request p t s (edit_task env operation p t s)
unfolding act
act-edit env request (TaskOperation.update id revision draft) p t s at h = refl
act-edit env request (TaskOperation.transition id revision action) p t s at h = refl
act-edit env request (TaskOperation.move id revision to before) p t s at h = refl
act-edit env request (TaskOperation.start id revision profile) p t s at h = refl
act-edit env request (TaskOperation.link id revision agent) p t s at h = refl
act-edit env request _ p t s at h = cc

-- An accepted edit: the card with the tests that it passed, the change, the transaction with its
-- receipt, and the state that was published.
pub record IsCommitted (env : Env) (request : TaskRequest) (s s' : RuntimeState) (u : Task)
    : Type 0 where
  pub id : TaskId
  pub revision : ℕ
  pub target : edit_target request.operation ≡ some (id, revision)
  pub board : Project
  pub board_found : found_board s request.project_id ≡ ok board
  pub task : Task
  pub found : lookup id s.tasks ≡ some task
  pub own : task.project_id ≡ board.id
  pub current : task.revision ≡ revision
  pub idle : task_live s task ≡ false
  pub change : Change
  pub edited : edit_task env request.operation board task s ≡ ok change
  pub answer : u ≡ (plan_next env board task change s).0
  pub store : Store
  pub saved :
      save_task_changes env.disk
        (change.changes ++ (u, change.entry) ∷ [])
        (some (receipt_of env.to_json request (TaskResponse.changed u)))
        change.linked
        s.store
      ≡ ok store
  pub published :
      s'
      ≡ attend env u (
          publish_tasks (change.changes ++ (u, change.entry) ∷ []) (
            announce_link env change.linked (record s { store = store; drawn = suc change.drawn })))
  pub unqueued : column_eq (column u) TaskColumn.todo ≡ true → u.execution_queue ≡ none

found_ok :
    (project_id : ProjectId) (o : Option Task) (t : Task)
    → found_task project_id o ≡ ok t
    → (o ≡ some t) × (t.project_id ≡ project_id)
found_ok project_id none t h = cc
found_ok project_id (some u) t h = by_test (u.project_id == project_id) refl h
  where
    by_test :
        (b : Bool)
        → (u.project_id == project_id) ≡ b
        → (if b
            then ok u
            else err (task_error TaskErrorCode.not_found (text "Task not found in this project.")))
          ≡ ok t
        → (some u ≡ some t) × (t.project_id ≡ project_id)
    by_test true e k =
        let same : u ≡ t = cc in
        (
          ap some same,
          subst (λ (x : Task). x.project_id ≡ project_id) same (==→eq u.project_id project_id e),
        )
    by_test false e k = cc

saved_ok :
    (env : Env) (c : Change) (next u : Task) (launch : Option TaskPlanLaunch) (s s' : RuntimeState)
    (saved : Result Text Store) (r : Prepared)
    → saved_change env c next launch s saved ≡ (s', ok r)
    → r.response ≡ TaskResponse.changed u
    → (store : Store) × (saved ≡ ok store)
      × (u ≡ next)
      × (s'
          ≡ attend env next (
              publish_tasks
                (c.changes ++ (next, c.entry) ∷ [])
                (announce_link env c.linked (record s { store = store; drawn = suc c.drawn }))))
unfolding saved_change
saved_ok env c next u launch s s' (err e) r h k = cc
saved_ok env c next u launch s s' (ok store) r h k =
    let same : TaskResponse.changed next ≡ r.response = cc in
    (store, refl, cc, sym (ap (λ (x : Reply). x.0) h))

commit_ok :
    (env : Env) (request : TaskRequest) (p : Project) (t : Task) (s s' : RuntimeState)
    (edit : Result TaskError Change) (r : Prepared)
    → commit_change env request p t s edit ≡ (s', ok r)
    → (c : Change) × (edit ≡ ok c) × (commit_change env request p t s (ok c) ≡ (s', ok r))
unfolding commit_change
commit_ok env request p t s s' (err e) r h = cc
commit_ok env request p t s s' (ok c) r h = (c, refl, h)

act_ok :
    (env : Env) (request : TaskRequest) (p : Project) (s s' : RuntimeState)
    (checked : Result TaskError Task) (r : Prepared)
    → act_on env request p s checked ≡ (s', ok r)
    → (t : Task) × (checked ≡ ok t) × (act env request request.operation p t s ≡ (s', ok r))
act_ok env request p s s' (err e) r h = cc
act_ok env request p s s' (ok t) r h = (t, refl, h)

found_board_ok :
    (env : Env) (request : TaskRequest) (s s' : RuntimeState) (found : Result TaskError Project)
    (r : Prepared)
    → on_found env request s found ≡ (s', ok r)
    → (p : Project) × (found ≡ ok p) × (on_board env request request.operation p s ≡ (s', ok r))
unfolding on_found
found_board_ok env request s s' (err e) r h = cc
found_board_ok env request s s' (ok p) r h = (p, refl, h)

commit_parts :
    (env : Env) (request : TaskRequest) (p : Project) (t u : Task) (s s' : RuntimeState)
    (c : Change) (r : Prepared)
    → commit_change env request p t s (ok c) ≡ (s', ok r)
    → r.response ≡ TaskResponse.changed u
    → (store : Store) × (save_task_changes env.disk
          (c.changes ++ ((plan_next env p t c s).0, c.entry) ∷ [])
          (some (receipt_of env.to_json request (TaskResponse.changed (plan_next env p t c s).0)))
          c.linked
          s.store
        ≡ ok store)
      × (u ≡ (plan_next env p t c s).0)
      × (s'
          ≡ attend env (plan_next env p t c s).0 (
              publish_tasks
                (c.changes ++ ((plan_next env p t c s).0, c.entry) ∷ [])
                (announce_link env c.linked (record s { store = store; drawn = suc c.drawn }))))
unfolding commit_change
commit_parts env request p t u s s' c r h k =
    saved_ok env c (plan_next env p t c s).0 u (plan_next env p t c s).1 s s' _ r h k

checked_ok :
    (p : Project) (id : TaskId) (revision : ℕ) (s : RuntimeState) (t : Task)
    → task_at p id revision s ≡ ok t
    → (lookup id s.tasks ≡ some t)
      × (t.project_id ≡ p.id)
      × (t.revision ≡ revision)
      × (task_live s t ≡ false)
unfolding task_at check_revision
checked_ok p id revision s t h =
    let (v, found, h1) = >>=-eq-ok (found_task p.id (lookup id s.tasks)) _ h in
    let (u1, current, h2) = >>=-eq-ok (check_revision v revision) _ h1 in
    let (u2, idle, h3) = >>=-eq-ok (reject_if (task_live s v) _) _ h2 in
    let same : v ≡ t = cc in
    let known = found_ok p.id (lookup id s.tasks) v found in
    subst
      (λ (x : Task).
        (lookup id s.tasks ≡ some x)
        × (x.project_id ≡ p.id)
        × (x.revision ≡ revision)
        × (task_live s x ≡ false))
      same (known.0, known.1, ground arith, ground arith)

new_edit :
    (env : Env) (request : TaskRequest) (s s' : RuntimeState) (at : TaskId × ℕ) (r : Prepared)
    → edit_target request.operation ≡ some at
    → task_replay env.to_json env.disk request s.store ≡ ok none
    → prepare env request request.operation s ≡ (s', ok r)
    → on_found env request s (found_board s request.project_id) ≡ (s', ok r)
unfolding unless_replayed
new_edit env request s s' at r target new h =
    subst (λ (x : Result Text (Option TaskResponse)). unless_replayed env request s x ≡ (s', ok r))
      new (sym (prepare-edit env request request.operation s at target) ∙ h)

edit-IsCommitted :
    (env : Env) (request : TaskRequest) (s s' : RuntimeState) (id : TaskId) (revision : ℕ)
    (r : Prepared) (u : Task)
    → edit_target request.operation ≡ some (id, revision)
    → task_replay env.to_json env.disk request s.store ≡ ok none
    → prepare env request request.operation s ≡ (s', ok r)
    → r.response ≡ TaskResponse.changed u
    → IsCommitted env request s s' u
edit-IsCommitted env request s s' id revision r u target new h answered =
    let (p, board, h1) =
      found_board_ok env request s s' (found_board s request.project_id) r
        (new_edit env request s s' (id, revision) r target new h) in
    let (t, checked, h2) =
      act_ok env request p s s' (task_at p id revision s) r
        (sym (on_board-edit env request request.operation p s id revision target) ∙ h1) in
    let (found, own, current, idle) = checked_ok p id revision s t checked in
    let (c, edited, h3) =
      commit_ok env request p t s s' (edit_task env request.operation p t s) r
        (sym (act-edit env request request.operation p t s (id, revision) target) ∙ h2) in
    let (store, saved, same, published) = commit_parts env request p t u s s' c r h3 answered in
    subst (IsCommitted env request s s') (sym same) (record {
      id = id;
      revision = revision;
      target = target;
      board = p;
      board_found = board;
      task = t;
      found = found;
      own = own;
      current = current;
      idle = idle;
      change = c;
      edited = edited;
      answer = refl;
      store = store;
      saved = saved;
      published = published;
      unqueued = plan_next-none env request.operation p t s c edited;
    })

-- A request to update, transition, move, start or link a card that is no retry and is answered with
-- the changed card is judged on the state in which the writers that have exited are released. Its
-- board is open and its card stands on that board, at the revision that the request names, and is not
-- live. The edit, the other cards' new keys, the linked agent and the request's receipt were saved in one transaction, and
-- then published. A changed card in Todo has no place in the queue.
pub prepare_task_request-IsCommitted :
    (env : Env) (request : TaskRequest) (s s' : RuntimeState) (id : TaskId) (revision : ℕ)
    (r : Prepared) (u : Task)
    → edit_target request.operation ≡ some (id, revision)
    → task_replay env.to_json env.disk request (reap_orphan_writers env s).store ≡ ok none
    → prepare_task_request env request s ≡ (s', ok r)
    → r.response ≡ TaskResponse.changed u
    → IsCommitted env request (reap_orphan_writers env s) s' u
unfolding prepare_task_request
prepare_task_request-IsCommitted env request s s' id revision r u target new h answered =
    edit-IsCommitted env request (reap_orphan_writers env s) s' id revision r u target new h
      answered
