-- ===== src/Requests/Prepare/Queue.antt =====
-- What the edits of a card do to its place in the queue: none holds one in Todo.
use ditch.Prelude.{
  ℕ, suc, ◌≡◌, refl, subst, ◌∙◌, Bool, true, false, not, ◌||◌, Option, none, some, List, lookup,
  opt_eq, text, Result, ok, err, >>=-eq-ok, reject_if, arith, if◌then◌else◌,
}
use ditch.Core.{
  AgentExecutionProfile, AgentId, Project, Task, TaskAction, TaskActor, TaskAudit, TaskColumn,
  TaskDraft, TaskError, TaskId, TaskOperation, Uuid,
}
use ditch.Task.Basics.{audit, column, column_eq, touch}
use ditch.Task.Draft.{validate}
use ditch.Task.Workflow.{transition}
use ditch.Task.Workflow.Effects.{transition-IsRecorded}
use ditch.Runtime.State.{RuntimeState, Env}
use ditch.Planning.{TaskPlanLaunch, automatic_plan, prepare_automatic_task_plan, prepare_task_plan}
use ditch.Requests.Create.{with_user_skills}
use ditch.Requests.Place.{
  Change, change_column, move_action, move_task, moved_task, place, reordered, siblings_of,
  target_index,
}
use ditch.Requests.Edits.{
  continuation_thread, found_agent, invalid_thread, is_taken, link_task, linked_change,
  plain_change, redrafted, start_task, started_change, transition_task, update_task,
}
use ditch.Requests.Prepare.{edit_task, leave_queue, plan_next}

abbrev KeepsQueue : Task → Task → Type 0
KeepsQueue t u = u.execution_queue ≡ t.execution_queue

-- The end of an edit.
abbrev done_with : Change → Result TaskError Change
done_with c = ok c

finished :
    (t : Task) (a c : Change) → done_with a ≡ ok c → KeepsQueue t a.next → KeepsQueue t c.next
finished t a c h k = (let same : a ≡ c = cc in subst (λ (x : Change). KeepsQueue t x.next) same k)

moved-KeepsQueue :
    (env : Env) (fresh : Uuid) (t : Task) (action : TaskAction) (moved : Task × TaskAudit)
    → transition env.now fresh t action TaskActor.user t.revision false ≡ ok moved
    → KeepsQueue t moved.0
moved-KeepsQueue env fresh t action moved h =
    (transition-IsRecorded env.now fresh t action TaskActor.user t.revision false moved.0 moved.1
      h).0.execution_queue

redraft-queue : (env : Env) (draft : TaskDraft) (t : Task) → KeepsQueue t (redrafted env draft t)
unfolding redrafted with_user_skills touch
redraft-queue env draft t = refl

abbrev redrafted_change : Env → TaskDraft → Task → ℕ → Change
redrafted_change env draft t drawn =
    plain_change (redrafted env draft t)
      (audit env.now (env.uuid drawn) (redrafted env draft t) TaskActor.user (text "update")
        (some (column t)) none)
      (suc drawn)

update_task-queue :
    (env : Env) (draft : TaskDraft) (t : Task) (s : RuntimeState) (c : Change)
    → update_task env draft t s ≡ ok c
    → KeepsQueue t c.next
unfolding update_task
update_task-queue env draft t s c h =
    let (u1, valid, h1) = >>=-eq-ok (validate draft) _ h in
    let (u2, unfinished, h2) =
      >>=-eq-ok (reject_if (t.archived || column_eq (column t) TaskColumn.done) _) _ h1 in
    let (u3, unreviewed, h3) =
      >>=-eq-ok (reject_if (column_eq (column t) TaskColumn.in_review) _) _ h2 in
    finished t (redrafted_change env draft t s.drawn) c h3 (redraft-queue env draft t)

transition_task-queue :
    (env : Env) (action : TaskAction) (t : Task) (s : RuntimeState) (c : Change)
    → transition_task env action t s ≡ ok c
    → KeepsQueue t c.next
unfolding transition_task
transition_task-queue env action t s c h =
    let (moved, done, h1) =
      >>=-eq-ok (transition env.now (env.uuid s.drawn) t action TaskActor.user t.revision false) _
        h in
    finished t (plain_change moved.0 moved.1 (suc s.drawn)) c h1
      (moved-KeepsQueue env (env.uuid s.drawn) t action moved done)

start_task-queue :
    (env : Env) (profile : AgentExecutionProfile) (p : Project) (t : Task) (s : RuntimeState)
    (c : Change)
    → start_task env profile p t s ≡ ok c
    → KeepsQueue t c.next
unfolding start_task started_change
start_task-queue env profile p t s c h =
    let (moved, done, h1) =
      >>=-eq-ok
        (transition env.now (env.uuid s.drawn) t TaskAction.start TaskActor.user t.revision false) _
        h in
    let (thread, found, h2) = >>=-eq-ok (invalid_thread (continuation_thread profile s t)) _ h1 in
    finished t (started_change env profile p t moved s.drawn) c h2
      (moved-KeepsQueue env (env.uuid s.drawn) t TaskAction.start moved done)

link_task-queue :
    (env : Env) (id : AgentId) (t : Task) (s : RuntimeState) (c : Change)
    → link_task env id t s ≡ ok c
    → KeepsQueue t c.next
unfolding link_task linked_change
link_task-queue env id t s c h =
    let (run, found, h1) = >>=-eq-ok (found_agent (lookup id s.agents)) _ h in
    let (u1, free, h2) = >>=-eq-ok (reject_if (is_taken s t id run) _) _ h1 in
    let (moved, done, h3) =
      >>=-eq-ok
        (transition env.now (env.uuid s.drawn) t TaskAction.start TaskActor.user t.revision false) _
        h2 in
    let (u2, owned, h4) =
      >>=-eq-ok (reject_if (not (opt_eq t.coordinator_group run.coordinator_group)) _) _ h3 in
    finished t (linked_change env id run t moved s.drawn) c h4
      (moved-KeepsQueue env (env.uuid s.drawn) t TaskAction.start moved done)

reordered-queue : (env : Env) (t : Task) (drawn : ℕ) → KeepsQueue t (reordered env t drawn).0
unfolding touch
reordered-queue env t drawn = refl

change_column-queue :
    (env : Env) (to : TaskColumn) (t : Task) (drawn : ℕ) (moved : Task × TaskAudit)
    → change_column env to t drawn ≡ ok moved
    → KeepsQueue t moved.0
unfolding change_column
change_column-queue env to t drawn moved h =
    let (action, chosen, h1) = >>=-eq-ok (move_action (column t) to) _ h in
    moved-KeepsQueue env (env.uuid drawn) t action moved h1

moved_task-queue :
    (env : Env) (to : TaskColumn) (t : Task) (drawn : ℕ) (moved : Task × TaskAudit)
    → moved_task env to t drawn ≡ ok moved
    → KeepsQueue t moved.0
unfolding moved_task
moved_task-queue env to t drawn moved h = by_test (column_eq to (column t)) h
  where
    by_test :
        (b : Bool)
        → (if b then ok (reordered env t drawn) else change_column env to t drawn) ≡ ok moved
        → KeepsQueue t moved.0
    by_test true k =
        let same : reordered env t drawn ≡ moved = cc in
        subst (λ (x : Task × TaskAudit). KeepsQueue t x.0) same (reordered-queue env t drawn)
    by_test false k = change_column-queue env to t drawn moved k

place-queue :
    (env : Env) (index : ℕ) (siblings : List Task) (moved : Task × TaskAudit) (drawn : ℕ)
    → KeepsQueue moved.0 (place env index siblings moved drawn).next
unfolding place
place-queue env index siblings moved drawn = ground arith

move_task-queue :
    (env : Env) (to : TaskColumn) (before : Option TaskId) (t : Task) (s : RuntimeState)
    (c : Change)
    → move_task env to before t s ≡ ok c
    → KeepsQueue t c.next
unfolding move_task
move_task-queue env to before t s c h =
    let (u, unarchived, h1) = >>=-eq-ok (reject_if t.archived _) _ h in
    let (moved, done, h2) = >>=-eq-ok (moved_task env to t s.drawn) _ h1 in
    let siblings = siblings_of s t.project_id to t.id in
    let (index, at, h3) = >>=-eq-ok (target_index before siblings) _ h2 in
    finished t (place env index siblings moved s.drawn) c h3
      (place-queue env index siblings moved s.drawn ∙ moved_task-queue env to t s.drawn moved done)

edit_task-queue :
    (env : Env) (operation : TaskOperation) (p : Project) (t : Task) (s : RuntimeState) (c : Change)
    → edit_task env operation p t s ≡ ok c
    → KeepsQueue t c.next
unfolding edit_task
edit_task-queue env (TaskOperation.update id revision draft) p t s c h =
    update_task-queue env draft t s c h
edit_task-queue env (TaskOperation.transition id revision action) p t s c h =
    transition_task-queue env action t s c h
edit_task-queue env (TaskOperation.move id revision to before) p t s c h =
    move_task-queue env to before t s c h
edit_task-queue env (TaskOperation.start id revision profile) p t s c h =
    start_task-queue env profile p t s c h
edit_task-queue env (TaskOperation.link id revision agent) p t s c h =
    link_task-queue env agent t s c h
edit_task-queue env _ p t s c h = cc

-- The automatic plan changes neither the queue's entry nor the column.
automatic_plan-queue :
    (env : Env) (t : Task) (id : Uuid) (r : Result TaskError TaskPlanLaunch)
    → (KeepsQueue t (automatic_plan env t id r).0)
      × (column (automatic_plan env t id r).0 ≡ column t)
unfolding automatic_plan
automatic_plan-queue env t id (ok launch) = (refl, refl)
automatic_plan-queue env t id (err e) = (refl, refl)

kept_plan :
    (env : Env) (s : RuntimeState) (p : Project) (id : Uuid) (t : Task)
    → (KeepsQueue t (prepare_automatic_task_plan env s p id t).0)
      × (column (prepare_automatic_task_plan env s p id t).0 ≡ column t)
unfolding prepare_automatic_task_plan
kept_plan env s p id t =
    let planned = automatic_plan-queue env t id (prepare_task_plan env s p t id none) in
    ground arith

leave_queue-none :
    (s : RuntimeState) (t next : Task)
    → next.execution_queue ≡ t.execution_queue
    → column_eq (column (leave_queue s t next)) TaskColumn.todo ≡ true
    → (leave_queue s t next).execution_queue ≡ none
unfolding leave_queue
leave_queue-none s t next same h = ground arith

-- A changed card in Todo has no place in the queue.
pub plan_next-none :
    (env : Env) (operation : TaskOperation) (p : Project) (t : Task) (s : RuntimeState) (c : Change)
    → edit_task env operation p t s ≡ ok c
    → column_eq (column (plan_next env p t c s).0) TaskColumn.todo ≡ true
    → (plan_next env p t c s).0.execution_queue ≡ none
unfolding plan_next
plan_next-none env operation p t s c edited h =
    let left = leave_queue-none s t c.next (edit_task-queue env operation p t s c edited) in
    let plan = kept_plan env s p (env.uuid c.drawn) (leave_queue s t c.next) in ground arith
