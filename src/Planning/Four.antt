-- ===== src/Planning/Four.antt =====
-- At most four plans run at a time, whatever the requests and the ends of plans.
use ditch.Prelude.{
  ◌≤◌, ◌==◌, ◌≡◌, refl, sym, ap, ◌∙◌, subst, Bool, true, false, not, ◌&&◌, Option, none, some, List,
  [], ◌∷◌, values, lookup, insert, Result, ok, err, Text, text, if◌then◌else◌,
}
use ditch.Core.{Task, TaskId, TaskPlanJob, TaskRequest, TaskAudit, Uuid, TaskError, TaskActor}
use ditch.Task.Basics.{audit, touch}
use ditch.Store.{Store, save_task_changes, task_replay}
use ditch.Runtime.State.{RuntimeState, Env, publish_tasks, send}
use ditch.Planning.Finished.{IsFinished, planning-IsFinished, unsaved-IsFinished}
use ditch.Planning.{
  finish_found, finish_on, finish_job, finished_planning, keep_result, unsaved, PlanEdit, PlanReply,
  TaskPlanLaunch, plan_running, running_plans, is_running, checked_plan, is_closed, committed_plan,
  save_plan, replay_plan, plan_request_at, task_planning_request, finish_task_plan,
}
use ditch.Planning.Room.{checked_plan-IsRoomy}
use ditch.Planning.Count.{IsBounded, MayRun, replaced-IsBounded}

abbrev Tasks : Type 0
Tasks = List (TaskId × Task)

-- Only the tasks count.
by_tasks-IsBounded : (s s' : RuntimeState) → s'.tasks ≡ s.tasks → IsBounded s → IsBounded s'
by_tasks-IsBounded s s' same inv = record {
  keyed = λ k t h. inv.keyed k t (ap (λ (m : Tasks). lookup k m) (sym same) ∙ h);
  few = subst (λ (m : Tasks). running_plans (values m) ≤ 4) (sym same) inv.few;
}

committed_plan-IsBounded :
    (id : TaskId) (t u : Task) (entry : TaskAudit) (launch : Option TaskPlanLaunch)
    (s : RuntimeState) (r : Result Text Store)
    → IsBounded s
    → lookup id s.tasks ≡ some t
    → u.id ≡ t.id
    → MayRun s t u
    → IsBounded (committed_plan u entry launch s r).0
unfolding committed_plan publish_tasks send
committed_plan-IsBounded id t u entry launch s (err e) inv found own room =
    by_tasks-IsBounded s _ refl inv
committed_plan-IsBounded id t u entry launch s (ok store) inv found own room =
    by_tasks-IsBounded (record s { tasks = insert u.id u s.tasks }) _ refl
      (replaced-IsBounded s id t u inv found own room)

save_plan-IsBounded :
    (env : Env) (request : TaskRequest) (id : TaskId) (s : RuntimeState)
    (r : Result TaskError PlanEdit)
    → checked_plan env request id s ≡ r
    → IsBounded s
    → IsBounded (save_plan env request s r).0
unfolding save_plan touch
save_plan-IsBounded env request id s (err e) h inv = inv
save_plan-IsBounded env request id s (ok e) h inv =
    let (t, found, roomy) = checked_plan-IsRoomy env request id s e h in
    committed_plan-IsBounded id t (touch env.now e.task) _ _ s _ inv found roomy.own roomy.room

replay_plan-IsBounded :
    (env : Env) (request : TaskRequest) (id : TaskId) (s : RuntimeState) (r : _)
    → IsBounded s
    → IsBounded (replay_plan env request id s r).0
unfolding replay_plan
replay_plan-IsBounded env request id s (err e) inv = inv
replay_plan-IsBounded env request id s (ok (some replay)) inv = inv
replay_plan-IsBounded env request id s (ok none) inv =
    save_plan-IsBounded env request id s _ refl inv

plan_request_at-IsBounded :
    (env : Env) (request : TaskRequest) (s : RuntimeState) (target : Option TaskId)
    (reply : PlanReply)
    → plan_request_at env request s target ≡ some reply
    → IsBounded s
    → IsBounded reply.0
unfolding plan_request_at
plan_request_at-IsBounded env request s none reply h inv = cc
plan_request_at-IsBounded env request s (some id) reply h inv =
    let answer : replay_plan env request id s (task_replay env.to_json env.disk request s.store)
        ≡ reply =
      cc in
    subst (λ (r : PlanReply). IsBounded r.0) answer (replay_plan-IsBounded env request id s _ inv)

-- The end of a plan replaces the task by one that runs none.
stopped-IsBounded :
    (id : TaskId) (t u : Task) (s : RuntimeState)
    → IsBounded s
    → lookup id s.tasks ≡ some t
    → u.id ≡ t.id
    → plan_running u ≡ false
    → IsBounded (record s { tasks = insert u.id u s.tasks })
stopped-IsBounded id t u s inv found own stopped =
    replaced-IsBounded s id t u inv found own (λ after before. cc)

keep_result-IsBounded :
    (id : TaskId) (t u : Task) (entry : TaskAudit) (s : RuntimeState) (saved : Result Text Store)
    → IsBounded s
    → lookup id s.tasks ≡ some t
    → u.id ≡ t.id
    → (unsaved t.planning.text u).id ≡ t.id
    → plan_running u ≡ false
    → plan_running (unsaved t.planning.text u) ≡ false
    → IsBounded (keep_result t.planning.text u entry s saved)
unfolding keep_result publish_tasks send unsaved
keep_result-IsBounded id t u entry s (ok store) inv found own kept stopped kept_stopped =
    by_tasks-IsBounded (record s { tasks = insert u.id u s.tasks }) _ refl
      (stopped-IsBounded id t u s inv found own stopped)
keep_result-IsBounded id t u entry s (err e) inv found own kept stopped kept_stopped =
    let shown : Task = unsaved t.planning.text u in
    by_tasks-IsBounded (record s { tasks = insert shown.id shown s.tasks }) _ refl
      (stopped-IsBounded id t shown s inv found kept kept_stopped)

finish_job-IsBounded :
    (env : Env) (id : TaskId) (t : Task) (j : TaskPlanJob) (result : Result Text Text)
    (s : RuntimeState)
    → IsBounded s
    → lookup id s.tasks ≡ some t
    → IsBounded (finish_job env t j result s)
unfolding finish_job
finish_job-IsBounded env id t j result s inv found =
    by_save (save_task_changes env.disk ((next, entry) ∷ []) none none s.store)
  where
    next : Task
    next =
        touch env.now
          (record t { planning = finished_planning env (not (is_closed s t)) t.planning j result })

    entry : TaskAudit
    entry = audit env.now (env.uuid s.drawn) next TaskActor.daemon (text "plan_finished") none none

    ended : IsFinished s t j result next
    ended = planning-IsFinished env s t j result

    kept : IsFinished s t j result (unsaved t.planning.text next)
    kept = unsaved-IsFinished s t next j result ended

    by_save :
        (saved : Result Text Store) → IsBounded (keep_result t.planning.text next entry s saved)
    by_save saved =
        keep_result-IsBounded id t next entry s saved inv found ended.same kept.same ended.stopped
          kept.stopped

finish_on-IsBounded :
    (env : Env) (id : TaskId) (job : Uuid) (result : Result Text Text) (t : Task) (s : RuntimeState)
    (held : Option TaskPlanJob)
    → IsBounded s
    → lookup id s.tasks ≡ some t
    → IsBounded (finish_on env job result t s held)
unfolding finish_on
finish_on-IsBounded env id job result t s none inv found = inv
finish_on-IsBounded env id job result t s (some j) inv found = by_test (j.id == job && is_running j)
  where
    by_test : (b : Bool) → IsBounded (if b then finish_job env t j result s else s)
    by_test true = finish_job-IsBounded env id t j result s inv found
    by_test false = inv

finish_task_plan-IsBounded :
    (env : Env) (id : TaskId) (job : Uuid) (result : Result Text Text) (s : RuntimeState)
    → IsBounded s
    → IsBounded (finish_task_plan env id job result s)
unfolding finish_task_plan finish_found
finish_task_plan-IsBounded env id job result s inv = by_task (lookup id s.tasks) refl
  where
    by_task :
        (held : Option Task)
        → lookup id s.tasks ≡ held
        → IsBounded (finish_found env job result s held)
    by_task none e = inv
    by_task (some t) e = finish_on-IsBounded env id job result t s t.planning.job inv e

-- The steps of the plans: the requests that are about one, and the ends.
pub data PlanSteps (s : RuntimeState) : RuntimeState → Type 0 where
  started : PlanSteps s s
  asked :
      {s' : RuntimeState} (env : Env) (request : TaskRequest) (reply : PlanReply)
      → PlanSteps s s'
      → task_planning_request env request s' ≡ some reply
      → PlanSteps s reply.0
  ended :
      {s' : RuntimeState} (env : Env) (id : TaskId) (job : Uuid) (result : Result Text Text)
      → PlanSteps s s'
      → PlanSteps s (finish_task_plan env id job result s')

-- From a state whose tasks stand under their identities and of which four plans at most run, every
-- sequence of planning requests, whatever they are answered, and of ends of plans leads to a state
-- of which four plans at most run.
pub task_planning_request-IsBounded :
    (s s' : RuntimeState) → IsBounded s → PlanSteps s s' → IsBounded s'
unfolding task_planning_request
task_planning_request-IsBounded s s' inv started = inv
task_planning_request-IsBounded s s' inv (asked env request reply before answer) =
    plan_request_at-IsBounded env request _ _ reply answer
      (task_planning_request-IsBounded s _ inv before)
task_planning_request-IsBounded s s' inv (ended env id job result before) =
    finish_task_plan-IsBounded env id job result _ (task_planning_request-IsBounded s _ inv before)
