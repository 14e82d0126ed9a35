-- ===== src/Planning/Finished.antt =====
-- What the end of a plan does to its task.
use ditch.Prelude.{
  ◌≡◌, refl, ap, sym, ◌∙◌, subst, true, false, not, Option, none, some, List, [], ◌∷◌, lookup,
  insert, lookup-insert, ==-refl, Text, text, text_eq, Result, ok, err, arith,
}
use ditch.Core.{Task, TaskAudit, TaskActor, TaskId, TaskPlanJob}
use ditch.Task.Basics.{touch, audit}
use ditch.Store.{Store, save_task_changes}
use ditch.Runtime.State.{RuntimeState, Env, publish_tasks, send}
use ditch.Planning.{
  plan_running, is_running, finish_task_plan, finish_found, finish_on, finish_job,
  finished_planning, keep_result, unsaved, unsaved_job, is_closed,
}

abbrev pub result_of : Option TaskPlanJob → Option Text
result_of none = none
result_of (some j) = j.result

abbrev pub Kept : Result Text Text → Option TaskPlanJob → Type 0
Kept (ok plan) job = result_of job ≡ some plan
Kept (err e) job = Unit

-- The task behind the end of its plan.
pub record IsFinished (s : RuntimeState) (t : Task) (j : TaskPlanJob) (result : Result Text Text)
    (u : Task) : Type 0 where
  pub same : u.id ≡ t.id
  pub stopped : plan_running u ≡ false
  pub described : u.description ≡ t.description
  pub edited : text_eq t.planning.text j.previous_plan ≡ false → u.planning.text ≡ t.planning.text
  pub closed : is_closed s t ≡ true → u.planning.text ≡ t.planning.text
  pub result_kept : Kept result u.planning.job

pub planning-IsFinished :
    (env : Env) (s : RuntimeState) (t : Task) (j : TaskPlanJob) (result : Result Text Text)
    → IsFinished s t j result (
        touch env.now
          (record t { planning = finished_planning env (not (is_closed s t)) t.planning j result }))
unfolding touch finished_planning text text_eq
planning-IsFinished env s t j (ok plan) = record {
  same = refl;
  stopped = refl;
  described = refl;
  edited = λ other. ground arith;
  closed = λ past. ground arith;
  result_kept = refl;
}
planning-IsFinished env s t j (err e) = record {
  same = refl;
  stopped = refl;
  described = refl;
  edited = λ other. refl;
  closed = λ past. refl;
  result_kept = tt;
}

stored : (k : TaskId) (t : Task) (m : List (TaskId × Task)) → lookup k (insert k t m) ≡ some t
stored k t m = ground (arith, lookup-insert k k t m, ==-refl k)

pub unsaved-IsFinished :
    (s : RuntimeState) (t u : Task) (j : TaskPlanJob) (result : Result Text Text)
    → IsFinished s t j result u
    → IsFinished s t j result (unsaved t.planning.text u)
unfolding unsaved text text_eq
unsaved-IsFinished s t u j result f = by_job u.planning.job f.result_kept f.same f.described
  where
    kept_result :
        (r : Result Text Text) (k : TaskPlanJob) → Kept r (some k) → Kept r (unsaved_job (some k))
    kept_result (ok plan) k h = h
    kept_result (err e) k h = tt

    none_result : (r : Result Text Text) → Kept r none → Kept r (unsaved_job none)
    none_result (ok plan) h = h
    none_result (err e) h = tt

    by_job :
        (job : Option TaskPlanJob)
        → Kept result job
        → u.id ≡ t.id
        → u.description ≡ t.description
        → IsFinished s t j result
            (record u { planning = record { text = t.planning.text; job = unsaved_job job } })
    by_job none h own described = record {
      same = own;
      stopped = refl;
      described = described;
      edited = λ other. refl;
      closed = λ past. refl;
      result_kept = none_result result h;
    }
    by_job (some k) h own described = record {
      same = own;
      stopped = refl;
      described = described;
      edited = λ other. refl;
      closed = λ past. refl;
      result_kept = kept_result result k h;
    }

-- Either way of saving puts a finished task under its identity.
kept-IsFinished :
    (env : Env) (s : RuntimeState) (t u : Task) (j : TaskPlanJob) (result : Result Text Text)
    (entry : TaskAudit) (saved : Result Text Store)
    → IsFinished s t j result u
    → (v : Task) × (lookup t.id (keep_result t.planning.text u entry s saved).tasks ≡ some v)
      × IsFinished s t j result v
unfolding keep_result publish_tasks send
kept-IsFinished env s t u j result entry (ok store) f =
    (u, ap (λ k. lookup k (insert u.id u s.tasks)) (sym f.same) ∙ stored u.id u s.tasks, f)
kept-IsFinished env s t u j result entry (err e) f =
    let kept : Task = unsaved t.planning.text u in
    (
      kept,
      ap (λ k. lookup k (insert u.id kept s.tasks)) (sym f.same) ∙ stored u.id kept s.tasks,
      unsaved-IsFinished s t u j result f,
    )

finish_on-running :
    (env : Env) (s : RuntimeState) (t : Task) (j : TaskPlanJob) (result : Result Text Text)
    (job : Option TaskPlanJob)
    → job ≡ some j
    → is_running j ≡ true
    → finish_on env j.id result t s job ≡ finish_job env t j result s
unfolding finish_on
finish_on-running env s t j result job e running = rw (e, ==-refl j.id, running) refl

finish_job-IsFinished :
    (env : Env) (s : RuntimeState) (t : Task) (j : TaskPlanJob) (result : Result Text Text)
    → (u : Task) × (lookup t.id (finish_job env t j result s).tasks ≡ some u)
      × IsFinished s t j result u
unfolding finish_job
finish_job-IsFinished env s t j result =
    let next =
      touch env.now
        (record t { planning = finished_planning env (not (is_closed s t)) t.planning j result }) in
    let entry =
      audit env.now (env.uuid s.drawn) next TaskActor.daemon (text "plan_finished") none none in
    kept-IsFinished env s t next j result entry
      (save_task_changes env.disk ((next, entry) ∷ []) none none s.store)
      (planning-IsFinished env s t j result)

-- A plan that ends where its task still waits for it leaves the task with no running plan, the same
-- description and the result kept on the job, and its plan text changes only if the user has not
-- edited it since the job started and the task is open.
pub finish_task_plan-IsFinished :
    (env : Env) (s : RuntimeState) (id : TaskId) (t : Task) (j : TaskPlanJob)
    (result : Result Text Text)
    → lookup id s.tasks ≡ some t
    → t.id ≡ id
    → t.planning.job ≡ some j
    → is_running j ≡ true
    → (u : Task) × (lookup id (finish_task_plan env id j.id result s).tasks ≡ some u)
      × IsFinished s t j result u
unfolding finish_task_plan finish_found
finish_task_plan-IsFinished env s id t j result found own job running =
    let ended : finish_task_plan env id j.id result s ≡ finish_job env t j result s =
      ap (finish_found env j.id result s) found
      ∙ finish_on-running env s t j result t.planning.job job running in
    subst
      (λ (k : TaskId × RuntimeState).
        (u : Task) × (lookup k.0 k.1.tasks ≡ some u) × IsFinished s t j result u)
      (λ i. (own i, sym ended i)) (finish_job-IsFinished env s t j result)
