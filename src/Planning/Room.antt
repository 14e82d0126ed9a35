-- ===== src/Planning/Room.antt =====
-- An edit of a task's plan starts a plan only where there is room for it.
use ditch.Prelude.{
  ℕ, ◌==◌, ◌≡◌, refl, subst, Bool, true, false, not, ◌&&◌, ◌||◌, none, some, find, lookup, ok, err,
  Text, text, text_eq, arith, byte_len, ltb, reject_if, >>=-eq-ok, if◌then◌else◌, leb,
}
use ditch.Core.{
  TaskErrorCode, Task, TaskId, TaskOperation, TaskPlanJob, TaskRequest, Project, Uuid, TaskError,
}
use ditch.Task.Basics.{task_error, check_revision}
use ditch.Runtime.State.{RuntimeState, Env, tasks_of}
use ditch.Queue.Requests.{of_project}
use ditch.Queue.Requests.Accepted.{found_ok}
use ditch.Planning.{
  with_job, PlanEdit, TaskPlanLaunch, plan_running, running_plans, is_running, update_description,
  generate_plan, prepare_task_plan, cancel_job, canceled, plan_edit, checked_plan, found_project,
  is_closed, is_cancel, open_project,
}
use ditch.Planning.Count.{MayRun}

-- What an edit promises: the task's identity, and room for the plan it starts.
pub record IsRoomy (s : RuntimeState) (t : Task) (e : PlanEdit) : Type 0 where
  pub own : e.task.id ≡ t.id
  pub room : MayRun s t e.task

abbrev update_of : Text → Text → Task → PlanEdit
update_of description plan t = record {
  task = record t { description = description; planning = record t.planning { text = plan } };
  action = text "description_updated";
  launch = none;
}

abbrev started_of : TaskPlanLaunch → Task → PlanEdit
started_of launch t = record {
  task = with_job (some launch.job) t;
  action = text "plan_started";
  launch = some launch;
}

update_description-IsRoomy :
    (a b c d : _) (s : RuntimeState) (t : Task) (e : PlanEdit)
    → update_description a b c d t ≡ ok e
    → IsRoomy s t e
unfolding update_description
update_description-IsRoomy a b c d s t e h =
    let (u1, short, h1) =
      >>=-eq-ok (reject_if (ltb 65536 (byte_len c) || ltb 65536 (byte_len d)) _) _ h in
    let (u2, known, h2) =
      >>=-eq-ok (reject_if (not (text_eq t.description a) || not (text_eq t.planning.text b)) _) _
        h1 in
    let made : update_of c d t ≡ e = cc in
    subst (IsRoomy s t) made (record { own = refl; room = λ after before. ground arith })

generate_plan-IsRoomy :
    (env : Env) (request : TaskRequest) (revision : ℕ) (model : _) (p : Project) (s : RuntimeState)
    (t : Task) (e : PlanEdit)
    → generate_plan env request revision model p t s ≡ ok e
    → IsRoomy s t e
unfolding generate_plan prepare_task_plan
generate_plan-IsRoomy env request revision model p s t e h =
    let (u1, current, h1) = >>=-eq-ok (check_revision t revision) _ h in
    let (launch, prepared, h2) =
      >>=-eq-ok (prepare_task_plan env s p t request.request_id model) _ h1 in
    let (u2, busy, h3) = >>=-eq-ok (reject_if (plan_running t) _) _ prepared in
    let (u3, few, h4) = >>=-eq-ok (reject_if (leb 4 (running_plans (tasks_of s))) _) _ h3 in
    let made : started_of launch t ≡ e = cc in
    subst (IsRoomy s t) made (record { own = refl; room = λ after before. ground arith })

abbrev missing : TaskError
missing = task_error TaskErrorCode.not_found (text "Planning job no longer exists")

canceled_stops : (env : Env) (j : TaskPlanJob) → is_running (canceled env j) ≡ true → ⊥
unfolding canceled text text_eq
canceled_stops env j h = ground arith

cancel_job-IsRoomy :
    (env : Env) (id : Uuid) (s : RuntimeState) (t : Task) (job : _) (e : PlanEdit)
    → t.planning.job ≡ job
    → cancel_job env id t job ≡ ok e
    → IsRoomy s t e
unfolding cancel_job canceled
cancel_job-IsRoomy env id s t none e same h = cc
cancel_job-IsRoomy env id s t (some j) e same h = by_test (j.id == id) refl h
  where
    made : PlanEdit
    made = record {
      task = with_job (some (canceled env j)) t;
      action = text "plan_canceled";
      launch = none;
    }

    by_test :
        (b : Bool) → (j.id == id) ≡ b → (if b then ok made else err missing) ≡ ok e → IsRoomy s t e
    by_test false test k = cc
    by_test true test k =
        let same_edit : made ≡ e = cc in
        subst (IsRoomy s t) same_edit
          (record { own = refl; room = λ after before. absurd (canceled_stops env j after) })

plan_edit-IsRoomy :
    (env : Env) (request : TaskRequest) (operation : TaskOperation) (p : Project) (t : Task)
    (s : RuntimeState) (e : PlanEdit)
    → plan_edit env request operation p t s ≡ ok e
    → IsRoomy s t e
unfolding plan_edit
plan_edit-IsRoomy env request (TaskOperation.update_description id a b c d) p t s e h =
    update_description-IsRoomy a b c d s t e h
plan_edit-IsRoomy env request (TaskOperation.generate_plan id revision model) p t s e h =
    generate_plan-IsRoomy env request revision model p s t e h
plan_edit-IsRoomy env request (TaskOperation.cancel_plan id job) p t s e h =
    cancel_job-IsRoomy env job s t t.planning.job e refl h
plan_edit-IsRoomy env request _ p t s e h = cc

-- An edit that passed the tests is of a stored task, and roomy.
pub checked_plan-IsRoomy :
    (env : Env) (request : TaskRequest) (id : TaskId) (s : RuntimeState) (e : PlanEdit)
    → checked_plan env request id s ≡ ok e
    → (t : Task) × (lookup id s.tasks ≡ some t) × IsRoomy s t e
unfolding checked_plan
checked_plan-IsRoomy env request id s e h =
    let (t, found, h1) = >>=-eq-ok (of_project request.project_id (lookup id s.tasks)) _ h in
    let (p, project, h2) = >>=-eq-ok (found_project (find (open_project t) s.projects)) _ h1 in
    let (u, editable, h3) =
      >>=-eq-ok (reject_if (not (is_cancel request.operation) && is_closed s t) _) _ h2 in
    (
      t,
      (found_ok request.project_id (lookup id s.tasks) t found).0,
      plan_edit-IsRoomy env request request.operation p t s e h3,
    )
