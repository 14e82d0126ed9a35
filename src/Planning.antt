-- ===== src/Planning.antt =====
-- The planning of tasks (crates/ditchd/src/task_planning_runtime.rs): `task_planning_request`,
-- `prepare_task_plan`, `prepare_automatic_task_plan` and `finish_task_plan`. The process that writes a
-- plan is outside; it starts with a launch and ends with a result.
pub mod Finished
pub mod Count
pub mod Room
pub mod Four
use ditch.Prelude.{
  ℕ, suc, ◌==◌, ltb, leb, Bool, true, false, not, ◌&&◌, ◌||◌, Option, none, some, is_some,
  is_some_and, List, [], ◌∷◌, find, keep, length, lookup, insert, opt_eq, Text, text, text_eq,
  byte_len, is_blank, Result, ok, err, ◌>>=◌, ◌>>◌, reject_if, if◌then◌else◌,
}
use ditch.Core.{
  Uuid, Time, Project, Task, TaskActor, TaskAudit, TaskColumn, TaskError, TaskErrorCode, TaskId,
  TaskIssueKind, TaskOperation, TaskPlanJob, TaskPlanning, TaskRequest, TaskResponse,
  GitHubTaskSource, is_remote,
}
use ditch.Task.Basics.{check_revision, column, column_eq, touch, audit, task_error}
use ditch.Store.{Store, receipt_of, save_task_changes, task_replay}
use ditch.Runtime.State.{
  RuntimeState, Env, ServerEvent, archived, publish_tasks, send, task_live, tasks_of,
}
use ditch.Queue.Requests.{of_project}

-- What the planner gets; `context` is the kind and the source of the task.
pub record TaskPlanLaunch : Type 0 where
  pub context : TaskIssueKind × Option GitHubTaskSource
  pub binary : Text
  pub home : Option Text
  pub model : Option Text
  pub root : Text
  pub job : TaskPlanJob

abbrev pub is_running : TaskPlanJob → Bool
is_running j = text_eq j.status (text "running")

abbrev pub plan_running : Task → Bool
plan_running t = is_some_and t.planning.job is_running

unfoldable pub new_task_plan_job : Env → Task → Uuid → TaskPlanJob
new_task_plan_job env t id = record {
  id = id;
  status = text "running";
  title = t.title;
  description = t.description;
  previous_plan = t.planning.text;
  started_at = env.now;
  finished_at = none;
  result = none;
  error = none;
}

-- The count of plans that are being generated.
unfoldable pub running_plans : List Task → ℕ
running_plans [] = 0
running_plans (t ∷ ts) = let rest = running_plans ts in if plan_running t then suc rest else rest

abbrev pub found_binary : Option Text → Result TaskError Text
found_binary none =
    err (task_error TaskErrorCode.invalid_input (text "Set up Codex before generating a plan."))
found_binary (some binary) = ok binary

abbrev pub launch_of :
    Env → RuntimeState → Project → Task → Uuid → Option Text → Text → TaskPlanLaunch
launch_of env s p t id model binary = record {
  context = (t.issue_kind, t.github_source);
  binary = binary;
  home = s.codex_home;
  model = model;
  root = p.root;
  job = new_task_plan_job env t id;
}

-- `prepare_task_plan`.
unfoldable pub prepare_task_plan :
    Env → RuntimeState → Project → Task → Uuid → Option Text → Result TaskError TaskPlanLaunch
prepare_task_plan env s p t id model = do
  reject_if (plan_running t)
      (task_error TaskErrorCode.agent_busy (text "A plan is already being generated."))
  reject_if (leb 4 (running_plans (tasks_of s))) (
      task_error TaskErrorCode.agent_busy
        (text "Four plans are already running. Try again when one finishes."))
  reject_if (is_remote p) (
      task_error TaskErrorCode.unsupported
        (text "Connect to this project's runtime to generate a plan."))
  binary ← found_binary s.codex_binary
  reject_if (is_some_and model (λ m. ltb 200 (byte_len m)))
      (task_error TaskErrorCode.invalid_input (text "Invalid model"))
  ok (launch_of env s p t id model binary)

abbrev pub with_job : Option TaskPlanJob → Task → Task
with_job job t = record t { planning = record t.planning { job = job } }

-- A plan that was kept: it runs, or has a result that is not blank.
abbrev pub holds_plan : TaskPlanJob → Bool
holds_plan j = is_running j || is_some_and j.result (λ r. not (is_blank r))

abbrev pub Planned : Type 0
Planned = Task × Option TaskPlanLaunch

unfoldable pub failed_job : Env → Text → TaskPlanJob → TaskPlanJob
failed_job env message j = record j {
  status = text "failed";
  finished_at = some env.now;
  error = some message;
}

unfoldable pub automatic_plan : Env → Task → Uuid → Result TaskError TaskPlanLaunch → Planned
automatic_plan env t id (ok launch) = (with_job (some launch.job) t, some launch)
automatic_plan env t id (err e) =
    (with_job (some (failed_job env e.message (new_task_plan_job env t id))) t, none)

-- `prepare_automatic_task_plan`; `id` is a fresh identity.
unfoldable pub prepare_automatic_task_plan : Env → RuntimeState → Project → Uuid → Task → Planned
prepare_automatic_task_plan env s p id t =
    if not (is_blank t.planning.text) || is_some_and t.planning.job holds_plan
    then (t, none)
    else automatic_plan env t id (prepare_task_plan env s p t id none)

-- An edit of the task, with the action of its audit entry.
pub record PlanEdit : Type 0 where
  pub task : Task
  pub action : Text
  pub launch : Option TaskPlanLaunch

unfoldable pub update_description : Text → Text → Text → Text → Task → Result TaskError PlanEdit
update_description expected_description expected_plan description plan t = do
  reject_if (ltb 65536 (byte_len description) || ltb 65536 (byte_len plan)) (
      task_error TaskErrorCode.invalid_input
        (text "Description and plan must each be at most 64 KiB."))
  reject_if
      (not (text_eq t.description expected_description)
        || not (text_eq t.planning.text expected_plan))
      (task_error TaskErrorCode.revision_conflict (
        text
          "Description changed elsewhere. Reopen the task to review the latest version; your draft is still here."))
  ok (record {
    task = record t { description = description; planning = record t.planning { text = plan } };
    action = text "description_updated";
    launch = none;
  })

unfoldable pub generate_plan :
    Env → TaskRequest → ℕ → Option Text → Project → Task → RuntimeState → Result TaskError PlanEdit
generate_plan env request revision model p t s = do
  check_revision t revision
  launch ← prepare_task_plan env s p t request.request_id model
  ok (record {
    task = with_job (some launch.job) t;
    action = text "plan_started";
    launch = some launch;
  })

unfoldable pub canceled : Env → TaskPlanJob → TaskPlanJob
canceled env j =
    if is_running j then record j { status = text "canceled"; finished_at = some env.now } else j

unfoldable pub cancel_job : Env → Uuid → Task → Option TaskPlanJob → Result TaskError PlanEdit
cancel_job env id t none =
    err (task_error TaskErrorCode.not_found (text "Planning job no longer exists"))
cancel_job env id t (some j) =
    if j.id == id
    then ok (record {
      task = with_job (some (canceled env j)) t;
      action = text "plan_canceled";
      launch = none;
    })
    else err (task_error TaskErrorCode.not_found (text "Planning job no longer exists"))

-- The `match` on the operation; its last arm is `unreachable!()`.
unfoldable pub plan_edit :
    Env → TaskRequest → TaskOperation → Project → Task → RuntimeState → Result TaskError PlanEdit
plan_edit env request
      (TaskOperation.update_description id expected_description expected_plan description plan) p t
      s =
    update_description expected_description expected_plan description plan t
plan_edit env request (TaskOperation.generate_plan id revision model) p t s =
    generate_plan env request revision model p t s
plan_edit env request (TaskOperation.cancel_plan id job_id) p t s =
    cancel_job env job_id t t.planning.job
plan_edit env request _ p t s = err (task_error TaskErrorCode.unsupported (text "unreachable"))

abbrev pub is_cancel : TaskOperation → Bool
is_cancel (TaskOperation.cancel_plan id job_id) = true
is_cancel _ = false

-- A task that is past editing, or live.
unfoldable pub is_closed : RuntimeState → Task → Bool
is_closed s t =
    t.archived
    || (column_eq (column t) TaskColumn.done || column_eq (column t) TaskColumn.in_review)
    || task_live s t

abbrev pub open_project : Task → Project → Bool
open_project t p = p.id == t.project_id && not (archived p.archived_at)

abbrev pub found_project : Option Project → Result TaskError Project
found_project none = err (task_error TaskErrorCode.not_found (text "Project unavailable"))
found_project (some p) = ok p

unfoldable pub checked_plan : Env → TaskRequest → TaskId → RuntimeState → Result TaskError PlanEdit
checked_plan env request id s = do
  t ← of_project request.project_id (lookup id s.tasks)
  p ← found_project (find (open_project t) s.projects)
  reject_if (not (is_cancel request.operation) && is_closed s t) (
      task_error TaskErrorCode.illegal_transition
        (text "Stop or reopen this task before changing its description or plan."))
  plan_edit env request request.operation p t s

-- A reply, with the launch that follows it.
abbrev pub PlanReply : Type 0
PlanReply = RuntimeState × TaskResponse × Option TaskPlanLaunch

unfoldable pub committed_plan :
    Task → TaskAudit → Option TaskPlanLaunch → RuntimeState → Result Text Store → PlanReply
committed_plan t entry launch s (err e) = (
  record s { drawn = suc s.drawn },
  TaskResponse.error (task_error TaskErrorCode.storage e),
  none,
)
committed_plan t entry launch s (ok store) = (
  publish_tasks ((t, entry) ∷ []) (record s { drawn = suc s.drawn; store = store }),
  TaskResponse.changed t,
  launch,
)

unfoldable pub save_plan : Env → TaskRequest → RuntimeState → Result TaskError PlanEdit → PlanReply
save_plan env request s (err e) = (s, TaskResponse.error e, none)
save_plan env request s (ok e) =
    let next = touch env.now e.task in
    let entry = audit env.now (env.uuid s.drawn) next TaskActor.user e.action none none in
    committed_plan next entry e.launch s (
      save_task_changes env.disk ((next, entry) ∷ [])
        (some (receipt_of env.to_json request (TaskResponse.changed next))) none s.store)

unfoldable pub replay_plan :
    Env → TaskRequest → TaskId → RuntimeState → Result Text (Option TaskResponse) → PlanReply
replay_plan env request id s (err e) =
    (s, TaskResponse.error (task_error TaskErrorCode.storage e), none)
replay_plan env request id s (ok (some replay)) = (s, replay, none)
replay_plan env request id s (ok none) = save_plan env request s (checked_plan env request id s)

abbrev pub plan_target : TaskOperation → Option TaskId
plan_target (TaskOperation.generate_plan id revision model) = some id
plan_target (TaskOperation.cancel_plan id job_id) = some id
plan_target (TaskOperation.update_description id a b c d) = some id
plan_target _ = none

unfoldable pub plan_request_at : Env → TaskRequest → RuntimeState → Option TaskId → Option PlanReply
plan_request_at env request s none = none
plan_request_at env request s (some id) =
    some (replay_plan env request id s (task_replay env.to_json env.disk request s.store))

-- `task_planning_request`.
unfoldable pub task_planning_request : Env → TaskRequest → RuntimeState → Option PlanReply
task_planning_request env request s = plan_request_at env request s (plan_target request.operation)

-- `finish_task_plan`: the job and the task with the planner's result; `editable` is asked before.
abbrev pub not_generated : Text
not_generated = text "Could not generate a plan. Check your Codex sign-in and model, then retry."

unfoldable pub finished_planning :
    Env → Bool → TaskPlanning → TaskPlanJob → Result Text Text → TaskPlanning
finished_planning env editable p j (ok plan) = record {
  text = if editable && text_eq p.text j.previous_plan then plan else p.text;
  job =
      some (record j { finished_at = some env.now; status = text "completed"; result = some plan });
}
finished_planning env editable p j (err e) = record p {
  job =
      some (record j {
        finished_at = some env.now;
        status = text "failed";
        error = some not_generated;
      });
}

-- What remains where the result cannot be saved: the job failed, and its result can be shown.
abbrev pub unsaved_error : Option Text → Text
unsaved_error (some r) =
    text "Could not save the plan. Your result is available below; use it and save again."
unsaved_error none = text "Could not save planning status. Please try again."

abbrev pub unsaved_job : Option TaskPlanJob → Option TaskPlanJob
unsaved_job none = none
unsaved_job (some j) =
    some (record j { status = text "failed"; error = some (unsaved_error j.result) })

unfoldable pub unsaved : Text → Task → Task
unsaved old_text t = record t {
  planning = record { text = old_text; job = unsaved_job t.planning.job };
}

unfoldable pub keep_result :
    Text → Task → TaskAudit → RuntimeState → Result Text Store → RuntimeState
keep_result old_text t entry s (err e) =
    let kept = unsaved old_text t in
    send (ServerEvent.task_changed kept)
      (record s { tasks = insert t.id kept s.tasks; drawn = suc s.drawn })
keep_result old_text t entry s (ok store) =
    publish_tasks ((t, entry) ∷ []) (record s { store = store; drawn = suc s.drawn })

unfoldable pub finish_job :
    Env → Task → TaskPlanJob → Result Text Text → RuntimeState → RuntimeState
finish_job env t j result s =
    let next =
      touch env.now
        (record t { planning = finished_planning env (not (is_closed s t)) t.planning j result }) in
    let entry =
      audit env.now (env.uuid s.drawn) next TaskActor.daemon (text "plan_finished") none none in
    keep_result t.planning.text next entry s
      (save_task_changes env.disk ((next, entry) ∷ []) none none s.store)

unfoldable pub finish_on :
    Env → Uuid → Result Text Text → Task → RuntimeState → Option TaskPlanJob → RuntimeState
finish_on env id result t s none = s
finish_on env id result t s (some j) =
    let finished = finish_job env t j result s in if j.id == id && is_running j then finished else s

unfoldable pub finish_found :
    Env → Uuid → Result Text Text → RuntimeState → Option Task → RuntimeState
finish_found env id result s none = s
finish_found env id result s (some t) = finish_on env id result t s t.planning.job

-- `finish_task_plan`.
unfoldable pub finish_task_plan :
    Env → TaskId → Uuid → Result Text Text → RuntimeState → RuntimeState
finish_task_plan env id job_id result s = finish_found env job_id result s (lookup id s.tasks)
