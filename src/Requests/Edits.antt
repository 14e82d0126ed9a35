-- ===== src/Requests/Edits.antt =====
-- The other operations on one card in `prepare_task_request`, and `continuation_thread`
-- (crates/ditchd/src/task_runtime.rs): a new draft, a workflow action, a start and a link.
use ditch.Prelude.{
  ℕ, suc, ◌+◌, ◌==◌, Bool, false, not, ◌&&◌, ◌||◌, Option, none, some, is_none, is_some, unwrap_or,
  [], any, lookup, has_key, member, opt_eq, Text, text, text_eq, opt_text_eq, trim, Result, ok, err,
  ◌>>=◌, ◌>>◌, reject_if,
}
use ditch.Core.{
  AgentApprovalPreset, AgentExecutionProfile, AgentId, AgentRun, Project, SkillBinding, Task,
  TaskAction, TaskActor, TaskAudit, TaskColumn, TaskCondition, TaskDraft, TaskError, TaskErrorCode,
  is_remote, state_busy,
}
use ditch.Task.Basics.{audit, column, column_eq, condition_live, task_error, touch}
use ditch.Task.Draft.{validate}
use ditch.Task.Workflow.{transition}
use ditch.Runtime.State.{RuntimeState, Env, AgentRecord, tasks_of}
use ditch.Requests.Create.{with_user_skills, list_eq}
use ditch.Requests.Place.{Change, illegal}

abbrev pub plain_change : Task → TaskAudit → ℕ → Change
plain_change next entry drawn = record {
  next = next;
  entry = entry;
  changes = [];
  linked = none;
  start = none;
  drawn = drawn;
}

-- The arm `Update`.
unfoldable pub redrafted : Env → TaskDraft → Task → Task
redrafted env draft t = touch env.now (record (with_user_skills env draft.skills t) {
  title = trim draft.title;
  description = draft.description;
  issue_kind = draft.issue_kind;
  acceptance_criteria = draft.acceptance_criteria;
  priority = draft.priority;
})

unfoldable pub update_task : Env → TaskDraft → Task → RuntimeState → Result TaskError Change
update_task env draft t s = do
  validate draft
  reject_if (t.archived || column_eq (column t) TaskColumn.done)
      (illegal (text "Reopen the task before editing it."))
  reject_if (column_eq (column t) TaskColumn.in_review)
      (illegal (text "Request Changes before editing a review submission."))
  let next = redrafted env draft t
  ok (
      plain_change next
        (audit env.now (env.uuid s.drawn) next TaskActor.user (text "update") (some (column t))
          none)
        (suc s.drawn))

-- The arm `Transition`.
unfoldable pub transition_task : Env → TaskAction → Task → RuntimeState → Result TaskError Change
transition_task env action t s = do
  moved ← transition env.now (env.uuid s.drawn) t action TaskActor.user t.revision false
  ok (plain_change moved.0 moved.1 (suc s.drawn))

-- `continuation_thread`: the thread of the conversation that the task goes on with.
abbrev pub preset_index : AgentApprovalPreset → ℕ
preset_index AgentApprovalPreset.ask = 0
preset_index AgentApprovalPreset.approve_for_me = 1
preset_index AgentApprovalPreset.full_access = 2

abbrev pub same_skill : SkillBinding → SkillBinding → Bool
same_skill a b =
    text_eq a.identity b.identity
    && text_eq a.path b.path
    && text_eq a.content_hash b.content_hash
    && opt_text_eq a.revision b.revision

unfoldable pub same_settings : AgentExecutionProfile → AgentExecutionProfile → Bool
same_settings a b =
    opt_text_eq a.model b.model
    && opt_text_eq a.reasoning_effort b.reasoning_effort
    && preset_index a.approval == preset_index b.approval
    && list_eq same_skill a.skills b.skills

-- Another task whose agent is at work.
abbrev pub other_active : Task → AgentId → Task → Bool
other_active t id u =
    not (u.id == t.id) && opt_eq u.assigned_agent_id (some id) && condition_live u.condition

unfoldable pub conversation_active : RuntimeState → Task → AgentRun → AgentId → Bool
conversation_active s t run id =
    run.can_stop
    || member id s.children
    || has_key id s.writer_leases
    || any (other_active t id) (tasks_of s)

abbrev pub thread_of : Option Text → Result Text (Option Text)
thread_of none = err (text "The selected conversation has no resumable thread; choose a new agent")
thread_of (some thread) = ok (some thread)

unfoldable pub run_continuation :
    AgentExecutionProfile → RuntimeState → Task → AgentId → AgentRun → Result Text (Option Text)
run_continuation profile s t id run = do
  reject_if
      (is_none t.coordinator_group
        || not (opt_eq run.coordinator_group t.coordinator_group)
        || not (run.project_id == t.project_id))
      (text "Continue requires a Ditchmaster agent from the same group and project")
  reject_if (conversation_active s t run id) (text "The selected conversation is still active")
  reject_if (not (same_settings run.execution_profile profile) || is_some run.resume_block_reason) (
      text
        "The selected conversation cannot resume with these execution settings; choose a new agent")
  reject_if
      (not (any (λ (p : Project). p.id == t.project_id && is_remote p) s.projects)
        && not (opt_text_eq run.origin_codex_home s.codex_home))
      (text "The selected conversation belongs to a different Codex account; choose a new agent")
  thread_of run.native_session_id

unfoldable pub record_continuation :
    AgentExecutionProfile
    → RuntimeState
    → Task
    → AgentId
    → Option AgentRecord
    → Result Text (Option Text)
record_continuation profile s t id none =
    err (text "The selected conversation no longer exists; choose a new agent")
record_continuation profile s t id (some a) = run_continuation profile s t id a.run

unfoldable pub continuation_of :
    AgentExecutionProfile → RuntimeState → Task → Option AgentId → Result Text (Option Text)
continuation_of profile s t none = ok none
continuation_of profile s t (some id) = record_continuation profile s t id (lookup id s.agents)

unfoldable pub continuation_thread :
    AgentExecutionProfile → RuntimeState → Task → Result Text (Option Text)
continuation_thread profile s t = continuation_of profile s t t.continue_agent_id

abbrev pub invalid_thread : Result Text (Option Text) → Result TaskError (Option Text)
invalid_thread (err e) = err (task_error TaskErrorCode.invalid_input e)
invalid_thread (ok thread) = ok thread

-- The arm `Start`: the conversation's agent, or a fresh one, gets the queued task.
unfoldable pub started_change :
    Env → AgentExecutionProfile → Project → Task → Task × TaskAudit → ℕ → Change
started_change env profile p t moved drawn =
    let agent = some (unwrap_or t.continue_agent_id (env.uuid (suc drawn))) in
    let next = record moved.0 { assigned_agent_id = agent; condition = TaskCondition.queued } in
    record {
      next = next;
      entry = record moved.1 { agent_id = agent };
      changes = [];
      linked = none;
      start = some (next, p, profile);
      drawn = 2 + drawn;
    }

unfoldable pub start_task :
    Env → AgentExecutionProfile → Project → Task → RuntimeState → Result TaskError Change
start_task env profile p t s = do
  moved ← transition env.now (env.uuid s.drawn) t TaskAction.start TaskActor.user t.revision false
  thread ← invalid_thread (continuation_thread profile s t)
  ok (started_change env profile p t moved s.drawn)

-- The arm `Link`: an idle agent of the project that no task has.
abbrev pub found_agent : Option AgentRecord → Result TaskError AgentRun
found_agent none = err (task_error TaskErrorCode.not_found (text "Agent not found."))
found_agent (some a) = ok a.run

unfoldable pub is_taken : RuntimeState → Task → AgentId → AgentRun → Bool
is_taken s t id run =
    not (run.project_id == t.project_id)
    || is_some run.task_id
    || run.can_stop
    || state_busy run.state
    || member id s.children
    || has_key id s.writer_leases

unfoldable pub linked_change : Env → AgentId → AgentRun → Task → Task × TaskAudit → ℕ → Change
linked_change env id run t moved drawn =
    let next = record moved.0 { assigned_agent_id = some id } in
    record {
      next = next;
      entry =
          audit env.now (env.uuid (suc drawn)) next TaskActor.user (text "link") (some (column t))
            none;
      changes = [];
      linked = some (record run { task_id = some t.id });
      start = none;
      drawn = 2 + drawn;
    }

unfoldable pub link_task : Env → AgentId → Task → RuntimeState → Result TaskError Change
link_task env id t s = do
  run ← found_agent (lookup id s.agents)
  reject_if (is_taken s t id run)
      (task_error TaskErrorCode.agent_busy (text "Choose an unlinked idle agent in this project."))
  moved ← transition env.now (env.uuid s.drawn) t TaskAction.start TaskActor.user t.revision false
  reject_if (not (opt_eq t.coordinator_group run.coordinator_group))
      (task_error TaskErrorCode.invalid_input (text "Task and agent ownership must match"))
  ok (linked_change env id run t moved s.drawn)
