-- ===== src/Runtime/Sync.antt =====
-- The projection of an agent's state on its task: `sync_agent_task` and `task_attention`
-- (crates/ditchd/src/task_runtime.rs).
use ditch.Prelude.{
  ℕ, suc, ◌==◌, Bool, true, false, not, ◌&&◌, ◌||◌, Option, none, some, is_none, unwrap_or, List,
  [], ◌∷◌, ◌++◌, any, find, take, lookup, has_key, member, Text, text, text_eq, is_blank, opt_eq,
  or_else, Result, ok, err, if◌then◌else◌,
}
use ditch.Core.{
  AgentId, AgentState, Project, Task, TaskAudit, TaskActor, TaskColumn, TaskCondition, TaskAction,
  RuntimeAttention, AttentionKind, is_remote,
}
use ditch.Task.Basics.{column, column_eq, condition_eq, condition_live, touch, audit}
use ditch.Task.Workflow.{transition}
use ditch.Store.{save_task_changes, upsert_attention}
use ditch.Runtime.State.{
  RuntimeState, Env, AgentRecord, AgentChatMessage, AgentChatRole, ServerEvent, send, publish_tasks,
}

-- `split(':').next().unwrap_or("")`.
unfoldable pub before_colon : Text → Text
before_colon [] = []
before_colon (c ∷ cs) = let rest = before_colon cs in if c == b':' then [] else c ∷ rest

unfoldable pub blocked_title : Text → Text
blocked_title code =
    if text_eq code (text "budget_exhausted")
    then text "Attempt budget exhausted"
    else if text_eq code (text "workspace_changed")
    then text "Workspace changed externally"
    else if text_eq code (text "validator_infrastructure")
    then text "Validator infrastructure error"
    else if text_eq code (text "cancelled")
    then text "Task loop cancelled"
    else text "Task loop blocked"

abbrev pub in_review : Task → Bool
in_review t = column_eq (column t) TaskColumn.in_review

unfoldable pub attention_title : Task → Text
attention_title t =
    if in_review t
    then text "Task ready for review"
    else blocked_title (before_colon (unwrap_or t.last_reason []))

unfoldable pub attention_body : Task → Text
attention_body t =
    t.title
    ++ (text ": "
        ++ unwrap_or t.last_reason (text "Inspect the summary, then Accept or Request Changes."))

unfoldable pub same_notice : Task → RuntimeAttention → Bool
same_notice t a =
    opt_eq a.agent_id t.assigned_agent_id
    && opt_eq a.project_id (some t.project_id)
    && text_eq a.title (attention_title t)
    && text_eq a.body (attention_body t)

abbrev project_name : Option Project → Option Text
project_name none = none
project_name (some p) = some p.name

unfoldable pub notice : Env → RuntimeState → Task → RuntimeAttention
notice env s t = record {
  id = env.uuid s.drawn;
  kind = if in_review t then AttentionKind.completed else AttentionKind.blocked;
  agent_id = t.assigned_agent_id;
  project_id = some t.project_id;
  project_name = project_name (find (λ (p : Project). p.id == t.project_id) s.projects);
  agent_name = none;
  title = attention_title t;
  body = attention_body t;
  created_at = env.now;
  read_at = none;
}

-- `task_attention`. A notice that the store refuses is not shown.
unfoldable pub task_attention : Env → Task → RuntimeState → RuntimeState
task_attention env t s =
    if any (same_notice t) s.attention
    then s
    else (let a = notice env s t in
        elim (upsert_attention env.disk a s.store) [
          | err e ↦ record s { drawn = suc s.drawn }
          | ok store ↦
              send (ServerEvent.attention_raised a)
                (record s { drawn = suc s.drawn; store = store; attention = s.attention ++ a ∷ [] })
        ])

abbrev pub is_completed : AgentState → Bool
is_completed AgentState.completed = true
is_completed _ = false

-- The `match record.run.state`.
abbrev pub condition_of : AgentState → Bool → TaskCondition
condition_of AgentState.awaiting_approval live = TaskCondition.awaiting_approval
condition_of AgentState.blocked live = TaskCondition.blocked
condition_of AgentState.failed live = if live then TaskCondition.running else TaskCondition.failed
condition_of AgentState.interrupted live =
    if live then TaskCondition.running else TaskCondition.failed
condition_of AgentState.stale live = if live then TaskCondition.running else TaskCondition.failed
condition_of _ live = if live then TaskCondition.running else TaskCondition.idle

abbrev pub role_user : AgentChatRole → Bool
role_user AgentChatRole.user = true
role_user _ = false

abbrev pub role_assistant : AgentChatRole → Bool
role_assistant AgentChatRole.assistant = true
role_assistant _ = false

-- The last assistant message behind the last user message, in a list that runs from the end.
unfoldable pub latest_summary : List AgentChatMessage → Option Text
latest_summary [] = none
latest_summary (m ∷ older) =
    let rest = latest_summary older in
    if role_user m.role then none else if role_assistant m.role then some m.text else rest

unfoldable pub newest_first : List AgentChatMessage → List AgentChatMessage → List AgentChatMessage
newest_first [] done = done
newest_first (m ∷ ms) done = newest_first ms (m ∷ done)

unfoldable pub final_summary : AgentRecord → Option Text
final_summary a = latest_summary (newest_first a.messages [])

abbrev pub has_summary : Option Text → Bool
has_summary none = false
has_summary (some s) = not (is_blank s)

abbrev pub no_final_summary : Text
no_final_summary =
    text "The agent exited without a final summary. Review its chat and submit a summary manually."

abbrev pub stopped_badly : TaskCondition → Bool
stopped_badly TaskCondition.failed = true
stopped_badly TaskCondition.blocked = true
stopped_badly _ = false

-- `next` of the branch that changes the condition alone.
unfoldable pub with_condition : Env → Task → AgentRecord → TaskCondition → Bool → Task
with_condition env t a condition completed = touch env.now (record t {
  condition = if completed then TaskCondition.blocked else condition;
  last_reason =
      if completed
      then some no_final_summary
      else if stopped_badly condition
      then or_else a.terminal_failure a.run.last_visible_action
      else t.last_reason;
})

abbrev pub ok_change : {E A : Type 0} → Result E A → Option A
ok_change (ok a) = some a
ok_change (err e) = none

-- `change`.
unfoldable pub agent_change :
    Env → RuntimeState → Task → AgentRecord → Bool → Option (Task × TaskAudit)
agent_change env s t a live =
    let completed = not live && is_completed a.run.state in
    let condition = condition_of a.run.state live in
    let next = with_condition env t a condition completed in
    if completed && has_summary (final_summary a)
    then ok_change (
        transition env.now (env.uuid s.drawn) t
          (TaskAction.submit (take 16000 (unwrap_or (final_summary a) []))) TaskActor.agent
          t.revision false)
    else if not (condition_eq condition t.condition) || (completed && is_none t.last_reason)
    then some (
      next,
      audit env.now (env.uuid s.drawn) next TaskActor.daemon (text "agent_condition")
          (some (column t)) next.last_reason,
    )
    else none

-- The end of `sync_agent_task`: save, publish, and raise a notice where a human is wanted.
unfoldable pub apply_change : Env → Option (Task × TaskAudit) → RuntimeState → RuntimeState
apply_change env none s = s
apply_change env (some (next, entry)) s =
    let changes = (next, entry) ∷ [] in
    elim (save_task_changes env.disk changes none none s.store) [
      | err e ↦ record s { drawn = suc s.drawn }
      | ok store ↦
          (let saved = publish_tasks changes (record s { drawn = suc s.drawn; store = store }) in
            if in_review next || stopped_badly next.condition
            then task_attention env next saved
            else saved)
    ]

abbrev pub is_live_agent : RuntimeState → AgentId → AgentRecord → Bool
is_live_agent s id a = member id s.children || a.run.can_stop || has_key id s.orphan_writer_groups

-- The tests on the task; the last one leaves a finished agent's idle task alone.
unfoldable pub sync_linked : Env → AgentId → AgentRecord → Option Task → RuntimeState → RuntimeState
sync_linked env id a none s = s
sync_linked env id a (some t) s =
    let live = is_live_agent s id a in
    if any (λ (p : Project). p.id == t.project_id && is_remote p) s.projects
      || not (opt_eq t.assigned_agent_id (some id))
      || t.archived
      || not (column_eq (column t) TaskColumn.in_progress)
      || (not live && is_completed a.run.state && not (condition_live t.condition))
    then s
    else apply_change env (agent_change env s t a live) s

abbrev pub task_of : RuntimeState → Option ℕ → Option Task
task_of s none = none
task_of s (some id) = lookup id s.tasks

unfoldable pub sync_agent : Env → AgentId → Option AgentRecord → RuntimeState → RuntimeState
sync_agent env id none s = s
sync_agent env id (some a) s = sync_linked env id a (task_of s a.run.task_id) s

-- `sync_agent_task`.
unfoldable pub sync_agent_task : Env → AgentId → RuntimeState → RuntimeState
sync_agent_task env id s =
    if member id s.acceptance_owners then s else sync_agent env id (lookup id s.agents) s
