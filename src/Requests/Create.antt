-- ===== src/Requests/Create.antt =====
-- The requests that list, show and create tasks, and the board's projects: the first half of
-- `prepare_task_request` (crates/ditchd/src/task_runtime.rs).
use ditch.Prelude.{
  ℕ, suc, ◌+◌, ◌==◌, ◌^◌, ltb, leb, Bool, true, false, not, ◌&&◌, ◌||◌, Option, none, some, is_some,
  is_none, List, [], ◌∷◌, any, keep, map, length, has_key, member, is_empty, opt_eq, Text, text,
  text_eq, opt_text_eq, Result, ok, err, ◌>>=◌, ◌>>◌, reject_if, if◌then◌else◌,
}
use ditch.Core.{
  Uuid, AcceptanceCriterion, AgentId, CriterionKind, Project, ProjectId, SkillBinding, Task,
  TaskActor, TaskAudit, TaskColumn, TaskCondition, TaskDraft, TaskError, TaskErrorCode, TaskId,
  TaskPriority, TaskRequest, TaskResponse, is_remote,
}
use ditch.Acceptance.{validate_config}
use ditch.Task.Basics.{audit, column, column_eq, condition_eq, task_error}
use ditch.Task.Draft.{new_task, new_backlog_task}
use ditch.Store.{Store, Disk, commit, put_setting, receipt_of, save_task_changes, setting}
use ditch.Runtime.State.{RuntimeState, Env, archived, publish_tasks, tasks_of}

-- `saturating_add` of `i64`, for two that are not negative.
unfoldable pub saturating_add : ℕ → ℕ → ℕ
saturating_add a b = if ltb (a + b) (2 ^ 63) then a + b else 0x7fffffffffffffff

-- `sort_by_key(|t| (t.order_key, t.id.0))`.
unfoldable pub comes_first : Task → Task → Bool
comes_first t u = ltb t.order_key u.order_key || (t.order_key == u.order_key && leb t.id u.id)

unfoldable pub insert_by_key : Task → List Task → List Task
insert_by_key t [] = t ∷ []
insert_by_key t (u ∷ us) =
    let rest = insert_by_key t us in if comes_first t u then t ∷ u ∷ us else u ∷ rest

unfoldable pub sort_by_key : List Task → List Task
sort_by_key [] = []
sort_by_key (t ∷ ts) = insert_by_key t (sort_by_key ts)

-- The operation `List`.
abbrev pub in_column : Option TaskColumn → Task → Bool
in_column none t = true
in_column (some c) t = column_eq c (column t)

unfoldable pub is_listed : Option ProjectId → Option TaskColumn → Bool → Task → Bool
is_listed project c include_archived t =
    (is_none project || opt_eq project (some t.project_id))
    && in_column c t
    && (include_archived || not t.archived)

unfoldable pub list_tasks : Option ProjectId → Option TaskColumn → Bool → RuntimeState → List Task
list_tasks project c include_archived s =
    sort_by_key (keep (is_listed project c include_archived) (tasks_of s))

-- The operation `BoardProjects`.
abbrev pub is_available : RuntimeState → ProjectId → Bool
is_available s id = any (λ (p : Project). p.id == id && not (archived p.archived_at)) s.projects

-- `filter(|id| seen.insert(*id))`.
unfoldable pub distinct : List Uuid → List Uuid → List Uuid
distinct seen [] = []
distinct seen (id ∷ ids) =
    let skipped = distinct seen ids in
    let taken = distinct (id ∷ seen) ids in if member id seen then skipped else id ∷ taken

abbrev pub Answer : Type 0 → Type 0
Answer A = RuntimeState × Result TaskError A

abbrev pub storage : {A : Type 0} → Result Text A → Result TaskError A
storage (err e) = err (task_error TaskErrorCode.storage e)
storage (ok a) = ok a

-- `set_setting`.
unfoldable pub set_setting : Disk → Text → Text → Store → Result Text Store
set_setting disk key value s = do
  commit disk
  ok (record s { settings = put_setting key value s.settings })

unfoldable pub set_members : List ProjectId → RuntimeState → Result Text Store → Answer TaskResponse
set_members members s (err e) = (s, err (task_error TaskErrorCode.storage e))
set_members members s (ok store) =
    (record s { store = store }, ok (TaskResponse.board_projects members))

unfoldable pub change_members :
    Env → ProjectId → List ProjectId → RuntimeState → Answer TaskResponse
change_members env parent members s =
    if ltb 64 (length members) || any (λ id. id == parent || not (is_available s id)) members
    then (
      s,
      err (task_error TaskErrorCode.invalid_input (text "Choose up to 64 available subprojects")),
    )
    else (let kept = distinct [] members in
        set_members kept s
          (set_setting env.disk (env.members_key parent) (env.members_json kept) s.store))

unfoldable pub read_members : Env → Option Text → Result TaskError TaskResponse
read_members env none = ok (TaskResponse.board_projects [])
read_members env (some json) = elim (env.parse_members json) [
  | err e ↦ err (task_error TaskErrorCode.storage e)
  | ok members ↦ ok (TaskResponse.board_projects members)
]

unfoldable pub members_of : Env → ProjectId → RuntimeState → Result TaskError TaskResponse
members_of env parent s = do
  value ← storage (setting env.disk (env.members_key parent) s.store)
  read_members env value

unfoldable pub members_at :
    Env → ProjectId → Option (List ProjectId) → RuntimeState → Answer TaskResponse
members_at env parent none s = (s, members_of env parent s)
members_at env parent (some members) s = change_members env parent members s

unfoldable pub board_projects :
    Env → Option ProjectId → Option (List ProjectId) → RuntimeState → Answer TaskResponse
board_projects env none members s =
    (s, err (task_error TaskErrorCode.invalid_input (text "Select the parent board")))
board_projects env (some parent) members s =
    let answer = members_at env parent members s in
    if is_available s parent
    then answer
    else (s, err (task_error TaskErrorCode.not_found (text "Board project is unavailable")))

-- The next key: after all tasks of all projects.
unfoldable pub largest_key : List Task → ℕ
largest_key [] = 0
largest_key (t ∷ ts) =
    let rest = largest_key ts in if ltb rest t.order_key then t.order_key else rest

abbrev pub next_key : RuntimeState → ℕ
next_key s = saturating_add (largest_key (tasks_of s)) 1024

-- `==` on the fields that a materialized task shares with its draft.
abbrev pub priority_index : TaskPriority → ℕ
priority_index TaskPriority.low = 0
priority_index TaskPriority.normal = 1
priority_index TaskPriority.high = 2
priority_index TaskPriority.urgent = 3

abbrev pub actor_index : TaskActor → ℕ
actor_index TaskActor.user = 0
actor_index TaskActor.agent = 1
actor_index TaskActor.daemon = 2
actor_index TaskActor.ditchmaster = 3

unfoldable pub skill_eq : SkillBinding → SkillBinding → Bool
skill_eq a b =
    text_eq a.identity b.identity
    && text_eq a.name b.name
    && text_eq a.path b.path
    && text_eq a.content_hash b.content_hash
    && opt_text_eq a.revision b.revision
    && actor_index a.origin == actor_index b.origin
    && opt_text_eq a.reason b.reason
    && a.created_at == b.created_at

unfoldable pub list_eq {ℓ} : {A : Type ℓ} → (A → A → Bool) → List A → List A → Bool
list_eq eq [] [] = true
list_eq eq (a ∷ xs) (b ∷ ys) = eq a b && list_eq eq xs ys
list_eq eq _ _ = false

abbrev pub is_human : AcceptanceCriterion → Bool
is_human c = human_kind c.kind
  where
    human_kind : CriterionKind → Bool
    human_kind CriterionKind.human = true
    human_kind _ = false

-- What sets a materialized task apart from its draft, or shows that it is not fresh.
unfoldable pub differs : ProjectId → TaskDraft → Task → Task → Bool
differs project_id draft t u =
    not (u.id == t.id)
    || not (u.project_id == project_id)
    || not (text_eq u.title draft.title)
    || not (text_eq u.description draft.description)
    || not (list_eq text_eq u.acceptance_criteria draft.acceptance_criteria)
    || not (list_eq skill_eq u.skills draft.skills)
    || not (priority_index u.priority == priority_index draft.priority)
    || not (opt_eq u.coordinator_group t.coordinator_group)
    || not (opt_eq u.continue_agent_id t.continue_agent_id)

unfoldable pub is_stale : Task → Bool
is_stale u =
    not u.remote_pending
    || not (column_eq (column u) TaskColumn.todo)
    || not (condition_eq u.condition TaskCondition.idle)
    || u.archived
    || is_some u.assigned_agent_id
    || not (is_empty u.acceptance.attempts)
    || not (is_empty u.acceptance.submissions)
    || is_some u.acceptance.current_submission
    || u.revision == 0
    || any (λ c. not (is_human c)) u.acceptance.config.criteria

abbrev pub invalid_config : Result Text (Unit {0}) → Result TaskError (Unit {0})
invalid_config (err e) = err (task_error TaskErrorCode.invalid_input e)
invalid_config (ok done) = ok done

unfoldable pub materialize : ProjectId → TaskDraft → Task → Option Task → Result TaskError Task
materialize project_id draft t none = ok t
materialize project_id draft t (some u) = do
  invalid_config (validate_config u.acceptance.config)
  reject_if (differs project_id draft t u || is_stale u) (
      task_error TaskErrorCode.invalid_input
        (text "Only a fresh, approved board task with human criteria can be materialized"))
  ok (record u { remote_pending = false })

abbrev pub by_user : Env → SkillBinding → SkillBinding
by_user env b = record b { origin = TaskActor.user; reason = none; created_at = env.now }

unfoldable pub with_user_skills : Env → List SkillBinding → Task → Task
with_user_skills env skills t = record t { skills = map (by_user env) skills }

abbrev pub identified : TaskId → Option Uuid → Option AgentId → Task → Task
identified id group agent t = record t {
  id = id;
  coordinator_group = group;
  continue_agent_id = agent;
  creator = if is_some group then TaskActor.ditchmaster else t.creator;
}

-- The new task of each of the three operations. A materialized one keeps its skills' origins.
unfoldable pub created_backlog : Env → Project → TaskDraft → RuntimeState → Result TaskError Task
created_backlog env p draft s = do
  t ←
      new_backlog_task env.now (env.uuid s.drawn) p.id draft (next_key s)
        (is_remote p && not s.remote_runtime)
  ok (with_user_skills env t.skills t)

unfoldable pub created : Env → Project → TaskDraft → RuntimeState → Result TaskError Task
created env p draft s = do
  t ← new_task env.now (env.uuid s.drawn) p.id draft (next_key s)
  ok (with_user_skills env t.skills t)

unfoldable pub created_identified :
    Env
    → Project
    → Option Task
    → TaskId
    → Option Uuid
    → Option AgentId
    → TaskDraft
    → RuntimeState
    → Result TaskError Task
created_identified env p board_task id group agent draft s = do
  t ← new_task env.now (env.uuid s.drawn) p.id draft (next_key s)
  reject_if (has_key id s.tasks)
      (task_error TaskErrorCode.idempotency_conflict (text "Task identity already exists"))
  u ← materialize p.id draft (identified id group agent t) board_task
  ok (if is_some board_task then u else with_user_skills env u.skills u)

unfoldable pub stored_new :
    Task → TaskAudit → RuntimeState → Result Text Store → Answer TaskResponse
stored_new t entry s (err e) =
    (record s { drawn = 2 + s.drawn }, err (task_error TaskErrorCode.storage e))
stored_new t entry s (ok store) = (
  publish_tasks ((t, entry) ∷ []) (record s { drawn = 2 + s.drawn; store = store }),
  ok (TaskResponse.changed t),
)

unfoldable pub store_new :
    Env → TaskRequest → RuntimeState → Result TaskError Task → Answer TaskResponse
store_new env request s (err e) = (s, err e)
store_new env request s (ok t) =
    let entry = audit env.now (env.uuid (suc s.drawn)) t TaskActor.user (text "create") none none in
    stored_new t entry s (
      save_task_changes env.disk ((t, entry) ∷ [])
        (some (receipt_of env.to_json request (TaskResponse.changed t))) none s.store)
