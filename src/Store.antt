-- ===== src/Store.antt =====
-- The task tables of the SQLite store (crates/ditch_store/src/tasks.rs, and the settings of
-- crates/ditch_store/src/lib.rs). A table is the list of its rows; a transaction is a function that
-- gives the new tables or an error, and its caller keeps the old tables on an error. The keys and
-- references that the `CREATE TABLE` texts declare are checked here. What else SQLite may refuse
-- (a full disk, a locked file) is the argument `disk`.
pub mod Effects
pub mod Keys
pub mod Readback
pub mod Receipts
pub mod Replay
pub mod Reservations
pub mod Releases
use ditch.Prelude.{
  ℕ, ◌==◌, Bool, false, not, ◌&&◌, ◌||◌, Option, none, some, is_some, is_none, List, [], ◌∷◌, ◌++◌,
  any, find, keep, Text, text, text_eq, if◌then◌else◌, Result, ok, err, ◌>>=◌, ◌>>◌, reject_if,
}
use ditch.Core.{
  Uuid, ProjectId, TaskId, AgentId, AgentRun, Task, TaskAudit, TaskDetail, TaskErrorCode,
  TaskRequest, TaskResponse, WorkspaceLease, RuntimeAttention, ProjectRelease,
}

-- A row of `task_requests`. The request is kept as the JSON text that is compared.
pub record Receipt : Type 0 where
  pub id : Uuid
  pub request_json : Text
  pub response : TaskResponse

-- A row of `writer_reservations`.
pub record Reservation : Type 0 where
  pub agent_id : AgentId
  pub lease : WorkspaceLease
  pub process_group_id : Option ℕ
  pub validator : Bool

-- The tables; `projects` holds the keys of the projects table, and `attention` the notices that are
-- not dismissed.
pub record Store : Type 0 where
  pub projects : List ProjectId
  pub tasks : List Task
  pub audits : List TaskAudit
  pub agents : List AgentRun
  pub receipts : List Receipt
  pub settings : List (Text × Text)
  pub reservations : List Reservation
  pub attention : List RuntimeAttention
  pub releases : List ProjectRelease

-- What the file system lets SQLite do during one call.
pub record Disk : Type 0 where
  pub readable : Bool
  pub writable : Bool

-- `run.task_id == Some(id)`.
abbrev pub is_linked : Option ℕ → ℕ → Bool
is_linked none id = false
is_linked (some other) id = other == id

abbrev pub database_error : Text
database_error = text "database error"

abbrev pub read : Disk → Result Text (Unit {0})
read disk = reject_if (not disk.readable) database_error

abbrev pub commit : Disk → Result Text (Unit {0})
commit disk = reject_if (not disk.writable) database_error

abbrev pub has_id : TaskId → Task → Bool
has_id id t = t.id == id

unfoldable pub put_task : Task → List Task → List Task
put_task t [] = t ∷ []
put_task t (u ∷ us) = let rest = put_task t us in if u.id == t.id then t ∷ us else u ∷ rest

-- `write_task`: INSERT … ON CONFLICT(id) DO UPDATE; a new row names a project that exists.
unfoldable pub write_task : Task → Store → Result Text Store
write_task t s =
    if any (has_id t.id) s.tasks || any (λ p. p == t.project_id) s.projects
    then ok (record s { tasks = put_task t s.tasks })
    else err database_error

-- `write_audit`: the id is unique, and the task exists.
unfoldable pub write_audit : TaskAudit → Store → Result Text Store
write_audit a s =
    if any (λ (b : TaskAudit). b.id == a.id) s.audits || not (any (has_id a.task_id) s.tasks)
    then err database_error
    else ok (record s { audits = s.audits ++ a ∷ [] })

unfoldable pub write_changes : List (Task × TaskAudit) → Store → Result Text Store
write_changes [] s = ok s
write_changes ((t, a) ∷ changes) s = do
  s1 ← write_task t s
  s2 ← write_audit a s1
  write_changes changes s2

unfoldable pub replace_agent : AgentRun → List AgentRun → List AgentRun
replace_agent run [] = []
replace_agent run (r ∷ rs) = (if r.id == run.id then run else r) ∷ replace_agent run rs

-- `UPDATE agents SET task_id, run_json`: a linked task exists.
unfoldable pub write_agent : AgentRun → Store → Result Text Store
write_agent run s =
    if is_none run.task_id || any (λ (t : Task). is_linked run.task_id t.id) s.tasks
    then ok (record s { agents = replace_agent run s.agents })
    else err database_error

unfoldable pub write_agents : List AgentRun → Store → Result Text Store
write_agents [] s = ok s
write_agents (run ∷ runs) s = do s' ← write_agent run s; write_agents runs s'

-- `INSERT INTO task_requests`: the id is the primary key.
unfoldable pub write_receipt : Receipt → Store → Result Text Store
write_receipt r s =
    if any (λ (q : Receipt). q.id == r.id) s.receipts
    then err database_error
    else ok (record s { receipts = r ∷ s.receipts })

abbrev pub write_some_receipt : Option Receipt → Store → Result Text Store
write_some_receipt none s = ok s
write_some_receipt (some r) s = write_receipt r s

-- `save_task_agent_changes`.
unfoldable pub save_task_agent_changes :
    Disk → List (Task × TaskAudit) → Option Receipt → List AgentRun → Store → Result Text Store
save_task_agent_changes disk changes receipt runs s = do
  s1 ← write_changes changes s
  s2 ← write_agents runs s1
  s3 ← write_some_receipt receipt s2
  commit disk
  ok s3

-- `save_task_changes`.
abbrev pub one_agent : Option AgentRun → List AgentRun
one_agent none = []
one_agent (some run) = run ∷ []

unfoldable pub save_task_changes :
    Disk → List (Task × TaskAudit) → Option Receipt → Option AgentRun → Store → Result Text Store
save_task_changes disk changes receipt linked s =
    save_task_agent_changes disk changes receipt (one_agent linked) s

unfoldable pub put_setting : Text → Text → List (Text × Text) → List (Text × Text)
put_setting k v [] = (k, v) ∷ []
put_setting k v ((j, w) ∷ m) =
    let rest = put_setting k v m in if text_eq j k then (k, v) ∷ m else (j, w) ∷ rest

unfoldable pub get_setting : Text → List (Text × Text) → Option Text
get_setting k [] = none
get_setting k ((j, w) ∷ m) = let rest = get_setting k m in if text_eq j k then some w else rest

-- `setting`.
unfoldable pub setting : Disk → Text → Store → Result Text (Option Text)
setting disk key s = do read disk; ok (get_setting key s.settings)

-- `set_task_setting_receipt`.
unfoldable pub set_task_setting_receipt : Disk → Text → Text → Receipt → Store → Result Text Store
set_task_setting_receipt disk key value receipt s = do
  s' ← write_receipt receipt (record s { settings = put_setting key value s.settings })
  commit disk
  ok s'

-- The task that the projection holds now, for a replayed answer.
abbrev pub changed_or_deleted : TaskId → Option Task → TaskResponse
changed_or_deleted id none = TaskResponse.deleted id
changed_or_deleted id (some t) = TaskResponse.changed t

unfoldable pub current_tasks : List Task → List Task → List Task
current_tasks now [] = []
current_tasks now (t ∷ ts) =
    let rest = current_tasks now ts in
    elim (find (has_id t.id) now) [ none ↦ rest | some u ↦ u ∷ rest ]

unfoldable pub refresh : List Task → TaskResponse → TaskResponse
refresh now (TaskResponse.changed t) = changed_or_deleted t.id (find (has_id t.id) now)
refresh now (TaskResponse.release_batch ts releases) =
    TaskResponse.release_batch (current_tasks now ts) releases
refresh now other = other

abbrev pub idempotency_conflict : TaskResponse
idempotency_conflict = TaskResponse.error (record {
  code = TaskErrorCode.idempotency_conflict;
  message = text "This request ID was already used for different task input.";
})

unfoldable pub replayed : List Task → Text → Option Receipt → Option TaskResponse
replayed now json none = none
replayed now json (some r) =
    some (if text_eq r.request_json json then refresh now r.response else idempotency_conflict)

module _ (to_json : TaskRequest → Text) where
  -- The receipt that the transactions insert.
  abbrev pub receipt_of : TaskRequest → TaskResponse → Receipt
  receipt_of request response = record {
    id = request.request_id;
    request_json = to_json request;
    response = response;
  }

  -- `task_replay`.
  unfoldable pub task_replay : Disk → TaskRequest → Store → Result Text (Option TaskResponse)
  task_replay disk request s = do
    read disk
    ok (
        replayed s.tasks (to_json request)
          (find (λ (r : Receipt). r.id == request.request_id) s.receipts))

-- The audit entries of a task, in the order of their sequence numbers (`task_detail`).
unfoldable pub task_detail : Disk → Task → Store → Result Text TaskDetail
task_detail disk t s = do
  read disk
  ok (record { task = t; history = keep (λ (a : TaskAudit). a.task_id == t.id) s.audits })

abbrev pub has_history : TaskId → Store → Bool
has_history id s =
    any (λ (r : AgentRun). is_linked r.task_id id) s.agents
    || any (λ (a : TaskAudit). a.task_id == id && not (text_eq a.action (text "create"))) s.audits

unfoldable pub put_attention : RuntimeAttention → List RuntimeAttention → List RuntimeAttention
put_attention a [] = a ∷ []
put_attention a (b ∷ bs) =
    let rest = put_attention a bs in if b.id == a.id then a ∷ bs else b ∷ rest

-- `upsert_attention`: the project and the agent, where there is one, exist.
unfoldable pub upsert_attention : Disk → RuntimeAttention → Store → Result Text Store
upsert_attention disk a s = do
  reject_if
      (not (is_none a.project_id || any (is_linked a.project_id) s.projects)
        || not (is_none a.agent_id || any (λ (r : AgentRun). is_linked a.agent_id r.id) s.agents))
      database_error
  commit disk
  ok (record s { attention = put_attention a s.attention })

-- The check that `delete_draft_task` makes before it deletes.
abbrev pub untouched_draft : Task → Store → Result Text (Unit {0})
untouched_draft t s =
    reject_if (not (t.revision == 1) || is_some t.assigned_agent_id || has_history t.id s) (
      text
        "Only an untouched draft without references or history can be deleted. Cancel/archive this task instead.")

-- `delete_draft_task`.
unfoldable pub delete_draft_task : Disk → Task → Receipt → Store → Result Text Store
delete_draft_task disk t receipt s = do
  untouched_draft t s
  s' ← write_receipt receipt (record s {
    audits = keep (λ (a : TaskAudit). not (a.task_id == t.id)) s.audits;
    tasks = keep (λ (u : Task). not (u.id == t.id)) s.tasks;
  })
  commit disk
  ok s'
