-- ===== src/Loop/Release.antt =====
-- `prepare_release_acceptance` and `release_request` (crates/ditchd/src/acceptance_runtime.rs): a
-- batch of tasks is accepted into a release, or moved to one.
use ditch.Prelude.{
  ℕ, suc, ◌==◌, ltb, Bool, true, false, not, ◌&&◌, ◌||◌, Option, none, some, is_some_and, List, [],
  ◌∷◌, ◌++◌, any, find, length, is_empty, lookup, insert, member, values, Text, text, text_eq,
  Result, ok, err, ◌>>=◌, ◌>>◌, reject_if, if◌then◌else◌,
}
use ditch.Core.{
  Uuid, ProjectId, ProjectRelease, ReleaseDestination, ReviewSubmission, Task, TaskAction,
  TaskActor, TaskAudit, TaskColumn, TaskError, TaskErrorCode, TaskId, TaskRevision,
  WorkspaceEvidence,
}
use ditch.Task.Basics.{audit, check_revision, column, column_eq, task_error, touch}
use ditch.Task.Draft.{new_release}
use ditch.Task.Workflow.{transition}
use ditch.Runtime.State.{RuntimeState, Env, ServerEvent, send, task_live}

-- What a request on releases meets: the world, the workspace of a task's contract, and `{:?}` of a
-- release. What other threads do while it is captured is the argument `meanwhile`.
pub record ReleaseWorld : Type 0 where
  pub env : Env
  pub capture : Task → Result Text WorkspaceEvidence
  pub show_release : Option Uuid → Text

abbrev pub invalid : Text → TaskError
invalid message = task_error TaskErrorCode.invalid_input message

-- The current submission of a task.
abbrev pub found_submission : Option ReviewSubmission → Result TaskError ReviewSubmission
found_submission none =
    err (
      invalid
        (text "This review has no immutable workspace evidence. Revalidate before accepting."))
found_submission (some r) = ok r

unfoldable pub current_review : Task → Option ReviewSubmission
current_review t = elim t.acceptance.current_submission [
  | none ↦ none
  | some id ↦ find (λ (r : ReviewSubmission). r.id == id) t.acceptance.submissions
]

abbrev pub captured : Result Text WorkspaceEvidence → Result TaskError WorkspaceEvidence
captured (err e) = err (invalid e)
captured (ok w) = ok w

-- `prepare_release_acceptance`; `n` draws the identity of the entry that is dropped.
unfoldable pub prepare_release_acceptance : ReleaseWorld → ℕ → Task → Result TaskError Task
prepare_release_acceptance w n t = do
  review ← found_submission (current_review t)
  current ← captured (w.capture t)
  reject_if (not (text_eq current.fingerprint review.workspace.fingerprint)) (
      invalid (
        text "Workspace changed after submission. Acceptance is blocked; revalidate the evidence."))
  accepted ← transition w.env.now (w.env.uuid n) t TaskAction.accept TaskActor.user t.revision false
  ok accepted.0

unfoldable pub prepare_one : ReleaseWorld → Bool → ℕ → Task → Result TaskError Task
prepare_one w true n t = prepare_release_acceptance w n t
prepare_one w false n t = ok (touch w.env.now t)

unfoldable pub prepare_all : ReleaseWorld → Bool → ℕ → List Task → Result TaskError (List Task)
prepare_all w accepting n [] = ok []
prepare_all w accepting n (t ∷ ts) = do
  next ← prepare_one w accepting n t
  rest ← prepare_all w accepting (suc n) ts
  ok (next ∷ rest)

-- A task that the request may name.
abbrev pub in_project : ProjectId → Option Task → Result TaskError Task
in_project project none = err (invalid (text "Task is unavailable or belongs to another project"))
in_project project (some t) =
    if t.project_id == project
    then ok t
    else err (invalid (text "Task is unavailable or belongs to another project"))

abbrev pub needed_column : Bool → TaskColumn
needed_column accepting = if accepting then TaskColumn.in_review else TaskColumn.done

unfoldable pub original : Bool → ProjectId → RuntimeState → TaskRevision → Result TaskError Task
original accepting project s r = do
  t ← in_project project (lookup r.task_id s.tasks)
  check_revision t r.expected_revision
  reject_if (task_live s t)
      (task_error TaskErrorCode.agent_busy (text "Stop the task loop before changing its release"))
  reject_if (t.archived || not (column_eq (column t) (needed_column accepting))) (
      task_error TaskErrorCode.illegal_transition
        (text "Acceptance requires In Review tasks; regrouping requires Done tasks"))
  ok t

unfoldable pub originals :
    Bool → ProjectId → RuntimeState → List TaskId → List TaskRevision → Result TaskError (List Task)
originals accepting project s ids [] = ok []
originals accepting project s ids (r ∷ rs) = do
  reject_if (member r.task_id ids) (invalid (text "A task can only appear once in a release batch"))
  t ← original accepting project s r
  rest ← originals accepting project s (r.task_id ∷ ids) rs
  ok (t ∷ rest)

unfoldable pub batch_of :
    Bool → ProjectId → RuntimeState → List TaskRevision → Result TaskError (List Task)
batch_of accepting project s rs = do
  reject_if (is_empty rs || ltb 100 (length rs)) (invalid (text "Choose 1–100 tasks per project"))
  originals accepting project s [] rs

-- The tasks are looked at again under the lock of the save.
abbrev pub still_there : Option Task → Result TaskError Task
still_there none = err (invalid (text "Task disappeared"))
still_there (some t) = ok t

unfoldable pub recheck : RuntimeState → List Task → Result TaskError (Unit {0})
recheck s [] = ok tt
recheck s (t ∷ ts) = do
  current ← still_there (lookup t.id s.tasks)
  check_revision current t.revision
  reject_if (task_live s current)
      (task_error TaskErrorCode.agent_busy (text "Task became active; refresh and retry"))
  recheck s ts

-- The release of the batch: a new one, an existing one of the project, or none.
abbrev pub is_taken_name : ProjectRelease → ProjectRelease → Bool
is_taken_name r q = q.project_id == r.project_id && text_eq q.name r.name

unfoldable pub created_release :
    Env → ProjectId → RuntimeState → ReleaseDestination → Result TaskError (Option ProjectRelease)
created_release env project s (ReleaseDestination.new name) = do
  r ← new_release env.now (env.uuid s.drawn) project name
  reject_if (any (is_taken_name r) (values s.releases))
      (invalid (text "That release already exists. Select it from the list."))
  ok (some r)
created_release env project s _ = ok none

unfoldable pub release_of :
    ProjectId
    → RuntimeState
    → Option ProjectRelease
    → ReleaseDestination
    → Result TaskError (Option Uuid)
release_of project s created (ReleaseDestination.existing id) = do
  reject_if
      (not (is_some_and (lookup id s.releases) (λ (r : ProjectRelease). r.project_id == project)))
      (invalid (text "Release is unavailable or belongs to another project"))
  ok (some id)
release_of project s none destination = ok none
release_of project s (some r) destination = ok (some r.id)

-- The changed tasks, with their entries; `n` draws the identities.
abbrev pub action_name : Bool → Text
action_name accepting = if accepting then text "accept_release" else text "assign_release"

abbrev pub in_release : Option Uuid → Task → Task
in_release id t = record t { release_id = id }

unfoldable pub released : ReleaseWorld → Bool → Option Uuid → ℕ → Task → Task → Task × TaskAudit
released w accepting id n next old = (
  in_release id next,
  audit w.env.now (w.env.uuid n) (in_release id next) TaskActor.user (action_name accepting)
      (some (column old))
      (some (
        text "Release: " ++ (w.show_release old.release_id ++ (text " -> " ++ w.show_release id)))),
)

unfoldable pub release_changes :
    ReleaseWorld → Bool → Option Uuid → ℕ → List Task → List Task → List (Task × TaskAudit)
release_changes w accepting id n (next ∷ nexts) (old ∷ olds) =
    released w accepting id n next old ∷ release_changes w accepting id (suc n) nexts olds
release_changes w accepting id n _ _ = []

unfoldable pub tasks_in : List (Task × TaskAudit) → List Task
tasks_in [] = []
tasks_in ((t, a) ∷ changes) = t ∷ tasks_in changes

abbrev pub one_release : Option ProjectRelease → List ProjectRelease
one_release none = []
one_release (some r) = r ∷ []

abbrev pub announced : Option ProjectRelease → RuntimeState → RuntimeState
announced none s = s
announced (some r) s =
    send (ServerEvent.release_created r) (record s { releases = insert r.id r s.releases })
