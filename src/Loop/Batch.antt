-- ===== src/Loop/Batch.antt =====
-- The second half of `release_request` (crates/ditchd/src/acceptance_runtime.rs): the batch is
-- planned and saved, and the request is told apart.
use ditch.Prelude.{
  suc, ◌+◌, ◌==◌, Bool, true, false, Option, none, some, List, [], find, keep, length, values, Text,
  text, Result, ok, err, ◌>>=◌, ◌>>◌, if◌then◌else◌,
}
use ditch.Core.{
  AgentApprovalPreset, AgentExecutionProfile, AgentTransport, Project, ProjectId, ProjectRelease,
  ReleaseDestination, Task, TaskAudit, TaskError, TaskErrorCode, TaskOperation, TaskRequest,
  TaskResponse, TaskRevision,
}
use ditch.Task.Basics.{task_error}
use ditch.Store.{Store, receipt_of, task_replay}
use ditch.Store.Releases.{save_release_batch}
use ditch.Runtime.State.{RuntimeState, Env, draw, publish_tasks}
use ditch.Runtime.Admission.{WriterGuard, Granted, acquire, drop}
use ditch.Loop.Release.{
  ReleaseWorld, invalid, prepare_all, batch_of, recheck, created_release, release_of,
  release_changes, tasks_in, one_release, announced,
}

-- What the last lock saves.
pub record Batch : Type 0 where
  pub created : Option ProjectRelease
  pub changes : List (Task × TaskAudit)

unfoldable pub plan_batch :
    ReleaseWorld
    → Bool
    → ProjectId
    → ReleaseDestination
    → List Task
    → List Task
    → RuntimeState
    → Result TaskError Batch
plan_batch w accepting project destination olds nexts s = do
  recheck s olds
  created ← created_release w.env project s destination
  id ← release_of project s created destination
  ok (record {
    created = created;
    changes = release_changes w accepting id (suc s.drawn) nexts olds;
  })

abbrev pub Answered : Type 0
Answered = RuntimeState × Result TaskError TaskResponse

abbrev pub batch_response : Batch → TaskResponse
batch_response b = TaskResponse.release_batch (tasks_in b.changes) (one_release b.created)

abbrev pub drawn_by_batch : Batch → RuntimeState → RuntimeState
drawn_by_batch b s = record s { drawn = suc s.drawn + length b.changes }

unfoldable pub saved_batch : Batch → RuntimeState → Result Text Store → Answered
saved_batch b s (err e) = (drawn_by_batch b s, err (task_error TaskErrorCode.storage e))
saved_batch b s (ok store) =
    let stored = record (drawn_by_batch b s) { store = store } in
    (publish_tasks b.changes (announced b.created stored), ok (batch_response b))

unfoldable pub save_batch : Env → TaskRequest → RuntimeState → Result TaskError Batch → Answered
save_batch env request s (err e) = (s, err e)
save_batch env request s (ok b) = saved_batch b s (
    save_release_batch env.disk b.created b.changes
      (receipt_of env.to_json request (batch_response b)) s.store)

abbrev pub default_profile : AgentExecutionProfile
default_profile = record {
  transport = AgentTransport.legacy;
  skills = [];
  model = none;
  reasoning_effort = none;
  approval = AgentApprovalPreset.approve_for_me;
}

-- A retry may have committed while the evidence was captured.
unfoldable pub commit_unless_replayed :
    ReleaseWorld
    → TaskRequest
    → Bool
    → ProjectId
    → ReleaseDestination
    → List Task
    → List Task
    → RuntimeState
    → Result Text (Option TaskResponse)
    → Answered
commit_unless_replayed w request accepting project destination olds nexts s (err e) =
    (s, err (task_error TaskErrorCode.storage e))
commit_unless_replayed w request accepting project destination olds nexts s (ok (some answer)) =
    (s, ok answer)
commit_unless_replayed w request accepting project destination olds nexts s (ok none) =
    save_batch w.env request s (plan_batch w accepting project destination olds nexts s)

-- The second half, from the capture on; `s` is the state when the last lock is taken.
unfoldable pub finish_batch :
    ReleaseWorld
    → TaskRequest
    → Bool
    → ProjectId
    → ReleaseDestination
    → List Task
    → RuntimeState
    → Result TaskError (List Task)
    → Answered
finish_batch w request accepting project destination olds s (err e) = (s, err e)
finish_batch w request accepting project destination olds s (ok nexts) =
    commit_unless_replayed w request accepting project destination olds nexts s
      (task_replay w.env.to_json w.env.disk request s.store)

-- The guard of the workspace, which is dropped with the answer; regrouping needs none.
abbrev pub drop_after : Env → WriterGuard → Answered → Answered
drop_after env g (s, answer) = (drop env g s, answer)

unfoldable pub guarded_batch :
    ReleaseWorld
    → (RuntimeState → RuntimeState)
    → TaskRequest
    → Bool
    → ProjectId
    → ReleaseDestination
    → List Task
    → Granted
    → Answered
guarded_batch w meanwhile request accepting project destination olds (s, err e) =
    (s, err (task_error TaskErrorCode.workspace_busy e))
guarded_batch w meanwhile request accepting project destination olds (s, ok g) =
    drop_after w.env g (
      finish_batch w request accepting project destination olds (meanwhile s)
        (prepare_all w accepting s.drawn olds))

unfoldable pub admit_batch :
    ReleaseWorld
    → (RuntimeState → RuntimeState)
    → TaskRequest
    → Bool
    → Project
    → ReleaseDestination
    → RuntimeState
    → List Task
    → Answered
admit_batch w meanwhile request true project destination s olds =
    let (id, s1) = draw w.env s in
    guarded_batch w meanwhile request true project.id destination olds
      (acquire w.env id project default_profile s1 s1)
admit_batch w meanwhile request false project destination s olds =
    finish_batch w request false project.id destination olds (meanwhile s)
      (prepare_all w false s.drawn olds)

unfoldable pub begin_batch :
    ReleaseWorld
    → (RuntimeState → RuntimeState)
    → TaskRequest
    → Bool
    → Project
    → List TaskRevision
    → ReleaseDestination
    → RuntimeState
    → Result Text (Option TaskResponse)
    → Answered
begin_batch w meanwhile request accepting project rs destination s (err e) =
    (s, err (task_error TaskErrorCode.storage e))
begin_batch w meanwhile request accepting project rs destination s (ok (some answer)) =
    (s, ok answer)
begin_batch w meanwhile request accepting project rs destination s (ok none) =
    elim (batch_of accepting project.id s rs) [
      | err e ↦ (s, err e)
      | ok olds ↦ admit_batch w meanwhile request accepting project destination s olds
    ]

abbrev pub batch_request :
    ReleaseWorld
    → (RuntimeState → RuntimeState)
    → TaskRequest
    → Bool
    → Project
    → List TaskRevision
    → ReleaseDestination
    → RuntimeState
    → Answered
batch_request w meanwhile request accepting project rs destination s =
    begin_batch w meanwhile request accepting project rs destination s
      (task_replay w.env.to_json w.env.disk request s.store)

-- `project_by_id`.
abbrev pub named_project : RuntimeState → Option ProjectId → Option Project
named_project s none = none
named_project s (some id) = find (λ (p : Project). p.id == id) s.projects

unfoldable pub project_request :
    ReleaseWorld
    → (RuntimeState → RuntimeState)
    → TaskRequest
    → TaskOperation
    → RuntimeState
    → Project
    → Answered
project_request w meanwhile request (TaskOperation.accept_release rs destination) s p =
    batch_request w meanwhile request true p rs destination s
project_request w meanwhile request (TaskOperation.assign_release rs destination) s p =
    batch_request w meanwhile request false p rs destination s
project_request w meanwhile request _ s p = (
  s,
  ok (
      TaskResponse.releases
        (keep (λ (r : ProjectRelease). r.project_id == p.id) (values s.releases))),
)

abbrev pub on_named :
    ReleaseWorld
    → (RuntimeState → RuntimeState)
    → TaskRequest
    → RuntimeState
    → Option Project
    → Answered
on_named w meanwhile request s none = (s, err (invalid (text "Select a project")))
on_named w meanwhile request s (some p) = project_request w meanwhile request request.operation s p

abbrev pub is_release : TaskOperation → Bool
is_release TaskOperation.list_releases = true
is_release (TaskOperation.accept_release rs destination) = true
is_release (TaskOperation.assign_release rs destination) = true
is_release _ = false

-- `release_request`; none for an operation of another kind.
unfoldable pub release_request :
    ReleaseWorld → (RuntimeState → RuntimeState) → TaskRequest → RuntimeState → Option Answered
release_request w meanwhile request s =
    if is_release request.operation
    then some (on_named w meanwhile request s (named_project s request.project_id))
    else none
