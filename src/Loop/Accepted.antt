-- ===== src/Loop/Accepted.antt =====
-- What `release_request` (crates/ditchd/src/acceptance_runtime.rs) accepts, and what it saves.
use ditch.Prelude.{
  ℕ, suc, ◌≡◌, refl, sym, ap, ◌∙◌, subst, Bool, true, false, not, ◌&&◌, Option, none, some, List,
  [], ◌∷◌, all, length, Text, text_eq, Result, ok, err, >>=-eq-ok, arith,
}
use ditch.Core.{
  ProjectId, ProjectRelease, ReleaseDestination, Task, TaskAction, TaskActor, TaskColumn, TaskError,
  TaskRequest, TaskResponse, Uuid, ReviewSubmission, WorkspaceEvidence, TaskAudit,
}
use ditch.Task.Basics.{column, column_eq, touch}
use ditch.Task.Workflow.{transition, apply_action, finish}
use ditch.Store.{Store, task_replay}
use ditch.Runtime.State.{RuntimeState}
use ditch.Loop.Submitted.{passed_ok}
use ditch.Loop.Release.{
  ReleaseWorld, current_review, found_submission, captured, prepare_all, prepare_one,
  prepare_release_acceptance, recheck, release_changes, released, created_release, release_of,
  tasks_in,
}
use ditch.Loop.Batch.{
  Answered, Batch, finish_batch, commit_unless_replayed, plan_batch, save_batch, saved_batch,
}

-- The workspace of a task is the one of its current submission.
abbrev pub same_capture : Result Text WorkspaceEvidence → Option ReviewSubmission → Bool
same_capture (ok now) (some review) = text_eq now.fingerprint review.workspace.fingerprint
same_capture _ _ = false

unfoldable pub is_unchanged : ReleaseWorld → Task → Bool
is_unchanged w t = same_capture (w.capture t) (current_review t)

abbrev pub is_done : Task → Bool
is_done t = column_eq (column t) TaskColumn.done

accept_done :
    (w : ReleaseWorld) (n : ℕ) (t : Task) (r : Task × TaskAudit)
    → transition w.env.now (w.env.uuid n) t TaskAction.accept TaskActor.user t.revision false ≡ ok r
    → is_done r.0 ≡ true
unfolding transition apply_action finish touch
accept_done w n t r h = ground arith

found_some :
    (found : Option ReviewSubmission) (r : ReviewSubmission)
    → found_submission found ≡ ok r
    → found ≡ some r
found_some none r h = cc
found_some (some q) r h = cc

captured_ok :
    (c : Result Text WorkspaceEvidence) (now : WorkspaceEvidence) → captured c ≡ ok now → c ≡ ok now
captured_ok (err e) now h = cc
captured_ok (ok w) now h = cc

abbrev task_or : Task → Result TaskError Task → Task
task_or t (err e) = t
task_or t (ok u) = u

abbrev tasks_or : List Task → Result TaskError (List Task) → List Task
tasks_or ts (err e) = ts
tasks_or ts (ok us) = us

prepared_ok :
    (w : ReleaseWorld) (n : ℕ) (t next : Task)
    → prepare_release_acceptance w n t ≡ ok next
    → (is_unchanged w t ≡ true) × (is_done next ≡ true)
unfolding prepare_release_acceptance is_unchanged
prepared_ok w n t next h =
    let (review, e1, k1) = >>=-eq-ok (found_submission (current_review t)) _ h in
    let (now, e2, k2) = >>=-eq-ok (captured (w.capture t)) _ k1 in
    let (same, k3) = passed_ok (not (text_eq now.fingerprint review.workspace.fingerprint)) _ k2 in
    let (r, e4, k4) =
      >>=-eq-ok
        (transition w.env.now (w.env.uuid n) t TaskAction.accept TaskActor.user t.revision false) _
        k3 in
    let found : current_review t ≡ some review = found_some (current_review t) review e1 in
    let seen : w.capture t ≡ ok now = captured_ok (w.capture t) now e2 in
    let unchanged : text_eq now.fingerprint review.workspace.fingerprint ≡ true = ground arith in
    let made : r.0 ≡ next = ap (task_or next) k4 in
    (
      ap (λ c. same_capture c (current_review t)) seen
          ∙ ap (same_capture (ok now)) found
          ∙ unchanged,
      subst (λ (u : Task). is_done u ≡ true) made (accept_done w n t r e4),
    )

all-prepared :
    (w : ReleaseWorld) (n : ℕ) (ts nexts : List Task)
    → prepare_all w true n ts ≡ ok nexts
    → (all (is_unchanged w) ts ≡ true) × (all is_done nexts ≡ true) × (length nexts ≡ length ts)
unfolding prepare_all prepare_one
all-prepared w n [] nexts h =
    let e : [] ≡ nexts = ap (tasks_or nexts) h in
    (refl, ap (all is_done) (sym e), ap length (sym e))
all-prepared w n (t ∷ ts) nexts h =
    let (next, e1, k1) = >>=-eq-ok (prepare_release_acceptance w n t) _ h in
    let (rest, e2, k2) = >>=-eq-ok (prepare_all w true (suc n) ts) _ k1 in
    let e : (next ∷ rest) ≡ nexts = ap (tasks_or nexts) k2 in
    let (same, done) = prepared_ok w n t next e1 in
    let (all_same, all_done, long) = all-prepared w (suc n) ts rest e2 in
    (
      ground (arith, same, all_same),
      ap (all is_done) (sym e) ∙ ground (arith, done, all_done),
      ap length (sym e) ∙ ap suc long,
    )

-- The tasks of the changes are the prepared ones in their release.
changes_done :
    (w : ReleaseWorld) (accepting : Bool) (id : Option Uuid) (n : ℕ) (nexts olds : List Task)
    → length nexts ≡ length olds
    → (all is_done (tasks_in (release_changes w accepting id n nexts olds)) ≡ all is_done nexts)
      × (length (tasks_in (release_changes w accepting id n nexts olds)) ≡ length olds)
unfolding release_changes tasks_in released
changes_done w accepting id n [] [] h = (refl, refl)
changes_done w accepting id n [] (old ∷ olds) h = absurd (ground arith)
changes_done w accepting id n (next ∷ nexts) [] h = absurd (ground arith)
changes_done w accepting id n (next ∷ nexts) (old ∷ olds) h =
    let (done, long) = changes_done w accepting id (suc n) nexts olds (omega arith) in
    (ap (λ b. is_done next && b) done, ap suc long)

abbrev response_tasks : List Task → Answered → List Task
response_tasks ts (s, ok (TaskResponse.release_batch us releases)) = us
response_tasks ts _ = ts

-- The tasks that a saved batch answers.
saved_tasks :
    (b : Batch) (s s' : RuntimeState) (r : Result Text Store) (ts : List Task)
    (releases : List ProjectRelease)
    → saved_batch b s r ≡ (s', ok (TaskResponse.release_batch ts releases))
    → tasks_in b.changes ≡ ts
unfolding saved_batch
saved_tasks b s s' (err e) ts releases h = cc
saved_tasks b s s' (ok store) ts releases h = ap (response_tasks ts) h

abbrev changes_or : Batch → Result TaskError Batch → List (Task × TaskAudit)
changes_or b (err e) = b.changes
changes_or b (ok c) = c.changes

planned_done :
    (w : ReleaseWorld) (project : ProjectId) (destination : ReleaseDestination)
    (olds nexts : List Task) (s : RuntimeState) (b : Batch)
    → plan_batch w true project destination olds nexts s ≡ ok b
    → length nexts ≡ length olds
    → (all is_done (tasks_in b.changes) ≡ all is_done nexts)
      × (length (tasks_in b.changes) ≡ length olds)
unfolding plan_batch
planned_done w project destination olds nexts s b h long =
    let (u, e1, k1) = >>=-eq-ok (recheck s olds) _ h in
    let (created, e2, k2) = >>=-eq-ok (created_release w.env project s destination) _ k1 in
    let (id, e3, k3) = >>=-eq-ok (release_of project s created destination) _ k2 in
    let e : release_changes w true id (suc s.drawn) nexts olds ≡ b.changes = ap (changes_or b) k3 in
    subst
      (λ (l : List (Task × TaskAudit)).
        (all is_done (tasks_in l) ≡ all is_done nexts) × (length (tasks_in l) ≡ length olds))
      e (changes_done w true id (suc s.drawn) nexts olds long)

batch_done :
    (w : ReleaseWorld) (request : TaskRequest) (project : ProjectId)
    (destination : ReleaseDestination) (olds nexts : List Task) (s s' : RuntimeState)
    (r : Result TaskError Batch) (ts : List Task) (releases : List ProjectRelease)
    → plan_batch w true project destination olds nexts s ≡ r
    → length nexts ≡ length olds
    → save_batch w.env request s r ≡ (s', ok (TaskResponse.release_batch ts releases))
    → (all is_done ts ≡ all is_done nexts) × (length ts ≡ length olds)
unfolding save_batch
batch_done w request project destination olds nexts s s' (err e) ts releases p long h = cc
batch_done w request project destination olds nexts s s' (ok b) ts releases p long h =
    let e = saved_tasks b s s' _ ts releases h in
    subst (λ (l : List Task). (all is_done l ≡ all is_done nexts) × (length l ≡ length olds)) e
      (planned_done w project destination olds nexts s b p long)

prepared_batch :
    (w : ReleaseWorld) (request : TaskRequest) (project : ProjectId)
    (destination : ReleaseDestination) (olds : List Task) (n : ℕ) (s s' : RuntimeState)
    (r : Result TaskError (List Task)) (ts : List Task) (releases : List ProjectRelease)
    → prepare_all w true n olds ≡ r
    → task_replay w.env.to_json w.env.disk request s.store ≡ ok none
    → finish_batch w request true project destination olds s r
      ≡ (s', ok (TaskResponse.release_batch ts releases))
    → (all (is_unchanged w) olds ≡ true) × (all is_done ts ≡ true) × (length ts ≡ length olds)
unfolding finish_batch commit_unless_replayed
prepared_batch w request project destination olds n s s' (err e) ts releases p new h = cc
prepared_batch w request project destination olds n s s' (ok nexts) ts releases p new h =
    let (same, done, long) = all-prepared w n olds nexts p in
    let k : commit_unless_replayed w request true project destination olds nexts s (ok none)
        ≡ (s', ok (TaskResponse.release_batch ts releases)) =
      ap (commit_unless_replayed w request true project destination olds nexts s) (sym new) ∙ h in
    let (all_done, many) =
      batch_done w request project destination olds nexts s s' _ ts releases refl long k in
    (same, all_done ∙ done, many)

-- A batch of acceptances that is answered, and is no retry, took each of its tasks with its workspace
-- as its current submission recorded it, and answers as many tasks, all of them done.
pub finish_batch_unchanged :
    (w : ReleaseWorld) (request : TaskRequest) (project : ProjectId)
    (destination : ReleaseDestination) (olds : List Task) (n : ℕ) (s s' : RuntimeState)
    (ts : List Task) (releases : List ProjectRelease)
    → task_replay w.env.to_json w.env.disk request s.store ≡ ok none
    → finish_batch w request true project destination olds s (prepare_all w true n olds)
      ≡ (s', ok (TaskResponse.release_batch ts releases))
    → (all (is_unchanged w) olds ≡ true) × (all is_done ts ≡ true) × (length ts ≡ length olds)
finish_batch_unchanged w request project destination olds n s s' ts releases new h =
    prepared_batch w request project destination olds n s s' _ ts releases refl new h

refused_save :
    (b : Batch) (s s' : RuntimeState) (r : Result Text Store) (e : TaskError)
    → saved_batch b s r ≡ (s', err e)
    → (s'.tasks ≡ s.tasks) × (s'.store ≡ s.store) × (s'.sent ≡ s.sent)
unfolding saved_batch
refused_save b s s' (err x) e h = (cc, cc, cc)
refused_save b s s' (ok store) e h = cc

refused_batch :
    (w : ReleaseWorld) (request : TaskRequest) (s s' : RuntimeState) (r : Result TaskError Batch)
    (e : TaskError)
    → save_batch w.env request s r ≡ (s', err e)
    → (s'.tasks ≡ s.tasks) × (s'.store ≡ s.store) × (s'.sent ≡ s.sent)
unfolding save_batch
refused_batch w request s s' (err x) e h = (cc, cc, cc)
refused_batch w request s s' (ok b) e h = refused_save b s s' _ e h

refused_commit :
    (w : ReleaseWorld) (request : TaskRequest) (accepting : Bool) (project : ProjectId)
    (destination : ReleaseDestination) (olds nexts : List Task) (s s' : RuntimeState)
    (r : Result Text (Option TaskResponse)) (e : TaskError)
    → commit_unless_replayed w request accepting project destination olds nexts s r ≡ (s', err e)
    → (s'.tasks ≡ s.tasks) × (s'.store ≡ s.store) × (s'.sent ≡ s.sent)
unfolding commit_unless_replayed
refused_commit w request accepting project destination olds nexts s s' (err x) e h = (cc, cc, cc)
refused_commit w request accepting project destination olds nexts s s' (ok (some a)) e h = cc
refused_commit w request accepting project destination olds nexts s s' (ok none) e h =
    refused_batch w request s s' _ e h

-- A batch is all or nothing: where it is refused, for whatever reason, the tasks, the store and the
-- events are as before its last lock.
pub finish_batch_refused :
    (w : ReleaseWorld) (request : TaskRequest) (accepting : Bool) (project : ProjectId)
    (destination : ReleaseDestination) (olds : List Task) (s s' : RuntimeState)
    (r : Result TaskError (List Task)) (e : TaskError)
    → finish_batch w request accepting project destination olds s r ≡ (s', err e)
    → (s'.tasks ≡ s.tasks) × (s'.store ≡ s.store) × (s'.sent ≡ s.sent)
unfolding finish_batch
finish_batch_refused w request accepting project destination olds s s' (err x) e h = (cc, cc, cc)
finish_batch_refused w request accepting project destination olds s s' (ok nexts) e h =
    refused_commit w request accepting project destination olds nexts s s' _ e h
