-- ===== src/Examples/Batches.antt =====
-- A batch of one reviewed task, accepted into a new release; and one whose workspace has changed.
use ditch.Prelude.{
  ◌≡◌, refl, true, none, some, [], ◌∷◌, all, length, text, Result, ok, err, List, find, text_eq,
  is_blank, is_whitespace, lookup, has_key, byte_len, len_utf8, values,
}
use ditch.Core.{
  ProjectRelease, ReleaseDestination, ReviewSubmission, Task, TaskError, TaskOperation, TaskRequest,
  TaskResponse, WorkspaceEvidence,
}
use ditch.Runtime.State.{RuntimeState, task_live, assigned_live}
use ditch.Store.{task_replay, replayed, write_task, write_audit, put_task, write_receipt}
use ditch.Loop.Release.{
  ReleaseWorld, invalid, prepare_all, prepare_one, prepare_release_acceptance, current_review,
  recheck, created_release, release_of, release_changes, released,
}
use ditch.Loop.Batch.{
  Answered, finish_batch, commit_unless_replayed, save_batch, plan_batch, saved_batch,
}
use ditch.Loop.Accepted.{is_unchanged, is_done, finish_batch_unchanged, finish_batch_refused}
use ditch.Examples.Data.{review_card}
use ditch.Examples.Claims.{calm, idle_board}
use ditch.Task.Workflow.{transition, apply_action, finish}
use ditch.Task.Basics.{check_revision, waiting_in_queue, touch, audit}
use ditch.Task.Draft.{new_release}
use ditch.Store.Releases.{save_release_batch, insert_release, write_batch, write_released}

abbrev seen_tree : WorkspaceEvidence
seen_tree = record {
  fingerprint = 70 ∷ [];
  head = some (72 ∷ []);
  dirty_paths = [];
  diff_stat = [];
  diff_bytes = 0;
  warnings = [];
  captured_at = 50;
}

abbrev card_review : ReviewSubmission
card_review = record {
  id = 30;
  attempt_id = none;
  agent_id = none;
  summary = text "Done";
  criteria = [];
  workspace = seen_tree;
  preexisting_dirty_paths = [];
  approvals = [];
  created_at = 50;
}

abbrev submitted_card : Task
submitted_card =
    let acceptance = review_card.acceptance in
    record review_card {
      acceptance = record acceptance {
        submissions = card_review ∷ [];
        current_submission = some 30;
      };
    }

abbrev review_board : RuntimeState
review_board =
    let store = idle_board.store in
    record idle_board {
      tasks = (7, submitted_card) ∷ [];
      store = record store { tasks = submitted_card ∷ [] };
    }

abbrev release_world : ReleaseWorld
release_world = record { env = calm; capture = λ t. ok seen_tree; show_release = λ id. [] }

abbrev changed_world : ReleaseWorld
changed_world = record release_world {
  capture = λ t. ok (record seen_tree { fingerprint = 71 ∷ [] });
}

abbrev accept_request : TaskRequest
accept_request = record {
  project_id = some 1;
  request_id = 61;
  operation =
      TaskOperation.accept_release (record { task_id = 7; expected_revision = 3 } ∷ [])
        (ReleaseDestination.new (text "v1"));
}

abbrev accepted_batch : Answered
accepted_batch =
    finish_batch release_world accept_request true 1 (ReleaseDestination.new (text "v1"))
      (submitted_card ∷ []) review_board (prepare_all release_world true 900 (submitted_card ∷ []))

abbrev answered_tasks : Result TaskError TaskResponse → List Task
answered_tasks (ok (TaskResponse.release_batch ts releases)) = ts
answered_tasks _ = []

abbrev answered_releases : Result TaskError TaskResponse → List ProjectRelease
answered_releases (ok (TaskResponse.release_batch ts releases)) = releases
answered_releases _ = []

accept_new : task_replay calm.to_json calm.disk accept_request review_board.store ≡ ok none
unfolding task_replay replayed find
accept_new = refl

accept_ok :
    finish_batch release_world accept_request true 1
      (ReleaseDestination.new (text "v1"))
      (submitted_card ∷ [])
      review_board
      (prepare_all release_world true 900 (submitted_card ∷ []))
    ≡ (
      accepted_batch.0,
      ok (
          TaskResponse.release_batch
            (answered_tasks accepted_batch.1)
            (answered_releases accepted_batch.1)),
    )
unfolding finish_batch prepare_all prepare_one prepare_release_acceptance current_review find
    text_eq transition check_revision apply_action is_blank text is_whitespace
    commit_unless_replayed task_replay replayed save_batch plan_batch recheck lookup task_live
    waiting_in_queue has_key assigned_live created_release new_release byte_len len_utf8 values
    release_of saved_batch save_release_batch insert_release write_batch release_changes
    write_released released finish touch write_task write_audit put_task audit write_receipt
accept_ok = refl

finish_batch_unchanged_example :
    (all (is_unchanged release_world) (submitted_card ∷ []) ≡ true)
    × (all is_done (answered_tasks accepted_batch.1) ≡ true)
    × (length (answered_tasks accepted_batch.1) ≡ 1)
finish_batch_unchanged_example =
    finish_batch_unchanged release_world accept_request 1 (ReleaseDestination.new (text "v1"))
      (submitted_card ∷ []) 900 review_board accepted_batch.0 (answered_tasks accepted_batch.1)
      (answered_releases accepted_batch.1) accept_new accept_ok

abbrev refused_answer : Answered
refused_answer =
    finish_batch changed_world accept_request true 1 ReleaseDestination.other (submitted_card ∷ [])
      review_board (prepare_all changed_world true 900 (submitted_card ∷ []))

abbrev reason_of : Result TaskError TaskResponse → TaskError
reason_of (err e) = e
reason_of (ok answer) = invalid []

refused_ok :
    finish_batch changed_world accept_request true 1 ReleaseDestination.other
      (submitted_card ∷ [])
      review_board
      (prepare_all changed_world true 900 (submitted_card ∷ []))
    ≡ (refused_answer.0, err (reason_of refused_answer.1))
unfolding finish_batch prepare_all prepare_one prepare_release_acceptance current_review find
    text_eq
refused_ok = refl

finish_batch_refused_example :
    (refused_answer.0.tasks ≡ review_board.tasks)
    × (refused_answer.0.store ≡ review_board.store)
    × (refused_answer.0.sent ≡ review_board.sent)
finish_batch_refused_example =
    finish_batch_refused changed_world accept_request true 1 ReleaseDestination.other
      (submitted_card ∷ []) review_board refused_answer.0
      (prepare_all changed_world true 900 (submitted_card ∷ [])) (reason_of refused_answer.1)
      refused_ok
