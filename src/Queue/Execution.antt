-- ===== src/Queue/Execution.antt =====
-- `board_execution_request` (crates/ditchd/src/task_queue_runtime.rs): the pause switch of a
-- project's queue, with its revision and its receipt.
pub mod Switch
pub mod Laws
use ditch.Prelude.{
  ℕ, ◌+◌, ◌^◌, ◌==◌, ltb, Bool, true, false, not, ◌&&◌, Option, none, some, find, Text, text,
  opt_eq, Result, ok, err, if◌then◌else◌,
}
use ditch.Core.{BoardExecutionState, Project, TaskErrorCode, TaskRequest, TaskResponse, is_remote}
use ditch.Task.Basics.{task_error}
use ditch.Store.{Store, receipt_of, set_task_setting_receipt, task_replay}
use ditch.Runtime.State.{RuntimeState, Env, ServerEvent, archived, send}
use ditch.Queue.Board.{board_execution}

abbrev pub Answer : Type 0
Answer = RuntimeState × TaskResponse

abbrev pub refused : TaskErrorCode → Text → TaskResponse
refused code message = TaskResponse.error (task_error code message)

abbrev pub bool_eq : Bool → Bool → Bool
bool_eq true b = b
bool_eq false b = not b

-- The new switch, with a revision more where it changes; `none` where the `u64` has no next one.
unfoldable pub switched : Bool → BoardExecutionState → Option BoardExecutionState
switched paused x =
    if bool_eq x.paused paused
    then some x
    else if ltb (x.revision + 1) (2 ^ 64)
    then some (record x { paused = paused; revision = x.revision + 1 })
    else none

unfoldable pub publish_execution : RuntimeState → BoardExecutionState → Result Text Store → Answer
publish_execution s x (err e) = (s, refused TaskErrorCode.storage e)
publish_execution s x (ok store) = (
  send (ServerEvent.board_execution_changed x) (record s { store = store }),
  TaskResponse.board_execution x,
)

unfoldable pub store_execution :
    Env → TaskRequest → Project → RuntimeState → Option BoardExecutionState → Answer
store_execution env request project s none =
    (s, refused TaskErrorCode.invalid_input (text "Board execution revision limit reached"))
store_execution env request project s (some x) = publish_execution s x (
    set_task_setting_receipt env.disk (env.execution_key project.id) (env.execution_json x)
      (receipt_of env.to_json request (TaskResponse.board_execution x)) s.store)

-- The request to change the switch, or to read it.
unfoldable pub control :
    Env
    → TaskRequest
    → Option Bool
    → Option ℕ
    → Project
    → RuntimeState
    → Result Text BoardExecutionState
    → Answer
control env request paused expected project s (err e) = (s, refused TaskErrorCode.storage e)
control env request none expected project s (ok x) = (s, TaskResponse.board_execution x)
control env request (some paused) expected project s (ok x) =
    if opt_eq expected (some x.revision)
    then store_execution env request project s (switched paused x)
    else (
      s,
      refused TaskErrorCode.revision_conflict
          (text "Board execution changed elsewhere. Refresh its status and try again."),
    )

abbrev pub available : Option ℕ → Project → Bool
available none p = false
available (some id) p = p.id == id && not (is_remote p) && not (archived p.archived_at)

unfoldable pub on_project :
    Env → TaskRequest → Option Bool → Option ℕ → RuntimeState → Option Project → Answer
on_project env request paused expected s none =
    (s, refused TaskErrorCode.not_found (text "Choose an available project to control its queue."))
on_project env request paused expected s (some p) =
    control env request paused expected p s (board_execution env s p.id)

unfoldable pub replay_or :
    Env
    → TaskRequest
    → Option Bool
    → Option ℕ
    → RuntimeState
    → Result Text (Option TaskResponse)
    → Answer
replay_or env request paused expected s (err e) = (s, refused TaskErrorCode.storage e)
replay_or env request paused expected s (ok (some replay)) = (s, replay)
replay_or env request paused expected s (ok none) =
    on_project env request paused expected s (find (available request.project_id) s.projects)

-- `board_execution_request`, for the operation `BoardExecution { paused, expected_revision }`.
unfoldable pub board_execution_request :
    Env → TaskRequest → Option Bool → Option ℕ → RuntimeState → Answer
board_execution_request env request paused expected s =
    replay_or env request paused expected s (task_replay env.to_json env.disk request s.store)
