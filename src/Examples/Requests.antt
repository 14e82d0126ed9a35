-- ===== src/Examples/Requests.antt =====
-- A project's queue with two cards, a third card that enters it, and an agent for that card.
use ditch.Prelude.{ℕ, ◌≡◌, refl, false, none, some, [], ◌∷◌, text, Result, ok, err, Option}
use ditch.Core.{
  Task, TaskRequest, TaskResponse, TaskOperation, TaskError, AgentExecutionProfile, AgentTransport,
  AgentApprovalPreset, AgentRun, AgentState, AgentProvider, CodexLaunchMode, TaskExecutionQueue,
}
use ditch.Task.Basics.{waiting_in_queue}
use ditch.Store.{task_replay}
use ditch.Runtime.State.{RuntimeState, AgentRecord}
use ditch.Queue.Edit.{Edit}
use ditch.Queue.Enqueue.{enqueue, queue_edit}
use ditch.Queue.Enqueue.Tail.{IsTail, enqueue-IsTail}
use ditch.Queue.Reorder.{reorder}
use ditch.Queue.Reorder.Laws.{IsOrdered, reorder-IsOrdered}
use ditch.Queue.Select.{select_agent}
use ditch.Queue.Select.Links.{IsSelected, select-IsSelected}
use ditch.Queue.Requests.{board_queue_request, Reply}
use ditch.Queue.Requests.Accepted.{IsAccepted, request-IsAccepted}
use ditch.Examples.Data.{todo_card}
use ditch.Examples.Claims.{calm, idle_board, queued_card}
use ditch.Queue.Edit.{checked_position}
use ditch.Queue.Edit.{queue_max}
use ditch.Prelude.{values}
use ditch.Queue.Reorder.{insert_at}
use ditch.Queue.Reorder.{insert_before}
use ditch.Queue.Reorder.{pending_tasks}
use ditch.Queue.Reorder.{sort_by_position}
use ditch.Prelude.{keep}
use ditch.Queue.Reorder.{insert_by_position}
use ditch.Queue.Reorder.{number_tasks}
use ditch.Queue.Select.{bind}
use ditch.Queue.Select.{bind_record}
use ditch.Prelude.{lookup}
use ditch.Queue.Board.{board_agent_idle}
use ditch.Prelude.{member}
use ditch.Prelude.{has_key}
use ditch.Queue.Select.{detach_other}
use ditch.Store.{replayed}
use ditch.Prelude.{find}
use ditch.Queue.Requests.{targeted_request}
use ditch.Queue.Requests.{queue_target}
use ditch.Queue.Requests.{new_request}
use ditch.Queue.Requests.{save_edit}
use ditch.Queue.Requests.{checked_edit}
use ditch.Task.Basics.{check_revision}
use ditch.Runtime.State.{task_live}
use ditch.Runtime.State.{assigned_live}
use ditch.Queue.Requests.{edit}
use ditch.Queue.Requests.{committed}
use ditch.Store.{save_task_agent_changes}
use ditch.Store.{write_changes}
use ditch.Store.{write_task}
use ditch.Queue.Enqueue.{queue_at}
use ditch.Task.Basics.{touch}
use ditch.Store.{write_audit}
use ditch.Store.{put_task}
use ditch.Task.Basics.{audit}
use ditch.Store.{write_agents}
use ditch.Store.{write_receipt}

abbrev pub asking : AgentExecutionProfile
asking = record {
  transport = AgentTransport.app_server;
  skills = [];
  model = none;
  reasoning_effort = none;
  approval = AgentApprovalPreset.ask;
}

abbrev entry_at : ℕ → TaskExecutionQueue
entry_at n = record { agent_id = none; position = n; profile = asking; feedback = none }

abbrev first_card : Task
first_card = record queued_card { id = 8; execution_queue = some (entry_at 2) }

abbrev second_card : Task
second_card = record queued_card { id = 9; execution_queue = some (entry_at 4) }

abbrev pub helper_run : AgentRun
helper_run = record {
  coordinator_group = none;
  id = 3;
  provider = AgentProvider.codex;
  state = AgentState.idle;
  can_stop = false;
  launch_mode = CodexLaunchMode.exec;
  execution_profile = asking;
  project_id = 1;
  task_id = none;
  pane_id = none;
  native_session_id = some (text "t-3");
  codex_title = none;
  naming_failed = false;
  user_title = none;
  origin_codex_home = none;
  current_prompt = none;
  last_visible_action = none;
  state_confidence = 100;
  state_evidence = [];
  started_at = 5;
  updated_at = 6;
  finished_at = none;
  exit_code = none;
  resume_block_reason = none;
}

abbrev helper : AgentRecord
helper = record {
  run = helper_run;
  project_root = text "/w";
  messages = [];
  terminal_failure = none;
}

abbrev pub queue_board : RuntimeState
queue_board = record idle_board {
  store = record idle_board.store { tasks = todo_card ∷ second_card ∷ first_card ∷ [] };
  tasks = (7, todo_card) ∷ (9, second_card) ∷ (8, first_card) ∷ [];
  agents = (3, helper) ∷ [];
}

-- The edit of a granted request.
abbrev edit_of : Edit → Result TaskError Edit → Edit
edit_of old (ok e) = e
edit_of old (err e) = old

abbrev no_edit : Edit
no_edit = record { task = todo_card; changes = []; agents = []; drawn = 0 }

abbrev third_edit : Edit
third_edit = queue_edit calm todo_card asking 900 5

enqueue_ok : enqueue calm asking todo_card queue_board ≡ ok third_edit
unfolding enqueue waiting_in_queue checked_position queue_max values
enqueue_ok = refl

enqueue-IsTail_example : IsTail queue_board todo_card third_edit.task
enqueue-IsTail_example = enqueue-IsTail calm asking todo_card queue_board third_edit refl enqueue_ok

abbrev moved_edit : Edit
moved_edit = edit_of no_edit (reorder calm (some 8) second_card queue_board)

reorder_ok : reorder calm (some 8) second_card queue_board ≡ ok moved_edit
unfolding reorder waiting_in_queue insert_at insert_before pending_tasks sort_by_position keep
    values insert_by_position number_tasks checked_position queue_max
reorder_ok = refl

reorder-IsOrdered_example : IsOrdered (some 8) second_card queue_board moved_edit
unfolding values
reorder-IsOrdered_example =
    reorder-IsOrdered calm (some 8) second_card queue_board moved_edit (refl, (refl, (refl, tt)))
      reorder_ok

abbrev chosen_edit : Edit
chosen_edit = edit_of no_edit (select_agent calm (some 3) none none todo_card queue_board)

select_ok : select_agent calm (some 3) none none todo_card queue_board ≡ ok chosen_edit
unfolding select_agent bind bind_record lookup board_agent_idle member has_key detach_other
select_ok = refl

select-IsSelected_example : IsSelected calm (some 3) none none todo_card queue_board chosen_edit
select-IsSelected_example =
    select-IsSelected calm (some 3) none none todo_card queue_board chosen_edit select_ok

abbrev enqueue_request : TaskRequest
enqueue_request = record {
  project_id = some 1;
  request_id = 70;
  operation = TaskOperation.enqueue 7 1 asking;
}

abbrev state_of : Option Reply → RuntimeState
state_of none = queue_board
state_of (some (s, answer)) = s

abbrev enqueued_board : RuntimeState
enqueued_board = state_of (board_queue_request calm enqueue_request queue_board)

enqueue_new : task_replay calm.to_json calm.disk enqueue_request queue_board.store ≡ ok none
unfolding task_replay replayed find
enqueue_new = refl

request_ok :
    board_queue_request calm enqueue_request queue_board
    ≡ some (enqueued_board, TaskResponse.changed third_edit.task)
unfolding board_queue_request targeted_request queue_target new_request task_replay replayed find
    save_edit checked_edit lookup check_revision task_live waiting_in_queue has_key assigned_live
    edit enqueue checked_position queue_max values committed save_task_agent_changes write_changes
    queue_edit write_task queue_at touch write_audit put_task audit write_agents write_receipt
request_ok = refl

request-IsAccepted_example :
    IsAccepted calm enqueue_request queue_board enqueued_board third_edit.task
request-IsAccepted_example =
    request-IsAccepted calm enqueue_request queue_board enqueued_board third_edit.task enqueue_new
      request_ok
