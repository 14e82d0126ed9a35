-- ===== src/Examples/Moves.antt =====
-- A card that is brought from the backlog before the second card of Todo, with a gap and without.
use ditch.Prelude.{
  ℕ, ◌≡◌, refl, some, none, List, [], ◌∷◌, map, values, Option, Result, ok, err, keep, find, lookup,
  has_key,
}
use ditch.Core.{
  Task, TaskActor, TaskAudit, TaskColumn, TaskError, TaskOperation, TaskRequest, TaskResponse,
  TaskState,
}
use ditch.Task.Basics.{audit, check_revision, touch, waiting_in_queue}
use ditch.Store.{task_replay, replayed}
use ditch.Runtime.State.{RuntimeState, task_live}
use ditch.Runtime.Writers.{reap_orphan_writers, release_all, exited}
use ditch.Requests.Place.{
  Change, move_task, moved_task, change_column, move_action, target_index, position_of, siblings_of,
  is_sibling, place, key_at, rebalanced_key, rebalance, insert_at, rebalanced_change, rebalanced,
}
use ditch.Requests.Prepare.{
  Prepared, Reply, prepare_task_request, prepare, unless_replayed, on_found, on_board, task_at,
}
use ditch.Requests.Prepare.Laws.{IsCommitted, prepare_task_request-IsCommitted}
use ditch.Examples.Data.{todo_card}
use ditch.Examples.Tables.{one_card}
use ditch.Examples.Claims.{calm, idle_board}
use ditch.Task.Workflow.{transition, apply_action, finish}
use ditch.Requests.Create.{sort_by_key, insert_by_key, comes_first, saturating_add}
use ditch.Runtime.State.{assigned_live}
use ditch.Requests.Prepare.{act}
use ditch.Requests.Prepare.{commit_change}
use ditch.Requests.Prepare.{edit_task}
use ditch.Requests.Prepare.{saved_change}
use ditch.Store.{save_task_changes}
use ditch.Store.{save_task_agent_changes}
use ditch.Store.{write_changes}
use ditch.Store.{write_task}
use ditch.Requests.Prepare.{plan_next}
use ditch.Requests.Prepare.{leave_queue}
use ditch.Planning.{prepare_automatic_task_plan}
use ditch.Prelude.{is_blank}
use ditch.Prelude.{is_whitespace}
use ditch.Store.{write_audit}
use ditch.Store.{put_task}
use ditch.Store.{write_agents}
use ditch.Store.{write_receipt}

abbrev backlog_card : Task
backlog_card = record todo_card {
  state = TaskState.backlog;
  order_key = 512;
  planning = record { text = 49 ∷ []; job = none };
}

abbrev first_card : Task
first_card = record todo_card { id = 8; order_key = 1024 }

abbrev second_card : Task
second_card = record todo_card { id = 9; order_key = 2048 }

abbrev three_cards : RuntimeState
three_cards = record idle_board {
  tasks = (9, second_card) ∷ (7, backlog_card) ∷ (8, first_card) ∷ [];
  store = record one_card { tasks = backlog_card ∷ first_card ∷ second_card ∷ [] };
}

abbrev crowded : RuntimeState
crowded = record three_cards {
  tasks = (9, record second_card { order_key = 1025 }) ∷ (7, backlog_card) ∷ (8, first_card) ∷ [];
}

abbrev change_of : Result TaskError Change → Option Change
change_of (ok c) = some c
change_of (err e) = none

abbrev keys_of : Option Change → ℕ × List ℕ
keys_of none = (0, [])
keys_of (some c) = (c.next.order_key, map (λ (x : Task × TaskAudit). x.0.order_key) c.changes)

-- The middle of the gap.
gap_test :
    keys_of (change_of (move_task calm TaskColumn.todo (some 9) backlog_card three_cards))
    ≡ (1536, [])
unfolding move_task moved_task change_column move_action transition check_revision apply_action
    target_index position_of siblings_of sort_by_key keep values is_sibling insert_by_key
    comes_first place saturating_add key_at
gap_test = refl

-- No gap: 1024, 2048 and 3072.
crowded_test :
    keys_of (change_of (move_task calm TaskColumn.todo (some 9) backlog_card crowded))
    ≡ (2048, 1024 ∷ 3072 ∷ [])
unfolding move_task moved_task change_column move_action transition check_revision apply_action
    target_index position_of siblings_of sort_by_key keep values is_sibling insert_by_key
    comes_first place saturating_add key_at rebalanced_key rebalance insert_at finish touch
    rebalanced_change rebalanced
crowded_test = refl

abbrev found_change : Option Change → Change
found_change (some c) = c
found_change none = record {
  next = backlog_card;
  entry = audit 0 0 backlog_card TaskActor.user [] none none;
  changes = [];
  linked = none;
  start = none;
  drawn = 0;
}

moved : Change
moved = found_change (change_of (move_task calm TaskColumn.todo (some 9) backlog_card three_cards))

move_ok : move_task calm TaskColumn.todo (some 9) backlog_card three_cards ≡ ok moved
unfolding move_task moved_task change_column move_action transition check_revision apply_action
    target_index position_of siblings_of sort_by_key keep values is_sibling insert_by_key
    comes_first moved
move_ok = refl

abbrev move_request : TaskRequest
move_request = record {
  project_id = some 1;
  request_id = 80;
  operation = TaskOperation.move 7 1 TaskColumn.todo (some 9);
}

abbrev move_reply : Reply
move_reply = prepare_task_request calm move_request three_cards

abbrev prepared_of : Result TaskError Prepared → Prepared
prepared_of (ok r) = r
prepared_of (err e) = record { response = TaskResponse.error e; start = none; launch = none }

abbrev shown_card : TaskResponse → Task
shown_card (TaskResponse.changed t) = t
shown_card _ = backlog_card

move_new :
    task_replay calm.to_json calm.disk move_request (reap_orphan_writers calm three_cards).store
    ≡ ok none
unfolding task_replay replayed find reap_orphan_writers release_all exited
move_new = refl

reply_ok :
    prepare_task_request calm move_request three_cards
    ≡ (move_reply.0, ok (prepared_of move_reply.1))
unfolding prepare_task_request prepare unless_replayed task_replay replayed find reap_orphan_writers
    release_all exited on_found on_board task_at lookup check_revision task_live waiting_in_queue
    has_key assigned_live act commit_change edit_task move_task moved_task change_column move_action
    transition apply_action target_index position_of siblings_of sort_by_key keep values is_sibling
    insert_by_key comes_first saved_change save_task_changes save_task_agent_changes write_changes
    place saturating_add key_at write_task plan_next leave_queue finish touch
    prepare_automatic_task_plan is_blank is_whitespace write_audit put_task audit write_agents
    write_receipt
reply_ok = refl

reply_changed :
    (prepared_of move_reply.1).response
    ≡ TaskResponse.changed (shown_card (prepared_of move_reply.1).response)
unfolding prepare_task_request prepare unless_replayed task_replay replayed find reap_orphan_writers
    release_all exited on_found on_board task_at lookup check_revision task_live waiting_in_queue
    has_key assigned_live act commit_change edit_task move_task moved_task change_column move_action
    transition apply_action target_index position_of siblings_of sort_by_key keep values is_sibling
    insert_by_key comes_first saved_change save_task_changes save_task_agent_changes write_changes
    place saturating_add key_at write_task plan_next leave_queue finish touch
    prepare_automatic_task_plan is_blank is_whitespace write_audit put_task audit write_agents
    write_receipt
reply_changed = refl

prepare_task_request-IsCommitted_example :
    IsCommitted calm move_request
      (reap_orphan_writers calm three_cards)
      move_reply.0
      (shown_card (prepared_of move_reply.1).response)
prepare_task_request-IsCommitted_example =
    prepare_task_request-IsCommitted calm move_request three_cards move_reply.0 7 1
      (prepared_of move_reply.1) (shown_card (prepared_of move_reply.1).response) refl move_new
      reply_ok reply_changed
