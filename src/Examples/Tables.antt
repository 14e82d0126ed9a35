-- ===== src/Examples/Tables.antt =====
-- A store with one card, and the transaction that records its start.
use ditch.Prelude.{◌≡◌, inl, refl, true, some, List, [], ◌∷◌, Text, text, ok, arith}
use ditch.Core.{Task, TaskAudit, TaskRequest, TaskResponse, TaskOperation, TaskAction}
use ditch.Store.{
  Store, Disk, Receipt, save_task_agent_changes, receipt_of, write_changes, write_task, write_audit,
  write_receipt, put_task, write_agents,
}
use ditch.Store.Readback.{IsWritten, save_read_back}
use ditch.Store.Keys.{IsKeyed, transactions-IsKeyed}
use ditch.Examples.Data.{todo_card, started_card, started_entry}

abbrev pub open_disk : Disk
open_disk = record { readable = true; writable = true }

abbrev pub one_card : Store
one_card = record {
  projects = 1 ∷ [];
  tasks = todo_card ∷ [];
  audits = [];
  agents = [];
  receipts = [];
  settings = [];
  reservations = [];
  attention = [];
  releases = [];
}

abbrev start_request : TaskRequest
start_request = record {
  project_id = some 1;
  request_id = 55;
  operation = TaskOperation.transition 7 1 TaskAction.start;
}

abbrev other_request : TaskRequest
other_request = record { project_id = some 1; request_id = 55; operation = TaskOperation.get 7 }

-- A printer that tells the two requests apart.
abbrev shown : TaskOperation → Text
shown (TaskOperation.get id) = id ∷ []
shown _ = []

abbrev printed : TaskRequest → Text
printed r = shown r.operation

abbrev started_changes : List (Task × TaskAudit)
started_changes = (started_card, started_entry) ∷ []

abbrev start_receipt : Receipt
start_receipt = receipt_of printed start_request (TaskResponse.changed started_card)

abbrev started_store : Store
started_store = record one_card {
  tasks = started_card ∷ [];
  audits = started_entry ∷ [];
  receipts = start_receipt ∷ [];
}

start_saved :
    save_task_agent_changes open_disk started_changes (some start_receipt) [] one_card
    ≡ ok started_store
unfolding save_task_agent_changes write_changes write_task write_audit put_task write_agents
    write_receipt
start_saved = refl

save_read_back_example : IsWritten started_changes (some start_receipt) [] one_card started_store
save_read_back_example =
    save_read_back open_disk started_changes (some start_receipt) [] one_card started_store
      start_saved

-- A setting is stored after the card was started.
abbrev switch_receipt : Receipt
switch_receipt = record { id = 56; request_json = []; response = TaskResponse.deleted 9 }

abbrev set_store : Store
set_store = record started_store {
  receipts = switch_receipt ∷ start_receipt ∷ [];
  settings = (1 ∷ [], 2 ∷ []) ∷ [];
}

one_card-IsKeyed : IsKeyed one_card
one_card-IsKeyed = ground arith

transactions-IsKeyed_example : IsKeyed started_store
transactions-IsKeyed_example =
    transactions-IsKeyed open_disk started_changes (some start_receipt) [] (text "board")
      (text "{}") start_receipt todo_card one_card started_store one_card-IsKeyed (inl start_saved)
