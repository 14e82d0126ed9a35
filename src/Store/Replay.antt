-- ===== src/Store/Replay.antt =====
-- Retries of a request: its receipt and `task_replay` (crates/ditch_store/src/tasks.rs).
use ditch.Prelude.{Option, ◌≡◌, Bool, true, false, List, Text, ok}
use ditch.Core.{ProjectRelease, Task, TaskAudit, TaskResponse, AgentRun}
use ditch.Store.{
  Store, Disk, Receipt, save_task_agent_changes, set_task_setting_receipt, delete_draft_task,
  refresh, idempotency_conflict,
}
use ditch.Store.Releases.{save_release_batch}

-- The stores that the transactions on tasks make of a store.
pub data Later (s : Store) : Store → Type 0 where
  unchanged : Later s s
  saved :
      {m n : Store}
      → Later s m
      → (disk : Disk) (changes : List (Task × TaskAudit)) (receipt : Option Receipt)
        (runs : List AgentRun)
      → save_task_agent_changes disk changes receipt runs m ≡ ok n
      → Later s n
  set :
      {m n : Store}
      → Later s m
      → (disk : Disk) (key value : Text) (r : Receipt)
      → set_task_setting_receipt disk key value r m ≡ ok n
      → Later s n
  deleted :
      {m n : Store}
      → Later s m
      → (disk : Disk) (t : Task) (r : Receipt) → delete_draft_task disk t r m ≡ ok n
      → Later s n
  released :
      {m n : Store}
      → Later s m
      → (disk : Disk) (release : Option ProjectRelease) (changes : List (Task × TaskAudit))
        (r : Receipt)
      → save_release_batch disk release changes r m ≡ ok n
      → Later s n

-- The outcome that a retry must have: the stored response, refreshed to the tasks of today, for the
-- same text, and a conflict for another text.
abbrev pub answer : Store → Bool → TaskResponse → TaskResponse
answer s true response = refresh s.tasks response
answer s false response = idempotency_conflict
