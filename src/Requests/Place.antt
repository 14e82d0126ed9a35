-- ===== src/Requests/Place.antt =====
-- The operation `Move` of `prepare_task_request` (crates/ditchd/src/task_runtime.rs): the action
-- that a drag between columns stands for, the place among the column's cards, and its order key.
pub mod Sorted
pub mod Split
pub mod Balance
pub mod Arrives
pub mod Laws
use ditch.Prelude.{
  ℕ, zero, suc, ◌+◌, ◌-◌, ◌*◌, ◌/◌, ◌==◌, ltb, Bool, true, false, not, ◌&&◌, Option, none, some,
  unwrap_or, List, [], ◌∷◌, keep, length, Text, text, Result, ok, err, ◌>>=◌, ◌>>◌, reject_if,
  if◌then◌else◌,
}
use ditch.Core.{
  AgentExecutionProfile, AgentRun, Project, ProjectId, Task, TaskAction, TaskActor, TaskAudit,
  TaskColumn, TaskError, TaskErrorCode, TaskId,
}
use ditch.Task.Basics.{audit, column, column_eq, task_error, touch}
use ditch.Task.Workflow.{transition}
use ditch.Runtime.State.{RuntimeState, Env, tasks_of}
use ditch.Requests.Create.{saturating_add, sort_by_key}

-- The variables `next`, `audit`, `changes`, `linked` and `start` behind the `match`, and the count
-- of identities drawn.
pub record Change : Type 0 where
  pub next : Task
  pub entry : TaskAudit
  pub changes : List (Task × TaskAudit)
  pub linked : Option AgentRun
  pub start : Option (Task × Project × AgentExecutionProfile)
  pub drawn : ℕ

abbrev pub illegal : Text → TaskError
illegal message = task_error TaskErrorCode.illegal_transition message

-- The action for a move between two columns.
unfoldable pub move_action : TaskColumn → TaskColumn → Result TaskError TaskAction
move_action TaskColumn.backlog TaskColumn.todo = ok TaskAction.prioritize
move_action TaskColumn.todo TaskColumn.backlog = ok TaskAction.return_to_backlog
move_action TaskColumn.todo TaskColumn.in_progress =
    err (illegal (text "Use Run selected or Start Task Agent to begin execution."))
move_action TaskColumn.in_progress TaskColumn.todo =
    ok (TaskAction.return_to_todo (text "Moved back to Todo by user"))
move_action _ _ =
    err (illegal (text "Use Submit for Review, Request Changes, Accept, or Reopen for this move."))

unfoldable pub change_column : Env → TaskColumn → Task → ℕ → Result TaskError (Task × TaskAudit)
change_column env to t drawn = do
  action ← move_action (column t) to
  transition env.now (env.uuid drawn) t action TaskActor.user t.revision false

abbrev pub reordered : Env → Task → ℕ → Task × TaskAudit
reordered env t drawn =
    let next = touch env.now t in
    (
      next,
      audit env.now (env.uuid drawn) next TaskActor.user (text "reorder") (some (column t)) none,
    )

unfoldable pub moved_task : Env → TaskColumn → Task → ℕ → Result TaskError (Task × TaskAudit)
moved_task env to t drawn =
    if column_eq to (column t) then ok (reordered env t drawn) else change_column env to t drawn

-- `siblings`: the other cards of the column, in its order.
unfoldable pub is_sibling : ProjectId → TaskColumn → TaskId → Task → Bool
is_sibling project_id c id t =
    not (t.id == id) && t.project_id == project_id && column_eq (column t) c && not t.archived

unfoldable pub siblings_of : RuntimeState → ProjectId → TaskColumn → TaskId → List Task
siblings_of s project_id c id = sort_by_key (keep (is_sibling project_id c id) (tasks_of s))

-- `position(|t| t.id == *before)`.
abbrev pub next_index : Option ℕ → Option ℕ
next_index none = none
next_index (some i) = some (suc i)

unfoldable pub position_of : TaskId → List Task → Option ℕ
position_of id [] = none
position_of id (t ∷ ts) =
    let rest = next_index (position_of id ts) in if t.id == id then some zero else rest

abbrev pub found_index : Option ℕ → Result TaskError ℕ
found_index none = err (
    task_error TaskErrorCode.revision_conflict
      (text "The destination card moved. Refresh the board."))
found_index (some i) = ok i

unfoldable pub target_index : Option TaskId → List Task → Result TaskError ℕ
target_index none siblings = ok (length siblings)
target_index (some before) siblings = found_index (position_of before siblings)

-- The key of the card at an index.
unfoldable pub key_at : ℕ → List Task → Option ℕ
key_at i [] = none
key_at zero (t ∷ ts) = some t.order_key
key_at (suc i) (t ∷ ts) = key_at i ts

-- `low`; the index is at most the length.
abbrev pub low_key : ℕ → List Task → ℕ
low_key zero siblings = 0
low_key (suc i) siblings = unwrap_or (key_at i siblings) 0

abbrev pub high_key : ℕ → List Task → ℕ
high_key i siblings = unwrap_or (key_at i siblings) (saturating_add (low_key i siblings) 2048)

-- `Vec::insert`.
unfoldable pub insert_at : ℕ → Task → List Task → List Task
insert_at zero t ts = t ∷ ts
insert_at (suc i) t [] = t ∷ []
insert_at (suc i) t (u ∷ us) = u ∷ insert_at i t us

-- The loop that gives the keys 1024, 2048, … to the cards; the moved one is changed by its caller.
abbrev pub balanced_key : ℕ → ℕ
balanced_key i = (i + 1) * 1024

unfoldable pub rebalanced : Env → ℕ → Task → Task
rebalanced env i t = touch env.now (record t { order_key = balanced_key i })

unfoldable pub rebalanced_change : Env → ℕ → Task → ℕ → Task × TaskAudit
rebalanced_change env i t drawn =
    let u = rebalanced env i t in
    (u, audit env.now (env.uuid drawn) u TaskActor.daemon (text "rebalance") (some (column u)) none)

unfoldable pub rebalance : Env → TaskId → ℕ → List Task → ℕ → List (Task × TaskAudit)
rebalance env id i [] drawn = []
rebalance env id i (t ∷ ts) drawn =
    let skipped = rebalance env id (suc i) ts drawn in
    let rest = rebalance env id (suc i) ts (suc drawn) in
    if t.id == id then skipped else rebalanced_change env i t drawn ∷ rest

-- `next.order_key`, at the moved card's turn.
unfoldable pub rebalanced_key : Task → ℕ → List Task → ℕ
rebalanced_key next i [] = next.order_key
rebalanced_key next i (t ∷ ts) =
    let rest = rebalanced_key next (suc i) ts in if t.id == next.id then balanced_key i else rest

-- The key in the gap, or new keys for the column.
unfoldable pub place : Env → ℕ → List Task → Task × TaskAudit → ℕ → Change
place env index siblings moved drawn =
    let next = moved.0 in
    let low = low_key index siblings in
    let high = high_key index siblings in
    let order = insert_at index next siblings in
    if ltb (saturating_add low 1) high
    then (record {
      next = record next { order_key = low + (high - low) / 2 };
      entry = moved.1;
      changes = [];
      linked = none;
      start = none;
      drawn = suc drawn;
    })
    else (record {
      next = record next { order_key = rebalanced_key next 0 order };
      entry = moved.1;
      changes = rebalance env next.id 0 order (suc drawn);
      linked = none;
      start = none;
      drawn = suc drawn + length siblings;
    })

-- The arm `Move`.
unfoldable pub move_task :
    Env → TaskColumn → Option TaskId → Task → RuntimeState → Result TaskError Change
move_task env to before t s = do
  reject_if t.archived (illegal (text "Reopen this task before moving it."))
  moved ← moved_task env to t s.drawn
  let siblings = siblings_of s t.project_id to t.id
  index ← target_index before siblings
  ok (place env index siblings moved s.drawn)
