-- ===== src/Loop/Worker.antt =====
-- The worker of a turn of `acceptance_cycle`, and `clear_attempt_group`
-- (crates/ditchd/src/acceptance_runtime.rs).
use ditch.Prelude.{
  ℕ, ◌==◌, Bool, true, false, not, ◌&&◌, ◌||◌, Option, none, some, or_else, List, [], ◌∷◌, ◌++◌,
  find, lookup, member, delete, Text, text, Result, ok, err, ◌>>=◌, ◌>>◌, if◌then◌else◌,
}
use ditch.Core.{AgentId, AgentState, Task, TaskAttempt, AttemptResult}
use ditch.Store.{Store, read}
use ditch.Store.Reservations.{writer_stopped, reserved_group}
use ditch.Runtime.State.{RuntimeState, Env, AgentRecord}
use ditch.Runtime.Sync.{is_completed}
use ditch.Loop.{Outside, Kept, attempt_update, retained_summary}
use ditch.Loop.Turn.{
  Boundary, Wakeup, Turn, Setup, Stop, Step, is_stopped, boundary_code, stop_if, infrastructure,
  saved_or_fail, or_panic,
}

abbrev pub launched : Option Text × RuntimeState → Step RuntimeState
launched (some message, s) = err (Stop.failed (text "launch_failed") message s)
launched (none, s) = ok s

-- The loop that waits for the worker's end: a signal without the child's end goes on, and the last
-- wait meets the deadline.
unfoldable pub at_boundary : Turn → AgentId → Boundary → RuntimeState → Step (Unit {0})
at_boundary t owner b s =
    stop_if (is_stopped b) (boundary_code b) (text "Worker stopped at the loop boundary")
      (t.stop_agent owner s)

unfoldable pub wait_worker : Turn → AgentId → List Wakeup → RuntimeState → Step RuntimeState
wait_worker t owner [] s = do
  at_boundary t owner t.last s
  err (Stop.failed (text "budget_exhausted") (text "Worker deadline reached") s)
wait_worker t owner (w ∷ more) s =
    let s' = w.meanwhile s in
    let rest = wait_worker t owner more s' in
    at_boundary t owner w.boundary s
    >> (if w.cancelled || member owner s'.children then rest else ok s')

-- `clear_attempt_group`. `exits` tells whether a group that runs has gone two seconds later.
abbrev pub group_runs : Env → Option ℕ → Bool
group_runs env none = false
group_runs env (some pid) = env.process_group_exists pid

unfoldable pub kill_group : AgentId → Option ℕ → Bool → RuntimeState → RuntimeState
kill_group owner none running s = s
kill_group owner (some pid) running s =
    if running && not (member owner s.validator_owners)
    then record s { killed = pid ∷ s.killed }
    else s

abbrev pub stopped_store : RuntimeState → Result Text Store → Kept (Unit {0})
stopped_store s (err e) = (s, err e)
stopped_store s (ok store) = (record s { store = store }, ok tt)

unfoldable pub clear_validator : Env → AgentId → RuntimeState → Kept (Unit {0})
clear_validator env owner s =
    let s' = record s { validator_owners = delete owner s.validator_owners } in
    stopped_store s' (writer_stopped env.disk owner s'.store)

unfoldable pub clear_group : Env → Bool → AgentId → RuntimeState → Kept (Unit {0})
clear_group env exits owner s =
    let group = reserved_group owner s.store.reservations in
    let killed = kill_group owner group (group_runs env group) s in
    if group_runs env group && not exits
    then (killed, err (text "Worker descendants are still exiting; workspace remains reserved"))
    else clear_validator env owner killed

abbrev pub after_read :
    Env → Bool → AgentId → RuntimeState → Result Text (Unit {0}) → Kept (Unit {0})
after_read env exits owner s (err e) = (s, err e)
after_read env exits owner s (ok done) = clear_group env exits owner s

unfoldable pub clear_attempt_group : Env → Bool → AgentId → RuntimeState → Kept (Unit {0})
clear_attempt_group env exits owner s = after_read env exits owner s (read env.disk)

-- The worker's record, with the reason of an end that is no success.
abbrev pub worker_record : RuntimeState → Option AgentRecord → Step AgentRecord
worker_record s none = err (Stop.failed infrastructure (text "Worker record missing") s)
worker_record s (some r) = ok r

-- `{:?}` of an agent's state.
abbrev pub state_name : AgentState → Text
state_name AgentState.starting = text "Starting"
state_name AgentState.working = text "Working"
state_name AgentState.stopping = text "Stopping"
state_name AgentState.awaiting_approval = text "AwaitingApproval"
state_name AgentState.blocked = text "Blocked"
state_name AgentState.idle = text "Idle"
state_name AgentState.completed = text "Completed"
state_name AgentState.failed = text "Failed"
state_name AgentState.stale = text "Stale"
state_name AgentState.interrupted = text "Interrupted"
state_name AgentState.unknown = text "Unknown"

-- The approvals and the usage that were saved for the attempt meanwhile.
abbrev pub with_saved : Option TaskAttempt → TaskAttempt → TaskAttempt
with_saved none a = a
with_saved (some saved) a = record a {
  approvals = saved.approvals;
  provider_usage = saved.provider_usage;
}

unfoldable pub worked_attempt : Outside → AgentRecord → Task → TaskAttempt → TaskAttempt
worked_attempt o r t a =
    with_saved (find (λ (b : TaskAttempt). b.id == a.id) t.acceptance.attempts) (record a {
      thread_id = r.run.native_session_id;
      execution_profile = r.run.execution_profile;
      summary = retained_summary o r;
    })

-- The worker's record, which must be a success, and what was saved for the attempt.
unfoldable pub report_work :
    Setup → Turn → AgentId → TaskAttempt → RuntimeState → Step (RuntimeState × TaskAttempt)
report_work c t owner a s = do
  r ← worker_record s (lookup owner s.agents)
  stop_if (not (is_completed r.run.state)) (text "worker_blocked")
      (elim r.terminal_failure [
        | none ↦ text "Worker ended as " ++ state_name r.run.state
        | some reason ↦ reason
      ])
      s
  task ← or_panic s (lookup c.id s.tasks)
  ok (s, worked_attempt t.finish r task a)

abbrev pub working_attempt : TaskAttempt → TaskAttempt
working_attempt a = record a { result = AttemptResult.working }

-- The worker: launched, waited for, and its group gone.
unfoldable pub work :
    Setup → Turn → AgentId → TaskAttempt → RuntimeState → Step (RuntimeState × TaskAttempt)
work c t owner a s = do
  s1 ← launched (t.launch owner a.thread_id a.prompt s)
  saved ← saved_or_fail (attempt_update t.start c.id (working_attempt a) s1)
  s2 ← wait_worker t owner t.wakeups saved.0
  cleared ← saved_or_fail (clear_attempt_group t.finish.env t.group_exits owner s2)
  report_work c t owner (working_attempt a) cleared.0

-- A validation alone takes the summary of the review, or of the last attempt.
unfoldable pub last_summary : List TaskAttempt → Option Text
last_summary [] = none
last_summary (a ∷ []) = a.summary
last_summary (a ∷ b ∷ more) = last_summary (b ∷ more)

abbrev pub validated_attempt : Setup → TaskAttempt → TaskAttempt
validated_attempt c a = record a {
  summary = or_else c.initial.review_summary (last_summary c.initial.acceptance.attempts);
}

abbrev pub work_or_reuse :
    Setup → Turn → Bool → AgentId → TaskAttempt → RuntimeState → Step (RuntimeState × TaskAttempt)
work_or_reuse c t true owner a s = ok (s, validated_attempt c a)
work_or_reuse c t false owner a s = work c t owner a s
