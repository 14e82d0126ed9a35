-- ===== src/Loop.antt =====
-- The records of an acceptance loop: `acceptance_save`, `attempt_update`, `acceptance_block` and
-- `acceptance_presets` (crates/ditchd/src/acceptance_runtime.rs).
pub mod Redact
pub mod Records
pub mod Blocked
pub mod Turn
pub mod Validators
pub mod Work
pub mod Worker
pub mod Cycle
pub mod Verdict
pub mod Thread
pub mod Submitted
pub mod Review
pub mod Earned
pub mod Ends
pub mod Panics
pub mod Steps
pub mod Refused
pub mod Over
pub mod Own
pub mod Release
pub mod Batch
pub mod Accepted
use ditch.Prelude.{
  ℕ, suc, ◌*◌, ◌==◌, ltb, Bool, true, false, not, ◌&&◌, ◌||◌, Option, none, some, is_some, is_none,
  or_else, List, [], ◌∷◌, ◌++◌, any, map, take, lookup, Text, text, text_eq, Result, ok, err,
  if◌then◌else◌,
}
use ditch.Core.{
  ProjectId, TaskId, Time, Task, TaskState, TaskCondition, TaskActor, TaskAudit, TaskAttempt,
  TaskAcceptance, AttemptResult, AttemptFailure, CommandCheck, CriterionKind, result_active,
}
use ditch.Task.Basics.{touch, audit, column}
use ditch.Store.{Store, save_task_changes, setting}
use ditch.Runtime.State.{RuntimeState, Env, AgentRecord, publish_tasks}
use ditch.Runtime.Sync.{task_attention, final_summary}
use Redact.{redact}

-- `Report` of `execution_report_ready`.
pub record Report : Type 0 where
  pub summary : Text
  pub changes : List Text
  pub checks : List Text
  pub remaining_work : List Text

-- What the loop sees of the world outside at one moment: `env`, the lengths and texts of serde's
-- JSON, the variables of the process, and Rust's own texts.
pub record Outside : Type 0 where
  pub env : Env
  pub acceptance_len : TaskAcceptance → Result Text ℕ
  pub variables : List (Text × Text)
  pub uppercase : Text → Text
  pub presets_key : ProjectId → Text
  pub parse_presets : Text → Result Text (List (Text × CommandCheck))
  pub parse_report : Text → Option Report
  pub show_kind : CriterionKind → Text
  pub show_exit : Option ℕ → Text

abbrev pub redacted : Outside → Text → Text
redacted o s = redact o.uppercase o.variables s

-- A handler's new state and its answer.
abbrev pub Kept : Type 0 → Type 0
Kept A = RuntimeState × Result Text A

unfoldable pub saved_as : Task → TaskAudit → RuntimeState → Result Text Store → Kept Task
saved_as t entry s (err e) = (record s { drawn = suc s.drawn }, err e)
saved_as t entry s (ok store) =
    (publish_tasks ((t, entry) ∷ []) (record s { drawn = suc s.drawn; store = store }), ok t)

-- The task with its new revision, in one transaction with an entry of the daemon.
unfoldable pub save_touched : Env → Task → Text → RuntimeState → Kept Task
save_touched env t action s =
    let entry =
      audit env.now (env.uuid s.drawn) t TaskActor.daemon action (some (column t)) t.last_reason in
    saved_as t entry s (save_task_changes env.disk ((t, entry) ∷ []) none none s.store)

unfoldable pub save_measured : Env → Task → Text → RuntimeState → Result Text ℕ → Kept Task
save_measured env t action s (err e) = (s, err e)
save_measured env t action s (ok size) =
    if ltb (768 * 1024) size
    then (
      s,
      err (
          text
            "Acceptance evidence history exceeds 768 KiB. Create a follow-up task or narrow the workspace evidence."),
    )
    else save_touched env (touch env.now t) action s

-- `acceptance_save`.
unfoldable pub acceptance_save : Outside → Task → Text → RuntimeState → Kept Task
acceptance_save o t action s = save_measured o.env t action s (o.acceptance_len t.acceptance)

-- The approvals of `old` that `approvals` lacks, pushed one by one.
unfoldable pub push_approvals : List Text → List Text → List Text
push_approvals [] approvals = approvals
push_approvals (a ∷ old) approvals =
    push_approvals old (if any (text_eq a) approvals then approvals else approvals ++ a ∷ [])

unfoldable pub merged : TaskAttempt → TaskAttempt → TaskAttempt
merged old a = record a {
  provider_usage = or_else a.provider_usage old.provider_usage;
  approvals = push_approvals old.approvals a.approvals;
}

abbrev pub put_behind :
    TaskAttempt → Result Text (List TaskAttempt) → Result Text (List TaskAttempt)
put_behind a (err e) = err e
put_behind a (ok rest) = ok (a ∷ rest)

-- The first attempt with the identity is replaced while it is active; an unknown one is pushed.
unfoldable pub place_attempt : TaskAttempt → List TaskAttempt → Result Text (List TaskAttempt)
place_attempt a [] = ok (a ∷ [])
place_attempt a (old ∷ more) =
    let rest = place_attempt a more in
    if old.id == a.id
    then if not (result_active old.result)
      then err (text "Attempt is already terminal")
      else ok (merged old a ∷ more)
    else put_behind old rest

-- The condition that the last attempt gives.
abbrev pub result_condition : AttemptResult → TaskCondition → TaskCondition
result_condition AttemptResult.queued c = TaskCondition.queued
result_condition AttemptResult.working c = TaskCondition.running
result_condition AttemptResult.validating c = TaskCondition.running
result_condition _ c = c

unfoldable pub last_condition : List TaskAttempt → TaskCondition → TaskCondition
last_condition [] c = c
last_condition (a ∷ []) c = result_condition a.result c
last_condition (a ∷ b ∷ more) c = last_condition (b ∷ more) c

abbrev pub with_attempts : List TaskAttempt → Task → Task
with_attempts attempts t =
    let acceptance = t.acceptance in
    record t { acceptance = record acceptance { attempts = attempts } }

unfoldable pub save_attempts :
    Outside → Task → RuntimeState → Result Text (List TaskAttempt) → Kept Task
save_attempts o t s (err e) = (s, err e)
save_attempts o t s (ok attempts) =
    acceptance_save o
      (record (with_attempts attempts t) { condition = last_condition attempts t.condition })
      (text "attempt_evidence") s

unfoldable pub update_found : Outside → TaskAttempt → RuntimeState → Option Task → Kept Task
update_found o a s none = (s, err (text "Task disappeared"))
update_found o a s (some t) = save_attempts o t s (place_attempt a t.acceptance.attempts)

-- `attempt_update`; its answer is the task that was saved.
unfoldable pub attempt_update : Outside → TaskId → TaskAttempt → RuntimeState → Kept Task
attempt_update o id a s = update_found o a s (lookup id s.tasks)

-- The assigned agent's record.
abbrev pub agent_record : RuntimeState → Task → Option AgentRecord
agent_record s t = elim t.assigned_agent_id [ none ↦ none | some id ↦ lookup id s.agents ]

-- A final summary is redacted and cut.
unfoldable pub retained_summary : Outside → AgentRecord → Option Text
retained_summary o r = elim (final_summary r) [
  | none ↦ none
  | some m ↦ some (take 16000 (redacted o m))
]

abbrev pub with_record : Outside → Option AgentRecord → TaskAttempt → TaskAttempt
with_record o none a = a
with_record o (some r) a = record a {
  thread_id = r.run.native_session_id;
  execution_profile = r.run.execution_profile;
  summary = or_else a.summary (retained_summary o r);
}

unfoldable pub ended : Time → AttemptResult → Text → Text → TaskAttempt → TaskAttempt
ended now result code message a = record a {
  result = result;
  ended_at = some now;
  failure = some (record { code = code; message = message });
}

abbrev pub block_result : Text → AttemptResult
block_result code =
    if text_eq code (text "cancelled") then AttemptResult.cancelled else AttemptResult.blocked

unfoldable pub stop_attempt : Outside → Option AgentRecord → Text → Text → TaskAttempt → TaskAttempt
stop_attempt o agent code message a =
    if result_active a.result
    then ended o.env.now (block_result code) code message (with_record o agent a)
    else a

-- The task that a block leaves.
unfoldable pub blocked : Outside → Option AgentRecord → Text → Text → Task → Task
blocked o agent code message t =
    let acceptance = t.acceptance in
    record t {
      condition = TaskCondition.blocked;
      state = TaskState.running;
      last_reason = some (code ++ (text ": " ++ message));
      assigned_agent_id =
          if is_some t.execution_queue && is_none agent then none else t.assigned_agent_id;
      acceptance = record acceptance {
        attempts = map (stop_attempt o agent code message) acceptance.attempts;
        current_submission = none;
      };
    }

abbrev pub notify_saved : Env → Kept Task → RuntimeState
notify_saved env (s, err e) = s
notify_saved env (s, ok t) = task_attention env t s

unfoldable pub block_found : Outside → Text → Text → RuntimeState → Option Task → RuntimeState
block_found o code message s none = s
block_found o code message s (some t) =
    notify_saved o.env (acceptance_save o (blocked o (agent_record s t) code message t) code s)

-- `acceptance_block`.
unfoldable pub acceptance_block : Outside → TaskId → Text → Text → RuntimeState → RuntimeState
acceptance_block o id code message s = block_found o code message s (lookup id s.tasks)

abbrev pub presets_in :
    Outside → Result Text (Option Text) → Result Text (List (Text × CommandCheck))
presets_in o (err e) = err e
presets_in o (ok none) = ok []
presets_in o (ok (some json)) = o.parse_presets json

-- `acceptance_presets`.
unfoldable pub acceptance_presets :
    Outside → ProjectId → RuntimeState → Result Text (List (Text × CommandCheck))
acceptance_presets o project s = presets_in o (setting o.env.disk (o.presets_key project) s.store)
