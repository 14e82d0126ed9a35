-- ===== src/Loop/Verdict.antt =====
-- The end of a turn of `acceptance_cycle` (crates/ditchd/src/acceptance_runtime.rs): the evidence is
-- judged, and the review submitted or the next turn prepared. `execution_report_ready` is from
-- crates/ditch_core/src/acceptance.rs.
use ditch.Prelude.{
  ℕ, suc, ◌==◌, leb, Bool, true, false, not, ◌&&◌, ◌||◌, Option, none, some, is_some, is_some_and,
  unwrap_or, List, [], ◌∷◌, ◌++◌, any, all, map, keep, lookup, length, is_empty, byte_len, is_blank,
  opt_text_eq, Text, text, text_eq, ok, err, ◌>>=◌, ◌>>◌, if◌then◌else◌,
}
use ditch.Core.{
  Uuid, AgentId, TaskId, Task, TaskState, TaskCondition, TaskAttempt, AttemptResult, RetryMode,
  ReviewSubmission, ValidatorEvidence, CheckStatus, WorkspaceEvidence,
}
use ditch.Runtime.State.{RuntimeState, Env}
use ditch.Runtime.Sync.{task_attention, has_summary}
use ditch.Loop.{Outside, Report, acceptance_save, attempt_update, ended}
use ditch.Loop.Redact.{join_lines}
use ditch.Loop.Turn.{
  Turn, Setup, Progress, Evidence, Stop, Step, Ending, stop_if, saved_or_fail, or_panic,
}

-- `execution_report_ready`.
abbrev pub is_item : Text → Bool
is_item v = not (is_blank v) && leb (byte_len v) 4096

unfoldable pub is_complete_report : Report → Bool
is_complete_report r =
    not (is_blank r.summary)
    && leb (byte_len r.summary) 16384
    && leb (length r.changes) 100
    && leb (length r.checks) 100
    && all is_item (r.changes ++ r.checks)
    && (not (is_empty r.changes) || not (is_empty r.checks))
    && is_empty r.remaining_work

unfoldable pub execution_report_ready : Outside → Option Text → Bool
execution_report_ready o none = false
execution_report_ready o (some s) =
    leb (byte_len s) 65536 && is_some_and (o.parse_report s) is_complete_report

-- `edition::report_ready` of the Community edition.
abbrev pub report_ready : RuntimeState → TaskId → Option Text → Bool
report_ready s id summary = false

abbrev pub is_failed : CheckStatus → Bool
is_failed CheckStatus.failed = true
is_failed _ = false

abbrev pub is_decided : CheckStatus → Bool
is_decided CheckStatus.passed = true
is_decided CheckStatus.failed = true
is_decided _ = false

abbrev pub fails : ValidatorEvidence → Bool
fails v = v.criterion.required && is_failed v.status

abbrev pub decides : ValidatorEvidence → Bool
decides v = v.criterion.required && is_decided v.status

unfoldable pub failure_of : Outside → ValidatorEvidence → Text
failure_of o v =
    v.criterion.label
    ++ (text ": " ++ (v.output ++ (text " (exit " ++ (o.show_exit v.exit_code ++ text ")"))))

abbrev pub report_failure : Text
report_failure =
    text
      "The final execution report is missing, invalid, or lists unfinished work. Complete the approved scope and return the required JSON report; disclose real blockers rather than inventing success."

abbrev pub is_coordinated : Setup → Bool
is_coordinated c = is_some c.initial.coordinator_group

-- `board_queue`.
abbrev pub is_board_queue : Setup → Bool
is_board_queue c = is_some c.initial.execution_queue && not (is_coordinated c)

-- `failures`.
unfoldable pub failures_of : Outside → Setup → TaskAttempt → List Text
failures_of o c a =
    map (failure_of o) (keep fails a.validators)
    ++ (if is_coordinated c && not (execution_report_ready o a.summary)
        then report_failure ∷ []
        else [])

abbrev pub is_automatic : TaskAttempt → Bool
is_automatic a = any decides a.validators

-- The test for a submission.
unfoldable pub may_submit : Outside → Setup → TaskAttempt → RuntimeState → Bool
may_submit o c a s =
    is_empty (failures_of o c a)
    && (is_automatic a
        || c.validation_only
        || is_board_queue c
        || (is_coordinated c && execution_report_ready o a.summary)
        || report_ready s c.id a.summary)
    && has_summary a.summary

-- The agent of the last attempt that was no mere validation.
unfoldable pub last_worker : List TaskAttempt → Option AgentId
last_worker [] = none
last_worker (a ∷ more) = elim (last_worker more) [
  | some id ↦ some id
  | none ↦ (if a.validation_only then none else some a.agent_id)
]

unfoldable pub linked_agent : Setup → AgentId → Option AgentId
linked_agent c owner =
    if c.validation_only then last_worker c.initial.acceptance.attempts else some owner

unfoldable pub submission_of :
    Env
    → Setup
    → AgentId
    → WorkspaceEvidence
    → TaskAttempt
    → WorkspaceEvidence
    → Uuid
    → ReviewSubmission
submission_of env c owner base a current id = record {
  id = id;
  attempt_id = some a.id;
  agent_id = linked_agent c owner;
  summary = unwrap_or a.summary [];
  criteria = a.validators;
  workspace = current;
  preexisting_dirty_paths = base.dirty_paths;
  approvals = a.approvals;
  created_at = env.now;
}

unfoldable pub submitted_task : Env → Bool → ReviewSubmission → Task → Task
submitted_task env validation_only r t =
    let acceptance = t.acceptance in
    record t {
      assigned_agent_id = if validation_only then r.agent_id else t.assigned_agent_id;
      acceptance = record acceptance {
        current_submission = some r.id;
        submissions = acceptance.submissions ++ r ∷ [];
      };
      review_summary = some r.summary;
      state = TaskState.in_review;
      condition = TaskCondition.idle;
      last_reason = none;
      submitted_at = some env.now;
    }

-- The submission of a review.
unfoldable pub submit : Setup → Turn → AgentId → Evidence → RuntimeState → Step Ending
submit c t owner e s = do
  let o = t.finish
  let a = e.attempt
  let passed = record a { result = AttemptResult.passed; ended_at = some o.env.now }
  s1 ← saved_or_fail (attempt_update o c.id passed s)
  let s2 = record (s1.0) { drawn = suc s1.0.drawn }
  task ← or_panic s1.0 (lookup c.id s2.tasks)
  let review = submission_of o.env c owner e.base passed e.current (o.env.uuid s1.0.drawn)
  saved ← saved_or_fail (
      acceptance_save o (submitted_task o.env c.validation_only review task)
        (text "review_submitted") s2)
  ok (Ending.submitted (task_attention o.env saved.1 saved.0))

-- The thread of a retry that goes on in the conversation.
abbrev pub thread_or_fail : RuntimeState → Option Text → Step (Option Text)
thread_or_fail s none = err (
    Stop.failed (text "thread_unavailable")
      (text "Resume retry_turn requires a valid recorded thread") s)
thread_or_fail s (some thread) = ok (some thread)

abbrev pub is_resume : RetryMode → Bool
is_resume RetryMode.resume = true
is_resume RetryMode.fresh = false

abbrev pub retry_thread : Setup → RuntimeState → Option Text → Step (Option Text)
retry_thread c s thread =
    if is_board_queue c || is_resume c.config.policy.retry_mode
    then thread_or_fail s thread
    else ok none

unfoldable pub next_feedback : Setup → Text → Text
next_feedback c failure =
    unwrap_or c.initial.last_reason (text "None")
    ++ (text "\n\nValidation failed. These are exact failures, not successful acceptance:\n"
        ++ failure)

-- The tests after a turn that failed, and the variables of the next one.
unfoldable pub retry_turn :
    Setup → Turn → ℕ → Progress → AgentId → Evidence → RuntimeState → Step Ending
retry_turn c t ordinal p owner e s = do
  let o = t.finish
  let a = e.attempt
  let failure = join_lines (failures_of o c a)
  let failed = ended o.env.now AttemptResult.failed (text "validation_failed") failure a
  saved ← saved_or_fail (attempt_update o c.id failed s)
  let s1 = saved.0
  stop_if (not (is_coordinated c) && (not (is_automatic a) || not (has_summary a.summary)))
      (text "human_review_required")
      (text
        "Automatic checks and a final summary are required for automatic submission. Inspect the chat and explicitly submit/revalidate.")
      s1
  stop_if (c.config.policy.require_change && text_eq e.base.fingerprint e.after.fingerprint)
      (text "no_change") (text "Required workspace change was not observed") s1
  stop_if
      (c.config.policy.stop_on_identical_failure && opt_text_eq p.previous_failure (some failure))
      (text "identical_failure") failure s1
  stop_if (ordinal == c.max) (text "budget_exhausted") failure s1
  stop_if (not (is_empty a.approvals)) (text "approval_boundary")
      (text
        "This attempt received an interactive approval. Restart explicitly before further work; approvals are not carried into automatic retries.")
      s1
  thread ← retry_thread c s1 a.thread_id
  ok (
      Ending.again
        (record {
          owner = owner;
          previous_failure = some failure;
          resume = thread;
          feedback = next_feedback c failure;
          expected_workspace = some e.current.fingerprint;
        })
        s1)

-- The decision on a turn's evidence.
unfoldable pub judge : Setup → Turn → ℕ → Progress → AgentId → Evidence → RuntimeState → Step Ending
judge c t ordinal p owner e s = do
  stop_if
      (c.config.policy.require_change
        && not c.validation_only
        && text_eq e.base.fingerprint e.after.fingerprint)
      (text "no_change") (text "Required workspace change was not observed") s
  (if may_submit t.finish c e.attempt s
      then submit c t owner e s
      else retry_turn c t ordinal p owner e s)
