-- ===== src/Loop/Review.antt =====
-- The review that `acceptance_cycle` submits (crates/ditchd/src/acceptance_runtime.rs): where it
-- stands, and what the test for it asks.
use ditch.Prelude.{
  ℕ, suc, ◌==◌, ◌≡◌, refl, sym, ap, ◌∙◌, subst, Bool, true, false, not, ◌&&◌, ◌||◌, Option, none,
  some, List, [], ◌∷◌, ◌++◌, any, map, keep, lookup, is_empty, opt_text_eq, Text, text, text_eq, ok,
  err, >>=-eq-ok, arith,
}
use ditch.Core.{
  AgentId, AttemptResult, TaskAttempt, ReviewSubmission, Task, TaskId, TaskState, TaskCondition,
  Uuid, ValidatorEvidence,
}
use ditch.Runtime.State.{RuntimeState, Env}
use ditch.Runtime.Sync.{has_summary, task_attention}
use ditch.Task.Basics.{touch}
use ditch.Loop.{Outside, attempt_update, acceptance_save, ended}
use ditch.Loop.Redact.{join_lines}
use ditch.Loop.Records.{save-IsSaved}
use ditch.Loop.Blocked.{lookup_own, tasks-attention}
use ditch.Loop.Turn.{Turn, Setup, Evidence, Progress, Step, Ending, saved_or_fail, or_panic}
use ditch.Loop.Verdict.{
  fails, may_submit, failures_of, failure_of, submit, submission_of, submitted_task, is_automatic,
  is_coordinated, is_board_queue, retry_turn, retry_thread,
}
use ditch.Loop.Submitted.{passed_ok, saved_ok}
use ditch.Loop.Own.{IsOwn, update-IsOwn}

-- A task that carries a review as its current one: it is in review and idle, and the review is the
-- last of its submissions.
pub record IsReviewed (review : ReviewSubmission) (t : Task) : Type 0 where
  pub state : t.state ≡ TaskState.in_review
  pub condition : t.condition ≡ TaskCondition.idle
  pub current : t.acceptance.current_submission ≡ some review.id
  pub last : (before : List ReviewSubmission) × (t.acceptance.submissions ≡ before ++ review ∷ [])
  pub summary : t.review_summary ≡ some review.summary

-- A task that was found.
pub found_ok :
    (s : RuntimeState) (found : Option Task) (t : Task) → or_panic s found ≡ ok t → found ≡ some t
found_ok s none t h = cc
found_ok s (some u) t h = cc

submitted_task-IsReviewed :
    (env : Env) (validation_only : Bool) (review : ReviewSubmission) (t : Task)
    → IsReviewed review (touch env.now (submitted_task env validation_only review t))
unfolding submitted_task touch
submitted_task-IsReviewed env validation_only review t = record {
  state = refl;
  condition = refl;
  current = refl;
  last = (t.acceptance.submissions, refl);
  summary = refl;
}

-- The map of a state holds a task with a review under its identity.
pub record HasReview (id : TaskId) (review : ReviewSubmission) (s : RuntimeState) : Type 0 where
  pub task : Task
  pub found : lookup id s.tasks ≡ some task
  pub own : task.id ≡ id
  pub reviewed : IsReviewed review task

submitted-HasReview :
    (o : Outside) (id : TaskId) (validation_only : Bool) (review : ReviewSubmission) (t t' : Task)
    (action : Text) (s s' : RuntimeState)
    → t.id ≡ id
    → acceptance_save o (submitted_task o.env validation_only review t) action s ≡ (s', ok t')
    → HasReview id review (task_attention o.env t' s')
unfolding touch submitted_task
submitted-HasReview o id validation_only review t t' action s s' same h =
    let next = submitted_task o.env validation_only review t in
    let saved = save-IsSaved o next t' action s s' h in
    let (tasks, controls) = tasks-attention o.env t' s' in
    record {
      task = t';
      found = ap (lookup id) (tasks ∙ saved.tasks) ∙ lookup_own next.id id t' s.tasks same;
      own = ap (λ (u : Task). u.id) saved.task ∙ same;
      reviewed =
          subst (IsReviewed review) (sym saved.task)
            (submitted_task-IsReviewed o.env validation_only review t);
    }

-- The review that a submission makes of a turn's evidence.
unfoldable pub made_by : Setup → Turn → AgentId → Evidence → Uuid → ReviewSubmission
made_by c t owner e id =
    let a = e.attempt in
    submission_of t.finish.env c owner e.base
      (record a { result = AttemptResult.passed; ended_at = some t.finish.env.now }) e.current id

pub submit-HasReview :
    (c : Setup) (t : Turn) (owner : AgentId) (e : Evidence) (s : RuntimeState) (end : Ending)
    → IsOwn c.id s
    → submit c t owner e s ≡ ok end
    → (id : Uuid) × (s' : RuntimeState) × (end ≡ Ending.submitted s')
      × HasReview c.id (made_by c t owner e id) s'
unfolding submit made_by
submit-HasReview c t owner e s end own h =
    let o = t.finish in
    let a = e.attempt in
    let passed = record a { result = AttemptResult.passed; ended_at = some o.env.now } in
    let ((s1, u1), e1, k1) = >>=-eq-ok (saved_or_fail (attempt_update o c.id passed s)) _ h in
    let s2 = record s1 { drawn = suc s1.drawn } in
    let (task, e2, k2) = >>=-eq-ok (or_panic s1 (lookup c.id s2.tasks)) _ k1 in
    let review = submission_of o.env c owner e.base passed e.current (o.env.uuid s1.drawn) in
    let ((s3, t3), e3, k3) =
      >>=-eq-ok
        (saved_or_fail (
          acceptance_save o (submitted_task o.env c.validation_only review task)
            (text "review_submitted") s2))
        _ k2 in
    (
      o.env.uuid s1.drawn,
      task_attention o.env t3 s3,
      cc,
      submitted-HasReview o c.id c.validation_only review task t3 _ s2 s3
          (update-IsOwn o c.id c.id passed s s1 u1 e1 own task (found_ok s1 _ task e2))
          (saved_ok _ s3 t3 e3),
    )

no_failures :
    (o : Outside) (vs : List ValidatorEvidence) (more : List Text)
    → is_empty (map (failure_of o) (keep fails vs) ++ more) ≡ true
    → any fails vs ≡ false
unfolding keep
no_failures o [] more h = refl
no_failures o (v ∷ vs) more h = ground (arith, no_failures o vs more)

-- What the test for a submission asks of an attempt.
pub may_submit-split :
    (o : Outside) (c : Setup) (a : TaskAttempt) (s : RuntimeState)
    → may_submit o c a s ≡ true
    → (any fails a.validators ≡ false)
      × ((is_automatic a || c.validation_only || is_board_queue c || is_coordinated c) ≡ true)
      × (has_summary a.summary ≡ true)
unfolding may_submit failures_of
may_submit-split o c a s h =
    let empty : is_empty (failures_of o c a) ≡ true = ground arith in
    (no_failures o a.validators _ empty, ground arith, ground arith)

abbrev pub is_again : Ending → Bool
is_again (Ending.submitted s) = false
is_again (Ending.again p s) = true

abbrev step_again : Step Ending → Bool
step_again (err stop) = false
step_again (ok end) = is_again end

abbrev pub state_of : Ending → RuntimeState
state_of (Ending.submitted s) = s
state_of (Ending.again p s) = s

abbrev step_state : RuntimeState → Step Ending → RuntimeState
step_state s (err stop) = s
step_state s (ok end) = state_of end

-- A failed turn never submits, and it goes on only before the last one, with the task under its key.
pub retry-again :
    (c : Setup) (t : Turn) (ordinal : ℕ) (p : Progress) (owner : AgentId) (e : Evidence)
    (s : RuntimeState) (end : Ending)
    → IsOwn c.id s
    → retry_turn c t ordinal p owner e s ≡ ok end
    → ((ordinal == c.max) ≡ false) × (is_again end ≡ true) × IsOwn c.id (state_of end)
unfolding retry_turn
retry-again c t ordinal p owner e s end own h =
    let o = t.finish in
    let a = e.attempt in
    let failure = join_lines (failures_of o c a) in
    let failed = ended o.env.now AttemptResult.failed (text "validation_failed") failure a in
    let ((s1, u1), e1, k1) = >>=-eq-ok (saved_or_fail (attempt_update o c.id failed s)) _ h in
    let (f2, k2) =
      passed_ok (not (is_coordinated c) && (not (is_automatic a) || not (has_summary a.summary))) _
        k1 in
    let (f3, k3) =
      passed_ok (c.config.policy.require_change && text_eq e.base.fingerprint e.after.fingerprint) _
        k2 in
    let (f4, k4) =
      passed_ok
        (c.config.policy.stop_on_identical_failure && opt_text_eq p.previous_failure (some failure))
        _ k3 in
    let (f5, k5) = passed_ok (ordinal == c.max) _ k4 in
    let (f6, k6) = passed_ok (not (is_empty a.approvals)) _ k5 in
    let (thread, e7, k7) = >>=-eq-ok (retry_thread c s1 a.thread_id) _ k6 in
    (
      f5,
      sym (ap step_again k7),
      subst (IsOwn c.id) (ap (step_state s1) k7) (update-IsOwn o c.id c.id failed s s1 u1 e1 own),
    )
