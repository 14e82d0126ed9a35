-- ===== src/Loop/Steps.antt =====
-- When the second half of a turn panics, and the whole cycle
-- (crates/ditchd/src/acceptance_runtime.rs).
use ditch.Prelude.{
  ℕ, zero, suc, ltb, inl, Bool, true, false, not, ◌&&◌, Option, none, some, List, [], ◌∷◌, ◌++◌,
  ◌==◌, opt_text_eq, text_eq, is_empty, lookup, leb, length, text, ◌||◌, if◌then◌else◌, leb, length,
  Text, ok,
}
use ditch.Core.{
  AgentId, AgentExecutionProfile, AcceptanceCriterion, ProjectId, TaskId, TaskAttempt,
  WorkspaceEvidence, AttemptResult,
}
use ditch.Runtime.State.{RuntimeState}
use ditch.Loop.{acceptance_save, acceptance_presets, attempt_update, ended}
use ditch.Loop.Turn.{Turn, Check, Setup, Progress, Evidence, Step, Ending}
use ditch.Loop.Work.{begin_turn, next_owner, queue_attempt}
use ditch.Loop.Worker.{work_or_reuse, clear_attempt_group}
use ditch.Loop.Verdict.{
  judge, is_board_queue, submit, retry_turn, retry_thread, thread_or_fail, may_submit, is_resume,
  failures_of, is_automatic, is_coordinated, submission_of, submitted_task,
}
use ditch.Loop.Validators.{run_acceptance_validator}
use ditch.Loop.Redact.{join_lines}
use ditch.Runtime.Sync.{has_summary}
use ditch.Acceptance.{validate_config}
use ditch.Loop.Cycle.{
  LoopWorld, acceptance_cycle, turn, turns, gather, go_on, observe, confirm_workspace, validate_one,
  validate_all, is_infra, is_cancelled, validating, with_labels, criteria_of, setup_of,
}
use ditch.Loop.Panics.{
  Safe, bind-Safe, past, infra_then, saved_then, found_then, ok-Safe, begin_turn-Safe,
  next_owner-Safe, queue_attempt-Safe, work_or_reuse-Safe,
}

validate_one-Safe :
    (c : Setup) (k : Check) (after : WorkspaceEvidence) (criterion : AcceptanceCriterion)
    (a : TaskAttempt) (s : RuntimeState)
    → Safe c.id (validate_one c k after criterion a s)
unfolding validate_one
validate_one-Safe c k after criterion a s =
    let (found, s1) = run_acceptance_validator k c.presets after criterion s in
    let next = record a { validators = a.validators ++ found ∷ [] } in
    past c.id k.cancelled _ _ s _ (
      saved_then c.id (attempt_update k.outside c.id next s1) _ (λ saved.
        past c.id (is_infra found.status) _ _ saved.0 _
          (past c.id (is_cancelled found.status) _ _ saved.0 _ (ok-Safe c.id (saved.0, next)))))

validate_all-Safe :
    (c : Setup) (checks : ℕ → Check) (after : WorkspaceEvidence) (n : ℕ)
    (criteria : List AcceptanceCriterion) (a : TaskAttempt) (s : RuntimeState)
    → Safe c.id (validate_all c checks after n criteria a s)
unfolding validate_all
validate_all-Safe c checks after n [] a s = ok-Safe c.id (s, a)
validate_all-Safe c checks after n (criterion ∷ more) a s =
    bind-Safe c.id (validate_one c (checks n) after criterion a s) _
      (validate_one-Safe c (checks n) after criterion a s)
      (λ next. validate_all-Safe c checks after (suc n) more next.1 next.0)

observe-Safe :
    (c : Setup) (t : Turn) (base after : WorkspaceEvidence) (a : TaskAttempt) (s : RuntimeState)
    → Safe c.id (observe c t base after a s)
unfolding observe
observe-Safe c t base after a s = saved_then c.id (attempt_update t.finish c.id a s) _ (λ saved.
    past c.id (not (opt_text_eq base.head after.head)) _ _ saved.0 _ (ok-Safe c.id saved.0))

confirm_workspace-Safe :
    (id : TaskId) (t : Turn) (owner : AgentId) (after : WorkspaceEvidence) (s : RuntimeState)
    → Safe id (confirm_workspace t owner after s)
unfolding confirm_workspace
confirm_workspace-Safe id t owner after s =
    saved_then id (clear_attempt_group t.finish.env t.group_gone owner s) _ (λ cleared.
      infra_then id cleared.0 t.current _ (λ current.
        past id (not (text_eq current.fingerprint after.fingerprint)) _ _ cleared.0 _
          (past id t.late_end _ _ cleared.0 _ (ok-Safe id (cleared.0, current)))))

gather-Safe :
    (c : Setup) (t : Turn) (owner : AgentId) (base : WorkspaceEvidence) (a : TaskAttempt)
    (s : RuntimeState)
    → Safe c.id (gather c t owner base a s)
unfolding gather
gather-Safe c t owner base a s = infra_then c.id s t.after _ (λ after.
    let a1 = validating after a in
    bind-Safe c.id (observe c t base after a1 s) _ (observe-Safe c t base after a1 s) (λ s1.
      let criteria = criteria_of c t.finish.env s1 in
      bind-Safe c.id (validate_all c t.check after 0 criteria a1 (with_labels c s1)) _
        (validate_all-Safe c t.check after 0 criteria a1 (with_labels c s1))
        (λ checked.
          bind-Safe c.id (confirm_workspace t owner after checked.0) _
            (confirm_workspace-Safe c.id t owner after checked.0) (λ settled. ok-Safe c.id _))))

submit-Safe :
    (c : Setup) (t : Turn) (owner : AgentId) (e : Evidence) (s : RuntimeState)
    → Safe c.id (submit c t owner e s)
unfolding submit
submit-Safe c t owner e s =
    let o = t.finish in
    let passed = record e.attempt { result = AttemptResult.passed; ended_at = some o.env.now } in
    saved_then c.id (attempt_update o c.id passed s) _ (λ saved.
      let s1 = saved.0 in
      found_then c.id s1 (lookup c.id s1.tasks) _ inl (λ task.
        let review = submission_of o.env c owner e.base passed e.current (o.env.uuid s1.drawn) in
        saved_then c.id
          (acceptance_save o (submitted_task o.env c.validation_only review task)
            (text "review_submitted") (record s1 { drawn = suc s1.drawn }))
          _ (λ last. ok-Safe c.id _)))

retry_thread-Safe :
    (c : Setup) (s : RuntimeState) (thread : Option Text) → Safe c.id (retry_thread c s thread)
unfolding Safe
retry_thread-Safe c s thread =
    by_test (is_board_queue c || is_resume c.config.policy.retry_mode) thread
  where
    by_test :
        (b : Bool) (found : Option Text) → Safe c.id (if b then thread_or_fail s found else ok none)
    by_test true none = tt
    by_test true (some thread) = tt
    by_test false found = tt

retry_turn-Safe :
    (c : Setup) (t : Turn) (ordinal : ℕ) (p : Progress) (owner : AgentId) (e : Evidence)
    (s : RuntimeState)
    → Safe c.id (retry_turn c t ordinal p owner e s)
unfolding retry_turn
retry_turn-Safe c t ordinal p owner e s =
    let o = t.finish in
    let a = e.attempt in
    let failure = join_lines (failures_of o c a) in
    let failed = ended o.env.now AttemptResult.failed (text "validation_failed") failure a in
    saved_then c.id (attempt_update o c.id failed s) _ (λ saved.
      past c.id (not (is_coordinated c) && (not (is_automatic a) || not (has_summary a.summary))) _
        _ _ _
        (past c.id
          (c.config.policy.require_change && text_eq e.base.fingerprint e.after.fingerprint) _ _ _ _
          (past c.id
            (c.config.policy.stop_on_identical_failure
              && opt_text_eq p.previous_failure (some failure))
            _ _ _ _
            (past c.id (ordinal == c.max) _ _ _ _ (
              past c.id (not (is_empty a.approvals)) _ _ _ _ (
                bind-Safe c.id (retry_thread c saved.0 a.thread_id) _
                  (retry_thread-Safe c saved.0 a.thread_id) (λ thread. ok-Safe c.id _)))))))

judge-Safe :
    (c : Setup) (t : Turn) (ordinal : ℕ) (p : Progress) (owner : AgentId) (e : Evidence)
    (s : RuntimeState)
    → Safe c.id (judge c t ordinal p owner e s)
unfolding judge
judge-Safe c t ordinal p owner e s =
    past c.id
      (c.config.policy.require_change
        && not c.validation_only
        && text_eq e.base.fingerprint e.after.fingerprint)
      _ _ s _ (by_test (may_submit t.finish c e.attempt s))
  where
    by_test :
        (b : Bool)
        → Safe c.id (if b then submit c t owner e s else retry_turn c t ordinal p owner e s)
    by_test true = submit-Safe c t owner e s
    by_test false = retry_turn-Safe c t ordinal p owner e s

turn-Safe :
    (c : Setup) (t : Turn) (ordinal : ℕ) (p : Progress) (s : RuntimeState)
    → Safe c.id (turn c t ordinal p s)
unfolding turn
turn-Safe c t ordinal p s = bind-Safe c.id (begin_turn c t p s) _ (begin_turn-Safe c t p s) (λ base.
    let again = ltb 1 ordinal && not (is_board_queue c) in
    bind-Safe c.id (next_owner c t again p.owner s) _ (next_owner-Safe c t again p.owner s)
      (λ owned.
        bind-Safe c.id (queue_attempt c t p ordinal owned.1 base owned.0) _
          (queue_attempt-Safe c t p ordinal owned.1 base owned.0)
          (λ queued.
            bind-Safe c.id (work_or_reuse c t c.validation_only owned.1 queued.1 queued.0) _
              (work_or_reuse-Safe c t c.validation_only owned.1 queued.1 queued.0)
              (λ worked.
                bind-Safe c.id (gather c t owned.1 base worked.1 worked.0) _
                  (gather-Safe c t owned.1 base worked.1 worked.0)
                  (λ evidence. judge-Safe c t ordinal p owned.1 evidence.1 evidence.0)))))

go_on-Safe :
    (c : Setup) (next : Progress → RuntimeState → Step RuntimeState)
    → ((p : Progress) (s : RuntimeState) → Safe c.id (next p s))
    → (end : Ending) → Safe c.id (go_on next end)
go_on-Safe c next h (Ending.submitted s) = ok-Safe c.id s
go_on-Safe c next h (Ending.again p s) = h p s

turns-Safe :
    (c : Setup) (world : ℕ → Turn) (n ordinal : ℕ) (p : Progress) (s : RuntimeState)
    → Safe c.id (turns c world n ordinal p s)
unfolding turns
turns-Safe c world zero ordinal p s = ok-Safe c.id s
turns-Safe c world (suc n) ordinal p s =
    bind-Safe c.id (turn c (world ordinal) ordinal p s) _ (turn-Safe c (world ordinal) ordinal p s)
      (go_on-Safe c (turns c world n (suc ordinal))
        (λ q s1. turns-Safe c world n (suc ordinal) q s1))

-- A cycle panics only in a state that has lost the task or its loop.
pub acceptance_cycle-Safe :
    (w : LoopWorld) (project : ProjectId) (id : TaskId) (owner : AgentId)
    (profile : AgentExecutionProfile) (validation_only : Bool) (s : RuntimeState)
    → Safe id (acceptance_cycle w project id owner profile validation_only s)
unfolding acceptance_cycle setup_of
acceptance_cycle-Safe w project id owner profile validation_only s =
    found_then id s (lookup id s.tasks) _ inl (λ t.
      infra_then id s (validate_config t.acceptance.config) _ (λ valid.
        past id (leb 50 (length t.acceptance.attempts) || leb 50 (length t.acceptance.submissions))
          _ _ s _
          (let s1 = record s { drawn = suc s.drawn } in
            infra_then id s1 (acceptance_presets w.outside project s1) _ (λ presets.
              turns-Safe (setup_of w id t profile validation_only presets s) w.turn _ 1 _ s1))))
