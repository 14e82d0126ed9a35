-- ===== src/Loop/Earned.antt =====
-- What a submitted review has earned (crates/ditchd/src/acceptance_runtime.rs).
use ditch.Prelude.{
  ℕ, ◌==◌, ◌≡◌, refl, ap, sym, ◌≤◌, ◌∙◌, ◌⊎◌, inl, inr, Bool, true, false, not, ◌&&◌, ◌||◌, Option,
  none, some, List, [], ◌++◌, any, map, unwrap_or, is_blank, opt_text_eq, Text, text_eq, ok, arith,
  if◌then◌else◌,
}
use ditch.Core.{
  AgentId, TaskAttempt, AcceptanceCriterion, ReviewSubmission, Uuid, ValidatorEvidence,
  WorkspaceEvidence,
}
use ditch.Runtime.State.{RuntimeState}
use ditch.Runtime.Sync.{has_summary}
use ditch.Loop.Turn.{Turn, Setup, Evidence, Progress, Ending}
use ditch.Loop.Verdict.{
  fails, decides, may_submit, submit, submission_of, is_coordinated, is_board_queue, judge,
  retry_turn,
}
use ditch.Loop.Cycle.{human_criteria}
use ditch.Loop.Own.{IsOwn}
use ditch.Loop.Submitted.{IsGathered, is_broken, criterion_of, passed_ok}
use ditch.Loop.Review.{
  HasReview, made_by, submit-HasReview, may_submit-split, is_again, state_of, retry-again,
}

-- A review that was earned: it has evidence for each configured criterion and for each of the task's
-- own, in order, with no required failure and nothing that did not run; its summary is not blank, and
-- a validator decided, or a human asked for the validation or leads the task; the workspace that the
-- turn met at its end is the one that it met behind the worker, at the HEAD that it met before the
-- worker, and it has changed since then where the policy requires it.
pub record IsEarned (c : Setup) (t : Turn) (review : ReviewSubmission) : Type 0 where
  pub labels : List AcceptanceCriterion
  pub own : (n : ℕ) × (labels ≡ human_criteria t.finish.env n c.initial.acceptance_criteria)
  pub covered : map criterion_of review.criteria ≡ c.config.criteria ++ labels
  pub sound : any is_broken review.criteria ≡ false
  pub none_failed : any fails review.criteria ≡ false
  pub decided :
      (any decides review.criteria || c.validation_only || is_board_queue c || is_coordinated c)
      ≡ true
  pub summary : is_blank review.summary ≡ false
  pub base : WorkspaceEvidence
  pub after : WorkspaceEvidence
  pub base_seen : t.base ≡ ok base
  pub after_seen : t.after ≡ ok after
  pub current_seen : t.current ≡ ok review.workspace
  pub same_workspace : review.workspace.fingerprint ≡ after.fingerprint
  pub same_head : opt_text_eq base.head after.head ≡ true
  pub changed :
      (c.config.policy.require_change
        && not c.validation_only
        && text_eq base.fingerprint after.fingerprint)
      ≡ false

-- A cycle's state with a review that one of its turns earned, on the task of the loop.
pub record IsSubmission (c : Setup) (world : ℕ → Turn) (s : RuntimeState) : Type 0 where
  pub review : ReviewSubmission
  pub ordinal : ℕ
  pub begun : 1 ≤ ordinal
  pub in_budget : ordinal ≤ c.max
  pub earned : IsEarned c (world ordinal) review
  pub placed : HasReview c.id review s

-- What a turn leaves that submits.
pub record IsTurned (c : Setup) (t : Turn) (s : RuntimeState) : Type 0 where
  pub review : ReviewSubmission
  pub earned : IsEarned c t review
  pub placed : HasReview c.id review s

-- How a turn ends that succeeds.
abbrev pub Turned : Setup → Turn → ℕ → Ending → Type 0
Turned c t ordinal end =
    ((s' : RuntimeState) × (end ≡ Ending.submitted s') × IsTurned c t s')
    ⊎ (((ordinal == c.max) ≡ false) × (is_again end ≡ true) × IsOwn c.id (state_of end))

summary_of_some :
    (summary : Option Text) → has_summary summary ≡ true → is_blank (unwrap_or summary []) ≡ false
summary_of_some none h = cc
summary_of_some (some m) h = ground arith

made-IsEarned :
    (c : Setup) (t : Turn) (owner : AgentId) (a : TaskAttempt) (e : Evidence) (s : RuntimeState)
    (id : Uuid) (base : WorkspaceEvidence)
    → t.base ≡ ok base
    → a.validators ≡ []
    → IsGathered c t base a e
    → may_submit t.finish c e.attempt s ≡ true
    → (c.config.policy.require_change
        && not c.validation_only
        && text_eq e.base.fingerprint e.after.fingerprint)
      ≡ false
    → IsEarned c t (made_by c t owner e id)
unfolding made_by submission_of
made-IsEarned c t owner a e s id base seen fresh g may changed =
    let (none_failed, decided, summary) = may_submit-split t.finish c e.attempt s may in
    let all : e.attempt.validators ≡ g.checked.added =
      g.checked.validators ∙ ap (λ (l : List ValidatorEvidence). l ++ g.checked.added) fresh in
    record {
      labels = g.labels;
      own = g.configured;
      covered = ap (map criterion_of) all ∙ g.checked.criteria_kept;
      sound = ap (any is_broken) all ∙ g.checked.sound;
      none_failed = none_failed;
      decided = decided;
      summary = summary_of_some e.attempt.summary summary;
      base = e.base;
      after = e.after;
      base_seen = seen ∙ ap (λ (w : WorkspaceEvidence). ok w) (sym g.base_kept);
      after_seen = g.after_seen;
      current_seen = g.current_seen;
      same_workspace = g.same_workspace;
      same_head = g.same_head;
      changed = changed;
    }

-- A turn that is judged submits an earned review, or it was not the last one and goes on.
pub judge-split :
    (c : Setup) (t : Turn) (ordinal : ℕ) (p : Progress) (owner : AgentId) (a : TaskAttempt)
    (e : Evidence) (s : RuntimeState) (end : Ending) (base : WorkspaceEvidence)
    → t.base ≡ ok base
    → IsOwn c.id s
    → a.validators ≡ []
    → IsGathered c t base a e
    → judge c t ordinal p owner e s ≡ ok end
    → Turned c t ordinal end
unfolding judge
judge-split c t ordinal p owner a e s end base seen own fresh g h =
    let (changed, k) =
      passed_ok
        (c.config.policy.require_change
          && not c.validation_only
          && text_eq e.base.fingerprint e.after.fingerprint)
        _ h in
    by_test (may_submit t.finish c e.attempt s) refl changed k
  where
    by_test :
        (b : Bool)
        → may_submit t.finish c e.attempt s ≡ b
        → (c.config.policy.require_change
            && not c.validation_only
            && text_eq e.base.fingerprint e.after.fingerprint)
          ≡ false
        → (if b then submit c t owner e s else retry_turn c t ordinal p owner e s) ≡ ok end
        → Turned c t ordinal end
    by_test true may changed k =
        let (id, s', same, placed) = submit-HasReview c t owner e s end own k in
        inl (
          s',
          same,
          record {
            review = made_by c t owner e id;
            earned = made-IsEarned c t owner a e s id base seen fresh g may changed;
            placed = placed;
          },
        )
    by_test false may changed k = inr (retry-again c t ordinal p owner e s end own k)
