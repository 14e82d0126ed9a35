-- ===== src/Loop/Ends.antt =====
-- How an acceptance loop ends: the turns of `acceptance_cycle`, and the thread of `begin_acceptance`
-- (crates/ditchd/src/acceptance_runtime.rs).
use ditch.Prelude.{
  ℕ, zero, suc, ◌+◌, ◌-◌, ◌==◌, ◌≤◌, if◌then◌else◌, ltb, leb, ◌≡◌, refl, sym, ap, ◌∙◌, subst, inl,
  inr, Bool, true, false, not, ◌&&◌, ◌||◌, Option, none, some, [], find, lookup, length, byte_len,
  ok, err, >>=-eq-ok, arith,
}
use ditch.Core.{
  AcceptanceConfig, AgentId, AgentExecutionProfile, ProjectId, Task, TaskAttempt, TaskId,
  WorkspaceEvidence,
}
use ditch.Runtime.State.{RuntimeState, AgentRecord}
use ditch.Runtime.Sync.{is_completed}
use ditch.Acceptance.{validate_config, invalid_policy}
use ditch.Loop.{Outside, attempt_update, acceptance_presets, retained_summary}
use ditch.Loop.Turn.{
  Turn, Setup, Progress, Step, Ending, saved_or_fail, or_panic, infra, is_stopped,
}
use ditch.Loop.Work.{begin_turn, next_owner, queue_attempt, queued_attempt, prompt_of, differs_from}
use ditch.Loop.Worker.{
  work_or_reuse, work, working_attempt, report_work, launched, wait_worker, clear_attempt_group,
  worker_record, with_saved, worked_attempt,
}
use ditch.Loop.Verdict.{is_board_queue}
use ditch.Loop.Cycle.{
  LoopWorld, acceptance_cycle, max_turns, setup_of, first_progress, turn, turns, gather, go_on,
}
use ditch.Loop.Submitted.{gather-IsGathered, passed_ok, answer_or, infra_ok}
use ditch.Loop.Review.{found_ok}
use ditch.Loop.Own.{IsOwn, KeepsOwn, next_owner-IsOwn, queue_attempt-IsOwn}
use ditch.Loop.Own.Worker.{work_or_reuse-IsOwn}
use ditch.Loop.Own.Checks.{gather-IsOwn}
use ditch.Loop.Earned.{IsSubmission, IsTurned, Turned, judge-split}

queue_fresh :
    (c : Setup) (t : Turn) (p : Progress) (ordinal : ℕ) (owner : AgentId) (base : WorkspaceEvidence)
    (s s' : RuntimeState) (a : TaskAttempt)
    → queue_attempt c t p ordinal owner base s ≡ ok (s', a)
    → a.validators ≡ []
unfolding queue_attempt
queue_fresh c t p ordinal owner base s s' a h =
    let (short, k1) = passed_ok (ltb 65536 (byte_len (prompt_of c p.feedback))) _ h in
    let attempt = queued_attempt c t p ordinal owner (prompt_of c p.feedback) base s in
    let (saved, e2, k2) =
      >>=-eq-ok
        (saved_or_fail (attempt_update t.start c.id attempt (record s { drawn = suc s.drawn }))) _
        k1 in
    sym (ap (λ r. (answer_or a r).validators) k2)

saved_kept :
    (found : Option TaskAttempt) (a : TaskAttempt) → (with_saved found a).validators ≡ a.validators
saved_kept none a = refl
saved_kept (some saved) a = refl

worked_kept :
    (o : Outside) (r : AgentRecord) (t : Task) (a : TaskAttempt)
    → (worked_attempt o r t a).validators ≡ a.validators
unfolding worked_attempt
worked_kept o r t a =
    saved_kept (find (λ (b : TaskAttempt). b.id == a.id) t.acceptance.attempts) (record a {
      thread_id = r.run.native_session_id;
      execution_profile = r.run.execution_profile;
      summary = retained_summary o r;
    })

report_kept :
    (c : Setup) (t : Turn) (owner : AgentId) (a a' : TaskAttempt) (s s' : RuntimeState)
    → report_work c t owner a s ≡ ok (s', a')
    → a'.validators ≡ a.validators
unfolding report_work
report_kept c t owner a a' s s' h =
    let (r, e1, k1) = >>=-eq-ok (worker_record s (lookup owner s.agents)) _ h in
    let (done, k2) = passed_ok (not (is_completed r.run.state)) _ k1 in
    let (task, e3, k3) = >>=-eq-ok (or_panic s (lookup c.id s.tasks)) _ k2 in
    sym (ap (λ x. (answer_or a' x).validators) k3) ∙ worked_kept t.finish r task a

work_kept :
    (c : Setup) (t : Turn) (owner : AgentId) (a a' : TaskAttempt) (s s' : RuntimeState)
    → work c t owner a s ≡ ok (s', a')
    → a'.validators ≡ a.validators
unfolding work
work_kept c t owner a a' s s' h =
    let (s1, e1, k1) = >>=-eq-ok (launched (t.launch owner a.thread_id a.prompt s)) _ h in
    let ((s2, u2), e2, k2) =
      >>=-eq-ok (saved_or_fail (attempt_update t.start c.id (working_attempt a) s1)) _ k1 in
    let (s3, e3, k3) = >>=-eq-ok (wait_worker t owner t.wakeups s2) _ k2 in
    let ((s4, u4), e4, k4) =
      >>=-eq-ok (saved_or_fail (clear_attempt_group t.finish.env t.group_exits owner s3)) _ k3 in
    report_kept c t owner (working_attempt a) a' s4 s' k4

reused_kept :
    (c : Setup) (t : Turn) (validation_only : Bool) (owner : AgentId) (a a' : TaskAttempt)
    (s s' : RuntimeState)
    → work_or_reuse c t validation_only owner a s ≡ ok (s', a')
    → a'.validators ≡ a.validators
reused_kept c t true owner a a' s s' h = sym (ap (λ x. (answer_or a' x).validators) h)
reused_kept c t false owner a a' s s' h = work_kept c t owner a a' s s' h

-- The workspace that a turn begins with.
begin_seen :
    (c : Setup) (t : Turn) (p : Progress) (s : RuntimeState) (base : WorkspaceEvidence)
    → begin_turn c t p s ≡ ok base
    → t.base ≡ ok base
unfolding begin_turn
begin_seen c t p s base h =
    let (task, e1, k1) = >>=-eq-ok (or_panic s (lookup c.id s.tasks)) _ h in
    let (room, k2) = passed_ok (leb 50 (length task.acceptance.attempts)) _ k1 in
    let (open_flag, k3) = passed_ok t.cancelled _ k2 in
    let (in_time, k4) = passed_ok t.late _ k3 in
    let (found, e5, k5) = >>=-eq-ok (infra s t.base) _ k4 in
    let (going, k6) = passed_ok (is_stopped t.dispatch) _ k5 in
    let (same, k7) = passed_ok (differs_from p.expected_workspace found.fingerprint) _ k6 in
    infra_ok s t.base found e5
    ∙ ap (λ (w : WorkspaceEvidence). ok w)
        (ap (λ (r : Step WorkspaceEvidence). elim r [ err stop ↦ base | ok w ↦ w ]) k7)

turn-split :
    (c : Setup) (t : Turn) (ordinal : ℕ) (p : Progress) (s : RuntimeState) (end : Ending)
    → KeepsOwn c.id t
    → IsOwn c.id s
    → turn c t ordinal p s ≡ ok end
    → Turned c t ordinal end
unfolding turn
turn-split c t ordinal p s end keeps own h =
    let (base, e1, k1) = >>=-eq-ok (begin_turn c t p s) _ h in
    let again = ltb 1 ordinal && not (is_board_queue c) in
    let ((s2, owner), e2, k2) = >>=-eq-ok (next_owner c t again p.owner s) _ k1 in
    let own2 = next_owner-IsOwn c t again p.owner owner s s2 e2 own in
    let ((s3, queued), e3, k3) = >>=-eq-ok (queue_attempt c t p ordinal owner base s2) _ k2 in
    let own3 = queue_attempt-IsOwn c t p ordinal owner base s2 s3 queued e3 own2 in
    let ((s4, worked), e4, k4) =
      >>=-eq-ok (work_or_reuse c t c.validation_only owner queued s3) _ k3 in
    let own4 = work_or_reuse-IsOwn c t c.validation_only owner queued worked s3 s4 keeps e4 own3 in
    let ((s5, e), e5, k5) = >>=-eq-ok (gather c t owner base worked s4) _ k4 in
    judge-split c t ordinal p owner worked e s5 end base (begin_seen c t p s base e1)
      (gather-IsOwn c t owner base worked e s4 s5 keeps e5 own4)
      (reused_kept c t c.validation_only owner queued worked s3 s4 e4
        ∙ queue_fresh c t p ordinal owner base s2 s3 queued e3)
      (gather-IsGathered c t owner base worked e s4 s5 e5) k5

-- A turn within the budget that submits.
turned-IsSubmission :
    (c : Setup) (world : ℕ → Turn) (ordinal : ℕ) (s : RuntimeState)
    → 1 ≤ ordinal
    → ordinal ≤ c.max
    → IsTurned c (world ordinal) s
    → IsSubmission c world s
turned-IsSubmission c world ordinal s low high h = record {
  review = h.review;
  ordinal = ordinal;
  begun = low;
  in_budget = high;
  earned = h.earned;
  placed = h.placed;
}

-- The turns that a turn's end leaves: none after a submission, and another one after the others.
left :
    (c : Setup) (world : ℕ → Turn) (ordinal : ℕ)
    (next : Progress → RuntimeState → Step RuntimeState) (end : Ending) (s' : RuntimeState)
    → 1 ≤ ordinal
    → ordinal ≤ c.max
    → ((p : Progress) (s : RuntimeState)
        → IsOwn c.id s
        → next p s ≡ ok s'
        → (ordinal == c.max) ≡ false
        → IsSubmission c world s')
    → Turned c (world ordinal) ordinal end
    → go_on next end ≡ ok s'
    → IsSubmission c world s'
left c world ordinal next (Ending.submitted s) s' low high later (inl (s1, same, turned)) h =
    let e : s1 ≡ s' = cc in
    subst (IsSubmission c world) e (turned-IsSubmission c world ordinal s1 low high turned)
left c world ordinal next (Ending.submitted s) s' low high later (inr (more, again, own)) h = cc
left c world ordinal next (Ending.again p s) s' low high later (inl (s1, same, turned)) h = cc
left c world ordinal next (Ending.again p s) s' low high later (inr (more, again, own)) h =
    later p s own h more

-- The turns end in time: `n` are left after this one, the last one has the number `c.max`, and a run
-- of them that succeeds has submitted an earned review.
turns-IsSubmission :
    (c : Setup) (world : ℕ → Turn) (n ordinal : ℕ) (p : Progress) (s s' : RuntimeState)
    → ((k : ℕ) → KeepsOwn c.id (world k))
    → IsOwn c.id s
    → 1 ≤ ordinal
    → n + ordinal ≡ c.max
    → turns c world (suc n) ordinal p s ≡ ok s'
    → IsSubmission c world s'
unfolding turns
turns-IsSubmission c world zero ordinal p s s' keeps own low last h =
    let (end, e1, k1) = >>=-eq-ok (turn c (world ordinal) ordinal p s) _ h in
    left c world ordinal (turns c world zero (suc ordinal)) end s' low (omega arith)
      (λ q s1 own1 g more. absurd (ground arith))
      (turn-split c (world ordinal) ordinal p s end (keeps ordinal) own e1) k1
turns-IsSubmission c world (suc n) ordinal p s s' keeps own low last h =
    let (end, e1, k1) = >>=-eq-ok (turn c (world ordinal) ordinal p s) _ h in
    left c world ordinal (turns c world (suc n) (suc ordinal)) end s' low (omega arith)
      (λ q s1 own1 g more.
        turns-IsSubmission c world n (suc ordinal) q s1 s' keeps own1 (omega arith) (omega arith) g)
      (turn-split c (world ordinal) ordinal p s end (keeps ordinal) own e1) k1

max_positive :
    (config : AcceptanceConfig) (validation_only : Bool) (valid : Unit)
    → validate_config config ≡ ok valid
    → (n : ℕ) × (max_turns config validation_only ≡ suc n)
unfolding validate_config invalid_policy
max_positive config validation_only valid h =
    let (ok_policy, k) =
      passed_ok (invalid_policy config.policy || ltb 16 (length config.criteria)) _ h in
    let positive : 1 ≤ config.policy.max_attempts = ground arith in
    by_test (config.policy.enabled && not validation_only) positive
  where
    by_test :
        (b : Bool)
        → 1 ≤ config.policy.max_attempts
        → (n : ℕ) × ((if b then config.policy.max_attempts else 1) ≡ suc n)
    by_test true low = (config.policy.max_attempts - 1, omega arith)
    by_test false low = (0, refl)

-- A cycle that succeeds has submitted a review of its task that one of its turns earned under the
-- contract which the task had when the cycle began, if the map holds the task under its identity and
-- the other threads keep that so.
pub cycle-IsSubmission :
    (w : LoopWorld) (project : ProjectId) (id : TaskId) (owner : AgentId)
    (profile : AgentExecutionProfile) (validation_only : Bool) (s s' : RuntimeState)
    → ((k : ℕ) → KeepsOwn id (w.turn k))
    → IsOwn id s
    → acceptance_cycle w project id owner profile validation_only s ≡ ok s'
    → (c : Setup) × (lookup id s.tasks ≡ some c.initial)
      × (c.id ≡ id)
      × (c.config ≡ c.initial.acceptance.config)
      × (c.validation_only ≡ validation_only)
      × (c.max ≡ max_turns c.config validation_only)
      × IsSubmission c w.turn s'
unfolding acceptance_cycle setup_of
cycle-IsSubmission w project id owner profile validation_only s s' keeps own h =
    let (t, e1, k1) = >>=-eq-ok (or_panic s (lookup id s.tasks)) _ h in
    let (valid, e2, k2) = >>=-eq-ok (infra s (validate_config t.acceptance.config)) _ k1 in
    let (room, k3) =
      passed_ok (leb 50 (length t.acceptance.attempts) || leb 50 (length t.acceptance.submissions))
        _ k2 in
    let s1 = record s { drawn = suc s.drawn } in
    let (presets, e4, k4) = >>=-eq-ok (infra s1 (acceptance_presets w.outside project s1)) _ k3 in
    let c = setup_of w id t profile validation_only presets s in
    let p = first_progress t owner validation_only s in
    let (n, many) =
      max_positive t.acceptance.config validation_only valid (infra_ok s _ valid e2) in
    (
      c,
      found_ok s _ t e1,
      refl,
      refl,
      refl,
      refl,
      turns-IsSubmission c w.turn n 1 p s1 s' keeps own (omega arith) (omega (arith, many))
          (subst (λ m. turns c w.turn m 1 p s1 ≡ ok s') many k4),
    )
