-- ===== src/Loop/Panics.antt =====
-- When the thread of a loop panics: an index of `acceptance_cycle`
-- (crates/ditchd/src/acceptance_runtime.rs) misses only when the task or the loop's control is gone.
use ditch.Prelude.{
  ℕ, suc, ltb, ◌≡◌, ◌⊎◌, inl, inr, refl, Bool, true, false, not, Option, none, some, List, [], ◌∷◌,
  lookup, leb, length, byte_len, insert, member, text, ◌>>◌, ◌||◌, if◌then◌else◌, leb, length,
  byte_len, ◌>>◌, Text, Result, ok, err, ◌>>=◌,
}
use ditch.Core.{AgentId, TaskId, TaskAttempt, WorkspaceEvidence, WorkspaceLease}
use ditch.Runtime.State.{RuntimeState, AgentRecord, draw}
use ditch.Store.Reservations.{transfer_writer}
use ditch.Loop.{Kept, acceptance_save, attempt_update}
use ditch.Loop.Turn.{
  Turn, Wakeup, Setup, Progress, Stop, Step, stop_if, is_stopped, is_stopped, infra, saved_or_fail,
  or_panic,
}
use ditch.Loop.Work.{
  begin_turn, hand_over, next_owner, queue_attempt, differs_from, prompt_of, stored_transfer,
  moved_owner, retry_task, queued_attempt, differs_from, prompt_of,
}
use ditch.Loop.Worker.{
  work_or_reuse, work, launched, wait_worker, at_boundary, worker_record, clear_attempt_group,
  report_work, working_attempt, worked_attempt, validated_attempt,
}
use ditch.Runtime.Sync.{is_completed}

-- The task or its loop has left the maps.
abbrev pub Gone : TaskId → RuntimeState → Type 0
Gone id s = (lookup id s.tasks ≡ none) ⊎ (lookup id s.acceptance_controls ≡ none)

-- A result that is no panic, or a panic in a state where the task or its loop is gone.
unfoldable pub Safe : TaskId → {A : Type 0} → Step A → Type 0
Safe id (ok a) = Unit
Safe id (err (Stop.failed code message s)) = Unit
Safe id (err (Stop.panicked s)) = Gone id s

pub bind-Safe :
    (id : TaskId) {A B : Type 0} (r : Step A) (next : A → Step B)
    → Safe id r
    → ((a : A) → Safe id (next a))
    → Safe id (r >>= next)
unfolding Safe
bind-Safe id (ok a) next h k = k a
bind-Safe id (err (Stop.failed code message s)) next h k = tt
bind-Safe id (err (Stop.panicked s)) next h k = h

-- A test passes on what stands behind it.
pub past :
    (id : TaskId) {A : Type 0} (bad : Bool) (code message : Text) (s : RuntimeState) (rest : Step A)
    → Safe id rest
    → Safe id (stop_if bad code message s >> rest)
unfolding Safe
past id true code message s rest h = tt
past id false code message s rest h = h

pub infra_then :
    (id : TaskId) {A B : Type 0} (s : RuntimeState) (r : Result Text A) (next : A → Step B)
    → ((a : A) → Safe id (next a))
    → Safe id (infra s r >>= next)
unfolding Safe
infra_then id s (err e) next h = tt
infra_then id s (ok a) next h = h a

pub saved_then :
    (id : TaskId) {A B : Type 0} (r : Kept A) (next : RuntimeState × A → Step B)
    → ((a : RuntimeState × A) → Safe id (next a))
    → Safe id (saved_or_fail r >>= next)
unfolding Safe
saved_then id (s, err e) next h = tt
saved_then id (s, ok a) next h = h (s, a)

pub found_then :
    (id : TaskId) {A B : Type 0} (s : RuntimeState) (found : Option A) (next : A → Step B)
    → (found ≡ none → Gone id s)
    → ((a : A) → Safe id (next a))
    → Safe id (or_panic s found >>= next)
unfolding Safe
found_then id s none next gone h = gone refl
found_then id s (some a) next gone h = h a

pub ok-Safe : (id : TaskId) {A : Type 0} (a : A) → Safe id (ok a)
unfolding Safe
ok-Safe id a = tt

pub begin_turn-Safe :
    (c : Setup) (t : Turn) (p : Progress) (s : RuntimeState) → Safe c.id (begin_turn c t p s)
unfolding begin_turn
begin_turn-Safe c t p s = found_then c.id s (lookup c.id s.tasks) _ inl (λ task.
    past c.id (leb 50 (length task.acceptance.attempts)) _ _ s _ (
      past c.id t.cancelled _ _ s _ (
        past c.id t.late _ _ s _ (
          infra_then c.id s t.base _ (λ base. past c.id (is_stopped t.dispatch) _ _ s _ (
            past c.id (differs_from p.expected_workspace base.fingerprint) _ _ s _
              (ok-Safe c.id base)))))))

abbrev lease_or : Option WorkspaceLease → Result Text WorkspaceLease
lease_or found = elim found [ none ↦ err (text "Lost writer lease") | some lease ↦ ok lease ]

hand_over-Safe :
    (c : Setup) (t : Turn) (owner : AgentId) (s : RuntimeState) → Safe c.id (hand_over c t owner s)
unfolding hand_over
hand_over-Safe c t owner s =
    let (new, s1) = draw t.start.env s in
    infra_then c.id s1 (stored_transfer s1 (transfer_writer t.start.env.disk owner new s1.store)) _
      (λ s2. infra_then c.id s2 (lease_or (lookup owner s2.writer_leases)) _ (λ lease.
        let s3 = moved_owner owner new c.id lease s2 in
        found_then c.id s3 (lookup c.id s3.acceptance_controls) _ inr (λ control.
          let s4 = record s3 { acceptance_controls = insert c.id new s3.acceptance_controls } in
          found_then c.id s4 (lookup c.id s4.tasks) _ inl (λ task.
            saved_then c.id (acceptance_save t.start (retry_task new task) (text "retry_queued") s4)
              _ (λ saved. ok-Safe c.id (saved.0, new))))))

pub next_owner-Safe :
    (c : Setup) (t : Turn) (retry_turn : Bool) (owner : AgentId) (s : RuntimeState)
    → Safe c.id (next_owner c t retry_turn owner s)
next_owner-Safe c t true owner s = hand_over-Safe c t owner s
next_owner-Safe c t false owner s = ok-Safe c.id (s, owner)

pub queue_attempt-Safe :
    (c : Setup) (t : Turn) (p : Progress) (ordinal : ℕ) (owner : AgentId) (base : WorkspaceEvidence)
    (s : RuntimeState)
    → Safe c.id (queue_attempt c t p ordinal owner base s)
unfolding queue_attempt
queue_attempt-Safe c t p ordinal owner base s =
    let attempt = queued_attempt c t p ordinal owner (prompt_of c p.feedback) base s in
    past c.id (ltb 65536 (byte_len (prompt_of c p.feedback))) _ _ s _ (
      saved_then c.id (attempt_update t.start c.id attempt (record s { drawn = suc s.drawn })) _
        (λ saved. ok-Safe c.id (saved.0, attempt)))

launched-Safe : (id : TaskId) (r : Option Text × RuntimeState) → Safe id (launched r)
unfolding Safe
launched-Safe id (some message, s) = tt
launched-Safe id (none, s) = tt

wait_worker-Safe :
    (id : TaskId) (t : Turn) (owner : AgentId) (ws : List Wakeup) (s : RuntimeState)
    → Safe id (wait_worker t owner ws s)
unfolding wait_worker at_boundary Safe
wait_worker-Safe id t owner [] s = past id (is_stopped t.last) _ _ _ _ tt
wait_worker-Safe id t owner (w ∷ more) s =
    let s' = w.meanwhile s in
    past id (is_stopped w.boundary) _ _ _ _
      (by_test (w.cancelled || member owner s'.children) (wait_worker-Safe id t owner more s'))
  where
    by_test :
        (b : Bool)
        → Safe id (wait_worker t owner more (w.meanwhile s))
        → Safe id (if b then wait_worker t owner more (w.meanwhile s) else ok (w.meanwhile s))
    by_test true h = h
    by_test false h = tt

worker_record-Safe :
    (id : TaskId) (s : RuntimeState) (r : Option AgentRecord) → Safe id (worker_record s r)
unfolding Safe
worker_record-Safe id s none = tt
worker_record-Safe id s (some r) = tt

report_work-Safe :
    (c : Setup) (t : Turn) (owner : AgentId) (a : TaskAttempt) (s : RuntimeState)
    → Safe c.id (report_work c t owner a s)
unfolding report_work
report_work-Safe c t owner a s =
    bind-Safe c.id (worker_record s (lookup owner s.agents)) _
      (worker_record-Safe c.id s (lookup owner s.agents))
      (λ r. past c.id (not (is_completed r.run.state)) _ _ s _ (
        found_then c.id s (lookup c.id s.tasks) _ inl
          (λ task. ok-Safe c.id (s, worked_attempt t.finish r task a))))

work-Safe :
    (c : Setup) (t : Turn) (owner : AgentId) (a : TaskAttempt) (s : RuntimeState)
    → Safe c.id (work c t owner a s)
unfolding work
work-Safe c t owner a s =
    bind-Safe c.id (launched (t.launch owner a.thread_id a.prompt s)) _
      (launched-Safe c.id (t.launch owner a.thread_id a.prompt s))
      (λ s1. saved_then c.id (attempt_update t.start c.id (working_attempt a) s1) _ (λ saved.
        bind-Safe c.id (wait_worker t owner t.wakeups saved.0) _
          (wait_worker-Safe c.id t owner t.wakeups saved.0)
          (λ s2.
            saved_then c.id (clear_attempt_group t.finish.env t.group_exits owner s2) _
              (λ cleared. report_work-Safe c t owner (working_attempt a) cleared.0))))

pub work_or_reuse-Safe :
    (c : Setup) (t : Turn) (validation_only : Bool) (owner : AgentId) (a : TaskAttempt)
    (s : RuntimeState)
    → Safe c.id (work_or_reuse c t validation_only owner a s)
work_or_reuse-Safe c t true owner a s = ok-Safe c.id (s, validated_attempt c a)
work_or_reuse-Safe c t false owner a s = work-Safe c t owner a s
