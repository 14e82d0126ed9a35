-- ===== src/Loop/Own.antt =====
-- The key of a loop's task during a turn of `acceptance_cycle`
-- (crates/ditchd/src/acceptance_runtime.rs): the map holds a task under its own identity.
pub mod Worker
pub mod Checks
use ditch.Prelude.{
  ℕ, suc, ◌==◌, ◌≡◌, refl, sym, ap, ◌∙◌, subst, Bool, true, false, not, ◌&&◌, ◌||◌, Option, none,
  some, List, [], ◌∷◌, ◌++◌, In, inl, inr, insert, lookup, lookup-insert, member, opt_text_eq,
  text_eq, ltb, byte_len, Text, text, Result, ok, err, >>=-eq-ok, ◌>>=◌, ◌>>◌, arith, if◌then◌else◌,
}
use ditch.Core.{
  AgentId, TaskId, Task, TaskAttempt, AcceptanceCriterion, CommandCheck, CriterionKind,
  WorkspaceEvidence, WorkspaceLease,
}
use ditch.Store.{Store, read}
use ditch.Store.Reservations.{transfer_writer, writer_stopped, reserved_group}
use ditch.Task.Basics.{touch}
use ditch.Runtime.State.{RuntimeState, Env, draw}
use ditch.Loop.{
  Outside, Kept, acceptance_save, save_attempts, update_found, attempt_update, place_attempt,
  with_attempts, last_condition,
}
use ditch.Loop.Records.{save-IsSaved}
use ditch.Loop.Submitted.{passed_ok, saved_ok, state_or}
use ditch.Loop.Turn.{
  Turn, Wakeup, Check, Setup, Progress, Evidence, Stop, Step, saved_or_fail, or_panic, infra,
  is_stopped,
}
use ditch.Loop.Work.{
  hand_over, next_owner, queue_attempt, moved_owner, stored_transfer, retry_task, queued_attempt,
  prompt_of,
}
use ditch.Loop.Worker.{
  work, work_or_reuse, launched, wait_worker, at_boundary, clear_attempt_group, after_read,
  clear_group, clear_validator, kill_group, group_runs, stopped_store, report_work, working_attempt,
  worker_record,
}
use ditch.Loop.Validators.{run_acceptance_validator, find_out, command_of}
use ditch.Runtime.Sync.{is_completed}
use ditch.Loop.Cycle.{
  is_infra, is_cancelled, validate_one, validate_all, observe, confirm_workspace, gather,
  criteria_of, with_labels, validating,
}

-- The task that the map holds under an identity has it.
abbrev pub IsOwn : TaskId → RuntimeState → Type 0
IsOwn id s = (t : Task) → lookup id s.tasks ≡ some t → t.id ≡ id

-- The other threads of a turn keep the task of the loop under its identity.
pub record KeepsOwn (id : TaskId) (t : Turn) : Type 0 where
  pub launch :
      (owner : AgentId) (thread : Option Text) (prompt : Text) (s : RuntimeState)
      → IsOwn id s
      → IsOwn id (t.launch owner thread prompt s).1
  pub meanwhile :
      (w : Wakeup) → In w t.wakeups → (s : RuntimeState) → IsOwn id s → IsOwn id (w.meanwhile s)
  pub runs :
      (n : ℕ) (command : CommandCheck) (s : RuntimeState)
      → IsOwn id s
      → IsOwn id ((t.check n).run command s).1

pub same-IsOwn : (id : TaskId) (s s' : RuntimeState) → s'.tasks ≡ s.tasks → IsOwn id s → IsOwn id s'
same-IsOwn id s s' same own t h = own t (ap (lookup id) (sym same) ∙ h)

insert-IsOwn :
    (id key : TaskId) (u : Task) (s s' : RuntimeState)
    → u.id ≡ key
    → s'.tasks ≡ insert key u s.tasks
    → IsOwn id s
    → IsOwn id s'
insert-IsOwn id key u s s' e same own t h =
    by_test (key == id) refl (sym (lookup-insert key id u s.tasks) ∙ ap (lookup id) (sym same) ∙ h)
  where
    by_test :
        (b : Bool)
        → (key == id) ≡ b
        → (if b then some u else lookup id s.tasks) ≡ some t
        → t.id ≡ id
    by_test true k found =
        let made : u ≡ t = cc in sym (ap (λ (x : Task). x.id) made) ∙ e ∙ ground arith
    by_test false k found = own t found

save-IsOwn :
    (o : Outside) (id : TaskId) (t t' : Task) (action : Text) (s s' : RuntimeState)
    → acceptance_save o t action s ≡ (s', ok t')
    → IsOwn id s
    → IsOwn id s'
unfolding touch
save-IsOwn o id t t' action s s' h own =
    let saved = save-IsSaved o t t' action s s' h in
    insert-IsOwn id t.id t' s s' (ap (λ (x : Task). x.id) saved.task) saved.tasks own

pub update-IsOwn :
    (o : Outside) (id key : TaskId) (a : TaskAttempt) (s s' : RuntimeState) (u : Task)
    → saved_or_fail (attempt_update o key a s) ≡ ok (s', u)
    → IsOwn id s
    → IsOwn id s'
unfolding attempt_update update_found save_attempts
update-IsOwn o id key a s s' u h own =
    by_found (lookup key s.tasks) (saved_ok (attempt_update o key a s) s' u h)
  where
    by_placed :
        (t : Task) (r : Result Text (List TaskAttempt))
        → save_attempts o t s r ≡ (s', ok u)
        → IsOwn id s'
    by_placed t (err e) k = absurd (cc)
    by_placed t (ok attempts) k = save-IsOwn o id _ u _ s s' k own

    by_found : (found : Option Task) → update_found o a s found ≡ (s', ok u) → IsOwn id s'
    by_found none k = absurd (cc)
    by_found (some t) k = by_placed t (place_attempt a t.acceptance.attempts) k

transfer_same :
    (s s' : RuntimeState) (r : Result Text Store)
    → infra s (stored_transfer s r) ≡ ok s'
    → s'.tasks ≡ s.tasks
transfer_same s s' (err e) h = cc
transfer_same s s' (ok store) h = cc

requeued-IsOwn :
    (o : Outside) (id : TaskId) (drawn new : AgentId) (task : Task) (s s1 s' : RuntimeState)
    (u : Task) (r : Step (RuntimeState × AgentId))
    → saved_or_fail (acceptance_save o (retry_task drawn task) (text "retry_queued") s) ≡ ok (s1, u)
    → r ≡ ok (s1, drawn)
    → r ≡ ok (s', new)
    → IsOwn id s
    → IsOwn id s'
requeued-IsOwn o id drawn new task s s1 s' u r h made k own =
    subst (IsOwn id) (sym (ap (state_or s') made) ∙ ap (state_or s') k)
      (save-IsOwn o id (retry_task drawn task) u (text "retry_queued") s s1 (saved_ok _ s1 u h) own)

hand_over-IsOwn :
    (c : Setup) (t : Turn) (owner new : AgentId) (s s' : RuntimeState)
    → hand_over c t owner s ≡ ok (s', new)
    → IsOwn c.id s
    → IsOwn c.id s'
unfolding hand_over draw moved_owner
hand_over-IsOwn c t owner new s s' h own =
    let drawn = t.start.env.uuid s.drawn in
    let s1 = record s { drawn = suc s.drawn } in
    let (s2, e2, k2) =
      >>=-eq-ok
        (infra s1 (stored_transfer s1 (transfer_writer t.start.env.disk owner drawn s1.store))) _
        h in
    let (lease, e3, k3) =
      >>=-eq-ok
        (infra s2 (elim (lookup owner s2.writer_leases) [ none ↦ err _ | some lease ↦ ok lease ])) _
        k2 in
    let s3 = moved_owner owner drawn c.id lease s2 in
    let (control, e4, k4) = >>=-eq-ok (or_panic s3 (lookup c.id s3.acceptance_controls)) _ k3 in
    let s4 = record s3 { acceptance_controls = insert c.id drawn s3.acceptance_controls } in
    let (task, e5, k5) = >>=-eq-ok (or_panic s4 (lookup c.id s4.tasks)) _ k4 in
    let ((s5, u5), e6, k6) =
      >>=-eq-ok (saved_or_fail (acceptance_save t.start (retry_task drawn task) _ s4)) _ k5 in
    let same : s4.tasks ≡ s.tasks = transfer_same s1 s2 _ e2 in
    requeued-IsOwn t.start c.id drawn new task s4 s5 s' u5 _ e6 refl k6
      (same-IsOwn c.id s s4 same own)

pub next_owner-IsOwn :
    (c : Setup) (t : Turn) (again : Bool) (owner new : AgentId) (s s' : RuntimeState)
    → next_owner c t again owner s ≡ ok (s', new)
    → IsOwn c.id s
    → IsOwn c.id s'
next_owner-IsOwn c t true owner new s s' h own = hand_over-IsOwn c t owner new s s' h own
next_owner-IsOwn c t false owner new s s' h own = subst (IsOwn c.id) (ap (state_or s') h) own

pub queue_attempt-IsOwn :
    (c : Setup) (t : Turn) (p : Progress) (ordinal : ℕ) (owner : AgentId) (base : WorkspaceEvidence)
    (s s' : RuntimeState) (a : TaskAttempt)
    → queue_attempt c t p ordinal owner base s ≡ ok (s', a)
    → IsOwn c.id s
    → IsOwn c.id s'
unfolding queue_attempt
queue_attempt-IsOwn c t p ordinal owner base s s' a h own =
    let (short, k1) = passed_ok (ltb 65536 (byte_len (prompt_of c p.feedback))) _ h in
    let s1 = record s { drawn = suc s.drawn } in
    let attempt = queued_attempt c t p ordinal owner (prompt_of c p.feedback) base s in
    let ((s2, u2), e2, k2) =
      >>=-eq-ok (saved_or_fail (attempt_update t.start c.id attempt s1)) _ k1 in
    let done : s2 ≡ s' = ap (state_or s') k2 in
    subst (IsOwn c.id) done
      (update-IsOwn t.start c.id c.id attempt s1 s2 u2 e2 (same-IsOwn c.id s s1 refl own))
