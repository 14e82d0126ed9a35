-- ===== src/Loop/Own/Worker.antt =====
-- The key of a loop's task while its worker runs (crates/ditchd/src/acceptance_runtime.rs).
use ditch.Prelude.{
  ℕ, ◌≡◌, refl, sym, ap, ◌∙◌, subst, Bool, true, false, not, ◌&&◌, ◌||◌, Option, none, some, List,
  [], ◌∷◌, In, inl, inr, lookup, member, Text, Result, ok, err, >>=-eq-ok, if◌then◌else◌,
}
use ditch.Core.{AgentId, TaskId, TaskAttempt}
use ditch.Store.{Store, read}
use ditch.Store.Reservations.{reserved_group}
use ditch.Runtime.State.{RuntimeState, Env}
use ditch.Loop.{Kept, attempt_update}
use ditch.Loop.Submitted.{passed_ok, state_or}
use ditch.Loop.Turn.{Turn, Wakeup, Setup, Step, saved_or_fail, or_panic, is_stopped}
use ditch.Loop.Worker.{
  work, work_or_reuse, launched, wait_worker, at_boundary, clear_attempt_group, after_read,
  clear_group, clear_validator, kill_group, group_runs, stopped_store, report_work, working_attempt,
  worker_record,
}
use ditch.Runtime.Sync.{is_completed}
use ditch.Loop.Own.{IsOwn, KeepsOwn, same-IsOwn, update-IsOwn}

-- The state of a save that succeeds.
pub state_ok :
    {A : Type 0} (r : Kept A) (s' : RuntimeState) (a : A) → saved_or_fail r ≡ ok (s', a) → r.0 ≡ s'
state_ok (s, err e) s' a h = cc
state_ok (s, ok b) s' a h = ap (state_or s') h

killed_same :
    (owner : AgentId) (pid : Option ℕ) (running : Bool) (s : RuntimeState)
    → (kill_group owner pid running s).tasks ≡ s.tasks
unfolding kill_group
killed_same owner none running s = refl
killed_same owner (some pid) running s = by_test (running && not (member owner s.validator_owners))
  where
    by_test : (b : Bool) → (if b then record s { killed = pid ∷ s.killed } else s).tasks ≡ s.tasks
    by_test true = refl
    by_test false = refl

stopped_same : (s : RuntimeState) (r : Result Text Store) → (stopped_store s r).0.tasks ≡ s.tasks
stopped_same s (err e) = refl
stopped_same s (ok store) = refl

clear_validator_same :
    (env : Env) (owner : AgentId) (s : RuntimeState)
    → (clear_validator env owner s).0.tasks ≡ s.tasks
unfolding clear_validator
clear_validator_same env owner s = stopped_same _ _

clear_group_same :
    (env : Env) (exits : Bool) (owner : AgentId) (s : RuntimeState)
    → (clear_group env exits owner s).0.tasks ≡ s.tasks
unfolding clear_group
clear_group_same env exits owner s = by_test (group_runs env group && not exits) _
  where
    group : Option ℕ
    group = reserved_group owner s.store.reservations

    killed : RuntimeState
    killed = kill_group owner group (group_runs env group) s

    by_test :
        (b : Bool) (e : Text)
        → (if b then (killed, err e) else clear_validator env owner killed).0.tasks ≡ s.tasks
    by_test true e = killed_same owner group (group_runs env group) s
    by_test false e =
        clear_validator_same env owner killed ∙ killed_same owner group (group_runs env group) s

after_read_same :
    (env : Env) (exits : Bool) (owner : AgentId) (s : RuntimeState) (r : Result Text (Unit {0}))
    → (after_read env exits owner s r).0.tasks ≡ s.tasks
after_read_same env exits owner s (err e) = refl
after_read_same env exits owner s (ok done) = clear_group_same env exits owner s

pub clear-IsOwn :
    (env : Env) (exits : Bool) (id : TaskId) (owner : AgentId) (s s' : RuntimeState) (u : Unit {0})
    → saved_or_fail (clear_attempt_group env exits owner s) ≡ ok (s', u)
    → IsOwn id s
    → IsOwn id s'
unfolding clear_attempt_group
clear-IsOwn env exits id owner s s' u h own =
    let e = state_ok (clear_attempt_group env exits owner s) s' u h in
    same-IsOwn id s s'
      (ap (λ (x : RuntimeState). x.tasks) (sym e)
        ∙ after_read_same env exits owner s (read env.disk))
      own

waited_state :
    (b : Bool) (id : TaskId) (s s' : RuntimeState) (rest : Step RuntimeState)
    → IsOwn id s
    → (rest ≡ ok s' → IsOwn id s')
    → (if b then rest else ok s) ≡ ok s'
    → IsOwn id s'
waited_state true id s s' rest own later h = later h
waited_state false id s s' rest own later h = let done : s ≡ s' = cc in subst (IsOwn id) done own

wait_worker-IsOwn :
    (id : TaskId) (t : Turn) (owner : AgentId) (ws : List Wakeup) (s s' : RuntimeState)
    → ((w : Wakeup) → In w ws → (u : RuntimeState) → IsOwn id u → IsOwn id (w.meanwhile u))
    → wait_worker t owner ws s ≡ ok s'
    → IsOwn id s
    → IsOwn id s'
unfolding wait_worker at_boundary
wait_worker-IsOwn id t owner [] s s' keeps h own =
    let (in_time, k1) = passed_ok (is_stopped t.last) _ h in absurd (cc)
wait_worker-IsOwn id t owner (w ∷ more) s s' keeps h own =
    let (in_time, k1) = passed_ok (is_stopped w.boundary) _ h in
    waited_state (w.cancelled || member owner (w.meanwhile s).children) id (w.meanwhile s) s' _
      (keeps w (inl refl) s own)
      (λ k.
        wait_worker-IsOwn id t owner more (w.meanwhile s) s' (λ v m. keeps v (inr m)) k
          (keeps w (inl refl) s own))
      k1

launched_state : (r : Option Text × RuntimeState) (s : RuntimeState) → launched r ≡ ok s → r.1 ≡ s
launched_state (some message, s1) s h = cc
launched_state (none, s1) s h = cc

report_state :
    (c : Setup) (t : Turn) (owner : AgentId) (a a' : TaskAttempt) (s s' : RuntimeState)
    → report_work c t owner a s ≡ ok (s', a')
    → s ≡ s'
unfolding report_work
report_state c t owner a a' s s' h =
    let (r, e1, k1) = >>=-eq-ok (worker_record s (lookup owner s.agents)) _ h in
    let (completed, k2) = passed_ok (not (is_completed r.run.state)) _ k1 in
    let (task, e3, k3) = >>=-eq-ok (or_panic s (lookup c.id s.tasks)) _ k2 in ap (state_or s') k3

work-IsOwn :
    (c : Setup) (t : Turn) (owner : AgentId) (a a' : TaskAttempt) (s s' : RuntimeState)
    → KeepsOwn c.id t
    → work c t owner a s ≡ ok (s', a')
    → IsOwn c.id s
    → IsOwn c.id s'
unfolding work
work-IsOwn c t owner a a' s s' keeps h own =
    let (s1, e1, k1) = >>=-eq-ok (launched (t.launch owner a.thread_id a.prompt s)) _ h in
    let own1 =
      subst (IsOwn c.id) (launched_state (t.launch owner a.thread_id a.prompt s) s1 e1)
        (keeps.launch owner a.thread_id a.prompt s own) in
    let ((s2, u2), e2, k2) =
      >>=-eq-ok (saved_or_fail (attempt_update t.start c.id (working_attempt a) s1)) _ k1 in
    let own2 = update-IsOwn t.start c.id c.id (working_attempt a) s1 s2 u2 e2 own1 in
    let (s3, e3, k3) = >>=-eq-ok (wait_worker t owner t.wakeups s2) _ k2 in
    let own3 = wait_worker-IsOwn c.id t owner t.wakeups s2 s3 keeps.meanwhile e3 own2 in
    let ((s4, u4), e4, k4) =
      >>=-eq-ok (saved_or_fail (clear_attempt_group t.finish.env t.group_exits owner s3)) _ k3 in
    subst (IsOwn c.id) (report_state c t owner (working_attempt a) a' s4 s' k4)
      (clear-IsOwn t.finish.env t.group_exits c.id owner s3 s4 u4 e4 own3)

pub work_or_reuse-IsOwn :
    (c : Setup) (t : Turn) (alone : Bool) (owner : AgentId) (a a' : TaskAttempt)
    (s s' : RuntimeState)
    → KeepsOwn c.id t
    → work_or_reuse c t alone owner a s ≡ ok (s', a')
    → IsOwn c.id s
    → IsOwn c.id s'
work_or_reuse-IsOwn c t true owner a a' s s' keeps h own =
    subst (IsOwn c.id) (ap (state_or s') h) own
work_or_reuse-IsOwn c t false owner a a' s s' keeps h own =
    work-IsOwn c t owner a a' s s' keeps h own
