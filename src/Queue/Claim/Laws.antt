-- ===== src/Queue/Claim/Laws.antt =====
-- The circumstances in which `claim_board_task` (crates/ditchd/src/task_queue_runtime.rs) grants.
use ditch.Prelude.{
  ◌≡◌, refl, Bool, true, false, not, ◌||◌, Option, none, some, any, Text, text, opt_text_eq, Result,
  ok, err, if◌then◌else◌,
}
use ditch.Core.{BoardExecutionState, Project, Task}
use ditch.Task.Basics.{touch}
use ditch.Runtime.State.{RuntimeState, Env}
use ditch.Queue.Board.{board_execution}
use ditch.Queue.Claim.{
  Outcome, min_by_position, waiting_tasks, waiting_reason, record_change, note_waiting,
  claim_or_wait, claim_running, claim_first, claim_queue, selected_agent, is_open,
}
use ditch.Queue.Claim.Least.{IsLeast, min-IsLeast}
use ditch.Queue.Claim.Grant.{IsDispatch, ready-IsDispatch, change-IsRecorded}

-- The circumstances of a granted claim.
pub record IsGranted (env : Env) (p : Project) (s s' : RuntimeState) (next : Task) : Type 0 where
  pub task : Task
  pub first : IsLeast task (waiting_tasks s p)
  pub ready : waiting_reason env s p task ≡ none
  pub execution : BoardExecutionState
  pub setting : board_execution env s p.id ≡ ok execution
  pub running : execution.paused ≡ false
  pub open_project : any (is_open p) s.projects ≡ true
  pub serving : s.remote_maintenance ≡ false
  pub dispatch : IsDispatch env task s s' next

no_task :
    (s s' : RuntimeState) (next : Task)
    → ◌≡◌ {A = Outcome (Option Task)} (s, ok none) (s', ok (some next))
    → ⊥
no_task s s' next h = cc

no_error :
    (s s' : RuntimeState) (e : Text) (next : Task)
    → ◌≡◌ {A = Outcome (Option Task)} (s, err e) (s', ok (some next))
    → ⊥
no_error s s' e next h = cc

waiting-claim :
    (env : Env) (t : Task) (reason : Text) (s s' : RuntimeState) (next : Task)
    → note_waiting env t reason s ≡ (s', ok (some next))
    → ⊥
unfolding note_waiting
waiting-claim env t reason s s' next h = by_test (opt_text_eq t.last_reason (some reason)) h
  where
    by_test :
        (b : Bool)
        → (if b
            then (s, ok none)
            else record_change env
                (touch env.now (record t { last_reason = some reason }))
                (text "queue_waiting")
                (some reason)
                none
                s)
          ≡ (s', ok (some next))
        → ⊥
    by_test true k = cc
    by_test false k = let (same, c) = change-IsRecorded env _ _ _ none s s' (some next) k in cc

ready-claim :
    (env : Env) (t : Task) (reason : Option Text) (s s' : RuntimeState) (next : Task)
    → claim_or_wait env t reason s ≡ (s', ok (some next))
    → (reason ≡ none) × IsDispatch env t s s' next
unfolding claim_or_wait
ready-claim env t (some reason) s s' next h = absurd (waiting-claim env t reason s s' next h)
ready-claim env t none s s' next h = (refl, ready-IsDispatch env t (selected_agent t) s s' next h)

first-claim :
    (env : Env) (p : Project) (m : Option Task) (s s' : RuntimeState) (next : Task)
    → claim_first env p m s ≡ (s', ok (some next))
    → (t : Task) × (m ≡ some t) × (waiting_reason env s p t ≡ none) × IsDispatch env t s s' next
unfolding claim_first
first-claim env p none s s' next h = absurd (no_task s s' next h)
first-claim env p (some t) s s' next h =
    let (ready, d) = ready-claim env t (waiting_reason env s p t) s s' next h in (t, refl, ready, d)

-- Neither test of `claim_running` stopped a granted claim.
running-claim :
    (env : Env) (p : Project) (r : Result Text BoardExecutionState) (s s' : RuntimeState)
    (next : Task)
    → claim_running env p r s ≡ (s', ok (some next))
    → (e : BoardExecutionState) × (r ≡ ok e)
      × (e.paused ≡ false)
      × (any (is_open p) s.projects ≡ true)
      × (claim_first env p (min_by_position (waiting_tasks s p)) s ≡ (s', ok (some next)))
unfolding claim_running
running-claim env p (err e) s s' next h = absurd (no_error s s' e next h)
running-claim env p (ok e) s s' next h =
    let (running, opened, k) = by_tests e.paused (any (is_open p) s.projects) refl refl h in
    (e, refl, running, opened, k)
  where
    by_tests :
        (a b : Bool)
        → e.paused ≡ a
        → any (is_open p) s.projects ≡ b
        → (if a || not b
            then (s, ok none)
            else claim_first env p (min_by_position (waiting_tasks s p)) s)
          ≡ (s', ok (some next))
        → (e.paused ≡ false)
          × (any (is_open p) s.projects ≡ true)
          × (claim_first env p (min_by_position (waiting_tasks s p)) s ≡ (s', ok (some next)))
    by_tests true b u v k = absurd (no_task s s' next k)
    by_tests false false u v k = absurd (no_task s s' next k)
    by_tests false true u v k = (u, v, k)

queue-claim :
    (env : Env) (p : Project) (s s' : RuntimeState) (next : Task)
    → claim_queue env p s ≡ (s', ok (some next))
    → (s.remote_maintenance ≡ false)
      × (claim_running env p (board_execution env s p.id) s ≡ (s', ok (some next)))
unfolding claim_queue
queue-claim env p s s' next h = by_test s.remote_maintenance refl h
  where
    by_test :
        (b : Bool)
        → s.remote_maintenance ≡ b
        → (if b then (s, ok none) else claim_running env p (board_execution env s p.id) s)
          ≡ (s', ok (some next))
        → (s.remote_maintenance ≡ false)
          × (claim_running env p (board_execution env s p.id) s ≡ (s', ok (some next)))
    by_test true e k = absurd (no_task s s' next k)
    by_test false e k = (e, k)

-- A granted claim: nothing is under maintenance, the project is open on this machine and not
-- paused, the granted task is the waiting one of least position, and nothing holds it back. Of the
-- tasks only that one is changed; the projects, the settings and the orphans stay.
pub claim-IsGranted :
    (env : Env) (p : Project) (s s' : RuntimeState) (next : Task)
    → claim_queue env p s ≡ (s', ok (some next))
    → IsGranted env p s s' next
claim-IsGranted env p s s' next h =
    let (serving, k) = queue-claim env p s s' next h in
    let (e, setting, running, opened, m) =
      running-claim env p (board_execution env s p.id) s s' next k in
    let (t, least, ready, d) =
      first-claim env p (min_by_position (waiting_tasks s p)) s s' next m in
    record {
      task = t;
      first = min-IsLeast (waiting_tasks s p) t least;
      ready = ready;
      execution = e;
      setting = setting;
      running = running;
      open_project = opened;
      serving = serving;
      dispatch = d;
    }
