-- ===== src/Queue/Claim/Exclusive.antt =====
-- Claims of projects that share a workspace: `claim_board_task` and `board_execution_busy`
-- (crates/ditchd/src/task_queue_runtime.rs).
use ditch.Prelude.{
  ℕ, ◌==◌, ==→eq, ◌≡◌, refl, sym, ◌∙◌, subst, inl, inr, Bool, true, false, not, ◌&&◌, ◌||◌, Option,
  none, some, is_some, is_some_and, List, [], ◌∷◌, any, keep, In, values, Text, text, is_blank, ok,
  arith, Bool-cases, In-values-insert, has_key, ◌≢◌, any_of_In, if◌then◌else◌,
}
use ditch.Core.{AgentId, Project, Task, TaskCondition, TaskExecutionQueue}
use ditch.Task.Basics.{waiting_in_queue, condition_live, condition_eq, touch}
use ditch.Runtime.State.{RuntimeState, Env, tasks_of}
use ditch.Runtime.Writers.{reap_orphan_writers, exited, release_all}
use ditch.Queue.Board.{
  board_agent_idle, board_execution_busy, same_workspace, in_workspace, admitted, still_owned,
}
use ditch.Queue.Claim.{
  waiting_tasks, waiting_reason, claim_queue, claim_board_task, dispatched, with_agent, is_open,
  selected_agent, job_running,
}
use ditch.Queue.Claim.Least.{IsLeast}
use ditch.Queue.Claim.Laws.{IsGranted, claim-IsGranted}

keep-In : (f : Task → Bool) (ts : List Task) (t : Task) → In t (keep f ts) → f t ≡ true
unfolding keep
keep-In f [] t m = absurd m
keep-In f (u ∷ us) t m = by_test (f u) refl (keep-In f us t) m
  where
    by_test :
        (b : Bool)
        → f u ≡ b
        → (In t (keep f us) → f t ≡ true)
        → In t (if b then u ∷ keep f us else keep f us)
        → f t ≡ true
    by_test true e rest (inl same) = subst (λ (x : Task). f x ≡ true) same e
    by_test true e rest (inr k) = rest k
    by_test false e rest k = rest k

any-some :
    (f : Project → Bool) (ps : List Project)
    → any f ps ≡ true
    → (p : Project) × In p ps × (f p ≡ true)
any-some f [] h = cc
any-some f (p ∷ ps) h = elim (Bool-cases (f p)) [
  | inl e ↦ (p, inl refl, e)
  | inr n ↦ let (q, m, e) = any-some f ps (ground arith) in (q, inr m, e)
]

queued_live :
    (c : TaskCondition) → condition_eq c TaskCondition.queued ≡ true → condition_live c ≡ true
queued_live TaskCondition.idle h = ground arith
queued_live TaskCondition.queued h = refl
queued_live TaskCondition.running h = refl
queued_live TaskCondition.awaiting_approval h = refl
queued_live TaskCondition.blocked h = ground arith
queued_live TaskCondition.failed h = ground arith
queued_live TaskCondition.cancelled h = ground arith

with_agent_some :
    (owner : AgentId) (q : Option TaskExecutionQueue) → is_some (with_agent owner q) ≡ is_some q
with_agent_some owner none = refl
with_agent_some owner (some q) = refl

-- A dispatched task, which waited, is admitted and no longer waits.
dispatched-admitted :
    (env : Env) (t : Task) (owner : AgentId) (resumes : Bool)
    → waiting_in_queue t ≡ true
    → (admitted none (dispatched env t owner resumes) ≡ true)
      × (waiting_in_queue (dispatched env t owner resumes) ≡ false)
      × (is_some (dispatched env t owner resumes).execution_queue ≡ true)
unfolding admitted waiting_in_queue dispatched touch
dispatched-admitted env t owner resumes h =
    let live = queued_live t.condition in
    let q = with_agent_some owner t.execution_queue in (ground arith, ground arith, ground arith)

same_project :
    (env : Env) (s s' : RuntimeState) (p q : Project) (next : Task)
    → any (is_open p) s.projects ≡ true
    → s'.projects ≡ s.projects
    → (next.project_id == p.id) ≡ true
    → ((x : Project) → In x s.projects → x.id ≡ p.id → same_workspace env x q ≡ true)
    → in_workspace env s' q next ≡ true
unfolding in_workspace
same_project env s s' p q next opened kept own shared =
    let (x, m, e) = any-some (is_open p) s.projects opened in
    let id : x.id ≡ p.id = ground (arith, ==→eq x.id p.id) in
    subst
      (λ (ps : List Project).
        any (λ (y : Project). y.id == next.project_id && same_workspace env y q) ps ≡ true)
      (sym kept)
      (any_of_In (λ (y : Project). y.id == next.project_id && same_workspace env y q) s.projects x m
        (ground (arith, shared x m id)))

ready-IsFree :
    (env : Env) (s : RuntimeState) (p : Project) (t : Task)
    → waiting_reason env s p t ≡ none
    → (board_execution_busy env s p none ≡ false)
      × (job_running t.planning.job ≡ false)
      × (is_blank t.planning.text ≡ false)
unfolding waiting_reason
ready-IsFree env s p t h =
    let b = board_execution_busy env s p none in
    by_tests
      (is_some_and (selected_agent t) (λ id. has_key id s.agents && not (board_agent_idle s id)))
      (board_execution_busy env s p none) (job_running t.planning.job) (is_blank t.planning.text) h
  where
    by_tests :
        (owner busy job blank : Bool)
        → ◌≡◌ {A = Option Text}
            (if owner
              then some (text "Waiting for the selected agent to become idle")
              else if busy
              then some (text "Waiting for another board task in this project")
              else if job
              then some (text "Waiting for implementation plan")
              else if blank
              then some (text "Add an implementation plan to run this task")
              else none)
            none
        → (busy ≡ false) × (job ≡ false) × (blank ≡ false)
    by_tests true busy job blank k = cc
    by_tests false true job blank k = cc
    by_tests false false true blank k = cc
    by_tests false false false true k = cc
    by_tests false false false false k = (refl, refl, refl)

waiting-facts :
    (s : RuntimeState) (p : Project) (t : Task)
    → In t (waiting_tasks s p)
    → (waiting_in_queue t ≡ true) × ((t.project_id == p.id) ≡ true)
unfolding waiting_tasks
waiting-facts s p t m =
    let e = keep-In (λ (x : Task). x.project_id == p.id && waiting_in_queue x) (tasks_of s) t m in
    (ground arith, ground arith)

pub granted-IsAdmitted :
    (env : Env) (p : Project) (s s' : RuntimeState) (next : Task)
    → IsGranted env p s s' next
    → (admitted none next ≡ true)
      × (waiting_in_queue next ≡ false)
      × (is_some next.execution_queue ≡ true)
      × ((next.project_id == p.id) ≡ true)
unfolding IsLeast dispatched touch
granted-IsAdmitted env p s s' next g =
    let (waits, own) = waiting-facts s p g.task (g.first).0 in
    let d = g.dispatch in
    let (a, w, q) = dispatched-admitted env g.task d.owner d.resumes waits in
    subst
      (λ (n : Task).
        (admitted none n ≡ true)
        × (waiting_in_queue n ≡ false)
        × (is_some n.execution_queue ≡ true)
        × ((n.project_id == p.id) ≡ true))
      (sym d.task) (a, w, q, own)

admitted-IsBusy :
    (env : Env) (s : RuntimeState) (q : Project) (t : Task)
    → In t (tasks_of s)
    → is_some t.execution_queue ≡ true
    → in_workspace env s q t ≡ true
    → admitted none t ≡ true
    → board_execution_busy env s q none ≡ true
unfolding board_execution_busy
admitted-IsBusy env s q t m queued inside live =
    any_of_In
      (λ (x : Task).
        is_some x.execution_queue
        && in_workspace env s q x
        && (admitted none x || still_owned s none x))
      (tasks_of s) t m (ground arith)

-- After a granted claim the workspace is busy for every project that shares it with the granted
-- one, also in a later environment, while it was free before.
claim-IsBusy :
    (env later : Env) (p q : Project) (s s' : RuntimeState) (next : Task)
    → ((x : Project) → In x s.projects → x.id ≡ p.id → same_workspace later x q ≡ true)
    → claim_queue env p s ≡ (s', ok (some next))
    → (board_execution_busy env s p none ≡ false) × (board_execution_busy later s' q none ≡ true)
claim-IsBusy env later p q s s' next shared h =
    let g = claim-IsGranted env p s s' next h in
    let (free, job, blank) = ready-IsFree env s p g.task g.ready in
    let (live, waits, queued, own) = granted-IsAdmitted env p s s' next g in
    let d = g.dispatch in
    let m : In next (tasks_of s') =
      subst (λ (ts : List (ℕ × Task)). In next (values ts)) (sym d.tasks)
        (In-values-insert next.id next s.tasks) in
    let inside = same_project later s s' p q next g.open_project d.projects own shared in
    (free, admitted-IsBusy later s' q next m queued inside live)

reap_none :
    (env : Env) (s : RuntimeState) → s.orphan_writer_groups ≡ [] → reap_orphan_writers env s ≡ s
unfolding reap_orphan_writers exited release_all
reap_none env s h =
    subst (λ (g : List (AgentId × ℕ)). release_all env (exited env g) s ≡ s) (sym h) refl

reaped_claim :
    (env : Env) (p : Project) (s s' : RuntimeState) (next : Task)
    → s.orphan_writer_groups ≡ []
    → claim_board_task env p s ≡ (s', ok (some next))
    → claim_queue env p s ≡ (s', ok (some next))
unfolding claim_board_task
reaped_claim env p s s' next none_left h =
    subst (λ (x : RuntimeState). claim_queue env p x ≡ (s', ok (some next)))
      (reap_none env s none_left) h

-- Without orphaned process groups, a task that `claim_board_task` grants keeps every other claim of
-- the same workspace from granting: the next call, of whatever project that shares the root, gives
-- no task.
pub claim_once :
    (env later : Env) (p q : Project) (s s' s'' : RuntimeState) (next other : Task)
    → s.orphan_writer_groups ≡ []
    → ((x : Project) → In x s.projects → x.id ≡ p.id → same_workspace later x q ≡ true)
    → claim_board_task env p s ≡ (s', ok (some next))
    → claim_board_task later q s' ≢ (s'', ok (some other))
claim_once env later p q s s' s'' next other orphans shared h k =
    let first = reaped_claim env p s s' next orphans h in
    let (free, busy) = claim-IsBusy env later p q s s' next shared first in
    let g = claim-IsGranted env p s s' next first in
    let left = g.dispatch.orphans ∙ orphans in
    let again = claim-IsGranted later q s' s'' other (reaped_claim later q s' s'' other left k) in
    let (free_again, job, blank) = ready-IsFree later s' q again.task again.ready in
    ground (arith, sym free_again ∙ busy)
