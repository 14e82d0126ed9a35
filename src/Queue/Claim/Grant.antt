-- ===== src/Queue/Claim/Grant.antt =====
-- What a granted claim chose, and what it leaves.
use ditch.Prelude.{
  suc, ◌≡◌, refl, ap, sym, ◌∙◌, has_key, opt_eq, Bool, true, false, ◌||◌, Option, none, some,
  is_some, List, [], ◌∷◌, insert, Text, Result, ok, err, arith, if◌then◌else◌,
}
use ditch.Core.{AgentId, Task, TaskAudit}
use ditch.Store.{Store, save_task_changes}
use ditch.Store.Effects.{save-commits}
use ditch.Runtime.State.{RuntimeState, Env, publish_tasks}
use ditch.Queue.Board.{board_agent_thread}
use ditch.Queue.Claim.{
  record_change, publish_saved, block_resume, dispatched, dispatch, admit, admit_thread,
  claim_ready,
}

-- The state after a task was dispatched: the task, for some owner, in the place of the old one; the
-- projects, the settings, the switch and the orphans as before.
pub record IsDispatch (env : Env) (t : Task) (s s' : RuntimeState) (next : Task) : Type 0 where
  pub owner : AgentId
  pub resumes : Bool
  pub task : next ≡ dispatched env t owner resumes
  pub tasks : s'.tasks ≡ insert next.id next s.tasks
  pub projects : s'.projects ≡ s.projects
  pub settings : s'.store.settings ≡ s.store.settings
  pub maintenance : s'.remote_maintenance ≡ s.remote_maintenance
  pub orphans : s'.orphan_writer_groups ≡ s.orphan_writer_groups

save-settings :
    (env : Env) (changes : List (Task × TaskAudit)) (s s' : Store)
    → save_task_changes env.disk changes none none s ≡ ok s'
    → s'.settings ≡ s.settings
unfolding save_task_changes
save-settings env changes s s' h =
    let (w, u, e) = save-commits env.disk changes none [] s s' h in ap (λ (x : Store). x.settings) e

-- A change that was recorded: the transaction committed, and its tables and the task are published.
pub record IsRecordedChange (env : Env) (t : Task) (s s' : RuntimeState) : Type 0 where
  entry : TaskAudit
  store : Store
  saved : save_task_changes env.disk ((t, entry) ∷ []) none none s.store ≡ ok store
  published : s' ≡ publish_tasks ((t, entry) ∷ []) (record s { drawn = suc s.drawn; store = store })

published_ok :
    (t : Task) (entry : TaskAudit) (answer : Option Task) (s s' : RuntimeState)
    (r : Result Text Store) (got : Option Task)
    → publish_saved t entry answer s r ≡ (s', ok got)
    → (store : Store) × (r ≡ ok store)
      × (got ≡ answer)
      × (s' ≡ publish_tasks ((t, entry) ∷ []) (record s { drawn = suc s.drawn; store = store }))
unfolding publish_saved
published_ok t entry answer s s' (err e) got h = cc
published_ok t entry answer s s' (ok store) got h = (store, refl, cc, cc)

pub change-IsRecorded :
    (env : Env) (t : Task) (action : Text) (reason : Option Text) (answer : Option Task)
    (s s' : RuntimeState) (got : Option Task)
    → record_change env t action reason answer s ≡ (s', ok got)
    → (got ≡ answer) × IsRecordedChange env t s s'
unfolding record_change
change-IsRecorded env t action reason answer s s' got h =
    let (store, saved, same, published) = published_ok t _ answer s s' _ got h in
    (same, record { entry = _; store = store; saved = saved; published = published })

dispatch-IsDispatch :
    (env : Env) (t : Task) (owner : AgentId) (resumes : Bool) (s s' : RuntimeState) (next : Task)
    → dispatch env t owner resumes s ≡ (s', ok (some next))
    → IsDispatch env t s s' next
unfolding dispatch publish_tasks
dispatch-IsDispatch env t owner resumes s s' next h =
    let (same, c) =
      change-IsRecorded env (dispatched env t owner resumes) _ _ _ s s' (some next) h in
    let task : next ≡ dispatched env t owner resumes = ground arith in
    let p = c.published in
    record {
      owner = owner;
      resumes = resumes;
      task = task;
      tasks =
          ap (λ (x : RuntimeState). x.tasks) p
          ∙ ap (λ (n : Task). insert n.id n s.tasks) (sym task);
      projects = ap (λ (x : RuntimeState). x.projects) p;
      settings =
          ap (λ (x : RuntimeState). x.store.settings) p
          ∙ save-settings env _ s.store c.store c.saved;
      maintenance = ap (λ (x : RuntimeState). x.remote_maintenance) p;
      orphans = ap (λ (x : RuntimeState). x.orphan_writer_groups) p;
    }

block-none :
    (env : Env) (t : Task) (reason : Text) (s s' : RuntimeState) (next : Task)
    → block_resume env t reason s ≡ (s', ok (some next))
    → ⊥
unfolding block_resume
block-none env t reason s s' next h =
    let (same, c) = change-IsRecorded env _ _ _ none s s' (some next) h in cc

thread-IsDispatch :
    (env : Env) (t : Task) (owner : AgentId) (r : Result Text (Option Text)) (s s' : RuntimeState)
    (next : Task)
    → admit_thread env t owner r s ≡ (s', ok (some next))
    → IsDispatch env t s s' next
unfolding admit_thread
thread-IsDispatch env t owner (err reason) s s' next h =
    absurd (block-none env t reason s s' next h)
thread-IsDispatch env t owner (ok thread) s s' next h =
    dispatch-IsDispatch env t owner (is_some thread) s s' next h

admit-IsDispatch :
    (env : Env) (t : Task) (owner : AgentId) (s s' : RuntimeState) (next : Task)
    → admit env t owner s ≡ (s', ok (some next))
    → IsDispatch env t s s' next
unfolding admit
admit-IsDispatch env t owner s s' next h =
    by_test (has_key owner s.agents || opt_eq t.continue_agent_id (some owner)) h
  where
    by_test :
        (b : Bool)
        → (if b
            then admit_thread env t owner (board_agent_thread s t owner) s
            else dispatch env t owner false s)
          ≡ (s', ok (some next))
        → IsDispatch env t s s' next
    by_test true k = thread-IsDispatch env t owner (board_agent_thread s t owner) s s' next k
    by_test false k = dispatch-IsDispatch env t owner false s s' next k

pub ready-IsDispatch :
    (env : Env) (t : Task) (selected : Option AgentId) (s s' : RuntimeState) (next : Task)
    → claim_ready env t selected s ≡ (s', ok (some next))
    → IsDispatch env t s s' next
unfolding claim_ready
ready-IsDispatch env t (some owner) s s' next h = admit-IsDispatch env t owner s s' next h
ready-IsDispatch env t none s s' next h =
    let d =
      admit-IsDispatch env t (env.uuid s.drawn) (record s { drawn = suc s.drawn }) s' next h in
    record {
      owner = d.owner;
      resumes = d.resumes;
      task = d.task;
      tasks = d.tasks;
      projects = d.projects;
      settings = d.settings;
      maintenance = d.maintenance;
      orphans = d.orphans;
    }
