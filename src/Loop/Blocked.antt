-- ===== src/Loop/Blocked.antt =====
-- What `acceptance_block` (crates/ditchd/src/acceptance_runtime.rs) leaves of a task.
use ditch.Prelude.{
  suc, ◌≡◌, refl, ap, ◌∙◌, Bool, true, false, Option, none, some, List, [], ◌∷◌, any, map, text,
  ◌++◌, length, insert, lookup, lookup-insert, Text, text_eq, is_ok, Result, ok, err, arith,
  if◌then◌else◌,
}
use ditch.Core.{TaskId, Task, TaskCondition, TaskState, TaskAttempt, AttemptResult, result_active}
use ditch.Task.Basics.{touch}
use ditch.Store.{Store, upsert_attention}
use ditch.Runtime.State.{RuntimeState, Env, AgentRecord, ServerEvent, send}
use ditch.Runtime.Sync.{task_attention, notice, same_notice}
use ditch.Loop.{
  Outside, Kept, acceptance_save, blocked, ended, stop_attempt, block_found, acceptance_block,
  agent_record, notify_saved, with_record,
}
use ditch.Loop.Records.{save-IsSaved}

-- What a block leaves of a task: it is in progress and blocked with the reason, without a current
-- submission, and all its attempts have ended; there are as many attempts as before, and the
-- submissions are kept.
pub record IsBlocked (code message : Text) (t t' : Task) : Type 0 where
  pub state : t'.state ≡ TaskState.running
  pub condition : t'.condition ≡ TaskCondition.blocked
  pub submission : t'.acceptance.current_submission ≡ none
  pub reason : t'.last_reason ≡ some (code ++ (text ": " ++ message))
  pub stopped : any (λ (a : TaskAttempt). result_active a.result) t'.acceptance.attempts ≡ false
  pub number : length t'.acceptance.attempts ≡ length t.acceptance.attempts
  pub history : t'.acceptance.submissions ≡ t.acceptance.submissions

stop_one :
    (o : Outside) (agent : Option AgentRecord) (code message : Text) (a : TaskAttempt)
    → result_active (stop_attempt o agent code message a).result ≡ false
unfolding stop_attempt ended
stop_one o agent code message a =
    by_test (result_active a.result) refl (text_eq code (text "cancelled"))
  where
    by_test :
        (active : Bool)
        → result_active a.result ≡ active
        → (cancelled : Bool)
        → result_active
            (if active
              then ended o.env.now
                  (if cancelled then AttemptResult.cancelled else AttemptResult.blocked)
                  code
                  message
                  (with_record o agent a)
              else a).result
          ≡ false
    by_test true e true = refl
    by_test true e false = refl
    by_test false e cancelled = e

stop_all :
    (o : Outside) (agent : Option AgentRecord) (code message : Text) (attempts : List TaskAttempt)
    → (any
          (λ (a : TaskAttempt). result_active a.result)
          (map (stop_attempt o agent code message) attempts)
        ≡ false)
      × (length (map (stop_attempt o agent code message) attempts) ≡ length attempts)
unfolding stop_attempt ended
stop_all o agent code message [] = (refl, refl)
stop_all o agent code message (a ∷ more) =
    let (quiet, long) = stop_all o agent code message more in
    (rw (stop_one o agent code message a) quiet, ap suc long)

-- A notice changes the tables, the notices and the events alone.
pub tasks-attention :
    (env : Env) (t : Task) (s : RuntimeState)
    → ((task_attention env t s).tasks ≡ s.tasks)
      × ((task_attention env t s).acceptance_controls ≡ s.acceptance_controls)
unfolding task_attention send
tasks-attention env t s =
    by_test (any (same_notice t) s.attention) (upsert_attention env.disk (notice env s t) s.store)
  where
    by_test :
        (b : Bool) (r : Result Text Store)
        → (let s' = if b then s else (elim r [
          | err e ↦ record s { drawn = suc s.drawn }
          | ok store ↦ send (ServerEvent.attention_raised (notice env s t)) (record s {
            drawn = suc s.drawn;
            store = store;
            attention = s.attention ++ notice env s t ∷ [];
          })
        ]) in
            (s'.tasks ≡ s.tasks) × (s'.acceptance_controls ≡ s.acceptance_controls))
    by_test true r = (refl, refl)
    by_test false (err e) = (refl, refl)
    by_test false (ok store) = (refl, refl)

blocked-IsBlocked :
    (o : Outside) (agent : Option AgentRecord) (code message : Text) (t : Task)
    → IsBlocked code message t (touch o.env.now (blocked o agent code message t))
unfolding blocked touch
blocked-IsBlocked o agent code message t =
    let (quiet, long) = stop_all o agent code message t.acceptance.attempts in
    record {
      state = refl;
      condition = refl;
      submission = refl;
      reason = refl;
      stopped = quiet;
      number = long;
      history = refl;
    }

blocked-id :
    (o : Outside) (agent : Option AgentRecord) (code message : Text) (t : Task)
    → (blocked o agent code message t).id ≡ t.id
unfolding blocked
blocked-id o agent code message t = refl

pub lookup_own :
    (key id : TaskId) (t : Task) (tasks : List (TaskId × Task))
    → key ≡ id
    → lookup id (insert key t tasks) ≡ some t
lookup_own key id t tasks same = ground (arith, lookup-insert key id t tasks)

notified :
    (o : Outside) (t : Task) (code : Text) (s : RuntimeState) (r : Kept Task)
    → acceptance_save o t code s ≡ r
    → is_ok r.1 ≡ true
    → ((notify_saved o.env r).tasks ≡ insert t.id (touch o.env.now t) s.tasks)
      × ((notify_saved o.env r).acceptance_controls ≡ s.acceptance_controls)
notified o t code s (s', err e) h k = cc
notified o t code s (s', ok t') h k =
    let saved = save-IsSaved o t t' code s s' h in
    let (tasks, controls) = tasks-attention o.env t' s' in
    (
      tasks ∙ saved.tasks ∙ ap (λ (u : Task). insert t.id u s.tasks) saved.task,
      controls ∙ saved.controls,
    )

-- A block of a task that the map holds, whose save goes through, leaves in the map the task with no
-- active attempt, no current submission and the reason, as `IsBlocked` states, and the loops' map
-- as it was.
pub acceptance_block-IsBlocked :
    (o : Outside) (id : TaskId) (code message : Text) (t : Task) (s : RuntimeState)
    → lookup id s.tasks ≡ some t
    → is_ok (acceptance_save o (blocked o (agent_record s t) code message t) code s).1 ≡ true
    → (t' : Task) × (lookup t.id (acceptance_block o id code message s).tasks ≡ some t')
      × IsBlocked code message t t'
      × ((acceptance_block o id code message s).acceptance_controls ≡ s.acceptance_controls)
unfolding acceptance_block block_found
acceptance_block-IsBlocked o id code message t s found h =
    let next = blocked o (agent_record s t) code message t in
    let (tasks, controls) = notified o next code s _ refl h in
    rw found (
      touch o.env.now next,
      ap (lookup t.id) tasks
          ∙ lookup_own next.id t.id (touch o.env.now next) s.tasks
              (blocked-id o (agent_record s t) code message t),
      blocked-IsBlocked o (agent_record s t) code message t,
      controls,
    )
