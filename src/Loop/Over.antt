-- ===== src/Loop/Over.antt =====
-- What the thread of a loop leaves behind: the end of `begin_acceptance`
-- (crates/ditchd/src/acceptance_runtime.rs).
use ditch.Prelude.{
  ℕ, ◌≡◌, ◌⊎◌, inl, inr, refl, ap, ◌∙◌, Bool, true, false, Option, none, some, lookup, has_key,
  is_ok, Text, ok, err,
}
use ditch.Core.{AgentId, AgentExecutionProfile, ProjectId, Task, TaskId}
use ditch.Runtime.State.{RuntimeState}
use ditch.Loop.{Outside, acceptance_block, acceptance_save, blocked, agent_record}
use ditch.Loop.Blocked.{IsBlocked, acceptance_block-IsBlocked}
use ditch.Loop.Turn.{Turn, Setup, Stop, Step}
use ditch.Loop.Cycle.{LoopWorld, acceptance_cycle}
use ditch.Loop.Thread.{run_loop, conclude}
use ditch.Loop.Earned.{IsSubmission}
use ditch.Loop.Own.{IsOwn, KeepsOwn}
use ditch.Loop.Ends.{cycle-IsSubmission}
use ditch.Loop.Panics.{Gone, Safe}
use ditch.Loop.Steps.{acceptance_cycle-Safe}
use ditch.Loop.Refused.{end_lem, block_missing, block_refused}

-- How a loop is over, by what its cycle `r` came to: its turns submitted a review that was earned, for
-- the contract that the task had in `s`, and it stands; or the cycle failed, and its task is blocked
-- with the failure's reason and no attempt of it is active; or the store refused the blocked task and
-- the tasks are as the cycle left them; or the task was gone.
pub data IsOver (o : Outside) (world : ℕ → Turn) (id : TaskId) (s : RuntimeState)
    (r : Step RuntimeState) (s' : RuntimeState) : Type 0 where
  reviewed :
      (c : Setup) (last : RuntimeState)
      → r ≡ ok last
      → lookup id s.tasks ≡ some c.initial
      → c.id ≡ id
      → c.config ≡ c.initial.acceptance.config
      → IsSubmission c world s'
      → IsOver o world id s r s'
  stopped :
      (code message : Text) (last : RuntimeState) (t t' : Task)
      → r ≡ err (Stop.failed code message last)
      → lookup id last.tasks ≡ some t
      → lookup t.id s'.tasks ≡ some t'
      → IsBlocked code message t t'
      → IsOver o world id s r s'
  refused :
      (code message : Text) (last : RuntimeState) (t : Task)
      → r ≡ err (Stop.failed code message last)
      → lookup id last.tasks ≡ some t
      → is_ok (acceptance_save o (blocked o (agent_record last t) code message t) code last).1
        ≡ false
      → s'.tasks ≡ last.tasks
      → IsOver o world id s r s'
  missing :
      (code message : Text) (last : RuntimeState)
      → r ≡ err (Stop.failed code message last)
      → lookup id last.tasks ≡ none
      → s'.tasks ≡ last.tasks
      → IsOver o world id s r s'

moved-IsSubmission :
    (c : Setup) (world : ℕ → Turn) (s s' : RuntimeState)
    → s'.tasks ≡ s.tasks
    → IsSubmission c world s
    → IsSubmission c world s'
moved-IsSubmission c world s s' same h =
    let placed = h.placed in
    record {
      review = h.review;
      ordinal = h.ordinal;
      begun = h.begun;
      in_budget = h.in_budget;
      earned = h.earned;
      placed = record {
        task = placed.task;
        found = ap (lookup c.id) same ∙ placed.found;
        own = placed.own;
        reviewed = placed.reviewed;
      };
    }

block-IsOver :
    (o : Outside) (world : ℕ → Turn) (id : TaskId) (code message : Text) (start s s' : RuntimeState)
    → s'.tasks ≡ (acceptance_block o id code message s).tasks
    → IsOver o world id start (err (Stop.failed code message s)) s'
block-IsOver o world id code message start s s' same = by_lookup (lookup id s.tasks) refl
  where
    by_save :
        (t : Task)
        → lookup id s.tasks ≡ some t
        → (b : Bool)
        → is_ok (acceptance_save o (blocked o (agent_record s t) code message t) code s).1 ≡ b
        → IsOver o world id start (err (Stop.failed code message s)) s'
    by_save t e true saved =
        let (t', found, is_blocked, controls) =
          acceptance_block-IsBlocked o id code message t s e saved in
        IsOver.stopped code message s t t' refl e (ap (lookup t.id) same ∙ found) is_blocked
    by_save t e false saved =
        IsOver.refused code message s t refl e saved
          (same ∙ block_refused o id code message t s e saved)

    by_lookup :
        (found : Option Task)
        → lookup id s.tasks ≡ found
        → IsOver o world id start (err (Stop.failed code message s)) s'
    by_lookup none e =
        IsOver.missing code message s refl e (same ∙ block_missing o id code message s e)
    by_lookup (some t) e = by_save t e _ refl

-- What a panic leaves: the state of that moment, which has lost the task or the loop.
pub record IsLost (id : TaskId) (r : Step RuntimeState) (s' : RuntimeState) : Type 0 where
  pub last : RuntimeState
  pub panicked : r ≡ err (Stop.panicked last)
  pub left : s' ≡ last
  pub gone : Gone id s'

concluded :
    (o : Outside) (world : ℕ → Turn) (id : TaskId) (s : RuntimeState) (r : Step RuntimeState)
    → Safe id r
    → ((s' : RuntimeState)
        → r ≡ ok s'
        → (c : Setup) × (lookup id s.tasks ≡ some c.initial)
          × (c.id ≡ id)
          × (c.config ≡ c.initial.acceptance.config)
          × IsSubmission c world s')
    → ((has_key id (conclude o id r).acceptance_controls ≡ false)
        × IsOver o world id s r (conclude o id r))
      ⊎ IsLost id r (conclude o id r)
unfolding conclude Safe
concluded o world id s (ok last) safe earned =
    let (tasks, over) = end_lem o.env id last in
    let (c, found, same, config, submission) = earned last refl in
    inl (
      over,
      IsOver.reviewed c last refl found same config
          (moved-IsSubmission c world last _ tasks submission),
    )
concluded o world id s (err (Stop.failed code message last)) safe earned =
    let (tasks, over) = end_lem o.env id (acceptance_block o id code message last) in
    inl (over, block-IsOver o world id code message s last _ tasks)
concluded o world id s (err (Stop.panicked last)) safe earned =
    inr (record { last = last; panicked = refl; left = refl; gone = safe })

-- Whatever its turns meet, the thread of a loop comes to an end, if the map holds the task under its
-- identity and the other threads keep that so: the loop is out of the map, and it is over as `IsOver`
-- states of what its cycle came to; unless the cycle panicked, in a state where the task or the loop
-- had been taken out of the maps behind its back.
pub run_loop-IsOver :
    (w : LoopWorld) (o : Outside) (project : ProjectId) (id : TaskId) (owner : AgentId)
    (profile : AgentExecutionProfile) (validation_only : Bool) (s : RuntimeState)
    → ((k : ℕ) → KeepsOwn id (w.turn k))
    → IsOwn id s
    → ((has_key id (run_loop w o project id owner profile validation_only s).acceptance_controls
          ≡ false)
        × IsOver o w.turn id s
            (acceptance_cycle w project id owner profile validation_only s)
            (run_loop w o project id owner profile validation_only s))
      ⊎ IsLost id
          (acceptance_cycle w project id owner profile validation_only s)
          (run_loop w o project id owner profile validation_only s)
unfolding run_loop
run_loop-IsOver w o project id owner profile validation_only s keeps own =
    concluded o w.turn id s (acceptance_cycle w project id owner profile validation_only s)
      (acceptance_cycle-Safe w project id owner profile validation_only s)
      (λ s' h.
        let (c, found, same, config, alone, most, submission) =
          cycle-IsSubmission w project id owner profile validation_only s s' keeps own h in
        (c, found, same, config, submission))
