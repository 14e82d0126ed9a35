-- ===== src/Loop/Records.antt =====
-- What the records of a loop hold after `acceptance_save` and `attempt_update`
-- (crates/ditchd/src/acceptance_runtime.rs).
use ditch.Prelude.{
  ℕ, ◌+◌, ◌*◌, ltb, ◌==◌, ◌≡◌, Bool, true, false, not, Option, none, some, List, [], ◌∷◌, In, find,
  keep, insert, Text, Result, ok, err, if◌then◌else◌,
}
use ditch.Core.{Task, TaskAudit, TaskAttempt, result_active}
use ditch.Task.Basics.{touch}
use ditch.Store.{Store}
use ditch.Runtime.State.{RuntimeState, Env, publish_tasks, send}
use ditch.Loop.{Outside, saved_as, save_touched, save_measured, acceptance_save, last_condition}

-- A task that was saved: its new revision is in the map, and the maps of the loops, the agents and
-- the leases are as before.
pub record IsSaved (env : Env) (t t' : Task) (s s' : RuntimeState) : Type 0 where
  pub task : t' ≡ touch env.now t
  pub tasks : s'.tasks ≡ insert t.id t' s.tasks
  pub controls : s'.acceptance_controls ≡ s.acceptance_controls
  pub owners : s'.acceptance_owners ≡ s.acceptance_owners
  pub agents : s'.agents ≡ s.agents
  pub leases : s'.writer_leases ≡ s.writer_leases

touched_ok :
    (env : Env) (t t' : Task) (entry : TaskAudit) (s s' : RuntimeState) (r : Result Text Store)
    → saved_as (touch env.now t) entry s r ≡ (s', ok t')
    → IsSaved env t t' s s'
unfolding saved_as publish_tasks send touch
touched_ok env t t' entry s s' (err e) h = cc
touched_ok env t t' entry s s' (ok store) h = record {
  task = cc;
  tasks = cc;
  controls = cc;
  owners = cc;
  agents = cc;
  leases = cc;
}

measured_ok :
    (env : Env) (t t' : Task) (action : Text) (s s' : RuntimeState) (r : Result Text ℕ)
    → save_measured env t action s r ≡ (s', ok t')
    → IsSaved env t t' s s'
unfolding save_measured save_touched
measured_ok env t t' action s s' (err e) h = cc
measured_ok env t t' action s s' (ok size) h = by_size (ltb (768 * 1024) size) _ h
  where
    by_size :
        (b : Bool) (long : Text)
        → (if b then (s, err long) else save_touched env (touch env.now t) action s) ≡ (s', ok t')
        → IsSaved env t t' s s'
    by_size true long k = cc
    by_size false long k = touched_ok env t t' _ s s' _ k

pub save-IsSaved :
    (o : Outside) (t t' : Task) (action : Text) (s s' : RuntimeState)
    → acceptance_save o t action s ≡ (s', ok t')
    → IsSaved o.env t t' s s'
unfolding acceptance_save
save-IsSaved o t t' action s s' h = measured_ok o.env t t' action s s' _ h

-- The attempts with an identity.
unfoldable pub count_id : ℕ → List TaskAttempt → ℕ
count_id n [] = 0
count_id n (a ∷ more) = (if a.id == n then 1 else 0) + count_id n more

abbrev pub is_other : TaskAttempt → TaskAttempt → Bool
is_other a b = not (b.id == a.id)

-- The first attempt with the identity has ended.
abbrev pub is_ended : Option TaskAttempt → Bool
is_ended none = false
is_ended (some b) = not (result_active b.result)

unfoldable pub is_shut : TaskAttempt → List TaskAttempt → Bool
is_shut a attempts = is_ended (find (λ (b : TaskAttempt). b.id == a.id) attempts)

-- What an update leaves of a task: a new revision with the attempt in it and its approvals grown;
-- the attempts of other identities untouched and in order; one more of the identity only where it
-- was free; and no ended attempt was opened again.
pub record IsUpdate (o : Outside) (a : TaskAttempt) (t t' : Task) : Type 0 where
  pub placed :
      (b : TaskAttempt) × In b t'.acceptance.attempts × (b.id ≡ a.id) × (b.result ≡ a.result)
  pub others : keep (is_other a) t'.acceptance.attempts ≡ keep (is_other a) t.acceptance.attempts
  pub number : count_id a.id t'.acceptance.attempts ≡ (
      if count_id a.id t.acceptance.attempts == 0 then 1 else count_id a.id t.acceptance.attempts)
  pub was_open : is_shut a t.acceptance.attempts ≡ false
  pub condition : t'.condition ≡ last_condition t'.acceptance.attempts t.condition
  pub submissions : t'.acceptance.submissions ≡ t.acceptance.submissions
