-- ===== src/Loop/Refused.antt =====
-- What `acceptance_block` and the end of a loop's thread leave of the tasks
-- (crates/ditchd/src/acceptance_runtime.rs).
use ditch.Prelude.{
  ℕ, ◌*◌, ltb, ==-refl, ◌≡◌, refl, ap, ◌∙◌, Bool, true, false, not, ◌||◌, Option, none, some,
  lookup, remove, has_key, has_key-remove, delete, member, is_ok, Text, Result, ok, err,
  if◌then◌else◌,
}
use ditch.Core.{AgentId, Task, TaskAudit, TaskId}
use ditch.Store.{Store}
use ditch.Task.Basics.{touch}
use ditch.Store.Reservations.{release_writer as delete_reservation, reserved_group}
use ditch.Runtime.State.{RuntimeState, Env}
use ditch.Runtime.Writers.{
  release_writer, settle_reservation, keep_orphan, drop_reservation, dropped, held_remotely,
  running_group,
}
use ditch.Loop.{
  Kept, saved_as, save_measured, save_touched, notify_saved, Outside, acceptance_block,
  acceptance_save, blocked, block_found, agent_record,
}
use ditch.Loop.Thread.{end_thread, unregister}

-- Two states with the same tasks and the same loops.
abbrev SameMaps : RuntimeState → RuntimeState → Type 0
SameMaps s s' = (s'.tasks ≡ s.tasks) × (s'.acceptance_controls ≡ s.acceptance_controls)

dropped-SameMaps :
    (id : AgentId) (s : RuntimeState) (r : Result Text Store) → SameMaps s (dropped id s r)
unfolding dropped
dropped-SameMaps id s (err e) = (refl, refl)
dropped-SameMaps id s (ok store) = (refl, refl)

settle-SameMaps :
    (env : Env) (id : AgentId) (group : Option ℕ) (s : RuntimeState)
    → SameMaps s (settle_reservation env id group s)
unfolding settle_reservation keep_orphan drop_reservation
settle-SameMaps env id none s = dropped-SameMaps id s (delete_reservation env.disk id s.store)
settle-SameMaps env id (some pid) s = (refl, refl)

release-SameMaps :
    (env : Env) (id : AgentId) (s : RuntimeState) → SameMaps s (release_writer env id s)
unfolding release_writer
release-SameMaps env id s =
    by_test (member id s.acceptance_owners || held_remotely s id || not env.disk.readable)
  where
    by_test :
        (b : Bool)
        → SameMaps s (
            if b
            then s
            else settle_reservation env id
                (running_group env (reserved_group id s.store.reservations))
                s)
    by_test true = (refl, refl)
    by_test false = settle-SameMaps env id _ s

-- The end of a thread takes the loop out of the map and leaves the tasks alone.
pub end_lem :
    (env : Env) (id : TaskId) (s : RuntimeState)
    → ((end_thread env id s).tasks ≡ s.tasks)
      × (has_key id (end_thread env id s).acceptance_controls ≡ false)
unfolding end_thread unregister has_key
end_lem env id s = by_lookup (lookup id s.acceptance_controls) refl
  where
    by_lookup :
        (o : Option AgentId)
        → lookup id s.acceptance_controls ≡ o
        → ((unregister env id s o).tasks ≡ s.tasks)
          × (has_key id (unregister env id s o).acceptance_controls ≡ false)
    by_lookup none e = (refl, rw e refl)
    by_lookup (some owner) e =
        let freed = record s {
          acceptance_controls = remove id s.acceptance_controls;
          acceptance_owners = delete owner s.acceptance_owners;
        } in
        let (tasks, controls) = release-SameMaps env owner freed in
        (
          tasks,
          ap (has_key id) controls
              ∙ has_key-remove id id s.acceptance_controls
              ∙ rw (==-refl id) refl,
        )

pub block_missing :
    (o : Outside) (id : TaskId) (code message : Text) (s : RuntimeState)
    → lookup id s.tasks ≡ none
    → (acceptance_block o id code message s).tasks ≡ s.tasks
unfolding acceptance_block block_found
block_missing o id code message s e = rw e refl

-- A save that is refused leaves the tasks.
saved_refused :
    (t : Task) (entry : TaskAudit) (s : RuntimeState) (r : Result Text Store)
    → is_ok (saved_as t entry s r).1 ≡ false
    → (saved_as t entry s r).0.tasks ≡ s.tasks
unfolding saved_as
saved_refused t entry s (err e) h = refl
saved_refused t entry s (ok store) h = absurd (cc)

measured_refused :
    (env : Env) (t : Task) (action : Text) (s : RuntimeState) (r : Result Text ℕ)
    → is_ok (save_measured env t action s r).1 ≡ false
    → (save_measured env t action s r).0.tasks ≡ s.tasks
unfolding save_measured save_touched
measured_refused env t action s (err e) h = refl
measured_refused env t action s (ok size) h = by_size (ltb (768 * 1024) size) _ h
  where
    by_size :
        (b : Bool) (long : Text)
        → is_ok (if b then (s, err long) else save_touched env (touch env.now t) action s).1 ≡ false
        → (if b then (s, err long) else save_touched env (touch env.now t) action s).0.tasks
          ≡ s.tasks
    by_size true long k = refl
    by_size false long k = saved_refused _ _ s _ k

notify_refused :
    (env : Env) (r : Kept Task) → is_ok r.1 ≡ false → (notify_saved env r).tasks ≡ r.0.tasks
notify_refused env (s, err e) h = refl
notify_refused env (s, ok t) h = absurd (cc)

pub block_refused :
    (o : Outside) (id : TaskId) (code message : Text) (t : Task) (s : RuntimeState)
    → lookup id s.tasks ≡ some t
    → is_ok (acceptance_save o (blocked o (agent_record s t) code message t) code s).1 ≡ false
    → (acceptance_block o id code message s).tasks ≡ s.tasks
unfolding acceptance_block block_found acceptance_save
block_refused o id code message t s found h =
    rw found (notify_refused o.env _ h ∙ measured_refused o.env _ code s _ h)
