-- ===== src/Runtime/Admission/Kept.antt =====
-- Synchronisation leaves the leases alone, and a release keeps them apart.
use ditch.Prelude.{
  ℕ, suc, ◌≡◌, refl, sym, subst, Bool, true, false, not, ◌&&◌, ◌||◌, Option, none, some, List, [],
  ◌∷◌, lookup, member, Text, Result, ok, err, if◌then◌else◌, arith,
}
use ditch.Core.{AgentId, AgentRun, state_busy, Task, TaskAudit}
use ditch.Store.{Store, save_task_changes}
use ditch.Store.Reservations.{release_writer as delete_reservation, reserved_group}
use ditch.Runtime.State.{RuntimeState, Env, AgentRecord, publish_tasks, send}
use ditch.Runtime.Sync.{
  sync_agent_task, sync_agent, sync_linked, apply_change, task_attention, in_review, stopped_badly,
  agent_change, is_live_agent, task_of,
}
use ditch.Runtime.Writers.{
  release_writer, release_all, reap_orphan_writers, settle_reservation, keep_orphan,
  drop_reservation, dropped, exited, held_remotely, running_group, broadcast_agent,
}
use ditch.Runtime.Admission.Leases.{Leases, LeasesApart, LeasesApart-remove}

publish-leases :
    (changes : List (Task × TaskAudit)) (s : RuntimeState)
    → (publish_tasks changes s).writer_leases ≡ s.writer_leases
unfolding publish_tasks send
publish-leases [] s = refl
publish-leases ((t, entry) ∷ changes) s = publish-leases changes _

attention-leases :
    (env : Env) (t : Task) (s : RuntimeState)
    → (task_attention env t s).writer_leases ≡ s.writer_leases
unfolding task_attention send
attention-leases env t s = ground arith

change-leases :
    (env : Env) (change : Option (Task × TaskAudit)) (s : RuntimeState)
    → (apply_change env change s).writer_leases ≡ s.writer_leases
unfolding apply_change
change-leases env none s = refl
change-leases env (some (next, entry)) s =
    by_saved (save_task_changes env.disk ((next, entry) ∷ []) none none s.store)
  where
    by_saved :
        (r : Result Text Store)
        → (elim r as (λ x. RuntimeState) [
          | err e ↦ record s { drawn = suc s.drawn }
          | ok store ↦
              (let saved =
                  publish_tasks
                    ((next, entry) ∷ [])
                    (record s { drawn = suc s.drawn; store = store }) in
                if in_review next || stopped_badly next.condition
                then task_attention env next saved
                else saved)
        ]).writer_leases
          ≡ s.writer_leases
    by_saved (err e) = refl
    by_saved (ok store) =
        let saved = record s { drawn = suc s.drawn; store = store } in
        let kept = publish-leases ((next, entry) ∷ []) saved in
        let noticed = attention-leases env next (publish_tasks ((next, entry) ∷ []) saved) in
        ground arith

linked-leases :
    (env : Env) (id : AgentId) (a : AgentRecord) (t : Option Task) (s : RuntimeState)
    → (sync_linked env id a t s).writer_leases ≡ s.writer_leases
unfolding sync_linked
linked-leases env id a none s = refl
linked-leases env id a (some t) s =
    ground (arith, change-leases env (agent_change env s t a (is_live_agent s id a)) s)

record-leases :
    (env : Env) (id : AgentId) (a : Option AgentRecord) (s : RuntimeState)
    → (sync_agent env id a s).writer_leases ≡ s.writer_leases
unfolding sync_agent
record-leases env id none s = refl
record-leases env id (some a) s = linked-leases env id a (task_of s a.run.task_id) s

pub sync-leases :
    (env : Env) (id : AgentId) (s : RuntimeState)
    → (sync_agent_task env id s).writer_leases ≡ s.writer_leases
unfolding sync_agent_task
sync-leases env id s = ground (arith, record-leases env id (lookup id s.agents) s)

-- The leases of a state.
abbrev pub Apart : RuntimeState → Type 0
Apart s = LeasesApart s.writer_leases

dropped-Apart :
    (id : AgentId) (s : RuntimeState) (r : Result Text Store) → Apart s → Apart (dropped id s r)
unfolding dropped
dropped-Apart id s (err e) apart = apart
dropped-Apart id s (ok store) apart = LeasesApart-remove id s.writer_leases apart

settle-Apart :
    (env : Env) (id : AgentId) (group : Option ℕ) (s : RuntimeState)
    → Apart s
    → Apart (settle_reservation env id group s)
unfolding settle_reservation keep_orphan drop_reservation
settle-Apart env id none s apart = dropped-Apart id s (delete_reservation env.disk id s.store) apart
settle-Apart env id (some pid) s apart = apart

pub release-Apart :
    (env : Env) (id : AgentId) (s : RuntimeState) → Apart s → Apart (release_writer env id s)
unfolding release_writer
release-Apart env id s apart =
    by_test (member id s.acceptance_owners || held_remotely s id || not env.disk.readable)
  where
    by_test :
        (b : Bool)
        → Apart (
            if b
            then s
            else settle_reservation env id
                (running_group env (reserved_group id s.store.reservations))
                s)
    by_test true = apart
    by_test false =
        settle-Apart env id (running_group env (reserved_group id s.store.reservations)) s apart

sync-Apart :
    (env : Env) (id : AgentId) (s : RuntimeState) → Apart s → Apart (sync_agent_task env id s)
sync-Apart env id s apart = subst (λ (m : Leases). LeasesApart m) (sym (sync-leases env id s)) apart

release_all-Apart :
    (env : Env) (ids : List AgentId) (s : RuntimeState) → Apart s → Apart (release_all env ids s)
unfolding release_all
release_all-Apart env [] s apart = apart
release_all-Apart env (id ∷ ids) s apart =
    release_all-Apart env ids _ (sync-Apart env id _ (release-Apart env id s apart))

pub reap-Apart : (env : Env) (s : RuntimeState) → Apart s → Apart (reap_orphan_writers env s)
unfolding reap_orphan_writers
reap-Apart env s apart = release_all-Apart env (exited env s.orphan_writer_groups) s apart

pub broadcast-Apart :
    (env : Env) (run : AgentRun) (s : RuntimeState) → Apart s → Apart (broadcast_agent env run s)
unfolding broadcast_agent send
broadcast-Apart env run s apart =
    sync-Apart env run.id _
      (by_test (not run.can_stop && not (member run.id s.children) && not (state_busy run.state)))
  where
    by_test : (b : Bool) → Apart (if b then release_writer env run.id s else s)
    by_test true = release-Apart env run.id s apart
    by_test false = apart
