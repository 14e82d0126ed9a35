-- ===== src/Runtime/Writers/Release.antt =====
-- When `release_writer` gives up a lease.
use ditch.Prelude.{
  ℕ, ==→eq, ◌≡◌, refl, sym, ◌∙◌, Bool, true, false, not, ◌||◌, Option, none, some, List, [], ◌∷◌,
  any, keep, has_key, has_key-remove, member, Text, Result, ok, err, arith, if◌then◌else◌,
}
use ditch.Core.{AgentId}
use ditch.Store.{Store, Reservation}
use ditch.Store.Reservations.{release_writer as delete_reservation, reserved_group, owned_by}
use ditch.Runtime.State.{RuntimeState, Env}
use ditch.Runtime.Writers.{
  release_writer, settle_reservation, keep_orphan, drop_reservation, dropped, held_remotely,
  running_group,
}

any-keep :
    (id : AgentId) (rs : List Reservation)
    → any (owned_by id) (keep (λ r. not (owned_by id r)) rs) ≡ false
unfolding keep
any-keep id [] = refl
any-keep id (r ∷ rs) = ground (arith, any-keep id rs)

deleted_rows :
    (env : Env) (id : AgentId) (s s' : Store)
    → delete_reservation env.disk id s ≡ ok s'
    → any (owned_by id) s'.reservations ≡ false
unfolding delete_reservation
deleted_rows env id s s' h = ground (arith, any-keep id s.reservations)

-- The end of a lease.
pub record IsEnded (env : Env) (id lost : AgentId) (s s' : RuntimeState) : Type 0 where
  pub own : lost ≡ id
  pub no_owner : member id s.acceptance_owners ≡ false
  pub not_remote : held_remotely s id ≡ false
  pub no_process : running_group env (reserved_group id s.store.reservations) ≡ none
  pub no_row : any (owned_by id) s'.store.reservations ≡ false

dropped_lease :
    (env : Env) (id lost : AgentId) (s : RuntimeState) (r : Result Text Store)
    → delete_reservation env.disk id s.store ≡ r
    → has_key lost s.writer_leases ≡ true
    → has_key lost (dropped id s r).writer_leases ≡ false
    → (lost ≡ id) × (any (owned_by id) (dropped id s r).store.reservations ≡ false)
unfolding dropped
dropped_lease env id lost s (err e) d h k = ground arith
dropped_lease env id lost s (ok store) d h k =
    let removed = has_key-remove id lost s.writer_leases in
    (ground (arith, ==→eq id lost), deleted_rows env id s.store store d)

settled_lease :
    (env : Env) (id lost : AgentId) (s : RuntimeState) (group : Option ℕ)
    → has_key lost s.writer_leases ≡ true
    → has_key lost (settle_reservation env id group s).writer_leases ≡ false
    → (group ≡ none)
      × (lost ≡ id)
      × (any (owned_by id) (settle_reservation env id group s).store.reservations ≡ false)
unfolding settle_reservation keep_orphan drop_reservation
settled_lease env id lost s (some pid) h k = ground arith
settled_lease env id lost s none h k =
    let (own, gone) =
      dropped_lease env id lost s (delete_reservation env.disk id s.store) refl h k in
    (refl, own, gone)

-- `release_writer` takes away no lease but the agent's own, and that one only if the agent owns no
-- acceptance loop, no live task of a remote project is its, and no process of its reserved group
-- runs; its reservation is then gone from the store as well.
pub release-IsEnded :
    (env : Env) (id lost : AgentId) (s : RuntimeState)
    → has_key lost s.writer_leases ≡ true
    → has_key lost (release_writer env id s).writer_leases ≡ false
    → IsEnded env id lost s (release_writer env id s)
unfolding release_writer
release-IsEnded env id lost s h k =
    by_tests (member id s.acceptance_owners) (held_remotely s id) env.disk.readable refl refl k
  where
    by_tests :
        (owner remote readable : Bool)
        → member id s.acceptance_owners ≡ owner
        → held_remotely s id ≡ remote
        → has_key lost
            (if owner || remote || not readable
              then s
              else settle_reservation env id
                  (running_group env (reserved_group id s.store.reservations))
                  s).writer_leases
          ≡ false
        → IsEnded env id lost s (
            if owner || remote || not readable
            then s
            else settle_reservation env id
                (running_group env (reserved_group id s.store.reservations))
                s)
    by_tests true remote readable o r g = ground (arith, sym h ∙ g)
    by_tests false true readable o r g = ground (arith, sym h ∙ g)
    by_tests false false false o r g = ground (arith, sym h ∙ g)
    by_tests false false true o r g =
        let (idle, own, gone) =
          settled_lease env id lost s (running_group env (reserved_group id s.store.reservations)) h
            g in
        record { own = own; no_owner = o; not_remote = r; no_process = idle; no_row = gone }
