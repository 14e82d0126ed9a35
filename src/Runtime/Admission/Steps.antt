-- ===== src/Runtime/Admission/Steps.antt =====
-- The runs of the daemon on its writers, and the leases on the way.
use ditch.Prelude.{
  ℕ, ◌≡◌, refl, Bool, true, false, Option, none, some, any, any-false, values, lookup, insert,
  remove, ◌∷◌, Text, Result, ok, err, arith, if◌then◌else◌, lookup-remove,
}
use ditch.Core.{AgentId, AgentExecutionProfile, AgentRun, Project, Uuid, WorkspaceLease}
use ditch.Store.{Store}
use ditch.Store.Reservations.{reserve_writer, transfer_writer, writer_started}
use ditch.Runtime.State.{RuntimeState, Env}
use ditch.Runtime.Writers.{release_writer, reap_orphan_writers, broadcast_agent}
use ditch.Runtime.Admission.{
  WriterAdmission, WriterGuard, conflicts, acquire_with_intent, acquire_at, grant, record_lease,
  needed_lease, excluded, retain_as, transferred, move_lease, drop, drop_held, started, with_store,
  lease_root,
}
use ditch.Runtime.Admission.Leases.{LeasesApart, LeasesApart-remove, LeasesApart-insert, In-lookup}
use ditch.Runtime.Admission.Kept.{Apart, release-Apart, reap-Apart, broadcast-Apart}
use ditch.Runtime.Admission.Granted.{needed-free}

insert-Apart :
    (id : AgentId) (lease : WorkspaceLease) (s : RuntimeState)
    → excluded id lease s ≡ false
    → Apart s
    → LeasesApart (insert id lease s.writer_leases)
unfolding excluded
insert-Apart id lease s free apart =
    let none_conflicts : any (conflicts lease) (values s.writer_leases) ≡ false = ground arith in
    LeasesApart-insert id lease s.writer_leases
      (λ c z other found.
        any-false (conflicts lease) (values s.writer_leases) z none_conflicts
          (In-lookup c z s.writer_leases found))
      apart

record-Apart :
    (id : AgentId) (lease : WorkspaceLease) (s : RuntimeState) (r : Result Text Store)
    → excluded id lease s ≡ false
    → Apart s
    → Apart (record_lease id lease s r).0
unfolding record_lease
record-Apart id lease s (err e) free apart = apart
record-Apart id lease s (ok store) free apart = insert-Apart id lease s free apart

grant-Apart :
    (env : Env) (id : AgentId) (s : RuntimeState) (r : Result Text (Option WorkspaceLease))
    → ((lease : WorkspaceLease) → r ≡ ok (some lease) → excluded id lease s ≡ false)
    → Apart s
    → Apart (grant env id s r).0
unfolding grant
grant-Apart env id s (err e) free apart = apart
grant-Apart env id s (ok none) free apart = apart
grant-Apart env id s (ok (some lease)) free apart =
    record-Apart id lease s (reserve_writer env.disk id lease s.store) (free lease refl) apart

acquire_at-Apart :
    (env : Env) (id : AgentId) (p : Project) (profile : AgentExecutionProfile) (group : Option Uuid)
    (intent : WriterAdmission) (s : RuntimeState) (r : Result Text Text)
    → Apart s
    → Apart (acquire_at env id p profile group intent s r).0
unfolding acquire_at
acquire_at-Apart env id p profile group intent s (err e) apart = apart
acquire_at-Apart env id p profile group intent s (ok root) apart =
    let reaped = reap_orphan_writers env s in
    let admitted =
      grant-Apart env id reaped (needed_lease env id p profile group intent root reaped)
        (λ lease h. (needed-free env id p profile group intent root reaped lease h).0)
        (reap-Apart env s apart) in
    ground arith

move-Apart :
    (old new : AgentId) (s : RuntimeState) (m : Option WorkspaceLease)
    → lookup old s.writer_leases ≡ m
    → Apart s
    → Apart (move_lease old new s m)
unfolding move_lease
move-Apart old new s none found apart = apart
move-Apart old new s (some lease) found apart =
    LeasesApart-insert new lease (remove old s.writer_leases)
      (λ c z other h.
        (let gone = lookup-remove old c s.writer_leases in
          let kept = apart old c lease z found in ground arith))
      (LeasesApart-remove old s.writer_leases apart)

transferred-Apart :
    (old new : AgentId) (s : RuntimeState) (r : Result Text Store)
    → Apart s
    → Apart (transferred old new s r)
unfolding transferred
transferred-Apart old new s (err e) apart = apart
transferred-Apart old new s (ok store) apart =
    move-Apart old new (record s { store = store }) (lookup old s.writer_leases) refl apart

stored-Apart : (s : RuntimeState) (r : Result Text Store) → Apart s → Apart (with_store s r).0
unfolding with_store
stored-Apart s (err e) apart = apart
stored-Apart s (ok store) apart = apart

drop-Apart : (env : Env) (g : WriterGuard) (s : RuntimeState) → Apart s → Apart (drop env g s)
unfolding drop drop_held
drop-Apart env g s apart = by_retained g.retained (by_group g.process_group)
  where
    by_test :
        (pid : ℕ) (b : Bool)
        → Apart (
            if b
            then record s {
              killed = pid ∷ s.killed;
              orphan_writer_groups = insert g.agent_id pid s.orphan_writer_groups;
            }
            else release_writer env g.agent_id s)
    by_test pid true = apart
    by_test pid false = release-Apart env g.agent_id s apart

    by_group : (m : Option ℕ) → Apart (drop_held env g.agent_id m s)
    by_group none = release-Apart env g.agent_id s apart
    by_group (some pid) = by_test pid (env.process_group_exists pid)

    by_retained :
        (b : Bool)
        → Apart (drop_held env g.agent_id g.process_group s)
        → Apart (if b then s else drop_held env g.agent_id g.process_group s)
    by_retained true held = apart
    by_retained false held = held

-- What the daemon does to its writers, in any order: admissions, starts, moves, drops, releases,
-- reaping, and the announcement of an agent's state. The world may change between any two.
pub data Run (s : RuntimeState) : RuntimeState → Type 0 where
  idle : Run s s
  acquired :
      {t : RuntimeState}
      → Run s t
      → (env : Env) (id : AgentId) (p : Project) (profile : AgentExecutionProfile)
        (group : Option Uuid) (intent : WriterAdmission)
      → Run s (acquire_with_intent env id p profile group intent t).0
  launched :
      {t : RuntimeState}
      → Run s t
      → (env : Env) (pid : ℕ) (g : WriterGuard) → Run s (started env pid g t).1.0
  renamed :
      {t : RuntimeState}
      → Run s t
      → (env : Env) (new : AgentId) (g : WriterGuard) → Run s (retain_as env new g t).1
  dropped : {t : RuntimeState} → Run s t → (env : Env) (g : WriterGuard) → Run s (drop env g t)
  released :
      {t : RuntimeState} → Run s t → (env : Env) (id : AgentId) → Run s (release_writer env id t)
  reaped : {t : RuntimeState} → Run s t → (env : Env) → Run s (reap_orphan_writers env t)
  announced :
      {t : RuntimeState}
      → Run s t
      → (env : Env) (run : AgentRun) → Run s (broadcast_agent env run t)

-- In every run of admissions, starts, moves, drops, releases, reaping and announcements that starts
-- with leases which do not conflict, the leases of different agents never conflict.
pub Run-Apart : {s t : RuntimeState} → Apart s → Run s t → Apart t
unfolding acquire_with_intent started retain_as
Run-Apart apart idle = apart
Run-Apart apart (acquired {t} r env id p profile group intent) =
    acquire_at-Apart env id p profile group intent t (lease_root env p) (Run-Apart apart r)
Run-Apart apart (launched {t} r env pid g) =
    stored-Apart t (writer_started env.disk g.agent_id pid t.store) (Run-Apart apart r)
Run-Apart apart (renamed {t} r env new g) =
    transferred-Apart g.agent_id new t (transfer_writer env.disk g.agent_id new t.store)
      (Run-Apart apart r)
Run-Apart apart (dropped {t} r env g) = drop-Apart env g t (Run-Apart apart r)
Run-Apart apart (released {t} r env id) = release-Apart env id t (Run-Apart apart r)
Run-Apart apart (reaped {t} r env) = reap-Apart env t (Run-Apart apart r)
Run-Apart apart (announced {t} r env run) = broadcast-Apart env run t (Run-Apart apart r)
