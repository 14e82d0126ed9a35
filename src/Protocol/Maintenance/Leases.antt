-- ===== src/Protocol/Maintenance/Leases.antt =====
-- A maintenance lease is taken only while no mutation is in flight.
use ditch.Prelude.{
  ℕ, ◌+◌, ◌≤◌, ◌<◌, ◌==◌, ◌≡◌, refl, sym, ◌∙◌, Bool, true, false, not, ◌&&◌, ◌||◌, Option, none,
  some, List, [], ◌∷◌, opt_eq, Text, text, text_eq, Result, ok, err, if◌then◌else◌, arith,
}
use ditch.Core.{Uuid, ProjectId}
use ditch.Protocol.Maintenance.{
  Daemon, World, Reply, remote_maintenance_active, forget_terminal, forget_exited,
  reap_project_terminals, reaped_for_upgrade, has_work, drain_terminals, refuse,
  close_project_terminals, token_of, begin_upgrade, exit_upgrade, end_upgrade,
  remote_maintenance_request,
}

-- What maintenance and its guards share, at a time and with so many guards in flight.
pub record IsExclusive (now inflight : ℕ) (d : Daemon) : Type 0 where
  pub counted : d.remote_mutations ≡ inflight
  pub exclusive :
      (token : Uuid) (until : ℕ)
      → d.remote_maintenance ≡ some (token, until)
      → now < until
      → inflight ≡ 0

-- The sweep of terminals and writers touches neither.
abbrev pub Same : Daemon → Daemon → Type 0
Same d e = (e.remote_mutations ≡ d.remote_mutations) × (e.remote_maintenance ≡ d.remote_maintenance)

Same-trans : (d e f : Daemon) → Same d e → Same e f → Same d f
Same-trans d e f (m1, l1) (m2, l2) = (m2 ∙ m1, l2 ∙ l1)

forget-Same : (id : Uuid) (project : ProjectId) (d : Daemon) → Same d (forget_terminal id project d)
unfolding forget_terminal
forget-Same id project d = (refl, refl)

exited-Same :
    (w : World) (ts : List (Uuid × ProjectId)) (d : Daemon) → Same d (forget_exited w ts d)
unfolding forget_exited
exited-Same w [] d = (refl, refl)
exited-Same w ((id, project) ∷ more) d =
    let swept = if w.exited id then forget_terminal id project d else d in
    Same-trans d swept (forget_exited w more swept) (by_test (w.exited id))
      (exited-Same w more swept)
  where
    by_test : (b : Bool) → Same d (if b then forget_terminal id project d else d)
    by_test true = forget-Same id project d
    by_test false = (refl, refl)

reaped-Same : (w : World) (d : Daemon) → Same d (reaped_for_upgrade w d)
unfolding reaped_for_upgrade reap_project_terminals
reaped-Same w d = exited-Same w d.terminals d

drain-Same : (ts : List (Uuid × ProjectId)) (d : Daemon) → Same d (drain_terminals ts d)
unfolding drain_terminals
drain-Same [] d = (refl, refl)
drain-Same ((id, project) ∷ more) d = drain-Same more _

pub Same-IsExclusive :
    (now later n : ℕ) (d e : Daemon)
    → now ≤ later
    → Same d e
    → IsExclusive now n d
    → IsExclusive later n e
Same-IsExclusive now later n d e h (m, l) inv = record {
  counted = m ∙ inv.counted;
  exclusive = λ token until held soon. inv.exclusive token until (sym l ∙ held) (omega arith);
}

-- A daemon that has no work has no mutation in flight.
idle_count : (d : Daemon) → has_work d ≡ false → d.remote_mutations ≡ 0
unfolding has_work
idle_count d h = ground arith

-- A new lease, or none, on an idle daemon.
leased-IsExclusive :
    (now n : ℕ) (d : Daemon) (lease : Option (Uuid × ℕ))
    → d.remote_mutations ≡ n
    → n ≡ 0
    → IsExclusive now n (record d { remote_maintenance = lease })
leased-IsExclusive now n d lease counted idle = record {
  counted = counted;
  exclusive = λ token until held soon. idle;
}

close-IsExclusive :
    (now n until : ℕ) (token : Uuid) (d : Daemon) (r : Result Text Unit)
    → d.remote_mutations ≡ n
    → n ≡ 0
    → IsExclusive now n (close_project_terminals token until d r).0
unfolding close_project_terminals
close-IsExclusive now n until token d (err e) counted idle =
    leased-IsExclusive now n d none counted idle
close-IsExclusive now n until token d (ok done) counted idle =
    Same-IsExclusive now now n
      (record d { remote_maintenance = some (token, until); terminals = [] })
      (drain_terminals d.terminals
        (record d { remote_maintenance = some (token, until); terminals = [] }))
      (omega arith)
      (drain-Same d.terminals
        (record d { remote_maintenance = some (token, until); terminals = [] }))
      (record { counted = counted; exclusive = λ t u held soon. idle })

begin-IsExclusive :
    (w : World) (token : Uuid) (now n : ℕ) (d : Daemon)
    → now ≤ w.instant
    → IsExclusive now n d
    → IsExclusive w.instant n (begin_upgrade w token d).0
unfolding begin_upgrade
begin-IsExclusive w token now n d h inv =
    by_tests
      (remote_maintenance_active w d && not (opt_eq (token_of d.remote_maintenance) (some token)))
      (has_work (reaped_for_upgrade w d)) refl
  where
    kept : IsExclusive w.instant n (reaped_for_upgrade w d)
    kept = Same-IsExclusive now w.instant n d (reaped_for_upgrade w d) h (reaped-Same w d) inv

    by_tests :
        (owned busy : Bool)
        → has_work (reaped_for_upgrade w d) ≡ busy
        → IsExclusive w.instant n
            (if owned
              then refuse d (text "upgrade_in_progress") (text "Another repair owns this runtime.")
              else if busy
              then refuse (reaped_for_upgrade w d) (text "runtime_busy") (
                  text
                    "Waiting for remote agents, terminal sessions, or pending operations to finish.")
              else close_project_terminals token
                  (w.instant + 180)
                  (reaped_for_upgrade w d)
                  w.close_sessions).0
    by_tests true busy e = Same-IsExclusive now w.instant n d d h (refl, refl) inv
    by_tests false true e = kept
    by_tests false false e =
        close-IsExclusive w.instant n (w.instant + 180) token (reaped_for_upgrade w d)
          w.close_sessions kept.counted (sym kept.counted ∙ idle_count (reaped_for_upgrade w d) e)

exit-IsExclusive :
    (w : World) (token : Uuid) (now n : ℕ) (d : Daemon)
    → now ≤ w.instant
    → IsExclusive now n d
    → IsExclusive w.instant n (exit_upgrade w token d).0
unfolding exit_upgrade
exit-IsExclusive w token now n d h inv = by_test (has_work (reaped_for_upgrade w d)) refl
  where
    kept : IsExclusive w.instant n (reaped_for_upgrade w d)
    kept = Same-IsExclusive now w.instant n d (reaped_for_upgrade w d) h (reaped-Same w d) inv

    by_test :
        (busy : Bool)
        → has_work (reaped_for_upgrade w d) ≡ busy
        → IsExclusive w.instant n
            (if busy
              then refuse
                  (reaped_for_upgrade w d)
                  (text "runtime_busy")
                  (text "Runtime is no longer idle; nothing was stopped.")
              else (
                record (reaped_for_upgrade w d) {
                  remote_maintenance = some (token, w.instant + 3600);
                },
                Reply.accepted,
              )).0
    by_test true e = kept
    by_test false e =
        leased-IsExclusive w.instant n (reaped_for_upgrade w d) (some (token, w.instant + 3600))
          kept.counted (sym kept.counted ∙ idle_count (reaped_for_upgrade w d) e)

end-IsExclusive :
    (w : World) (token : Uuid) (action : Text) (now n : ℕ) (d : Daemon)
    → now ≤ w.instant
    → IsExclusive now n d
    → IsExclusive w.instant n (end_upgrade w token action d).0
unfolding end_upgrade
end-IsExclusive w token action now n d h inv =
    by_tests (text_eq action (text "cancel")) (text_eq action (text "exit"))
  where
    by_tests :
        (cancels exits : Bool)
        → IsExclusive w.instant n
            (if cancels
              then (record d { remote_maintenance = none }, Reply.accepted)
              else if exits
              then exit_upgrade w token d
              else refuse d
                  (text "invalid_maintenance_action")
                  (text "Unknown maintenance action.")).0
    by_tests true exits = record { counted = inv.counted; exclusive = λ t u held soon. absurd (cc) }
    by_tests false true = exit-IsExclusive w token now n d h inv
    by_tests false false = Same-IsExclusive now w.instant n d d h (refl, refl) inv

pub request-IsExclusive :
    (w : World) (instance_id token : Uuid) (action : Text) (now n : ℕ) (d : Daemon)
    → now ≤ w.instant
    → IsExclusive now n d
    → IsExclusive w.instant n (remote_maintenance_request w instance_id token action d).0
unfolding remote_maintenance_request
request-IsExclusive w instance_id token action now n d h inv =
    by_tests (not d.runtime.remote_runtime || not (instance_id == d.instance_id))
      (text_eq action (text "begin"))
      (not (remote_maintenance_active w d)
        || not (opt_eq (token_of d.remote_maintenance) (some token)))
  where
    kept : IsExclusive w.instant n d
    kept = Same-IsExclusive now w.instant n d d h (refl, refl) inv

    by_tests :
        (other begins lost : Bool)
        → IsExclusive w.instant n
            (if other
              then refuse d
                  (text "runtime_identity_changed")
                  (text "The remote daemon changed; retry repair.")
              else if begins
              then begin_upgrade w token d
              else if lost
              then refuse d
                  (text "maintenance_expired")
                  (text "Maintenance ownership expired; retry repair.")
              else end_upgrade w token action d).0
    by_tests true begins lost = kept
    by_tests false true lost = begin-IsExclusive w token now n d h inv
    by_tests false false true = kept
    by_tests false false false = end-IsExclusive w token action now n d h inv
