-- ===== src/Protocol/Maintenance/Exclusive.antt =====
-- Work that changes a remote runtime, and its upgrades, exclude each other.
use ditch.Prelude.{
  ℕ, suc, ◌-◌, ◌≤◌, ◌<◌, ◌≡◌, refl, subst, Bool, true, false, not, Option, none, some, Text, text,
  Result, ok, err, if◌then◌else◌, arith,
}
use ditch.Core.{Uuid}
use ditch.Protocol.Requests.{ClientRequest}
use ditch.Protocol.Maintenance.{
  Daemon, World, Admission, MutationGuard, lease_active, remote_maintenance_active,
  remote_maintenance_request, reads_only, background_work, acquire_mutation, drop_mutation,
}
use ditch.Protocol.Maintenance.Leases.{IsExclusive, Same-IsExclusive, request-IsExclusive}

-- The guards that count.
abbrev pub weight : Bool → ℕ
weight true = 1
weight false = 0

abbrev pub one_more : Bool → ℕ → ℕ
one_more true n = suc n
one_more false n = n

abbrev pub admitted_count : ℕ → Result Text MutationGuard → ℕ
admitted_count n (err e) = n
admitted_count n (ok g) = one_more g.counted n

-- While a lease that has not expired is held, no guard is given that counts.
background-IsExclusive :
    (w : World) (now n : ℕ) (d : Daemon)
    → now ≤ w.instant
    → IsExclusive now n d
    → IsExclusive w.instant (admitted_count n (background_work w d).1) (background_work w d).0
unfolding background_work remote_maintenance_active
background-IsExclusive w now n d h inv =
    by_tests (not d.runtime.remote_runtime) (lease_active w d.remote_maintenance) refl
  where
    kept : IsExclusive w.instant n d
    kept = Same-IsExclusive now w.instant n d d h (refl, refl) inv

    expired :
        (lease : Option (Uuid × ℕ)) (token : Uuid) (until : ℕ)
        → lease_active w lease ≡ false
        → lease ≡ some (token, until)
        → w.instant < until
        → ⊥
    expired none token until e held soon = cc
    expired (some (t, u)) token until e held soon = let same : u ≡ until = cc in ground arith

    answer_of : Bool → Bool → Admission
    answer_of local active =
        if local
        then (d, ok (record { counted = false }))
        else if active
        then (
          d,
          err (
              text
                "Remote runtime is being upgraded. No new work can start until repair finishes."),
        )
        else (
          record d { remote_mutations = suc d.remote_mutations },
          ok (record { counted = true }),
        )

    by_tests :
        (local active : Bool)
        → lease_active w d.remote_maintenance ≡ active
        → IsExclusive w.instant
            (admitted_count n (answer_of local active).1)
            (answer_of local active).0
    by_tests true active e = kept
    by_tests false true e = kept
    by_tests false false e = record {
      counted = (let counted = inv.counted in omega arith);
      exclusive =
          λ token until held soon. absurd (expired d.remote_maintenance token until e held soon);
    }

acquire-IsExclusive :
    (w : World) (request : ClientRequest) (now n : ℕ) (d : Daemon)
    → now ≤ w.instant
    → IsExclusive now n d
    → IsExclusive w.instant
        (admitted_count n (acquire_mutation w request d).1)
        (acquire_mutation w request d).0
unfolding acquire_mutation
acquire-IsExclusive w request now n d h inv = by_test (reads_only request)
  where
    by_test :
        (b : Bool)
        → IsExclusive w.instant
            (admitted_count n
              (if b then (d, ok (record { counted = false })) else background_work w d).1)
            (if b then (d, ok (record { counted = false })) else background_work w d).0
    by_test true = Same-IsExclusive now w.instant n d d h (refl, refl) inv
    by_test false = background-IsExclusive w now n d h inv

drop-IsExclusive :
    (g : MutationGuard) (now n : ℕ) (d : Daemon)
    → weight g.counted ≤ n
    → IsExclusive now n d
    → IsExclusive now (n - weight g.counted) (drop_mutation g d)
unfolding drop_mutation
drop-IsExclusive g now n d h inv = by_counted g.counted
  where
    by_counted :
        (b : Bool)
        → IsExclusive now
            (n - weight b)
            (if b then record d { remote_mutations = d.remote_mutations - 1 } else d)
    by_counted true = record {
      counted = (let counted = inv.counted in omega arith);
      exclusive = λ token until held soon.
          (let none_left = inv.exclusive token until held soon in omega arith);
    }
    by_counted false = subst (λ (k : ℕ). IsExclusive now k d) (omega arith) inv

-- The life of a remote daemon: at a time and with so many counted guards in flight, in any
-- interleaving of requests, ended requests and maintenance. The clock does not go back.
pub data Life (d : Daemon) : ℕ → ℕ → Daemon → Type 0 where
  fresh : (now : ℕ) → Life d now 0 d
  asked :
      {now n : ℕ} {e : Daemon}
      → Life d now n e
      → (w : World) (request : ClientRequest) → now ≤ w.instant
      → Life d w.instant
          (admitted_count n (acquire_mutation w request e).1)
          (acquire_mutation w request e).0
  ended :
      {now n : ℕ} {e : Daemon}
      → Life d now n e
      → (g : MutationGuard) → weight g.counted ≤ n
      → Life d now (n - weight g.counted) (drop_mutation g e)
  maintained :
      {now n : ℕ} {e : Daemon}
      → Life d now n e
      → (w : World) (instance_id token : Uuid) (action : Text) → now ≤ w.instant
      → Life d w.instant n (remote_maintenance_request w instance_id token action e).0

-- In every life of a daemon that starts without mutations and without maintenance, the count of
-- mutations is that of the guards in flight, and while a maintenance lease has not expired there is
-- none.
pub Life-IsExclusive :
    {d e : Daemon} {now n : ℕ}
    → d.remote_mutations ≡ 0
    → d.remote_maintenance ≡ none
    → Life d now n e
    → IsExclusive now n e
Life-IsExclusive zero_count no_lease (Life.fresh now) = record {
  counted = zero_count;
  exclusive = λ token until held soon. refl;
}
Life-IsExclusive zero_count no_lease (Life.asked {now} {n} {e} r w request h) =
    acquire-IsExclusive w request now n e h (Life-IsExclusive zero_count no_lease r)
Life-IsExclusive zero_count no_lease (Life.ended {now} {n} {e} r g h) =
    drop-IsExclusive g now n e h (Life-IsExclusive zero_count no_lease r)
Life-IsExclusive zero_count no_lease
      (Life.maintained {now} {n} {e} r w instance_id token action h) =
    request-IsExclusive w instance_id token action now n e h
      (Life-IsExclusive zero_count no_lease r)
