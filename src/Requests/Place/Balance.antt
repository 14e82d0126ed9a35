-- ===== src/Requests/Place/Balance.antt =====
-- The loop that gives a column new keys when there is no gap.
use ditch.Prelude.{
  ℕ, suc, ◌+◌, ◌*◌, ◌<◌, ◌==◌, ==-refl, ◌≡◌, refl, ap, sym, subst, ◌∙◌, Bool, true, false, List, [],
  ◌∷◌, ◌++◌, all, any, length, map, arith, Bool-cases, inl, inr,
}
use ditch.Core.{Task, TaskAudit, TaskId}
use ditch.Task.Basics.{touch}
use ditch.Runtime.State.{Env}
use ditch.Queue.Reorder.{changed_task}
use ditch.Queue.Reorder.Order.{DistinctTasks, after}
use ditch.Queue.Reorder.Pending.{has_task}
use ditch.Requests.Create.{comes_first}
use ditch.Requests.Place.{balanced_key, rebalance, rebalanced, rebalanced_change, rebalanced_key}
use ditch.Requests.Place.Sorted.{Rises, smaller, larger}

abbrev pub Changes : Type 0
Changes = List (Task × TaskAudit)

-- The cards, but for one, have the keys of their places.
abbrev pub Keyed : TaskId → ℕ → Changes → List Task → Type 0
Keyed id i changes [] = Unit
Keyed id i changes (t ∷ ts) =
    ((t.id == id) ≡ false → (after changes t).order_key ≡ balanced_key i)
    × Keyed id (suc i) changes ts

passed :
    (env : Env) (i drawn id : ℕ) (t u : Task) (rest : Changes)
    → (t.id == id) ≡ false
    → changed_task id u (rebalanced_change env i t drawn ∷ rest) ≡ changed_task id u rest
unfolding changed_task rebalanced_change rebalanced touch
passed env i drawn id t u rest other = ground arith

Keyed-passed :
    (env : Env) (id j i drawn : ℕ) (t : Task) (rest : Changes) (ts : List Task)
    → any (has_task t.id) ts ≡ false
    → Keyed id j rest ts
    → Keyed id j (rebalanced_change env i t drawn ∷ rest) ts
Keyed-passed env id j i drawn t rest [] new k = tt
Keyed-passed env id j i drawn t rest (u ∷ us) new (here, later) =
    let same = passed env i drawn u.id t u rest (ground arith) in
    (
      (λ other. ap (λ (x : Task). x.order_key) same ∙ here other),
      Keyed-passed env id (suc j) i drawn t rest us (ground arith) later,
    )

own_key :
    (env : Env) (i drawn : ℕ) (t : Task) (rest : Changes)
    → (after (rebalanced_change env i t drawn ∷ rest) t).order_key ≡ balanced_key i
unfolding changed_task rebalanced_change rebalanced touch
own_key env i drawn t rest = rw (==-refl t.id) refl

pub rebalance-Keyed :
    (env : Env) (id i drawn : ℕ) (ts : List Task)
    → DistinctTasks ts
    → Keyed id i (rebalance env id i ts drawn) ts
unfolding rebalance
rebalance-Keyed env id i drawn [] d = tt
rebalance-Keyed env id i drawn (t ∷ ts) (single, d) = elim (Bool-cases (t.id == id)) [
  | inl e ↦ rw e ((λ other. cc), rebalance-Keyed env id (suc i) drawn ts d)
  | inr e ↦ rw e (
    (λ other. own_key env i drawn t (rebalance env id (suc i) ts (suc drawn))),
    Keyed-passed env id (suc i) i drawn t (rebalance env id (suc i) ts (suc drawn)) ts single
        (rebalance-Keyed env id (suc i) (suc drawn) ts d),
  )
]

-- The two parts around the moved card.
pub Keyed-front :
    (id i : ℕ) (changes : Changes) (front back : List Task)
    → Keyed id i changes (front ++ back)
    → Keyed id i changes front
Keyed-front id i changes [] back k = tt
Keyed-front id i changes (t ∷ ts) back (here, later) =
    (here, Keyed-front id (suc i) changes ts back later)

pub Keyed-back :
    (id i : ℕ) (changes : Changes) (front back : List Task)
    → Keyed id i changes (front ++ back)
    → Keyed id (i + length front) changes back
Keyed-back id i changes [] back k = subst (λ n. Keyed id n changes back) (omega arith) k
Keyed-back id i changes (t ∷ ts) back (here, later) =
    subst (λ n. Keyed id n changes back) (omega arith) (Keyed-back id (suc i) changes ts back later)

abbrev pub changed_by : Changes → List Task → List Task
changed_by changes ts = map (after changes) ts

pub Keyed-larger :
    (id i k : ℕ) (changes : Changes) (ts : List Task)
    → any (has_task id) ts ≡ false
    → Keyed id i changes ts
    → k < balanced_key i
    → all (larger k) (changed_by changes ts) ≡ true
Keyed-larger id i k changes [] new h lt = refl
Keyed-larger id i k changes (t ∷ ts) new (here, later) lt =
    let own = here (ground arith) in
    let rest = Keyed-larger id (suc i) k changes ts (ground arith) later (omega arith) in
    ground arith

pub Keyed-smaller :
    (id i k : ℕ) (changes : Changes) (ts : List Task)
    → any (has_task id) ts ≡ false
    → Keyed id i changes ts
    → (i + length ts) * 1024 < k
    → all (smaller k) (changed_by changes ts) ≡ true
Keyed-smaller id i k changes [] new h lt = refl
Keyed-smaller id i k changes (t ∷ ts) new (here, later) lt =
    let own = here (ground arith) in
    let rest = Keyed-smaller id (suc i) k changes ts (ground arith) later (omega arith) in
    ground arith

larger-first :
    (t : Task) (ts : List Task) → all (larger t.order_key) ts ≡ true → all (comes_first t) ts ≡ true
unfolding comes_first
larger-first t [] h = refl
larger-first t (u ∷ us) h = ground (arith, larger-first t us)

pub Keyed-Rises :
    (id i : ℕ) (changes : Changes) (ts : List Task)
    → any (has_task id) ts ≡ false
    → Keyed id i changes ts
    → Rises (changed_by changes ts)
Keyed-Rises id i changes [] new h = tt
Keyed-Rises id i changes (t ∷ ts) new (here, later) =
    let own = here (ground arith) in
    (
      larger-first (after changes t) (changed_by changes ts) (
          Keyed-larger id (suc i) (after changes t).order_key changes ts (ground arith) later
            (subst (λ n. n < balanced_key (suc i)) (sym own) (omega arith))),
      Keyed-Rises id (suc i) changes ts (ground arith) later,
    )

all_append_true :
    (f : Task → Bool) (xs ys : List Task)
    → all f xs ≡ true
    → all f ys ≡ true
    → all f (xs ++ ys) ≡ true
all_append_true f [] ys h k = k
all_append_true f (x ∷ xs) ys h k = ground (arith, all_append_true f xs ys)

smaller-larger :
    (t : Task) (k : ℕ) (ts : List Task)
    → t.order_key < k
    → all (larger k) ts ≡ true
    → all (comes_first t) ts ≡ true
unfolding comes_first
smaller-larger t k [] lt h = refl
smaller-larger t k (u ∷ us) lt h = ground (arith, smaller-larger t k us)

-- Two sorted parts with a key between them.
pub Rises-append :
    (k : ℕ) (xs ys : List Task)
    → Rises xs
    → Rises ys
    → all (smaller k) xs ≡ true
    → all (larger k) ys ≡ true
    → Rises (xs ++ ys)
Rises-append k [] ys r q f b = q
Rises-append k (x ∷ xs) ys (least, r) q f b = (
  all_append_true (comes_first x) xs ys least (smaller-larger x k ys (ground arith) b),
  Rises-append k xs ys r q (ground arith) b,
)

-- The moved card gets the key of its own place.
pub moved_key :
    (next : Task) (i : ℕ) (front back : List Task)
    → any (has_task next.id) front ≡ false
    → rebalanced_key next i (front ++ next ∷ back) ≡ balanced_key (i + length front)
unfolding rebalanced_key
moved_key next i [] back new = rw (==-refl next.id) (omega arith)
moved_key next i (t ∷ ts) back new =
    let other : (t.id == next.id) ≡ false = ground arith in
    rw other (moved_key next (suc i) ts back (ground arith) ∙ omega arith)
