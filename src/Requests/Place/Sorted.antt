-- ===== src/Requests/Place/Sorted.antt =====
-- The order of a column's cards: `sort_by_key` on the order keys, and the identities as tie-breaks.
use ditch.Prelude.{
  ℕ, ltb, ◌≡◌, refl, ap, ◌∙◌, Bool, true, false, ◌&&◌, ◌||◌, List, [], ◌∷◌, ◌++◌, all, any, arith,
  Bool-cases, inl, inr,
}
use ditch.Core.{Task}
use ditch.Queue.Reorder.Order.{DistinctTasks}
use ditch.Queue.Reorder.Pending.{has_task}
use ditch.Requests.Create.{comes_first, insert_by_key, sort_by_key}

-- Each card comes before all the later ones.
abbrev pub Rises : List Task → Type 0
Rises [] = Unit
Rises (t ∷ ts) = (all (comes_first t) ts ≡ true) × Rises ts

-- Cards with smaller keys, and with larger ones.
abbrev pub smaller : ℕ → Task → Bool
smaller k t = ltb t.order_key k

abbrev pub larger : ℕ → Task → Bool
larger k t = ltb k t.order_key

any-insert_by_key :
    (f : Task → Bool) (t : Task) (ts : List Task) → any f (insert_by_key t ts) ≡ (f t || any f ts)
unfolding insert_by_key
any-insert_by_key f t [] = refl
any-insert_by_key f t (u ∷ us) = ground (arith, any-insert_by_key f t us)

pub any-sort_by_key : (f : Task → Bool) (ts : List Task) → any f (sort_by_key ts) ≡ any f ts
unfolding sort_by_key
any-sort_by_key f [] = refl
any-sort_by_key f (t ∷ ts) =
    any-insert_by_key f t (sort_by_key ts) ∙ ap (λ b. f t || b) (any-sort_by_key f ts)

all-insert_by_key :
    (f : Task → Bool) (t : Task) (ts : List Task) → all f (insert_by_key t ts) ≡ (f t && all f ts)
unfolding insert_by_key
all-insert_by_key f t [] = refl
all-insert_by_key f t (u ∷ us) = ground (arith, all-insert_by_key f t us)

pub all-sort_by_key : (f : Task → Bool) (ts : List Task) → all f (sort_by_key ts) ≡ all f ts
unfolding sort_by_key
all-sort_by_key f [] = refl
all-sort_by_key f (t ∷ ts) =
    all-insert_by_key f t (sort_by_key ts) ∙ ap (λ b. f t && b) (all-sort_by_key f ts)

DistinctTasks-insert_by_key :
    (t : Task) (ts : List Task)
    → any (has_task t.id) ts ≡ false
    → DistinctTasks ts
    → DistinctTasks (insert_by_key t ts)
unfolding insert_by_key
DistinctTasks-insert_by_key t [] h d = (refl, tt)
DistinctTasks-insert_by_key t (u ∷ us) h (single, d) =
    ground (arith, DistinctTasks-insert_by_key t us, any-insert_by_key (has_task u.id) t us)

pub DistinctTasks-sort_by_key : (ts : List Task) → DistinctTasks ts → DistinctTasks (sort_by_key ts)
unfolding sort_by_key
DistinctTasks-sort_by_key [] d = tt
DistinctTasks-sort_by_key (t ∷ ts) (single, d) =
    DistinctTasks-insert_by_key t (sort_by_key ts) (any-sort_by_key (has_task t.id) ts ∙ single)
      (DistinctTasks-sort_by_key ts d)

comes_first-total : (t u : Task) → comes_first t u ≡ false → comes_first u t ≡ true
unfolding comes_first
comes_first-total t u h = ground arith

all_after :
    (t u : Task) (ts : List Task)
    → comes_first t u ≡ true
    → all (comes_first u) ts ≡ true
    → all (comes_first t) ts ≡ true
unfolding comes_first
all_after t u [] h k = refl
all_after t u (v ∷ vs) h k = ground (arith, all_after t u vs)

Rises-insert_by_key : (t : Task) (ts : List Task) → Rises ts → Rises (insert_by_key t ts)
unfolding insert_by_key
Rises-insert_by_key t [] r = (refl, tt)
Rises-insert_by_key t (u ∷ us) (least, r) = elim (Bool-cases (comes_first t u)) [
  | inl e ↦ (let later = all_after t u us e least in rw e (ground arith, (least, r)))
  | inr e ↦
      (let first = comes_first-total t u e in
        let passed = all-insert_by_key (comes_first u) t us in
        rw e (ground arith, Rises-insert_by_key t us r))
]

pub Rises-sort_by_key : (ts : List Task) → Rises (sort_by_key ts)
unfolding sort_by_key
Rises-sort_by_key [] = tt
Rises-sort_by_key (t ∷ ts) = Rises-insert_by_key t (sort_by_key ts) (Rises-sort_by_key ts)

insert-least :
    (t : Task) (ts : List Task) → all (comes_first t) ts ≡ true → insert_by_key t ts ≡ t ∷ ts
unfolding insert_by_key
insert-least t [] h = refl
insert-least t (u ∷ us) h = ground arith

-- A sorted list stays as it is.
sort-Rises : (ts : List Task) → Rises ts → sort_by_key ts ≡ ts
unfolding sort_by_key
sort-Rises [] r = refl
sort-Rises (t ∷ ts) (least, r) = ap (insert_by_key t) (sort-Rises ts r) ∙ insert-least t ts least

all-larger :
    (t : Task) (ts : List Task) → all (larger t.order_key) ts ≡ true → all (comes_first t) ts ≡ true
unfolding comes_first
all-larger t [] h = refl
all-larger t (u ∷ us) h = ground (arith, all-larger t us)

insert_between :
    (t : Task) (front back : List Task)
    → all (smaller t.order_key) front ≡ true
    → all (larger t.order_key) back ≡ true
    → insert_by_key t (front ++ back) ≡ front ++ t ∷ back
unfolding insert_by_key comes_first
insert_between t [] back f b = insert-least t back (all-larger t back b)
insert_between t (u ∷ us) back f b =
    let later = insert_between t us back (ground arith) b in
    let second : comes_first t u ≡ false = ground arith in
    rw second (ap (λ (l : List Task). u ∷ l) later)

-- A card whose key lies strictly between two parts of a sorted column stands between them.
pub sort_between :
    (t : Task) (front back : List Task)
    → Rises (front ++ back)
    → all (smaller t.order_key) front ≡ true
    → all (larger t.order_key) back ≡ true
    → sort_by_key (t ∷ front ++ back) ≡ front ++ t ∷ back
unfolding sort_by_key
sort_between t front back r f b =
    ap (insert_by_key t) (sort-Rises (front ++ back) r) ∙ insert_between t front back f b
