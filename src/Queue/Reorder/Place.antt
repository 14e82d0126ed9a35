-- ===== src/Queue/Reorder/Place.antt =====
-- The place of the moved task among the waiting ones.
use ditch.Prelude.{
  ◌==◌, ==→eq, ◌≡◌, refl, ap, Bool, true, false, Option, none, some, List, [], ◌∷◌, ◌++◌, ok,
  >>=-eq-ok, arith, if◌then◌else◌,
}
use ditch.Core.{Task, TaskId}
use ditch.Queue.Reorder.{insert_before, insert_at, moved_on}

-- What stands behind the moved task.
abbrev pub Follows : Option TaskId → List Task → Type 0
Follows none ys = ys ≡ []
Follows (some before) ys = (v : Task) × (rest : List Task) × (ys ≡ v ∷ rest) × (v.id ≡ before)

-- The moved task stands among the others, whose order is kept, and directly before its destination.
pub record IsPlaced (before : Option TaskId) (t : Task) (pending order : List Task) : Type 0 where
  pub front : List Task
  pub back : List Task
  pub others : pending ≡ front ++ back
  pub placed : order ≡ front ++ t ∷ back
  pub follows : Follows before back

append_nil : (ts : List Task) → ts ≡ ts ++ []
append_nil [] = refl
append_nil (t ∷ ts) = ap (λ (us : List Task). t ∷ us) (append_nil ts)

insert_before-IsPlaced :
    (before : TaskId) (t : Task) (pending order : List Task)
    → insert_before before t pending ≡ ok order
    → IsPlaced (some before) t pending order
unfolding insert_before
insert_before-IsPlaced before t [] order h = absurd (cc)
insert_before-IsPlaced before t (u ∷ us) order h =
    by_test (u.id == before) refl (insert_before-IsPlaced before t us) h
  where
    by_test :
        (b : Bool)
        → (u.id == before) ≡ b
        → ((l : List Task) → insert_before before t us ≡ ok l → IsPlaced (some before) t us l)
        → (if b then ok (t ∷ u ∷ us) else moved_on (insert_before before t us) u) ≡ ok order
        → IsPlaced (some before) t (u ∷ us) order
    by_test true e rest k = record {
      front = [];
      back = u ∷ us;
      others = refl;
      placed = ground arith;
      follows = (u, us, refl, ==→eq u.id before e);
    }
    by_test false e rest k =
        let (l, later, k1) = >>=-eq-ok (insert_before before t us) _ k in
        let p = rest l later in
        record {
          front = u ∷ p.front;
          back = p.back;
          others = ap (λ (x : List Task). u ∷ x) p.others;
          placed = cc (p.placed);
          follows = p.follows;
        }

pub insert_at-IsPlaced :
    (before : Option TaskId) (t : Task) (pending order : List Task)
    → insert_at before t pending ≡ ok order
    → IsPlaced before t pending order
unfolding insert_at
insert_at-IsPlaced none t pending order h = record {
  front = pending;
  back = [];
  others = append_nil pending;
  placed = ground arith;
  follows = refl;
}
insert_at-IsPlaced (some before) t pending order h = insert_before-IsPlaced before t pending order h
