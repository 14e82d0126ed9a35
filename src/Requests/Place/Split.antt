-- ===== src/Requests/Place/Split.antt =====
-- Where a moved card is put among the column's cards, and the gap between its neighbours' keys.
use ditch.Prelude.{
  ℕ, zero, suc, ◌+◌, ◌-◌, ◌/◌, ◌^◌, ◌<◌, ◌==◌, ==→eq, ltb, ◌≡◌, refl, ap, subst, ◌∙◌, Bool, true,
  false, Option, none, some, unwrap_or, List, [], ◌∷◌, ◌++◌, all, length, ok, arith, if◌then◌else◌,
}
use ditch.Core.{Task, TaskId}
use ditch.Queue.Reorder.Place.{Follows}
use ditch.Requests.Create.{comes_first, saturating_add}
use ditch.Requests.Place.{
  found_index, high_key, insert_at, key_at, low_key, next_index, position_of, target_index,
}
use ditch.Requests.Place.Sorted.{Rises, smaller, larger}

-- The column's cards, cut where the moved one goes.
pub record IsCut (before : Option TaskId) (siblings : List Task) (index : ℕ) : Type 0 where
  pub front : List Task
  pub back : List Task
  pub others : siblings ≡ front ++ back
  pub at : length front ≡ index
  pub follows : Follows before back

pub append_nil : (ts : List Task) → ts ≡ ts ++ []
append_nil [] = refl
append_nil (t ∷ ts) = ap (λ (us : List Task). t ∷ us) (append_nil ts)

position_of-IsCut :
    (before : TaskId) (ts : List Task) (i : ℕ)
    → position_of before ts ≡ some i
    → IsCut (some before) ts i
unfolding position_of
position_of-IsCut before [] i h = absurd (cc)
position_of-IsCut before (t ∷ ts) i h =
    by_test (t.id == before) refl (position_of before ts) (position_of-IsCut before ts) h
  where
    by_test :
        (b : Bool)
        → (t.id == before) ≡ b
        → (o : Option ℕ) → ((n : ℕ) → o ≡ some n → IsCut (some before) ts n)
        → (if b then some zero else next_index o) ≡ some i
        → IsCut (some before) (t ∷ ts) i
    by_test true e o rest k = record {
      front = [];
      back = t ∷ ts;
      others = refl;
      at = ground arith;
      follows = (t, ts, refl, ==→eq t.id before e);
    }
    by_test false e none rest k = absurd (cc)
    by_test false e (some n) rest k =
        let c = rest n refl in
        record {
          front = t ∷ c.front;
          back = c.back;
          others = ap (λ (l : List Task). t ∷ l) c.others;
          at = ap suc c.at ∙ ground arith;
          follows = c.follows;
        }

found_ok : (o : Option ℕ) (i : ℕ) → found_index o ≡ ok i → o ≡ some i
found_ok none i h = cc
found_ok (some n) i h = cc

pub target_index-IsCut :
    (before : Option TaskId) (siblings : List Task) (index : ℕ)
    → target_index before siblings ≡ ok index
    → IsCut before siblings index
unfolding target_index
target_index-IsCut none siblings index h = record {
  front = siblings;
  back = [];
  others = append_nil siblings;
  at = ground arith;
  follows = refl;
}
target_index-IsCut (some before) siblings index h =
    position_of-IsCut before siblings index (found_ok (position_of before siblings) index h)

pub insert_at-cut :
    (t : Task) (front back : List Task)
    → insert_at (length front) t (front ++ back) ≡ front ++ t ∷ back
unfolding insert_at
insert_at-cut t [] [] = refl
insert_at-cut t [] (u ∷ us) = refl
insert_at-cut t (u ∷ us) back = ap (λ (l : List Task). u ∷ l) (insert_at-cut t us back)

pub Rises-front : (front back : List Task) → Rises (front ++ back) → Rises front
Rises-front [] back r = tt
Rises-front (t ∷ ts) back (least, r) =
    (all_front (comes_first t) ts back least, Rises-front ts back r)
  where
    all_front : (f : Task → Bool) (xs ys : List Task) → all f (xs ++ ys) ≡ true → all f xs ≡ true
    all_front f [] ys h = refl
    all_front f (x ∷ xs) ys h = ground (arith, all_front f xs ys)

pub Rises-back : (front back : List Task) → Rises (front ++ back) → Rises back
Rises-back [] back r = r
Rises-back (t ∷ ts) back (least, r) = Rises-back ts back r

-- A key that is a signed 64-bit number.
abbrev pub fits : Task → Bool
fits t = ltb t.order_key (2 ^ 63)

-- The lower neighbour's key bounds the keys before it.
front-smaller :
    (t : Task) (ts back : List Task) (k : ℕ)
    → Rises (t ∷ ts ++ back)
    → unwrap_or (key_at (length ts) (t ∷ ts ++ back)) 0 < k
    → all (smaller k) (t ∷ ts) ≡ true
unfolding key_at comes_first
front-smaller t [] back k r h = ground arith
front-smaller t (u ∷ us) back k (least, r) h =
    let later = front-smaller u us back k r h in ground arith

pub low-smaller :
    (front back : List Task) (k : ℕ)
    → Rises (front ++ back)
    → low_key (length front) (front ++ back) < k
    → all (smaller k) front ≡ true
low-smaller [] back k r h = refl
low-smaller (t ∷ ts) back k r h = front-smaller t ts back k r h

-- The upper neighbour's key bounds the keys behind it.
key_at-front : (front back : List Task) → key_at (length front) (front ++ back) ≡ key_at 0 back
unfolding key_at
key_at-front [] back = refl
key_at-front (t ∷ ts) back = key_at-front ts back

least-larger :
    (t : Task) (ts : List Task) (k : ℕ)
    → all (comes_first t) ts ≡ true
    → k < t.order_key
    → all (larger k) ts ≡ true
unfolding comes_first
least-larger t [] k h lt = refl
least-larger t (u ∷ us) k h lt = ground (arith, least-larger t us k)

back-larger :
    (back : List Task) (k d : ℕ)
    → Rises back
    → k < unwrap_or (key_at 0 back) d
    → all (larger k) back ≡ true
unfolding key_at
back-larger [] k d r h = refl
back-larger (t ∷ ts) k d (least, r) h = let later = least-larger t ts k least h in ground arith

pub high-larger :
    (front back : List Task) (k : ℕ)
    → Rises (front ++ back)
    → k < high_key (length front) (front ++ back)
    → all (larger k) back ≡ true
high-larger front back k r h =
    back-larger back k (saturating_add (low_key (length front) (front ++ back)) 2048)
      (Rises-back front back r)
      (subst (λ o. k < unwrap_or o (saturating_add (low_key (length front) (front ++ back)) 2048))
        (key_at-front front back) h)

-- Keys are signed 64-bit numbers, also the ones between.
key_at-fits :
    (i : ℕ) (ts : List Task) (d : ℕ)
    → all fits ts ≡ true
    → d < 2 ^ 63
    → unwrap_or (key_at i ts) d < 2 ^ 63
unfolding key_at
key_at-fits i [] d h lt = lt
key_at-fits zero (t ∷ ts) d h lt = ground arith
key_at-fits (suc i) (t ∷ ts) d h lt = key_at-fits i ts d (ground arith) lt

pub low-fits : (i : ℕ) (ts : List Task) → all fits ts ≡ true → low_key i ts < 2 ^ 63
low-fits zero ts h = ground arith
low-fits (suc i) ts h = key_at-fits i ts 0 h (ground arith)

saturates : (a b : ℕ) → saturating_add a b < 2 ^ 63
unfolding saturating_add
saturates a b = ground arith

pub high-fits : (i : ℕ) (ts : List Task) → all fits ts ≡ true → high_key i ts < 2 ^ 63
high-fits i ts h =
    key_at-fits i ts (saturating_add (low_key i ts) 2048) h (saturates (low_key i ts) 2048)

-- The middle of a gap.
pub middle :
    (low high : ℕ)
    → low < 2 ^ 63
    → ltb (saturating_add low 1) high ≡ true
    → high < 2 ^ 63
    → (low < low + (high - low) / 2) × (low + (high - low) / 2 < high)
unfolding saturating_add
middle low high fit gap limit = (ground arith, ground arith)
