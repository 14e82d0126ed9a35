-- ===== src/Requests/Place/Laws.antt =====
-- `Move` as a whole: where the card stands in its column afterwards.
use ditch.Prelude.{
  ℕ, suc, ◌+◌, ◌-◌, ◌/◌, ltb, ◌≡◌, refl, ap, sym, subst, ◌∙◌, Bool, true, false, Option, none, List,
  [], ◌∷◌, ◌++◌, all, any, any-append, keep, length, ok, >>=-eq-ok, reject_if, arith, if◌then◌else◌,
}
use ditch.Core.{Task, TaskAudit, TaskColumn, TaskId}
use ditch.Task.Basics.{column}
use ditch.Runtime.State.{RuntimeState, Env, tasks_of}
use ditch.Queue.Reorder.{changed_task}
use ditch.Queue.Reorder.Laws.{any-keep-false, DistinctTasks-middle}
use ditch.Queue.Reorder.Order.{DistinctTasks, after}
use ditch.Queue.Reorder.Pending.{has_task, DistinctTasks-keep}
use ditch.Queue.Reorder.Place.{Follows}
use ditch.Requests.Create.{saturating_add, sort_by_key}
use ditch.Requests.Place.{
  Change, high_key, insert_at, is_sibling, low_key, move_task, moved_task, place, rebalance,
  rebalanced_key, balanced_key, siblings_of, target_index,
}
use ditch.Requests.Place.Sorted.{
  Rises, Rises-sort_by_key, DistinctTasks-sort_by_key, all-sort_by_key, any-sort_by_key, larger,
  smaller, sort_between,
}
use ditch.Requests.Place.Split.{
  IsCut, fits, high-fits, high-larger, insert_at-cut, low-fits, low-smaller, middle,
  target_index-IsCut,
}
use ditch.Requests.Place.Arrives.{moved_task-Arrives}
use ditch.Requests.Place.Balance.{
  Changes, Keyed, Keyed-back, Keyed-front, Keyed-larger, Keyed-Rises, Keyed-smaller, Rises-append,
  changed_by, moved_key, rebalance-Keyed,
}

-- The column sorted again, with the keys that the change gives, shows the card between the two
-- parts.
abbrev Shown : Change → List Task → List Task → Type 0
Shown c front back =
    sort_by_key (c.next ∷ changed_by c.changes (front ++ back))
    ≡ changed_by c.changes front ++ c.next ∷ changed_by c.changes back

-- No card is changed.
unchanged : (ts : List Task) → changed_by [] ts ≡ ts
unfolding changed_task
unchanged [] = refl
unchanged (t ∷ ts) = ap (λ (l : List Task). t ∷ l) (unchanged ts)

changed_append :
    (changes : Changes) (xs ys : List Task)
    → changed_by changes (xs ++ ys) ≡ changed_by changes xs ++ changed_by changes ys
changed_append changes [] ys = refl
changed_append changes (x ∷ xs) ys =
    ap (λ (l : List Task). after changes x ∷ l) (changed_append changes xs ys)

gap-Shown :
    (next : Task) (front back : List Task)
    → Rises (front ++ back)
    → all (smaller next.order_key) front ≡ true
    → all (larger next.order_key) back ≡ true
    → sort_by_key (next ∷ changed_by [] (front ++ back))
      ≡ changed_by [] front ++ next ∷ changed_by [] back
gap-Shown next front back r f b =
    rw (unchanged (front ++ back), unchanged front, unchanged back)
      (sort_between next front back r f b)

keyed-Shown :
    (env : Env) (m : Task) (k drawn : ℕ) (front back : List Task) (changes : Changes)
    → changes ≡ rebalance env m.id 0 (front ++ m ∷ back) drawn
    → k ≡ balanced_key (length front)
    → DistinctTasks (front ++ m ∷ back)
    → any (has_task m.id) front ≡ false
    → any (has_task m.id) back ≡ false
    → sort_by_key (record m { order_key = k } ∷ changed_by changes (front ++ back))
      ≡ changed_by changes front ++ record m { order_key = k } ∷ changed_by changes back
keyed-Shown env m k drawn front back changes e key d nf nb =
    let keyed =
      subst (λ (c : Changes). Keyed m.id 0 c (front ++ m ∷ back)) (sym e)
        (rebalance-Keyed env m.id 0 drawn (front ++ m ∷ back) d) in
    let first = Keyed-front m.id 0 changes front (m ∷ back) keyed in
    let last = (Keyed-back m.id 0 changes front (m ∷ back) keyed).1 in
    let below = Keyed-smaller m.id 0 k changes front nf first (ground arith) in
    let above = Keyed-larger m.id (suc (0 + length front)) k changes back nb last (ground arith) in
    ap (λ (l : List Task). sort_by_key (record m { order_key = k } ∷ l))
      (changed_append changes front back)
    ∙ sort_between (record m { order_key = k }) (changed_by changes front) (changed_by changes back)
        (Rises-append k (changed_by changes front) (changed_by changes back)
          (Keyed-Rises m.id 0 changes front nf first)
          (Keyed-Rises m.id (suc (0 + length front)) changes back nb last) below above)
        below above

-- A place among sorted cards that are not the moved one.
place-Shown :
    (env : Env) (front back : List Task) (moved : Task × TaskAudit) (drawn : ℕ)
    → Rises (front ++ back)
    → all fits (front ++ back) ≡ true
    → DistinctTasks (front ++ moved.0 ∷ back)
    → any (has_task moved.0.id) (front ++ back) ≡ false
    → Shown (place env (length front) (front ++ back) moved drawn) front back
unfolding place
place-Shown env front back moved drawn rises fit distinct new =
    by_gap (ltb (saturating_add low 1) high) refl
  where
    low : ℕ
    low = low_key (length front) (front ++ back)

    high : ℕ
    high = high_key (length front) (front ++ back)

    order : List Task
    order = insert_at (length front) moved.0 (front ++ back)

    by_gap :
        (b : Bool)
        → ltb (saturating_add low 1) high ≡ b
        → Shown
            (if b
              then (record {
                next = record moved.0 { order_key = low + (high - low) / 2 };
                entry = moved.1;
                changes = [];
                linked = none;
                start = none;
                drawn = suc drawn;
              })
              else (record {
                next = record moved.0 { order_key = rebalanced_key moved.0 0 order };
                entry = moved.1;
                changes = rebalance env moved.0.id 0 order (suc drawn);
                linked = none;
                start = none;
                drawn = suc drawn + length (front ++ back);
              }))
            front
            back
    by_gap true e =
        let between =
          middle low high (low-fits (length front) (front ++ back) fit) e
            (high-fits (length front) (front ++ back) fit) in
        gap-Shown (record moved.0 { order_key = low + (high - low) / 2 }) front back rises
          (low-smaller front back (low + (high - low) / 2) rises between.0)
          (high-larger front back (low + (high - low) / 2) rises between.1)
    by_gap false e =
        let cut = insert_at-cut moved.0 front back in
        let parted = any-append (has_task moved.0.id) front back in
        let nf : any (has_task moved.0.id) front ≡ false = ground arith in
        let nb : any (has_task moved.0.id) back ≡ false = ground arith in
        keyed-Shown env moved.0 (rebalanced_key moved.0 0 order) (suc drawn) front back
          (rebalance env moved.0.id 0 order (suc drawn))
          (ap (λ (l : List Task). rebalance env moved.0.id 0 l (suc drawn)) cut)
          (ap (rebalanced_key moved.0 0) cut ∙ moved_key moved.0 0 front back nf ∙ omega arith)
          distinct nf nb

-- A moved card: its identity and column, the cards around it, and its place among them.
pub record IsMoved (before : Option TaskId) (to : TaskColumn) (t : Task) (s : RuntimeState)
    (c : Change) : Type 0 where
  pub own : c.next.id ≡ t.id
  pub arrived : column c.next ≡ to
  pub front : List Task
  pub back : List Task
  pub others : siblings_of s t.project_id to t.id ≡ front ++ back
  pub follows : Follows before back
  pub shown :
      sort_by_key (c.next ∷ changed_by c.changes (siblings_of s t.project_id to t.id))
      ≡ changed_by c.changes front ++ c.next ∷ changed_by c.changes back

sibling-other :
    (p : ℕ) (to : TaskColumn) (id : TaskId) (u : Task)
    → is_sibling p to id u ≡ true
    → has_task id u ≡ false
unfolding is_sibling
sibling-other p to id u h = ground arith

all-keep : (f g : Task → Bool) (ts : List Task) → all f ts ≡ true → all f (keep g ts) ≡ true
unfolding keep
all-keep f g [] h = refl
all-keep f g (t ∷ ts) h = ground (arith, all-keep f g ts)

-- What holds of the column's other cards.
record IsColumn (id : TaskId) (ts : List Task) : Type 0 where
  rises : Rises ts
  fit : all fits ts ≡ true
  distinct : DistinctTasks ts
  new : any (has_task id) ts ≡ false

siblings-IsColumn :
    (s : RuntimeState) (p : ℕ) (to : TaskColumn) (id : TaskId)
    → DistinctTasks (tasks_of s)
    → all fits (tasks_of s) ≡ true
    → IsColumn id (siblings_of s p to id)
unfolding siblings_of
siblings-IsColumn s p to id d f =
    let g : Task → Bool = is_sibling p to id in
    record {
      rises = Rises-sort_by_key (keep g (tasks_of s));
      fit = all-sort_by_key fits (keep g (tasks_of s)) ∙ all-keep fits g (tasks_of s) f;
      distinct =
          DistinctTasks-sort_by_key (keep g (tasks_of s)) (DistinctTasks-keep g (tasks_of s) d);
      new =
          any-sort_by_key (has_task id) (keep g (tasks_of s))
          ∙ any-keep-false (has_task id) g (tasks_of s) (sibling-other p to id);
    }

-- `Shown`, for the column's cards as they are given.
abbrev ShownIn : Env → Task × TaskAudit → ℕ → List Task → ℕ → List Task → List Task → Type 0
ShownIn env moved drawn siblings index front back =
    let c = place env index siblings moved drawn in
    sort_by_key (c.next ∷ changed_by c.changes siblings)
    ≡ changed_by c.changes front ++ c.next ∷ changed_by c.changes back

cut-ShownIn :
    (env : Env) (before : Option TaskId) (index : ℕ) (siblings : List Task)
    (moved : Task × TaskAudit) (drawn : ℕ)
    → IsColumn moved.0.id siblings
    → (cut : IsCut before siblings index)
    → ShownIn env moved drawn siblings index cut.front cut.back
cut-ShownIn env before index siblings moved drawn col cut =
    let others = cut.others in
    let rises = subst Rises others col.rises in
    let fit = subst (λ (l : List Task). all fits l ≡ true) others col.fit in
    let distinct = subst (λ (l : List Task). DistinctTasks l) others col.distinct in
    let new = subst (λ (l : List Task). any (has_task moved.0.id) l ≡ false) others col.new in
    subst (λ (x : List Task × ℕ). ShownIn env moved drawn x.0 x.1 cut.front cut.back)
      (λ i. (sym others i, cut.at i))
      (place-Shown env cut.front cut.back moved drawn rises fit
        (DistinctTasks-middle cut.front cut.back moved.0 distinct new) new)

placed-own :
    (env : Env) (index : ℕ) (siblings : List Task) (moved : Task × TaskAudit) (drawn : ℕ)
    → ((place env index siblings moved drawn).next.id ≡ moved.0.id)
      × (column (place env index siblings moved drawn).next ≡ column moved.0)
unfolding place
placed-own env index siblings moved drawn = ground arith

-- Where no two tasks share an identity and all order keys are from 0 to 2^63 - 1, a granted move
-- keeps the card's identity and brings it into the column asked for. With the keys that the move
-- gives, that column, sorted again, shows its other cards in the order they had and the moved one
-- directly before its destination, or last.
pub move_task-IsMoved :
    (env : Env) (to : TaskColumn) (before : Option TaskId) (t : Task) (s : RuntimeState)
    (c : Change)
    → DistinctTasks (tasks_of s)
    → all fits (tasks_of s) ≡ true
    → move_task env to before t s ≡ ok c
    → IsMoved before to t s c
unfolding move_task
move_task-IsMoved env to before t s c distinct fit h =
    let (u, open_task, h1) = >>=-eq-ok (reject_if t.archived _) _ h in
    let (moved, done, h2) = >>=-eq-ok (moved_task env to t s.drawn) _ h1 in
    let (index, at, h3) =
      >>=-eq-ok (target_index before (siblings_of s t.project_id to t.id)) _ h2 in
    let arrives = moved_task-Arrives env to t s.drawn moved done in
    let cut = target_index-IsCut before (siblings_of s t.project_id to t.id) index at in
    let col =
      subst (λ id. IsColumn id (siblings_of s t.project_id to t.id)) (sym arrives.0)
        (siblings-IsColumn s t.project_id to t.id distinct fit) in
    let own = placed-own env index (siblings_of s t.project_id to t.id) moved s.drawn in
    let same : place env index (siblings_of s t.project_id to t.id) moved s.drawn ≡ c = cc in
    subst (IsMoved before to t s) same (record {
      own = own.0 ∙ arrives.0;
      arrived = own.1 ∙ arrives.1;
      front = cut.front;
      back = cut.back;
      others = cut.others;
      follows = cut.follows;
      shown =
          cut-ShownIn env before index (siblings_of s t.project_id to t.id) moved s.drawn col cut;
    })
