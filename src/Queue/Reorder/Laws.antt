-- ===== src/Queue/Reorder/Laws.antt =====
-- `ReorderQueue` as a whole: the order of the waiting tasks and the positions that they get.
use ditch.Prelude.{
  ◌+◌, ◌≤◌, ◌==◌, ◌≡◌, refl, sym, subst, ◌∙◌, Bool, true, false, not, ◌&&◌, ◌||◌, Option, some,
  is_some, List, [], ◌∷◌, ◌++◌, any, any-append, keep, In, opt_eq, ok, >>=-eq-ok, reject_if, arith,
}
use ditch.Core.{Task, TaskId}
use ditch.Task.Basics.{waiting_in_queue}
use ditch.Runtime.State.{RuntimeState, Env, tasks_of}
use ditch.Queue.Claim.{position}
use ditch.Queue.Edit.{Edit}
use ditch.Queue.Enqueue.{same_project}
use ditch.Queue.Enqueue.Tail.{queue_max_le}
use ditch.Queue.Reorder.{
  reorder, reorder_base, reorder_edit, insert_at, number_tasks, pending_tasks, sort_by_position,
}
use ditch.Queue.Reorder.Order.{Numbered, DistinctTasks, AllQueued, number-Numbered}
use ditch.Queue.Reorder.Pending.{
  has_task, any-sort_by_position, Ascends, Ascends-sort_by_position, sorted-DistinctTasks,
  sorted-AllQueued,
}
use ditch.Queue.Reorder.Place.{IsPlaced, insert_at-IsPlaced}

pub any-keep-false :
    (f g : Task → Bool) (ts : List Task)
    → ((u : Task) → g u ≡ true → f u ≡ false)
    → any f (keep g ts) ≡ false
unfolding keep
any-keep-false f g [] h = refl
any-keep-false f g (u ∷ us) h = ground (arith, h u, any-keep-false f g us h)

pub DistinctTasks-middle :
    (front back : List Task) (t : Task)
    → DistinctTasks (front ++ back)
    → any (has_task t.id) (front ++ back) ≡ false
    → DistinctTasks (front ++ t ∷ back)
DistinctTasks-middle [] back t d new = (new, d)
DistinctTasks-middle (u ∷ us) back t (single, d) new = ground (
  arith,
  DistinctTasks-middle us back t d,
  any-append (has_task u.id) us back,
  any-append (has_task u.id) us (t ∷ back),
)

AllQueued-middle :
    (front back : List Task) (t : Task)
    → AllQueued (front ++ back)
    → is_some t.execution_queue ≡ true
    → AllQueued (front ++ t ∷ back)
AllQueued-middle [] back t q own = (own, q)
AllQueued-middle (u ∷ us) back t (first, q) own = (first, AllQueued-middle us back t q own)

waiting-queued : (t : Task) → waiting_in_queue t ≡ true → is_some t.execution_queue ≡ true
unfolding waiting_in_queue
waiting-queued t h = ground arith

-- The filter of `pending_tasks`.
abbrev is_pending : Task → Task → Bool
is_pending t u = same_project t u && waiting_in_queue u && not (u.id == t.id)

order-distinct :
    (s : RuntimeState) (before : Option TaskId) (t : Task) (order : List Task)
    → DistinctTasks (tasks_of s)
    → IsPlaced before t (pending_tasks s t) order
    → DistinctTasks order
unfolding pending_tasks
order-distinct s before t order d place =
    let others : sort_by_position (keep (is_pending t) (tasks_of s)) ≡ place.front ++ place.back =
      place.others in
    let sorted = sorted-DistinctTasks (is_pending t) (tasks_of s) d in
    let absent =
      any-sort_by_position (has_task t.id) (keep (is_pending t) (tasks_of s))
      ∙ any-keep-false (has_task t.id) (is_pending t) (tasks_of s) (λ u h. ground arith) in
    subst (λ (x : List Task). DistinctTasks x) (sym place.placed)
      (DistinctTasks-middle place.front place.back t
        (subst (λ (x : List Task). DistinctTasks x) others sorted)
        (subst (λ (x : List Task). any (has_task t.id) x ≡ false) others absent))

order-queued :
    (s : RuntimeState) (before : Option TaskId) (t : Task) (order : List Task)
    → waiting_in_queue t ≡ true
    → IsPlaced before t (pending_tasks s t) order
    → AllQueued order
unfolding pending_tasks
order-queued s before t order waits place =
    let others : sort_by_position (keep (is_pending t) (tasks_of s)) ≡ place.front ++ place.back =
      place.others in
    let sorted =
      sorted-AllQueued (is_pending t) (tasks_of s) (λ u h. waiting-queued u (ground arith)) in
    subst (λ (x : List Task). AllQueued x) (sym place.placed)
      (AllQueued-middle place.front place.back t
        (subst (λ (x : List Task). AllQueued x) others sorted) (waiting-queued t waits))

pending-Ascends : (s : RuntimeState) (t : Task) → Ascends (pending_tasks s t)
unfolding pending_tasks
pending-Ascends s t = Ascends-sort_by_position (keep (is_pending t) (tasks_of s))

-- The order of a project's waiting tasks after a reorder, and the positions that they stand at.
pub record IsOrdered (before : Option TaskId) (t : Task) (s : RuntimeState) (e : Edit)
    : Type 0 where
  pub order : List Task
  pub waits : waiting_in_queue t ≡ true
  pub place : IsPlaced before t (pending_tasks s t) order
  pub ascends : Ascends (pending_tasks s t)
  pub numbered : Numbered (reorder_base s t + 1) e.changes order
  pub behind :
      (v : Task)
      → In v (tasks_of s)
      → v.project_id ≡ t.project_id
      → is_some v.execution_queue ≡ true
      → waiting_in_queue v ≡ false
      → position v ≤ reorder_base s t

-- Where no two tasks share an identity, a granted reorder keeps the project's other waiting tasks in the order of their positions and puts
-- the task directly before its destination, or last. All of them then stand at successive positions
-- in this order, behind the project's entries that wait no longer.
pub reorder-IsOrdered :
    (env : Env) (before : Option TaskId) (t : Task) (s : RuntimeState) (e : Edit)
    → DistinctTasks (tasks_of s)
    → reorder env before t s ≡ ok e
    → IsOrdered before t s e
unfolding reorder reorder_edit
reorder-IsOrdered env before t s e distinct h =
    let (u1, ready, h1) =
      >>=-eq-ok (reject_if (not (waiting_in_queue t) || opt_eq before (some t.id)) _) _ h in
    let waits : waiting_in_queue t ≡ true = ground arith in
    let (order, placed, h2) = >>=-eq-ok (insert_at before t (pending_tasks s t)) _ h1 in
    let (changes, done, h3) =
      >>=-eq-ok (number_tasks env t.id (reorder_base s t) 1 order s.drawn) _ h2 in
    let place = insert_at-IsPlaced before t (pending_tasks s t) order placed in
    let same : reorder_edit t s.drawn changes ≡ e = cc in
    record {
      order = order;
      waits = waits;
      place = place;
      ascends = pending-Ascends s t;
      numbered =
          subst (λ (x : Edit). Numbered (reorder_base s t + 1) x.changes order) same
            (number-Numbered env t.id (reorder_base s t) 1 s.drawn (reorder_base s t + 1) order
              changes done refl (order-distinct s before t order distinct place)
              (order-queued s before t order waits place));
      behind = λ v m own q left.
          queue_max_le (λ (x : Task). same_project t x && not (waiting_in_queue x)) (tasks_of s) v m
            (ground arith) q;
    }
