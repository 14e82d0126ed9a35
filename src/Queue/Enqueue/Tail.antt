-- ===== src/Queue/Enqueue/Tail.antt =====
-- The place of work that enters the queue.
use ditch.Prelude.{
  ℕ, ◌^◌, ◌≤◌, ◌<◌, ◌≡◌, refl, sym, subst, inl, inr, Bool, true, false, not, ◌&&◌, ◌||◌, none,
  is_some, List, [], ◌∷◌, In, ok, >>=-eq-ok, reject_if, arith,
}
use ditch.Core.{AgentExecutionProfile, Task}
use ditch.Task.Basics.{waiting_in_queue, touch}
use ditch.Runtime.State.{RuntimeState, Env, tasks_of}
use ditch.Queue.Claim.{position}
use ditch.Queue.Edit.{Edit, queue_max, checked_position, larger}
use ditch.Queue.Enqueue.{
  enqueue, queue_edit, queue_at, same_project, tail_position, in_todo, in_progress,
}

larger_le : (a b : ℕ) → (a ≤ larger a b) × (b ≤ larger a b)
larger_le a b = ground arith

pub queue_max_le :
    (f : Task → Bool) (ts : List Task) (v : Task)
    → In v ts
    → f v ≡ true
    → is_some v.execution_queue ≡ true
    → position v ≤ queue_max f ts
unfolding queue_max
queue_max_le f [] v m h q = absurd m
queue_max_le f (t ∷ ts) v (inl e) h q =
    let own : (f t && is_some t.execution_queue) ≡ true =
      subst (λ (x : Task). (f x && is_some x.execution_queue) ≡ true) (sym e) (ground arith) in
    rw own (
      subst (λ (x : Task). position x ≤ larger (position t) (queue_max f ts)) e
        (larger_le (position t) (queue_max f ts)).0)
queue_max_le f (t ∷ ts) v (inr m) h q =
    let rest = queue_max_le f ts v m h q in
    let grows = larger_le (position t) (queue_max f ts) in ground arith

-- The next position follows all those of the project and fits a `u64`.
pub tail_position_lem :
    (s : RuntimeState) (t : Task) (n : ℕ)
    → tail_position s t ≡ ok n
    → (n < 2 ^ 64)
      × ((v : Task)
          → In v (tasks_of s)
          → v.project_id ≡ t.project_id
          → is_some v.execution_queue ≡ true
          → position v < n)
unfolding checked_position
tail_position_lem s t n h = (
  ground arith,
  λ v m own q.
      let below = queue_max_le (same_project t) (tasks_of s) v m (ground arith) q in ground arith,
)

-- What a task is like that has entered the queue.
pub record IsTail (s : RuntimeState) (t u : Task) : Type 0 where
  pub same : u.id ≡ t.id
  pub project : u.project_id ≡ t.project_id
  pub waits : waiting_in_queue u ≡ true
  pub fits : position u < 2 ^ 64
  pub behind :
      (v : Task)
      → In v (tasks_of s)
      → v.project_id ≡ t.project_id
      → is_some v.execution_queue ≡ true
      → position v < position u
  pub unsubmitted : u.acceptance.current_submission ≡ none

pub enqueue_lem :
    (env : Env) (profile : AgentExecutionProfile) (t : Task) (s : RuntimeState) (e : Edit)
    → enqueue env profile t s ≡ ok e
    → (n : ℕ) × (tail_position s t ≡ ok n) × (e ≡ queue_edit env t profile s.drawn n)
unfolding enqueue
enqueue_lem env profile t s e h =
    let (w, ready, h1) =
      >>=-eq-ok (reject_if (not (in_todo t || in_progress t) || waiting_in_queue t) _) _ h in
    let (n, place, h2) = >>=-eq-ok (tail_position s t) _ h1 in (n, place, cc)

-- A task that is not archived and is put into the queue waits there, behind every entry of its project that there
-- was, at a position that fits a `u64`.
pub enqueue-IsTail :
    (env : Env) (profile : AgentExecutionProfile) (t : Task) (s : RuntimeState) (e : Edit)
    → t.archived ≡ false
    → enqueue env profile t s ≡ ok e
    → IsTail s t e.task
unfolding queue_edit queue_at touch waiting_in_queue
enqueue-IsTail env profile t s e kept h =
    let (n, place, same) = enqueue_lem env profile t s e h in
    let (fits, behind) = tail_position_lem s t n place in
    subst (λ (x : Edit). IsTail s t x.task) (sym same)
      (record {
        same = refl;
        project = refl;
        waits = ground arith;
        fits = fits;
        behind = behind;
        unsubmitted = refl;
      })
