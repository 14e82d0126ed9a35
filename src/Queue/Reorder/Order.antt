-- ===== src/Queue/Reorder/Order.antt =====
-- The order that `ReorderQueue` gives to a project's waiting tasks.
use ditch.Prelude.{
  ℕ, suc, ◌+◌, ◌==◌, ==→eq, ==_of_eq, ◌≡◌, refl, ap, subst, ◌∙◌, Bool, true, false, not, ◌||◌,
  Option, none, some, is_some, List, [], ◌∷◌, any, ok, >>=-eq-ok, arith, if◌then◌else◌,
}
use ditch.Core.{Task, TaskAudit, TaskExecutionQueue}
use ditch.Task.Basics.{touch}
use ditch.Runtime.State.{Env}
use ditch.Queue.Claim.{position, queue_position}
use ditch.Queue.Edit.{checked_position}
use ditch.Queue.Reorder.{
  number_tasks, number_one, numbered_change, drawn_by, renumbered, at_position, changed_task,
}

-- A task as the changes leave it.
abbrev pub after : List (Task × TaskAudit) → Task → Task
after changes t = changed_task t.id t changes

-- The tasks stand at the positions from `n` on, in the order of the list.
abbrev pub Numbered : ℕ → List (Task × TaskAudit) → List Task → Type 0
Numbered n changes [] = Unit
Numbered n changes (t ∷ ts) = (position (after changes t) ≡ n) × Numbered (suc n) changes ts

-- No task stands twice.
abbrev pub DistinctTasks : List Task → Type 0
DistinctTasks [] = Unit
DistinctTasks (t ∷ ts) = (any (λ (u : Task). u.id == t.id) ts ≡ false) × DistinctTasks ts

abbrev pub AllQueued : List Task → Type 0
AllQueued [] = Unit
AllQueued (t ∷ ts) = (is_some t.execution_queue ≡ true) × AllQueued ts

position-renumbered :
    (env : Env) (n : ℕ) (t : Task)
    → is_some t.execution_queue ≡ true
    → position (renumbered env n t) ≡ n
unfolding renumbered touch
position-renumbered env n t q = by_entry t.execution_queue q
  where
    by_entry :
        (o : Option TaskExecutionQueue) → is_some o ≡ true → queue_position (at_position n o) ≡ n
    by_entry none h = cc
    by_entry (some x) h = refl

renumbered-id : (env : Env) (n : ℕ) (t : Task) → (renumbered env n t).id ≡ t.id
unfolding renumbered touch
renumbered-id env n t = refl

-- The change of another task is passed over.
changed_task-number_one :
    (env : Env) (moved n drawn id : ℕ) (u t : Task) (rest : List (Task × TaskAudit))
    → (u.id == id) ≡ false
    → changed_task id t (number_one env moved n u drawn rest) ≡ changed_task id t rest
unfolding number_one changed_task numbered_change renumbered touch
changed_task-number_one env moved n drawn id u t rest other =
    by_test (not (position u == n) || u.id == moved)
  where
    by_test :
        (b : Bool)
        → changed_task id t (if b then numbered_change env n u drawn ∷ rest else rest)
          ≡ changed_task id t rest
    by_test true = ground arith
    by_test false = refl

Numbered-number_one :
    (env : Env) (moved m drawn : ℕ) (u : Task) (rest : List (Task × TaskAudit)) (n : ℕ)
    (ts : List Task)
    → any (λ (v : Task). v.id == u.id) ts ≡ false
    → Numbered n rest ts
    → Numbered n (number_one env moved m u drawn rest) ts
Numbered-number_one env moved m drawn u rest n [] other h = tt
Numbered-number_one env moved m drawn u rest n (t ∷ ts) other (here, later) =
    let kept = changed_task-number_one env moved m drawn t.id u t rest (ground arith) in
    (
      ap (λ (x : Task). position x) kept ∙ here,
      Numbered-number_one env moved m drawn u rest (suc n) ts (ground arith) later,
    )

-- The loop changes no other task than those of its list.
changed_task-number_tasks :
    (env : Env) (moved base index drawn : ℕ) (ts : List Task) (t : Task)
    (changes : List (Task × TaskAudit))
    → number_tasks env moved base index ts drawn ≡ ok changes
    → any (λ (v : Task). v.id == t.id) ts ≡ false
    → changed_task t.id t changes ≡ t
unfolding number_tasks changed_task
changed_task-number_tasks env moved base index drawn [] t changes h other = ground arith
changed_task-number_tasks env moved base index drawn (u ∷ us) t changes h other =
    let (n, place, h1) = >>=-eq-ok (checked_position base index) _ h in
    let (rest, later, h2) =
      >>=-eq-ok (number_tasks env moved base (suc index) us (drawn_by moved n u drawn)) _ h1 in
    let same : number_one env moved n u drawn rest ≡ changes = cc in
    subst (λ (c : List (Task × TaskAudit)). changed_task t.id t c ≡ t) same
      (changed_task-number_one env moved n drawn t.id u t rest (ground arith)
        ∙ changed_task-number_tasks env moved base (suc index) (drawn_by moved n u drawn) us t rest
            later (ground arith))

-- The task whose turn it is gets the number, whether it is changed or had it.
position-number_one :
    (env : Env) (moved n drawn : ℕ) (u : Task) (rest : List (Task × TaskAudit))
    → is_some u.execution_queue ≡ true
    → changed_task u.id u rest ≡ u
    → position (after (number_one env moved n u drawn rest) u) ≡ n
unfolding number_one changed_task numbered_change
position-number_one env moved n drawn u rest q kept =
    let placed = position-renumbered env n u q in
    let same = renumbered-id env n u in
    by_test (not (position u == n) || u.id == moved) refl placed same
  where
    by_test :
        (b : Bool)
        → (not (position u == n) || u.id == moved) ≡ b
        → position (renumbered env n u) ≡ n
        → (renumbered env n u).id ≡ u.id
        → position (after (if b then numbered_change env n u drawn ∷ rest else rest) u) ≡ n
    by_test true e placed same = rw (==_of_eq (renumbered env n u).id u.id same) placed
    by_test false e placed same =
        ap (λ (x : Task). position x) kept ∙ ground (arith, ==→eq (position u) n)

pub number-Numbered :
    (env : Env) (moved base index drawn n : ℕ) (ts : List Task) (changes : List (Task × TaskAudit))
    → number_tasks env moved base index ts drawn ≡ ok changes
    → base + index ≡ n
    → DistinctTasks ts
    → AllQueued ts
    → Numbered n changes ts
unfolding number_tasks checked_position
number-Numbered env moved base index drawn n [] changes h e distinct queued = tt
number-Numbered env moved base index drawn n (u ∷ us) changes h e (single, distinct) (q, queued) =
    let (m, place, h1) = >>=-eq-ok (checked_position base index) _ h in
    let (rest, later, h2) =
      >>=-eq-ok (number_tasks env moved base (suc index) us (drawn_by moved m u drawn)) _ h1 in
    let same : number_one env moved m u drawn rest ≡ changes = cc in
    let own : m ≡ n = ground arith in
    let kept =
      changed_task-number_tasks env moved base (suc index) (drawn_by moved m u drawn) us u rest
        later single in
    let tail =
      number-Numbered env moved base (suc index) (drawn_by moved m u drawn) (suc n) us rest later
        (omega arith) distinct queued in
    subst (λ (c : List (Task × TaskAudit)). Numbered n c (u ∷ us)) same
      (
        position-number_one env moved m drawn u rest q kept ∙ own,
        Numbered-number_one env moved m drawn u rest (suc n) us single tail,
      )
