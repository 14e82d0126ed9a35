-- ===== src/Requests/Place/Arrives.antt =====
-- The column that a move leads to.
use ditch.Prelude.{
  ℕ, ◌≡◌, refl, sym, subst, Bool, true, false, some, ok, >>=-eq-ok, arith, if◌then◌else◌, Text,
  text,
}
use ditch.Core.{Task, TaskAction, TaskActor, TaskAudit, TaskColumn}
use ditch.Task.Basics.{column, column_eq, touch}
use ditch.Task.Workflow.{Applied, apply_action, finish}
use ditch.Task.Workflow.Effects.{apply-SameContent, transition-IsApplied}
use ditch.Runtime.State.{Env}
use ditch.Requests.Place.{change_column, move_action, moved_task, reordered}

column_eq_sound : (a b : TaskColumn) → column_eq a b ≡ true → a ≡ b
column_eq_sound TaskColumn.backlog b h = ground arith
column_eq_sound TaskColumn.todo b h = ground arith
column_eq_sound TaskColumn.in_progress b h = ground arith
column_eq_sound TaskColumn.in_review b h = ground arith
column_eq_sound TaskColumn.done b h = ground arith

-- The action of a move leads to the column that is asked for.
abbrev pub Arrives : TaskColumn → Task → Task → Type 0
Arrives to t u = (u.id ≡ t.id) × (column u ≡ to)

prioritized :
    (now : ℕ) (t : Task) (a : Applied)
    → apply_action now t TaskAction.prioritize true ≡ some a
    → column a.next ≡ TaskColumn.todo
unfolding apply_action
prioritized now t a h = ground arith

returned :
    (now : ℕ) (t : Task) (a : Applied)
    → apply_action now t TaskAction.return_to_backlog true ≡ some a
    → column a.next ≡ TaskColumn.backlog
unfolding apply_action
returned now t a h = ground arith

sent_back :
    (now : ℕ) (t : Task) (reason : Text) (a : Applied)
    → apply_action now t (TaskAction.return_to_todo reason) true ≡ some a
    → column a.next ≡ TaskColumn.todo
unfolding apply_action
sent_back now t reason a h = ground arith

abbrev Leads : TaskColumn → TaskAction → Type 0
Leads to action =
    (now : ℕ) (t : Task) (a : Applied)
    → apply_action now t action true ≡ some a
    → column a.next ≡ to

move_action-Leads :
    (from to : TaskColumn) (action : TaskAction) → move_action from to ≡ ok action → Leads to action
unfolding move_action
move_action-Leads TaskColumn.backlog TaskColumn.todo action h =
    let e : TaskAction.prioritize ≡ action = cc in subst (Leads TaskColumn.todo) e prioritized
move_action-Leads TaskColumn.todo TaskColumn.backlog action h =
    let e : TaskAction.return_to_backlog ≡ action = cc in
    subst (Leads TaskColumn.backlog) e returned
move_action-Leads TaskColumn.in_progress TaskColumn.todo action h =
    let e : TaskAction.return_to_todo (text "Moved back to Todo by user") ≡ action = cc in
    subst (Leads TaskColumn.todo) e (λ now t. sent_back now t (text "Moved back to Todo by user"))
move_action-Leads _ _ action h = cc

kept :
    (env : Env) (to : TaskColumn) (t : Task) (drawn : ℕ)
    → column t ≡ to
    → Arrives to t (reordered env t drawn).0
unfolding touch
kept env to t drawn e = (refl, e)

changed :
    (env : Env) (to : TaskColumn) (t : Task) (drawn : ℕ) (moved : Task × TaskAudit)
    → change_column env to t drawn ≡ ok moved
    → Arrives to t moved.0
unfolding change_column finish touch
changed env to t drawn moved h =
    let (action, chosen, h1) = >>=-eq-ok (move_action (column t) to) _ h in
    let p =
      transition-IsApplied env.now (env.uuid drawn) t action TaskActor.user t.revision false moved
        h1 in
    let same = apply-SameContent env.now t action true p.applied p.arm in
    let leads = move_action-Leads (column t) to action chosen env.now t p.applied p.arm in
    subst (λ (x : Task × TaskAudit). Arrives to t x.0) (sym p.result) (same.id, leads)

pub moved_task-Arrives :
    (env : Env) (to : TaskColumn) (t : Task) (drawn : ℕ) (moved : Task × TaskAudit)
    → moved_task env to t drawn ≡ ok moved
    → Arrives to t moved.0
unfolding moved_task touch finish
moved_task-Arrives env to t drawn moved h = by_test (column_eq to (column t)) refl h
  where
    by_test :
        (b : Bool)
        → column_eq to (column t) ≡ b
        → (if b then ok (reordered env t drawn) else change_column env to t drawn) ≡ ok moved
        → Arrives to t moved.0
    by_test true e k =
        let same : reordered env t drawn ≡ moved = cc in
        subst (λ (x : Task × TaskAudit). Arrives to t x.0) same
          (kept env to t drawn (sym (column_eq_sound to (column t) e)))
    by_test false e k = changed env to t drawn moved k
