-- ===== src/Task/Workflow/Rules.antt =====
-- When `Task::transition` succeeds, and the order in which it refuses.
use ditch.Prelude.{
  ℕ, ◌≤◌, ◌≡◌, ◌≢◌, ◌⊎◌, ◌↔◌, Bool, true, false, Option, none, some, is_some, is_some_and, not,
  refl, Bool-cases, inl, inr, ◌==◌, Text, byte_len, is_blank, err, is_ok, arith,
}
use ditch.Core.{
  Uuid, Time, Task, TaskColumn, TaskCondition, TaskAction, TaskActor, TaskError, TaskErrorCode,
  is_user,
}
use ditch.Task.Basics.{column, check_revision}
use ditch.Task.Workflow.{apply_action, transition}

abbrev pub IsActive : Task → Type 0
IsActive t = (t.archived ≡ false) × (t.condition ≢ TaskCondition.cancelled)

abbrev pub IsEvidence : Text → Type 0
IsEvidence s = (is_blank s ≡ false) × (byte_len s ≤ 65536)

-- The board's rules: who may do what, from which column, with what evidence.
abbrev pub Permits : Task → TaskAction → TaskActor → Type 0
Permits t TaskAction.prioritize actor =
    (actor ≡ TaskActor.user) × IsActive t × (column t ≡ TaskColumn.backlog)
Permits t TaskAction.return_to_backlog actor =
    (actor ≡ TaskActor.user) × IsActive t × (column t ≡ TaskColumn.todo)
Permits t TaskAction.start actor =
    IsActive t × ((column t ≡ TaskColumn.todo) ⊎ (column t ≡ TaskColumn.in_progress))
Permits t (TaskAction.submit summary) actor =
    IsActive t × (column t ≡ TaskColumn.in_progress) × IsEvidence summary
Permits t (TaskAction.request_changes feedback) actor =
    (actor ≡ TaskActor.user) × IsActive t × (column t ≡ TaskColumn.in_review) × IsEvidence feedback
Permits t TaskAction.accept actor =
    (actor ≡ TaskActor.user)
    × IsActive t
    × (column t ≡ TaskColumn.in_review)
    × ((s : Text) × (t.review_summary ≡ some s) × (is_blank s ≡ false))
Permits t (TaskAction.cancel reason) actor =
    (actor ≡ TaskActor.user) × IsActive t × (column t ≢ TaskColumn.done)
Permits t TaskAction.reopen actor =
    (actor ≡ TaskActor.user)
    × ((column t ≡ TaskColumn.done) ⊎ (t.archived ≡ true) ⊎ (t.condition ≡ TaskCondition.cancelled))
Permits t (TaskAction.return_to_todo reason) actor =
    (actor ≡ TaskActor.user)
    × IsActive t
    × (column t ≡ TaskColumn.in_progress)
    × (is_blank reason ≡ false)

Permits-apply :
    (now : Time) (t : Task) (action : TaskAction) (actor : TaskActor)
    → Permits t action actor
    → is_some (apply_action now t action (is_user actor)) ≡ true
unfolding apply_action
Permits-apply now t TaskAction.prioritize actor h = ground arith
Permits-apply now t TaskAction.start actor h = ground arith
Permits-apply now t (TaskAction.submit s) actor h = ground arith
Permits-apply now t (TaskAction.cancel s) actor h = ground arith
Permits-apply now t _ actor h = ground arith

guarded_review :
    (o : Option Text)
    → is_some_and o (λ s. not (is_blank s)) ≡ true
    → (s : Text) × (o ≡ some s) × (is_blank s ≡ false)
guarded_review none h = cc
guarded_review (some s) h = (s, refl, ground arith)

apply-Permits :
    (now : Time) (t : Task) (action : TaskAction) (actor : TaskActor)
    → is_some (apply_action now t action (is_user actor)) ≡ true
    → Permits t action actor
unfolding apply_action
apply-Permits now t TaskAction.prioritize actor h = ground arith
apply-Permits now t TaskAction.accept actor h =
    let reviewed = guarded_review t.review_summary (ground arith) in
    (ground arith, ground arith, ground arith, reviewed)
apply-Permits now t TaskAction.reopen actor h = (ground arith, ground arith)
apply-Permits now t _ actor h = ground arith

-- A transition succeeds exactly when the caller has the current revision, no child process of the
-- task is alive, and the board's rules permit the action: the actor, the column, the task's not
-- being cancelled or archived, and the text that the action carries.
pub transition-Permits :
    (now : Time) (fresh : Uuid) (t : Task) (action : TaskAction) (actor : TaskActor) (expected : ℕ)
    (live : Bool)
    → (is_ok (transition now fresh t action actor expected live) ≡ true)
      ↔ ((t.revision ≡ expected) × (live ≡ false) × Permits t action actor)
unfolding transition check_revision
transition-Permits now fresh t action actor expected live = (
  λ h.
      let applied : is_some (apply_action now t action (is_user actor)) ≡ true = ground arith in
      (ground arith, ground arith, apply-Permits now t action actor applied),
  λ h. ground (arith, Permits-apply now t action actor h.2),
)

-- The refusals, in order: a stale revision is told first, then a live child, and only a caller that
-- passes both hears that the action is illegal.
pub transition_refusals :
    (now : Time) (fresh : Uuid) (t : Task) (action : TaskAction) (actor : TaskActor) (expected : ℕ)
    (live : Bool) (e : TaskError)
    → transition now fresh t action actor expected live ≡ err e
    → ((t.revision ≢ expected) × (e.code ≡ TaskErrorCode.revision_conflict))
      ⊎ ((t.revision ≡ expected) × (live ≡ true) × (e.code ≡ TaskErrorCode.agent_busy))
      ⊎ ((t.revision ≡ expected)
          × (live ≡ false)
          × (¬ Permits t action actor)
          × (e.code ≡ TaskErrorCode.illegal_transition))
unfolding transition check_revision
transition_refusals now fresh t action actor expected live e h =
    elim (Bool-cases (t.revision == expected)) [
      | inr stale ↦ inl (ground arith)
      | inl current ↦ elim (Bool-cases live) [
        | inl alive ↦ inr (inl (ground arith))
        | inr dead ↦ inr (
            inr (
              ground arith,
              dead,
              λ p. ground (arith, Permits-apply now t action actor p),
              ground arith,
            ))
      ]
    ]
