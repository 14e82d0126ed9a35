-- ===== src/Task/Workflow/History.antt =====
-- Histories of a task: the steps that `Task::transition` grants, one after another, each with its
-- audit entry. Other writers of a task are not among the steps.
use ditch.Prelude.{
  sym, ◌∙◌, ℕ, ◌+◌, ◌%◌, ◌<◌, ◌≡◌, ◌≢◌, ◌⊎◌, refl, ap, inl, inr, Bool, true, false, some, is_some,
  Text, text, is_blank, List, [], ◌∷◌, In, length, ok, u64_mod, arith,
}
use ditch.Core.{
  Uuid, Time, Task, TaskColumn, TaskCondition, TaskAction, TaskActor, TaskAudit, is_user,
}
use ditch.Task.Basics.{column, touch, audit}
use ditch.Task.Workflow.{Applied, apply_action, finish, transition}
use ditch.Task.Workflow.Effects.{transition-IsApplied, transition-IsRecorded}

-- What the workflow keeps true of a task.
pub record IsSound (t : Task) : Type 0 where
  pub reviewable :
      (column t ≡ TaskColumn.in_review) ⊎ (column t ≡ TaskColumn.done)
      → (s : Text) × (t.review_summary ≡ some s) × (is_blank s ≡ false)
  pub submitted : column t ≡ TaskColumn.in_review → is_some t.submitted_at ≡ true
  pub completed : column t ≡ TaskColumn.done → is_some t.completed_at ≡ true
  pub archived : t.archived ≡ true → t.condition ≡ TaskCondition.cancelled
  pub cancelled : t.condition ≡ TaskCondition.cancelled → t.archived ≡ true
  pub dated : t.archived ≡ true → is_some t.cancelled_at ≡ true

apply-IsSound :
    (now : Time) (t : Task) (action : TaskAction) (user : Bool) (a : Applied)
    → apply_action now t action user ≡ some a
    → IsSound t
    → IsSound a.next
unfolding apply_action
apply-IsSound now t TaskAction.prioritize user a h s = ground arith
apply-IsSound now t (TaskAction.submit x) user a h s = record {
  reviewable = λ _. (x, ground arith, ground arith);
  submitted = ground arith;
  completed = ground arith;
  archived = ground arith;
  cancelled = ground arith;
  dated = ground arith;
}
apply-IsSound now t _ user a h s = ground arith

-- Every workflow action keeps a task sound: what stands in review or is done carries a summary that
-- is not blank, a submission or completion time, and archived is the same as cancelled.
transition-IsSound :
    (now : Time) (fresh : Uuid) (t : Task) (action : TaskAction) (actor : TaskActor) (expected : ℕ)
    (live : Bool) (u : Task) (entry : TaskAudit)
    → transition now fresh t action actor expected live ≡ ok (u, entry)
    → IsSound t
    → IsSound u
unfolding finish touch
transition-IsSound now fresh t action actor expected live u entry h s =
    let p = transition-IsApplied now fresh t action actor expected live (u, entry) h in
    let kept = apply-IsSound now t action (is_user actor) p.applied p.arm s in
    let e : u ≡ touch now p.applied.next = ap (λ (r : Task × TaskAudit). r.0) p.result in
    rw e (record {
      reviewable = kept.reviewable;
      submitted = kept.submitted;
      completed = kept.completed;
      archived = kept.archived;
      cancelled = kept.cancelled;
      dated = kept.dated;
    })

-- A card leaves its column only along these edges.
infix 40 ◌⟶⟨◌⟩◌
pub data ◌⟶⟨◌⟩◌ : TaskColumn → TaskAction → TaskColumn → Type 0 where
  prioritized : TaskColumn.backlog ⟶⟨ TaskAction.prioritize ⟩ TaskColumn.todo
  returned : TaskColumn.todo ⟶⟨ TaskAction.return_to_backlog ⟩ TaskColumn.backlog
  started : TaskColumn.todo ⟶⟨ TaskAction.start ⟩ TaskColumn.in_progress
  restarted : TaskColumn.in_progress ⟶⟨ TaskAction.start ⟩ TaskColumn.in_progress
  submitted : (s : Text) → TaskColumn.in_progress ⟶⟨ TaskAction.submit s ⟩ TaskColumn.in_review
  sent_back :
      (s : Text) → TaskColumn.in_review ⟶⟨ TaskAction.request_changes s ⟩ TaskColumn.in_progress
  accepted : TaskColumn.in_review ⟶⟨ TaskAction.accept ⟩ TaskColumn.done
  cancelled : (c : TaskColumn) (s : Text) → c ≢ TaskColumn.done → c ⟶⟨ TaskAction.cancel s ⟩ c
  reopened : (c : TaskColumn) → c ⟶⟨ TaskAction.reopen ⟩ TaskColumn.todo
  given_up : (s : Text) → TaskColumn.in_progress ⟶⟨ TaskAction.return_to_todo s ⟩ TaskColumn.todo

ruleset edges = (
  prioritized, returned, started, restarted, submitted, sent_back, accepted, cancelled, reopened,
  given_up,
)

apply-edge :
    (now : Time) (t : Task) (action : TaskAction) (user : Bool) (a : Applied)
    → apply_action now t action user ≡ some a
    → column t ⟶⟨ action ⟩ column a.next
unfolding apply_action
apply-edge now t TaskAction.prioritize user a h = grind (arith, edges)
apply-edge now t _ user a h = grind (arith, edges)

-- A successful transition moves the card along one edge of the board.
pub transition_edge :
    (now : Time) (fresh : Uuid) (t : Task) (action : TaskAction) (actor : TaskActor) (expected : ℕ)
    (live : Bool) (u : Task) (entry : TaskAudit)
    → transition now fresh t action actor expected live ≡ ok (u, entry)
    → column t ⟶⟨ action ⟩ column u
unfolding finish touch
transition_edge now fresh t action actor expected live u entry h =
    let p = transition-IsApplied now fresh t action actor expected live (u, entry) h in
    let e : u ≡ touch now p.applied.next = ap (λ (r : Task × TaskAudit). r.0) p.result in
    rw e (apply-edge now t action (is_user actor) p.applied p.arm)

-- The mark of a human acceptance in a task's history.
abbrev pub IsAcceptance : TaskAudit → Type 0
IsAcceptance entry =
    (entry.actor ≡ TaskActor.user)
    × (entry.action ≡ text "accept")
    × (entry.from_column ≡ some TaskColumn.in_review)

apply_done :
    (now : Time) (t : Task) (action : TaskAction) (actor : TaskActor) (a : Applied)
    → apply_action now t action (is_user actor) ≡ some a
    → column a.next ≡ TaskColumn.done
    → (actor ≡ TaskActor.user) × (a.name ≡ text "accept") × (column t ≡ TaskColumn.in_review)
unfolding apply_action
apply_done now t TaskAction.prioritize actor a h d = ground arith
apply_done now t _ actor a h d = ground arith

transition_done :
    (now : Time) (fresh : Uuid) (t : Task) (action : TaskAction) (actor : TaskActor) (expected : ℕ)
    (live : Bool) (u : Task) (entry : TaskAudit)
    → transition now fresh t action actor expected live ≡ ok (u, entry)
    → column u ≡ TaskColumn.done
    → IsAcceptance entry × (column t ≡ TaskColumn.in_review)
unfolding finish touch audit
transition_done now fresh t action actor expected live u entry h d =
    let p = transition-IsApplied now fresh t action actor expected live (u, entry) h in
    let done =
      apply_done now t action actor p.applied p.arm
        (ap (λ (r : Task × TaskAudit). column r.0) (sym p.result) ∙ d) in
    (ground arith, ground arith)

-- The mark of a submission: its entry carries the summary.
abbrev pub IsSubmission : TaskAudit → Type 0
IsSubmission entry =
    (entry.action ≡ text "submit")
    × (entry.to_column ≡ TaskColumn.in_review)
    × (is_some entry.summary ≡ true)

apply_review :
    (now : Time) (t : Task) (action : TaskAction) (user : Bool) (a : Applied)
    → apply_action now t action user ≡ some a
    → column a.next ≡ TaskColumn.in_review
    → (column t ≡ TaskColumn.in_review) ⊎ ((a.name ≡ text "submit") × (is_some a.summary ≡ true))
unfolding apply_action
apply_review now t TaskAction.prioritize user a h d = ground arith
apply_review now t _ user a h d = ground arith

transition_review :
    (now : Time) (fresh : Uuid) (t : Task) (action : TaskAction) (actor : TaskActor) (expected : ℕ)
    (live : Bool) (u : Task) (entry : TaskAudit)
    → transition now fresh t action actor expected live ≡ ok (u, entry)
    → column u ≡ TaskColumn.in_review
    → (column t ≡ TaskColumn.in_review) ⊎ IsSubmission entry
unfolding finish touch audit
transition_review now fresh t action actor expected live u entry h d =
    let p = transition-IsApplied now fresh t action actor expected live (u, entry) h in
    let review =
      apply_review now t action (is_user actor) p.applied p.arm
        (ap (λ (r : Task × TaskAudit). column r.0) (sym p.result) ∙ d) in
    ground arith

-- The steps that led from one task to another, with their entries, the last one first.
pub data History (t : Task) : List TaskAudit → Task → Type 0 where
  here : History t [] t
  next :
      {log : List TaskAudit} {u : Task}
      → History t log u
      → (now : Time) (fresh : Uuid) (action : TaskAction) (actor : TaskActor) (expected : ℕ)
        (live : Bool) (v : Task) (entry : TaskAudit)
      → transition now fresh u action actor expected live ≡ ok (v, entry)
      → History t (entry ∷ log) v

review_needs-IsSubmission :
    {t u : Task} {log : List TaskAudit}
    → History t log u
    → column u ≡ TaskColumn.in_review
    → (column t ≡ TaskColumn.in_review) ⊎ ((sent : TaskAudit) × In sent log × IsSubmission sent)
review_needs-IsSubmission here d = inl d
review_needs-IsSubmission (next {log} {u} r now fresh action actor expected live v entry h) d =
    elim (transition_review now fresh u action actor expected live v entry h d) [
      | inr sent ↦ inr (entry, inl refl, sent)
      | inl before ↦ elim (review_needs-IsSubmission r before) [
        | inl start ↦ inl start
        | inr (sent, at, is) ↦ inr (sent, inr at, is)
      ]
    ]

-- Every history that starts from a sound task ends in one.
pub History-IsSound : {t u : Task} {log : List TaskAudit} → IsSound t → History t log u → IsSound u
History-IsSound s here = s
History-IsSound s (next r now fresh action actor expected live v entry h) =
    transition-IsSound now fresh _ action actor expected live v entry h (History-IsSound s r)

-- A task that was not done and is done now was accepted: the last entry of its history is a user's
-- acceptance from In Review, and an earlier one is a submission with its summary, unless the task
-- stood in review at the start.
pub done_needs-IsAcceptance :
    {t u : Task} {log : List TaskAudit}
    → History t log u
    → column t ≢ TaskColumn.done
    → column u ≡ TaskColumn.done
    → (entry : TaskAudit) × (rest : List TaskAudit) × (log ≡ entry ∷ rest)
      × IsAcceptance entry
      × ((column t ≡ TaskColumn.in_review)
          ⊎ ((sent : TaskAudit) × In sent rest × IsSubmission sent))
done_needs-IsAcceptance here n d = absurd (n d)
done_needs-IsAcceptance {t} (next {log} {u} r now fresh action actor expected live v entry h) n d =
    let (human, from) = transition_done now fresh u action actor expected live v entry h d in
    (entry, log, refl, human, review_needs-IsSubmission r from)

-- The revision counts the entries of the history, modulo 2^64.
pub revision-History :
    {t u : Task} {log : List TaskAudit}
    → History t log u
    → t.revision < u64_mod
    → u.revision ≡ (t.revision + length log) % u64_mod
revision-History here b = omega arith
revision-History (next r now fresh action actor expected live v entry h) b = omega (
  arith,
  revision-History r b,
  (transition-IsRecorded now fresh _ action actor expected live v entry h).1.revision,
)
