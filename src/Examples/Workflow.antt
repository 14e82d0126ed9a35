-- ===== src/Examples/Workflow.antt =====
-- A card that goes from Todo to Done, and one that a stale caller may not start.
use ditch.Prelude.{
  ◌≡◌, ◌≢◌, ◌⊎◌, ◌↔◌, refl, true, false, List, [], ◌∷◌, In, text, ok, err, is_ok, arith, is_blank,
  is_whitespace, byte_len, len_utf8,
}
use ditch.Core.{TaskAudit, TaskColumn, TaskActor, TaskAction, TaskError, TaskErrorCode}
use ditch.Task.Basics.{column, check_revision, touch, audit, task_error}
use ditch.Task.Workflow.{transition, apply_action, finish}
use ditch.Task.Workflow.Rules.{Permits, transition-Permits, transition_refusals}
use ditch.Task.Workflow.History.{
  IsSound, History, here, next, IsAcceptance, IsSubmission, done_needs-IsAcceptance,
}
use ditch.Examples.Data.{
  todo_card, started_card, review_card, done_card, started_entry, review_entry, done_entry,
}

start_ok :
    transition 20 102 todo_card TaskAction.start TaskActor.user 1 false
    ≡ ok (started_card, started_entry)
unfolding transition check_revision apply_action finish touch audit
start_ok = refl

submit_ok :
    transition 30 103 started_card (TaskAction.submit (text "It builds")) TaskActor.agent 2 false
    ≡ ok (review_card, review_entry)
unfolding transition check_revision apply_action finish touch audit is_blank text is_whitespace
    byte_len len_utf8
submit_ok = refl

accept_ok :
    transition 40 104 review_card TaskAction.accept TaskActor.user 3 false
    ≡ ok (done_card, done_entry)
unfolding transition check_revision apply_action finish touch audit is_blank text is_whitespace
accept_ok = refl

finished : History todo_card (done_entry ∷ review_entry ∷ started_entry ∷ []) done_card
finished =
    next
      (next
        (next here 20 102 TaskAction.start TaskActor.user 1 false started_card started_entry
          start_ok)
        30 103 (TaskAction.submit (text "It builds")) TaskActor.agent 2 false review_card
        review_entry submit_ok)
      40 104 TaskAction.accept TaskActor.user 3 false done_card done_entry accept_ok

todo-IsSound : IsSound todo_card
todo-IsSound = ground arith

review-IsSound : IsSound review_card
unfolding is_blank text is_whitespace
review-IsSound = record {
  reviewable = λ _. (text "It builds", refl, refl);
  submitted = λ _. refl;
  completed = ground arith;
  archived = ground arith;
  cancelled = ground arith;
  dated = ground arith;
}

done_needs-IsAcceptance_example :
    (entry : TaskAudit) × (rest : List TaskAudit) × (done_entry ∷ review_entry ∷ started_entry ∷ []
      ≡ entry ∷ rest)
    × IsAcceptance entry
    × ((column todo_card ≡ TaskColumn.in_review)
        ⊎ ((sent : TaskAudit) × In sent rest × IsSubmission sent))
done_needs-IsAcceptance_example = done_needs-IsAcceptance finished (λ e. ground arith) refl

transition-Permits_example :
    (is_ok (transition 40 104 review_card TaskAction.accept TaskActor.agent 3 false) ≡ true) ↔ (
      (review_card.revision ≡ 3)
      × (false ≡ false)
      × Permits review_card TaskAction.accept TaskActor.agent)
transition-Permits_example =
    transition-Permits 40 104 review_card TaskAction.accept TaskActor.agent 3 false

stale_error : TaskError
stale_error =
    task_error TaskErrorCode.revision_conflict (text "This task changed. Refresh it and retry.")

stale : transition 40 104 review_card TaskAction.accept TaskActor.user 2 false ≡ err stale_error
unfolding transition check_revision stale_error
stale = refl

transition_refusals_example :
    ((review_card.revision ≢ 2) × (stale_error.code ≡ TaskErrorCode.revision_conflict))
    ⊎ ((review_card.revision ≡ 2) × (false ≡ true) × (stale_error.code ≡ TaskErrorCode.agent_busy))
    ⊎ ((review_card.revision ≡ 2)
        × (false ≡ false)
        × (¬ Permits review_card TaskAction.accept TaskActor.user)
        × (stale_error.code ≡ TaskErrorCode.illegal_transition))
transition_refusals_example =
    transition_refusals 40 104 review_card TaskAction.accept TaskActor.user 2 false stale_error
      stale
