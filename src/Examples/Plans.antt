-- ===== src/Examples/Plans.antt =====
-- A plan that is asked for and ends, and the names that a wildcard chooses.
use ditch.Prelude.{
  ℕ, ◌≡◌, ◌≤◌, refl, subst, ◌==◌, ==→eq, true, false, Bool, some, none, Option, [], ◌∷◌, lookup,
  values, text, text_eq, ok, arith, if◌then◌else◌,
}
use ditch.Core.{Task, TaskOperation, TaskRequest, TaskResponse, TaskPlanJob}
use ditch.Task.Basics.{touch}
use ditch.Runtime.State.{RuntimeState, tasks_of}
use ditch.Planning.{
  PlanReply, task_planning_request, new_task_plan_job, running_plans, is_running, finish_task_plan,
  with_job,
}
use ditch.Planning.Count.{IsBounded}
use ditch.Planning.Finished.{IsFinished, finish_task_plan-IsFinished}
use ditch.Planning.Four.{PlanSteps, started, asked, task_planning_request-IsBounded}
use ditch.Ssh.Wildcard.{wildcard_match}
use ditch.Ssh.Wildcard.Laws.{matches, wildcard_match-matches}
use ditch.Examples.Claims.{calm, idle_board, queued_card}
use ditch.Planning.{plan_request_at}
use ditch.Planning.{replay_plan}
use ditch.Ssh.Wildcard.{scan}
use ditch.Ssh.Wildcard.{only_stars}

abbrev ready_board : RuntimeState
ready_board = record idle_board { codex_binary = some (text "/bin/codex") }

abbrev plan_request : TaskRequest
plan_request = record {
  project_id = some 1;
  request_id = 70;
  operation = TaskOperation.generate_plan 7 1 none;
}

abbrev planning_card : Task
planning_card = touch 50 (with_job (some (new_task_plan_job calm queued_card 70)) queued_card)

plan_answer : Option PlanReply
plan_answer = task_planning_request calm plan_request ready_board

abbrev reply_of : Option PlanReply → PlanReply
reply_of (some reply) = reply
reply_of none = (ready_board, TaskResponse.board_projects [], none)

one_key : (k : ℕ) (t : Task) → lookup k ready_board.tasks ≡ some t → t.id ≡ k
unfolding lookup
one_key k t h = by_test (7 == k) refl h
  where
    by_test : (b : Bool) → (7 == k) ≡ b → (if b then some queued_card else none) ≡ some t → t.id ≡ k
    by_test true e g =
        (let same : queued_card ≡ t = cc in subst (λ (x : Task). x.id ≡ k) same (==→eq 7 k e))
    by_test false e g = cc

none_running : running_plans (tasks_of ready_board) ≤ 4
unfolding running_plans values
none_running = ground arith

ready-IsBounded : IsBounded ready_board
ready-IsBounded = record { keyed = one_key; few = none_running }

plan_ok : task_planning_request calm plan_request ready_board ≡ some (reply_of plan_answer)
unfolding task_planning_request plan_request_at plan_answer replay_plan
plan_ok = refl

planned_board : RuntimeState
planned_board = (reply_of plan_answer).0

planned_steps : PlanSteps ready_board planned_board
unfolding plan_answer planned_board
planned_steps = asked calm plan_request (reply_of plan_answer) started plan_ok

task_planning_request-IsBounded_example : IsBounded planned_board
task_planning_request-IsBounded_example =
    task_planning_request-IsBounded ready_board planned_board ready-IsBounded planned_steps

abbrev busy_job : TaskPlanJob
busy_job = record (new_task_plan_job calm queued_card 70) { id = 70 }

abbrev busy_card : Task
busy_card = with_job (some busy_job) queued_card

abbrev busy_board : RuntimeState
busy_board = record ready_board { tasks = (7, busy_card) ∷ [] }

busy_found : lookup 7 busy_board.tasks ≡ some busy_card
unfolding lookup
busy_found = refl

busy_runs : is_running busy_job ≡ true
unfolding text_eq new_task_plan_job text
busy_runs = refl

finish_task_plan-IsFinished_example :
    (u : Task) × (lookup 7 (finish_task_plan calm 7 70 (ok (text "Do it")) busy_board).tasks
      ≡ some u)
    × IsFinished busy_board busy_card busy_job (ok (text "Do it")) u
finish_task_plan-IsFinished_example =
    finish_task_plan-IsFinished calm busy_board 7 busy_card busy_job (ok (text "Do it")) busy_found
      refl refl busy_runs

wildcard_match-matches_example :
    wildcard_match (42 ∷ 46 ∷ 99 ∷ []) (97 ∷ 46 ∷ 98 ∷ 46 ∷ 99 ∷ [])
    ≡ some (matches (42 ∷ 46 ∷ 99 ∷ []) (97 ∷ 46 ∷ 98 ∷ 46 ∷ 99 ∷ []))
wildcard_match-matches_example =
    wildcard_match-matches (42 ∷ 46 ∷ 99 ∷ []) (97 ∷ 46 ∷ 98 ∷ 46 ∷ 99 ∷ []) refl

wildcard_test : wildcard_match (42 ∷ 46 ∷ 99 ∷ []) (97 ∷ 46 ∷ 98 ∷ 46 ∷ 99 ∷ []) ≡ some true
unfolding wildcard_match scan only_stars
wildcard_test = refl

-- A star in the pattern stands for itself where the value has one: the pattern `*a` does not find
-- the name `*ba`, although it ends with `a`.
star_lost : wildcard_match (42 ∷ 97 ∷ []) (42 ∷ 98 ∷ 97 ∷ []) ≡ some false
unfolding wildcard_match scan
star_lost = refl
