-- ===== src/Examples/Loops.antt =====
-- A loop on a board with one task: a worker that succeeds, and its review.
use ditch.Prelude.{
  ◌≡◌, refl, sym, ap, subst, inl, inr, ◌⊎◌, true, false, none, some, [], ◌∷◌, insert, lookup,
  has_key, text, Text, Result, ok, err, is_blank, is_whitespace, byte_len, len_utf8, member, find,
  text_eq, keep, take,
}
use ditch.Core.{
  AcceptanceCriterion, AgentState, AttemptResult, CriterionKind, GitPredicate, Task, TaskAttempt,
  WorkspaceEvidence,
}
use ditch.Runtime.State.{RuntimeState, AgentRecord, AgentChatRole, publish_tasks}
use ditch.Loop.{
  Outside, attempt_update, acceptance_block, acceptance_save, blocked, save_measured, save_touched,
  saved_as, acceptance_presets, update_found, save_attempts, place_attempt, merged,
  retained_summary,
}
use ditch.Loop.Turn.{Turn, Setup, Step, Wakeup}
use ditch.Loop.Cycle.{
  LoopWorld, max_turns, acceptance_cycle, turns, setup_of, turn, first_progress, gather, observe,
  validate_all, criteria_of, validate_one, human_criteria, confirm_workspace,
}
use ditch.Loop.Thread.{run_loop}
use ditch.Loop.Blocked.{IsBlocked, acceptance_block-IsBlocked}
use ditch.Loop.Earned.{IsSubmission}
use ditch.Loop.Ends.{cycle-IsSubmission}
use ditch.Loop.Own.{IsOwn, KeepsOwn}
use ditch.Loop.Over.{IsOver, IsLost, run_loop-IsOver}
use ditch.Examples.Data.{sample_policy}
use ditch.Examples.Claims.{calm, idle_board, queued_card}
use ditch.Examples.Requests.{asking, helper_run}
use ditch.Store.{
  save_task_changes, save_task_agent_changes, write_changes, write_task, write_audit, put_task,
  write_agents, setting, get_setting,
}
use ditch.Task.Basics.{touch, audit}
use ditch.Acceptance.{validate_config, invalid_policy, validate_criteria, validate_kind}
use ditch.Loop.Work.{begin_turn, queue_attempt, prompt_of}
use ditch.Loop.Redact.{
  join_lines, redact, redact_variables, scan_lines, redact_line, is_sensitive, contains,
  normalized_line, ascii_lower, has_prefix,
}
use ditch.Loop.Worker.{
  work, wait_worker, at_boundary, clear_attempt_group, clear_group, clear_validator, report_work,
  kill_group, worked_attempt,
}
use ditch.Store.Reservations.{reserved_group, writer_stopped, update_rows}
use ditch.Loop.Validators.{
  run_acceptance_validator, find_out, evidence_of, verdict, inspect, git_holds,
}
use ditch.Loop.Verdict.{judge, may_submit, failures_of, submit, submitted_task}
use ditch.Runtime.Sync.{final_summary, latest_summary, newest_first}

abbrev clean_tree : WorkspaceEvidence
clean_tree = record {
  fingerprint = 70 ∷ [];
  head = some (72 ∷ []);
  dirty_paths = [];
  diff_stat = [];
  diff_bytes = 0;
  warnings = [];
  captured_at = 50;
}

abbrev is_clean : AcceptanceCriterion
is_clean = record {
  id = 1;
  label = text "Clean";
  required = true;
  kind = CriterionKind.git GitPredicate.clean;
}

abbrev loop_card : Task
loop_card =
    let acceptance = queued_card.acceptance in
    record queued_card {
      assigned_agent_id = some 900;
      acceptance = record acceptance {
        config = record { policy = sample_policy; criteria = is_clean ∷ [] };
      };
    }

abbrev loop_board : RuntimeState
loop_board = record idle_board {
  tasks = (7, loop_card) ∷ [];
  acceptance_controls = (7, 900) ∷ [];
  acceptance_owners = 900 ∷ [];
  drawn = 901;
}

abbrev quiet : Outside
quiet = record {
  env = calm;
  acceptance_len = λ a. ok 100;
  variables = [];
  uppercase = λ t. t;
  presets_key = λ id. 99 ∷ id ∷ [];
  parse_presets = λ json. ok [];
  parse_report = λ json. none;
  show_kind = λ k. [];
  show_exit = λ code. [];
}

abbrev finished_worker : AgentRecord
finished_worker = record {
  run = record helper_run { id = 900; state = AgentState.completed };
  project_root = text "/w";
  messages =
      record { agent_id = 900; role = AgentChatRole.assistant; text = text "Done"; created_at = 50 }
      ∷ [];
  terminal_failure = none;
}

abbrev good_turn : Turn
good_turn = record {
  start = quiet;
  cancelled = false;
  late = false;
  base = ok clean_tree;
  dispatch = record { cancelled = false; late = false; cancelled_again = false };
  launch = λ owner thread prompt s. (none, record s { children = owner ∷ [] });
  wakeups =
      record {
        boundary = record { cancelled = false; late = false; cancelled_again = false };
        meanwhile = λ s. record s { children = []; agents = (900, finished_worker) ∷ [] };
        cancelled = false;
      }
      ∷ [];
  last = record { cancelled = false; late = true; cancelled_again = false };
  stop_agent = λ owner s. s;
  group_exits = true;
  finish = quiet;
  after = ok clean_tree;
  check = λ n. record {
    cancelled = false;
    run = λ command s.
        (record { stopped = false; exit_code = some 0; output = []; passed = ok true }, s);
    file_check = λ path predicate. ok true;
    duration_ms = 3;
    outside = quiet;
  };
  group_gone = true;
  current = ok clean_tree;
  late_end = false;
}

abbrev good_world : LoopWorld
good_world = record { outside = quiet; criteria_json = []; source_json = []; turn = λ n. good_turn }

abbrev end_state : RuntimeState → Step RuntimeState → RuntimeState
end_state s (ok s') = s'
end_state s (err stop) = s

abbrev reviewed_board : RuntimeState
reviewed_board = end_state loop_board (acceptance_cycle good_world 1 7 900 asking false loop_board)

reviewed_ok : acceptance_cycle good_world 1 7 900 asking false loop_board ≡ ok reviewed_board
unfolding acceptance_cycle lookup validate_config invalid_policy validate_criteria is_blank text
    is_whitespace byte_len len_utf8 validate_kind acceptance_presets setting get_setting turns
    setup_of turn begin_turn first_progress queue_attempt prompt_of join_lines attempt_update
    update_found save_attempts place_attempt acceptance_save save_measured save_touched saved_as
    save_task_changes save_task_agent_changes write_changes write_task touch write_audit put_task
    audit write_agents work publish_tasks insert wait_worker at_boundary member clear_attempt_group
    clear_group reserved_group clear_validator writer_stopped report_work kill_group gather observe
    merged worked_attempt find text_eq validate_all criteria_of validate_one
    run_acceptance_validator find_out evidence_of verdict inspect git_holds human_criteria
    confirm_workspace update_rows judge may_submit failures_of keep retained_summary final_summary
    latest_summary newest_first take redact redact_variables scan_lines redact_line is_sensitive
    contains normalized_line ascii_lower has_prefix submit submitted_task
reviewed_ok = refl

loop_board-IsOwn : IsOwn 7 loop_board
unfolding lookup
loop_board-IsOwn t h = let e : loop_card ≡ t = cc in sym (ap (λ (u : Task). u.id) e)

-- The worker's thread replaces maps other than that of the tasks.
quiet_threads : KeepsOwn 7 good_turn
quiet_threads = record {
  launch = λ owner thread prompt s own. own;
  meanwhile = λ w m s own. elim m [
    | inl e ↦ subst (λ (v : Wakeup). IsOwn 7 (v.meanwhile s)) e own
    | inr n ↦ absurd n
  ];
  runs = λ n command s own. own;
}

cycle-IsSubmission_example :
    (c : Setup) × (lookup 7 loop_board.tasks ≡ some c.initial)
    × (c.id ≡ 7)
    × (c.config ≡ c.initial.acceptance.config)
    × (c.validation_only ≡ false)
    × (c.max ≡ max_turns c.config false)
    × IsSubmission c good_world.turn reviewed_board
cycle-IsSubmission_example =
    cycle-IsSubmission good_world 1 7 900 asking false loop_board reviewed_board
      (λ k. quiet_threads) loop_board-IsOwn reviewed_ok

run_loop-IsOver_example :
    ((has_key 7 (run_loop good_world quiet 1 7 900 asking false loop_board).acceptance_controls
        ≡ false)
      × IsOver quiet good_world.turn 7 loop_board
          (acceptance_cycle good_world 1 7 900 asking false loop_board)
          (run_loop good_world quiet 1 7 900 asking false loop_board))
    ⊎ IsLost 7
        (acceptance_cycle good_world 1 7 900 asking false loop_board)
        (run_loop good_world quiet 1 7 900 asking false loop_board)
run_loop-IsOver_example =
    run_loop-IsOver good_world quiet 1 7 900 asking false loop_board (λ k. quiet_threads)
      loop_board-IsOwn

abbrev one_attempt : TaskAttempt
one_attempt = record {
  validation_only = false;
  id = 40;
  cycle_id = 41;
  task_id = 7;
  agent_id = 900;
  thread_id = none;
  ordinal = 1;
  skills = [];
  execution_profile = asking;
  prompt = [];
  reviewer_feedback = none;
  started_at = 50;
  ended_at = none;
  result = AttemptResult.working;
  failure = none;
  base = clean_tree;
  workspace = none;
  validators = [];
  summary = none;
  provider_usage = none;
  approvals = [];
}

abbrev working_card : Task
working_card =
    let acceptance = loop_card.acceptance in
    record loop_card { acceptance = record acceptance { attempts = one_attempt ∷ [] } }

abbrev working_board : RuntimeState
working_board = record loop_board { tasks = (7, working_card) ∷ [] }

abbrev later_attempt : TaskAttempt
later_attempt = record one_attempt { result = AttemptResult.validating }

abbrev task_or : Task → Result Text Task → Task
task_or d (err e) = d
task_or d (ok t) = t

abbrev validating_card : Task
validating_card = task_or working_card (attempt_update quiet 7 later_attempt working_board).1

abbrev validating_board : RuntimeState
validating_board = (attempt_update quiet 7 later_attempt working_board).0

acceptance_block-IsBlocked_example :
    (t' : Task) × (lookup 7 (acceptance_block quiet 7 (text "cancelled") [] working_board).tasks
      ≡ some t')
    × IsBlocked (text "cancelled") [] working_card t'
    × ((acceptance_block quiet 7 (text "cancelled") [] working_board).acceptance_controls
        ≡ working_board.acceptance_controls)
unfolding lookup acceptance_save save_measured save_touched saved_as save_task_changes
    save_task_agent_changes write_changes write_task touch blocked write_audit put_task audit
    write_agents
acceptance_block-IsBlocked_example =
    acceptance_block-IsBlocked quiet 7 (text "cancelled") [] working_card working_board refl refl
