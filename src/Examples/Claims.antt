-- ===== src/Examples/Claims.antt =====
-- A board with one card in its queue, and two projects in one workspace.
use ditch.Prelude.{
  ℕ, ◌==◌, ◌≡◌, ◌≢◌, inl, inr, refl, subst, false, true, none, some, [], ◌∷◌, In, Text, text, keep,
  values, text_eq, has_key, insert, lookup, member, is_blank, is_whitespace, trim, Result, ok, err,
  Bool, find,
}
use ditch.Core.{
  Project, ProjectGitPolicy, ProjectExecutionTarget, Task, TaskState, TaskCondition, TaskRequest,
  TaskResponse, TaskOperation, BoardExecutionState, AgentTransport, AgentApprovalPreset,
}
use ditch.Task.Basics.{waiting_in_queue, audit, touch}
use ditch.Store.{
  setting, get_setting, put_setting, task_replay, replayed, set_task_setting_receipt, write_receipt,
  put_task, save_task_agent_changes, save_task_changes, write_agents, write_audit, write_changes,
  write_task,
}
use ditch.Runtime.State.{RuntimeState, Env, publish_tasks, send}
use ditch.Runtime.Writers.{reap_orphan_writers, exited, release_all}
use ditch.Queue.Board.{
  board_execution, board_execution_busy, same_workspace, in_workspace, admitted, board_agent_idle,
  keys, still_owned, workspace_root,
}
use ditch.Queue.Claim.{
  claim_running, claim_first, min_by_position, waiting_tasks, earlier, claim_or_wait,
  waiting_reason, admit, claim_ready, dispatch, dispatched, claim_queue, claim_board_task,
  record_change, publish_saved,
}
use ditch.Queue.Claim.Laws.{IsGranted, claim-IsGranted}
use ditch.Queue.Claim.Exclusive.{claim_once}
use ditch.Queue.Execution.{
  board_execution_request, replay_or, on_project, control, store_execution, switched,
  publish_execution,
}
use ditch.Queue.Execution.Laws.{IsSwitched, request-IsSwitched, paused_claims}
use ditch.Examples.Data.{todo_card}
use ditch.Examples.Tables.{one_card, open_disk}

abbrev pub desk : Project
desk = record {
  id = 1;
  name = text "Desk";
  root = text "/w";
  created_at = 5;
  archived_at = none;
  git_policy = ProjectGitPolicy.require_repository;
  execution_target = ProjectExecutionTarget.local;
}

-- Another project in the same directory.
abbrev pub twin : Project
twin = record desk { id = 2; name = text "Twin" }

-- A text for the switch, and its reader.
abbrev pub shown_flag : Bool → ℕ
shown_flag true = 1
shown_flag false = 0

abbrev pub shown_switch : BoardExecutionState → Text
shown_switch e = e.project_id ∷ e.revision ∷ shown_flag e.paused ∷ []

abbrev pub read_switch : Text → Result Text BoardExecutionState
read_switch (id ∷ n ∷ flag ∷ []) = ok (record { project_id = id; paused = flag == 1; revision = n })
read_switch _ = err (text "invalid switch")

abbrev pub calm : Env
calm = record {
  now = 50;
  disk = open_disk;
  uuid = λ n. n;
  process_group_exists = λ pid. false;
  canonicalize = λ path. some path;
  path_error = λ path. [];
  is_macos = false;
  lowercase = λ t. t;
  show_uuid = λ id. id ∷ [];
  to_json = λ r. [];
  execution_key = λ id. id ∷ [];
  execution_json = shown_switch;
  parse_execution = read_switch;
  members_key = λ id. 98 ∷ id ∷ [];
  members_json = λ ids. ids;
  parse_members = λ json. ok json;
}

abbrev pub queued_card : Task
queued_card = record todo_card {
  state = TaskState.running;
  condition = TaskCondition.queued;
  planning = record { text = 49 ∷ []; job = none };
  execution_queue = some (record {
    agent_id = none;
    position = 4;
    profile = record {
      transport = AgentTransport.app_server;
      skills = [];
      model = none;
      reasoning_effort = none;
      approval = AgentApprovalPreset.ask;
    };
    feedback = none;
  });
}

abbrev pub idle_board : RuntimeState
idle_board = record {
  store = record one_card { projects = 1 ∷ 2 ∷ []; tasks = queued_card ∷ [] };
  projects = desk ∷ twin ∷ [];
  agents = [];
  tasks = (7, queued_card) ∷ [];
  acceptance_controls = [];
  acceptance_owners = [];
  validator_owners = [];
  writer_leases = [];
  orphan_writer_groups = [];
  children = [];
  attention = [];
  releases = [];
  codex_home = none;
  codex_binary = none;
  remote_runtime = false;
  remote_maintenance = false;
  sent = [];
  killed = [];
  drawn = 900;
}

abbrev claimed : RuntimeState
claimed = (claim_queue calm desk idle_board).0

abbrev granted_card : Task
granted_card = dispatched calm queued_card 900 false

claim_ok : claim_queue calm desk idle_board ≡ (claimed, ok (some granted_card))
unfolding claim_queue claim_running board_execution setting get_setting claim_first min_by_position
    waiting_tasks keep values waiting_in_queue earlier claim_or_wait waiting_reason
    board_execution_busy in_workspace same_workspace text_eq has_key insert lookup member is_blank
    is_whitespace text trim admitted board_agent_idle keys still_owned workspace_root admit
    claim_ready dispatch dispatched publish_saved record_change publish_tasks send put_task
    save_task_agent_changes save_task_changes write_agents write_audit write_changes write_task
    audit touch
claim_ok = refl

claim-IsGranted_example : IsGranted calm desk idle_board claimed granted_card
claim-IsGranted_example = claim-IsGranted calm desk idle_board claimed granted_card claim_ok

one_room :
    (x : Project) → In x idle_board.projects → x.id ≡ desk.id → same_workspace calm x twin ≡ true
unfolding same_workspace workspace_root text_eq text
one_room x (inl e) same = subst (λ (y : Project). same_workspace calm y twin ≡ true) e refl
one_room x (inr (inl e)) same = subst (λ (y : Project). same_workspace calm y twin ≡ true) e refl
one_room x (inr (inr none_left)) same = absurd none_left

board_claim_ok : claim_board_task calm desk idle_board ≡ (claimed, ok (some granted_card))
unfolding claim_board_task reap_orphan_writers exited release_all
board_claim_ok = claim_ok

claim_once_example : claim_board_task calm twin claimed ≢ (claimed, ok (some granted_card))
claim_once_example =
    claim_once calm calm desk twin idle_board claimed claimed granted_card granted_card refl
      one_room board_claim_ok

abbrev pause_request : TaskRequest
pause_request = record {
  project_id = some 1;
  request_id = 60;
  operation = TaskOperation.board_execution (some true) (some 0);
}

abbrev paused_switch : BoardExecutionState
paused_switch = record { project_id = 1; paused = true; revision = 1 }

abbrev paused_board : RuntimeState
paused_board = (board_execution_request calm pause_request (some true) (some 0) idle_board).0

pause_new : task_replay calm.to_json calm.disk pause_request idle_board.store ≡ ok none
unfolding task_replay replayed find
pause_new = refl

pause_ok :
    board_execution_request calm pause_request (some true) (some 0) idle_board
    ≡ (paused_board, TaskResponse.board_execution paused_switch)
unfolding board_execution_request replay_or on_project control store_execution switched
    publish_execution set_task_setting_receipt write_receipt put_setting task_replay replayed find
    board_execution setting get_setting send
pause_ok = refl

request-IsSwitched_example :
    IsSwitched calm pause_request true (some 0) idle_board paused_board paused_switch
request-IsSwitched_example =
    request-IsSwitched calm pause_request true (some 0) idle_board paused_board paused_switch refl
      pause_new pause_ok

paused_claims_example : claim_queue calm desk paused_board ≢ (claimed, ok (some granted_card))
paused_claims_example =
    paused_claims calm pause_request (some 0) idle_board paused_board paused_board claimed desk
      paused_switch granted_card refl pause_new pause_ok refl refl
