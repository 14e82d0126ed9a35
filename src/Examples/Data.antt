-- ===== src/Examples/Data.antt =====
-- A card on its way over the board, with the entries of its history.
use ditch.Prelude.{false, true, none, some, [], ◌∷◌, text}
use ditch.Core.{
  Task, TaskDraft, TaskAudit, TaskState, TaskColumn, TaskCondition, TaskActor, TaskPriority,
  TaskIssueKind, LoopPolicy, RetryMode,
}

abbrev pub sample_policy : LoopPolicy
sample_policy = record {
  enabled = true;
  max_attempts = 3;
  deadline_seconds = 3600;
  validator_timeout_seconds = 60;
  stop_on_denial = true;
  stop_on_identical_failure = true;
  require_change = false;
  retry_mode = RetryMode.resume;
}

abbrev pub sample_draft : TaskDraft
sample_draft = record {
  issue_kind = TaskIssueKind.feature;
  skills = [];
  title = text "  Ship it ";
  description = text "The first release";
  acceptance_criteria = text "Builds" ∷ [];
  priority = TaskPriority.normal;
}

abbrev pub todo_card : Task
todo_card = record {
  release_id = none;
  issue_kind = TaskIssueKind.feature;
  execution_queue = none;
  planning = record { text = text "1. build"; job = none };
  remote_pending = false;
  github_source = none;
  coordinator_group = none;
  continue_agent_id = none;
  acceptance = record {
    config = record { policy = sample_policy; criteria = [] };
    attempts = [];
    submissions = [];
    current_submission = none;
  };
  skills = [];
  id = 7;
  project_id = 1;
  title = text "Ship it";
  description = text "The first release";
  state = TaskState.ready;
  acceptance_criteria = text "Builds" ∷ [];
  created_at = 10;
  condition = TaskCondition.idle;
  order_key = 0;
  priority = TaskPriority.normal;
  creator = TaskActor.user;
  assigned_agent_id = none;
  revision = 1;
  updated_at = some 10;
  started_at = none;
  submitted_at = none;
  completed_at = none;
  cancelled_at = none;
  archived = false;
  last_reason = none;
  review_summary = none;
}

abbrev pub started_card : Task
started_card = record todo_card {
  state = TaskState.running;
  started_at = some 20;
  revision = 2;
  updated_at = some 20;
}

abbrev pub review_card : Task
review_card = record started_card {
  state = TaskState.in_review;
  review_summary = some (text "It builds");
  submitted_at = some 30;
  revision = 3;
  updated_at = some 30;
}

abbrev pub done_card : Task
done_card = record review_card {
  state = TaskState.accepted;
  completed_at = some 40;
  revision = 4;
  updated_at = some 40;
}

abbrev pub started_entry : TaskAudit
started_entry = record {
  id = 102;
  task_id = 7;
  actor = TaskActor.user;
  action = text "start";
  from_column = some TaskColumn.todo;
  to_column = TaskColumn.in_progress;
  agent_id = none;
  created_at = 20;
  reason = none;
  summary = none;
}

abbrev pub review_entry : TaskAudit
review_entry = record {
  id = 103;
  task_id = 7;
  actor = TaskActor.agent;
  action = text "submit";
  from_column = some TaskColumn.in_progress;
  to_column = TaskColumn.in_review;
  agent_id = none;
  created_at = 30;
  reason = none;
  summary = some (text "It builds");
}

abbrev pub done_entry : TaskAudit
done_entry = record {
  id = 104;
  task_id = 7;
  actor = TaskActor.user;
  action = text "accept";
  from_column = some TaskColumn.in_review;
  to_column = TaskColumn.done;
  agent_id = none;
  created_at = 40;
  reason = none;
  summary = none;
}
