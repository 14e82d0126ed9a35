-- ===== src/Core/Requests.antt =====
-- Task requests and responses (crates/ditch_core/src/tasks.rs) and the GitHub records they carry
-- (crates/ditch_core/src/github.rs).
use ditch.Prelude.{ℕ, Bool, Option, List, Text}
use ditch.Core.Agents.{Uuid, ProjectId, TaskId, AgentId, JsonValue, AgentExecutionProfile}
use ditch.Core.Acceptance.{AcceptanceConfig, CommandCheck}
use ditch.Core.Tasks.{
  Task, TaskAction, TaskAudit, TaskColumn, TaskDraft, TaskError, GitHubTaskSource, GitHubIssueType,
  ProjectRelease, BoardExecutionState,
}

pub record GitHubUser : Type 0 where
  pub login : Text

pub record GitHubLabel : Type 0 where
  pub name : Text
  pub color : Text

pub record GitHubIssue : Type 0 where
  pub issue_type : Option GitHubIssueType
  pub id : ℕ
  pub number : ℕ
  pub title : Text
  pub body : Option Text
  pub state : Text
  pub state_reason : Option Text
  pub html_url : Text
  pub updated_at : Text
  pub created_at : Text
  pub closed_at : Option Text
  pub user : Option GitHubUser
  pub labels : List GitHubLabel
  pub assignees : List GitHubUser
  pub comments : ℕ

pub record TaskRevision : Type 0 where
  pub task_id : TaskId
  pub expected_revision : ℕ

pub data ReleaseDestination : Type 0 where
  other : ReleaseDestination
  existing : Uuid → ReleaseDestination
  new : Text → ReleaseDestination

pub record TaskDetail : Type 0 where
  pub task : Task
  pub history : List TaskAudit

-- The fields of each variant stand in the source's order.
pub data TaskOperation : Type 0 where
  list_releases : TaskOperation
  accept_release assign_release : List TaskRevision → ReleaseDestination → TaskOperation
  materialize_board_task : Task → Option Task → TaskOperation
  repository_discovery : TaskOperation
  attach_git_hub : TaskId → GitHubTaskSource → GitHubIssue → TaskOperation
  board_execution : (paused : Option Bool) (expected_revision : Option ℕ) → TaskOperation
  enqueue :
      (task_id : TaskId) (expected_revision : ℕ) (execution_profile : AgentExecutionProfile)
      → TaskOperation
  reorder_queue :
      (task_id : TaskId) (expected_revision : ℕ) (before_id : Option TaskId) → TaskOperation
  generate_plan : TaskId → ℕ → Option Text → TaskOperation
  cancel_plan : TaskId → Uuid → TaskOperation
  update_description :
      (task_id : TaskId) (expected_description expected_plan description plan : Text)
      → TaskOperation
  board_projects : Option (List ProjectId) → TaskOperation
  configure_acceptance :
      TaskId → ℕ → AcceptanceConfig → (confirmed_commands : List CommandCheck) → TaskOperation
  approve_test_preset : (name : Text) → CommandCheck → TaskOperation
  test_presets : TaskOperation
  review_diff : TaskId → (submission_id : Uuid) → TaskOperation
  revalidate cancel_loop : TaskId → (expected_revision : ℕ) → TaskOperation
  list : Option TaskColumn → (include_archived : Bool) → TaskOperation
  get : TaskId → TaskOperation
  create_backlog : TaskDraft → TaskOperation
  create_identified :
      (board_task : Option Task) (task_id : TaskId) (coordinator_group : Option Uuid)
      (continue_agent_id : Option AgentId) (draft : TaskDraft)
      → TaskOperation
  create : TaskDraft → TaskOperation
  update : TaskId → (expected_revision : ℕ) → TaskDraft → TaskOperation
  transition : TaskId → (expected_revision : ℕ) → TaskAction → TaskOperation
  move : TaskId → (expected_revision : ℕ) → TaskColumn → (before_id : Option TaskId) → TaskOperation
  start : TaskId → (expected_revision : ℕ) → AgentExecutionProfile → TaskOperation
  link : TaskId → (expected_revision : ℕ) → AgentId → TaskOperation
  select_agent :
      (task_id : TaskId) (expected_revision : ℕ) (agent_id : Option AgentId)
      (replace_task_id : Option TaskId) (replace_task_revision : Option ℕ)
      → TaskOperation
  delete : TaskId → (expected_revision : ℕ) → TaskOperation

pub record TaskRequest : Type 0 where
  pub project_id : Option ProjectId
  pub request_id : Uuid
  pub operation : TaskOperation

pub data TaskResponse : Type 0 where
  releases : List ProjectRelease → TaskResponse
  release_batch : List Task → List ProjectRelease → TaskResponse
  materialized : Task → TaskResponse
  repository_discovery : JsonValue → TaskResponse
  board_execution : BoardExecutionState → TaskResponse
  board_projects : List ProjectId → TaskResponse
  diff : Text → TaskResponse
  test_presets : List (Text × CommandCheck) → TaskResponse
  tasks : List Task → TaskResponse
  detail : TaskDetail → TaskResponse
  changed : Task → TaskResponse
  deleted : TaskId → TaskResponse
  error : TaskError → TaskResponse
