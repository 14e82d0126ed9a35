-- ===== src/Core/Tasks.antt =====
-- The data of crates/ditch_core/src/tasks.rs and the `Task` record of crates/ditch_core/src/lib.rs.
use ditch.Prelude.{ℕ, Bool, Option, List, Text}
use ditch.Core.Agents.{
  Uuid, Time, ProjectId, TaskId, AgentId, TaskActor, SkillBinding, AgentExecutionProfile,
}
use ditch.Core.Acceptance.{TaskAcceptance}

pub data TaskState : Type 0 where
  draft backlog ready running blocked in_review accepted rejected cancelled : TaskState

pub data TaskColumn : Type 0 where
  backlog todo in_progress in_review done : TaskColumn

pub data TaskCondition : Type 0 where
  idle queued running awaiting_approval blocked failed cancelled : TaskCondition

pub data TaskPriority : Type 0 where
  low normal high urgent : TaskPriority

pub data TaskIssueKind : Type 0 where
  bug feature custom : TaskIssueKind

pub data TaskAction : Type 0 where
  prioritize return_to_backlog start : TaskAction
  submit : Text → TaskAction
  request_changes : Text → TaskAction
  accept : TaskAction
  cancel : Text → TaskAction
  reopen : TaskAction
  return_to_todo : Text → TaskAction

pub record TaskPlanJob : Type 0 where
  pub id : Uuid
  pub status : Text
  pub title : Text
  pub description : Text
  pub previous_plan : Text
  pub started_at : Time
  pub finished_at : Option Time
  pub result : Option Text
  pub error : Option Text

pub record TaskPlanning : Type 0 where
  pub text : Text
  pub job : Option TaskPlanJob

pub record TaskExecutionQueue : Type 0 where
  pub agent_id : Option AgentId
  pub position : ℕ
  pub profile : AgentExecutionProfile
  pub feedback : Option Text

pub record GitHubIssueType : Type 0 where
  pub id : ℕ
  pub name : Text
  pub color : Option Text

pub record GitHubTaskSource : Type 0 where
  pub issue_type : Option GitHubIssueType
  pub project_paths : List Text
  pub repository_id : ℕ
  pub issue_id : ℕ
  pub repository : Text
  pub number : ℕ
  pub url : Text
  pub state : Text
  pub last_synced_at : Text

pub record TaskDraft : Type 0 where
  pub issue_kind : TaskIssueKind
  pub skills : List SkillBinding
  pub title : Text
  pub description : Text
  pub acceptance_criteria : List Text
  pub priority : TaskPriority

-- `order_key` is an `i64` of the source, which may be negative; here it is a key from 0 on.
pub record Task : Type 0 where
  pub release_id : Option Uuid
  pub issue_kind : TaskIssueKind
  pub execution_queue : Option TaskExecutionQueue
  pub planning : TaskPlanning
  pub remote_pending : Bool
  pub github_source : Option GitHubTaskSource
  pub coordinator_group : Option Uuid
  pub continue_agent_id : Option AgentId
  pub acceptance : TaskAcceptance
  pub skills : List SkillBinding
  pub id : TaskId
  pub project_id : ProjectId
  pub title : Text
  pub description : Text
  pub state : TaskState
  pub acceptance_criteria : List Text
  pub created_at : Time
  pub condition : TaskCondition
  pub order_key : ℕ
  pub priority : TaskPriority
  pub creator : TaskActor
  pub assigned_agent_id : Option AgentId
  pub revision : ℕ
  pub updated_at : Option Time
  pub started_at : Option Time
  pub submitted_at : Option Time
  pub completed_at : Option Time
  pub cancelled_at : Option Time
  pub archived : Bool
  pub last_reason : Option Text
  pub review_summary : Option Text

pub record TaskAudit : Type 0 where
  pub id : Uuid
  pub task_id : TaskId
  pub actor : TaskActor
  pub action : Text
  pub from_column : Option TaskColumn
  pub to_column : TaskColumn
  pub agent_id : Option AgentId
  pub created_at : Time
  pub reason : Option Text
  pub summary : Option Text

pub data TaskErrorCode : Type 0 where
  not_found invalid_input illegal_transition revision_conflict agent_busy workspace_busy
        idempotency_conflict has_history storage unsupported :
      TaskErrorCode

pub record TaskError : Type 0 where
  pub code : TaskErrorCode
  pub message : Text

pub record WorkspaceLease : Type 0 where
  pub coordinator_group : Option Uuid
  pub target : Text
  pub root : Text
  pub unconfined : Bool

pub record ProjectRelease : Type 0 where
  pub id : Uuid
  pub project_id : ProjectId
  pub name : Text
  pub created_at : Time

pub record BoardExecutionState : Type 0 where
  pub project_id : ProjectId
  pub paused : Bool
  pub revision : ℕ
