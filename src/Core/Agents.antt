-- ===== src/Core/Agents.antt =====
-- Projects, skills, execution profiles and agent runs
-- (crates/ditch_core/src/lib.rs and crates/ditch_core/src/skills.rs).
-- A UUID, a newtype over one and a timestamp are natural numbers.
use ditch.Prelude.{ℕ, Bool, Option, List, Text, true, false}

abbrev pub Uuid : Type 0
Uuid = ℕ

abbrev pub Time : Type 0
Time = ℕ

abbrev pub ProjectId : Type 0
ProjectId = Uuid

abbrev pub TaskId : Type 0
TaskId = Uuid

abbrev pub AgentId : Type 0
AgentId = Uuid

-- A `serde_json::Value` that the code only stores: its serialised text.
abbrev pub JsonValue : Type 0
JsonValue = Text

pub data AgentState : Type 0 where
  starting working stopping awaiting_approval blocked idle completed failed stale interrupted
        unknown :
      AgentState

pub data AgentResumeBlockReason : Type 0 where
  no_codex_thread codex_home_mismatch : AgentResumeBlockReason

pub data AgentProvider : Type 0 where
  codex claude shell : AgentProvider

pub data CodexLaunchMode : Type 0 where
  interactive_tui exec : CodexLaunchMode

pub data AgentApprovalPreset : Type 0 where
  ask approve_for_me full_access : AgentApprovalPreset

pub data AgentTransport : Type 0 where
  legacy app_server : AgentTransport

pub data TaskActor : Type 0 where
  user agent daemon ditchmaster : TaskActor

pub record SkillBinding : Type 0 where
  pub identity : Text
  pub name : Text
  pub path : Text
  pub content_hash : Text
  pub revision : Option Text
  pub origin : TaskActor
  pub reason : Option Text
  pub created_at : Time

pub record AgentExecutionProfile : Type 0 where
  pub transport : AgentTransport
  pub skills : List SkillBinding
  pub model : Option Text
  pub reasoning_effort : Option Text
  pub approval : AgentApprovalPreset

pub data ProjectGitPolicy : Type 0 where
  require_repository initialize_repository allow_outside_git : ProjectGitPolicy

pub data ProjectExecutionTarget : Type 0 where
  local : ProjectExecutionTarget
  remote : Uuid → Text → ProjectExecutionTarget

pub record Project : Type 0 where
  pub id : ProjectId
  pub name : Text
  pub root : Text
  pub created_at : Time
  pub archived_at : Option Time
  pub git_policy : ProjectGitPolicy
  pub execution_target : ProjectExecutionTarget

abbrev pub target_remote : ProjectExecutionTarget → Bool
target_remote ProjectExecutionTarget.local = false
target_remote (ProjectExecutionTarget.remote machine alias) = true

abbrev pub is_remote : Project → Bool
is_remote p = target_remote p.execution_target

-- `state_confidence` is the bit pattern of an `f32` that nothing modelled here reads.
pub record AgentRun : Type 0 where
  pub coordinator_group : Option Uuid
  pub id : AgentId
  pub provider : AgentProvider
  pub state : AgentState
  pub can_stop : Bool
  pub launch_mode : CodexLaunchMode
  pub execution_profile : AgentExecutionProfile
  pub project_id : ProjectId
  pub task_id : Option TaskId
  pub pane_id : Option Uuid
  pub native_session_id : Option Text
  pub codex_title : Option Text
  pub naming_failed : Bool
  pub user_title : Option Text
  pub origin_codex_home : Option Text
  pub current_prompt : Option Text
  pub last_visible_action : Option Text
  pub state_confidence : ℕ
  pub state_evidence : Text
  pub started_at : Time
  pub updated_at : Time
  pub finished_at : Option Time
  pub exit_code : Option ℕ
  pub resume_block_reason : Option AgentResumeBlockReason

-- `AttentionKind`, and `RuntimeAttention` of crates/ditch_protocol/src/lib.rs.
pub data AttentionKind : Type 0 where
  approval_required blocked completed failed stale no_output unknown_state : AttentionKind

pub record RuntimeAttention : Type 0 where
  pub id : Uuid
  pub kind : AttentionKind
  pub agent_id : Option AgentId
  pub project_id : Option ProjectId
  pub project_name : Option Text
  pub agent_name : Option Text
  pub title : Text
  pub body : Text
  pub created_at : Time
  pub read_at : Option Time

-- The states in which a turn is under way: the `matches!` that the queue and the task handlers
-- make on a run's state.
abbrev pub state_busy : AgentState → Bool
state_busy AgentState.starting = true
state_busy AgentState.working = true
state_busy AgentState.stopping = true
state_busy AgentState.awaiting_approval = true
state_busy AgentState.blocked = false
state_busy AgentState.idle = false
state_busy AgentState.completed = false
state_busy AgentState.failed = false
state_busy AgentState.stale = false
state_busy AgentState.interrupted = false
state_busy AgentState.unknown = false

abbrev pub is_full_access : AgentApprovalPreset → Bool
is_full_access AgentApprovalPreset.full_access = true
is_full_access AgentApprovalPreset.ask = false
is_full_access AgentApprovalPreset.approve_for_me = false

abbrev pub is_user : TaskActor → Bool
is_user TaskActor.user = true
is_user TaskActor.agent = false
is_user TaskActor.daemon = false
is_user TaskActor.ditchmaster = false
