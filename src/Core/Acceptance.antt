-- ===== src/Core/Acceptance.antt =====
-- The data of crates/ditch_core/src/acceptance.rs: loop policies, criteria, attempts, submissions.
-- An `i32` exit code is its 32-bit pattern: nothing modelled here computes with one.
use ditch.Prelude.{ℕ, Bool, Option, List, Text, true, false}
use ditch.Core.Agents.{Uuid, Time, TaskId, AgentId, JsonValue, SkillBinding, AgentExecutionProfile}

pub data RetryMode : Type 0 where
  fresh resume : RetryMode

pub record LoopPolicy : Type 0 where
  pub enabled : Bool
  pub max_attempts : ℕ
  pub deadline_seconds : ℕ
  pub validator_timeout_seconds : ℕ
  pub stop_on_denial : Bool
  pub stop_on_identical_failure : Bool
  pub require_change : Bool
  pub retry_mode : RetryMode

-- `LoopPolicy::default`.
unfoldable pub default_policy : LoopPolicy
default_policy = record {
  enabled = false;
  max_attempts = 3;
  deadline_seconds = 1800;
  validator_timeout_seconds = 60;
  stop_on_denial = true;
  stop_on_identical_failure = true;
  require_change = false;
  retry_mode = RetryMode.fresh;
}

pub record CommandCheck : Type 0 where
  pub argv : List Text
  pub cwd : Text
  pub timeout_seconds : ℕ
  pub expected_exit : ℕ

pub data FilePredicate : Type 0 where
  exists absent : FilePredicate
  contains not_contains : Text → FilePredicate

pub data GitPredicate : Type 0 where
  clean dirty : GitPredicate
  changed_path forbidden_path : Text → GitPredicate
  max_diff_bytes : ℕ → GitPredicate

pub data CriterionKind : Type 0 where
  human agent_assertion : CriterionKind
  command : CommandCheck → CriterionKind
  test_preset : Text → CriterionKind
  file : Text → FilePredicate → CriterionKind
  git : GitPredicate → CriterionKind

pub record AcceptanceCriterion : Type 0 where
  pub id : Uuid
  pub label : Text
  pub required : Bool
  pub kind : CriterionKind

pub record AcceptanceConfig : Type 0 where
  pub policy : LoopPolicy
  pub criteria : List AcceptanceCriterion

pub record WorkspaceEvidence : Type 0 where
  pub fingerprint : Text
  pub head : Option Text
  pub dirty_paths : List Text
  pub diff_stat : Text
  pub diff_bytes : ℕ
  pub warnings : List Text
  pub captured_at : Time

pub data CheckStatus : Type 0 where
  passed failed human_review assertion infrastructure_error cancelled : CheckStatus

pub record ValidatorEvidence : Type 0 where
  pub criterion : AcceptanceCriterion
  pub status : CheckStatus
  pub command : Option CommandCheck
  pub started_at : Time
  pub duration_ms : ℕ
  pub exit_code : Option ℕ
  pub output : Text

pub data AttemptResult : Type 0 where
  queued working validating passed failed blocked cancelled interrupted : AttemptResult

-- `AttemptResult::active`.
abbrev pub result_active : AttemptResult → Bool
result_active AttemptResult.queued = true
result_active AttemptResult.working = true
result_active AttemptResult.validating = true
result_active AttemptResult.passed = false
result_active AttemptResult.failed = false
result_active AttemptResult.blocked = false
result_active AttemptResult.cancelled = false
result_active AttemptResult.interrupted = false

pub record AttemptFailure : Type 0 where
  pub code : Text
  pub message : Text

pub record TaskAttempt : Type 0 where
  pub validation_only : Bool
  pub id : Uuid
  pub cycle_id : Uuid
  pub task_id : TaskId
  pub agent_id : AgentId
  pub thread_id : Option Text
  pub ordinal : ℕ
  pub skills : List SkillBinding
  pub execution_profile : AgentExecutionProfile
  pub prompt : Text
  pub reviewer_feedback : Option Text
  pub started_at : Time
  pub ended_at : Option Time
  pub result : AttemptResult
  pub failure : Option AttemptFailure
  pub base : WorkspaceEvidence
  pub workspace : Option WorkspaceEvidence
  pub validators : List ValidatorEvidence
  pub summary : Option Text
  pub provider_usage : Option JsonValue
  pub approvals : List Text

pub record ReviewSubmission : Type 0 where
  pub id : Uuid
  pub attempt_id : Option Uuid
  pub agent_id : Option AgentId
  pub summary : Text
  pub criteria : List ValidatorEvidence
  pub workspace : WorkspaceEvidence
  pub preexisting_dirty_paths : List Text
  pub approvals : List Text
  pub created_at : Time

pub record TaskAcceptance : Type 0 where
  pub config : AcceptanceConfig
  pub attempts : List TaskAttempt
  pub submissions : List ReviewSubmission
  pub current_submission : Option Uuid

-- `TaskAcceptance::default`.
unfoldable pub default_acceptance : TaskAcceptance
unfolding default_policy
default_acceptance = record {
  config = record { policy = default_policy; criteria = List.[] };
  attempts = List.[];
  submissions = List.[];
  current_submission = Option.none;
}
