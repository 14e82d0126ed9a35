-- ===== src/Loop/Turn.antt =====
-- What one turn of `acceptance_cycle` (crates/ditchd/src/acceptance_runtime.rs) meets, and how it
-- ends. The cancel flag, the clock, the workspace and the processes are read where the source reads
-- them: each reading is a field. Other threads change the state while the worker starts and runs
-- and while a validator runs: those changes are functions on the state, any at all.
use ditch.Prelude.{
  ℕ, Bool, ◌||◌, Option, none, some, List, Text, text, Result, ok, err, reject_if, if◌then◌else◌,
}
use ditch.Core.{
  Uuid, AgentId, TaskId, Task, TaskAttempt, AcceptanceConfig, CommandCheck, FilePredicate,
  WorkspaceEvidence, AgentExecutionProfile,
}
use ditch.Runtime.State.{RuntimeState}
use ditch.Loop.{Outside, Kept}

-- `cancel.load(..) || Instant::now() >= deadline`, and the second load that names the reason.
pub record Boundary : Type 0 where
  pub cancelled : Bool
  pub late : Bool
  pub cancelled_again : Bool

abbrev pub is_stopped : Boundary → Bool
is_stopped b = b.cancelled || b.late

abbrev pub boundary_code : Boundary → Text
boundary_code b = if b.cancelled_again then text "cancelled" else text "budget_exhausted"

-- A signal to the waiting loop: the test before it, what other threads did until then, and the flag
-- after it.
pub record Wakeup : Type 0 where
  pub boundary : Boundary
  pub meanwhile : RuntimeState → RuntimeState
  pub cancelled : Bool

-- The end of a command of a validator: its status if it was stopped, its exit code and output, and
-- whether it passed.
pub record CommandRun : Type 0 where
  pub stopped : Bool
  pub exit_code : Option ℕ
  pub output : Text
  pub passed : Result Text Bool

-- A validator: the flag before it, and the commands and files that it meets.
pub record Check : Type 0 where
  pub cancelled : Bool
  pub run : CommandCheck → RuntimeState → CommandRun × RuntimeState
  pub file_check : Text → FilePredicate → Result Text Bool
  pub duration_ms : ℕ
  pub outside : Outside

pub record Turn : Type 0 where
  pub start : Outside
  pub cancelled : Bool
  pub late : Bool
  pub base : Result Text WorkspaceEvidence
  pub dispatch : Boundary
  -- The answer of `start_remote_app_server_session_linked`: `some` of an error's message.
  pub launch : AgentId → Option Text → Text → RuntimeState → Option Text × RuntimeState
  pub wakeups : List Wakeup
  pub last : Boundary
  pub stop_agent : AgentId → RuntimeState → RuntimeState
  pub group_exits : Bool
  pub finish : Outside
  pub after : Result Text WorkspaceEvidence
  pub check : ℕ → Check
  pub group_gone : Bool
  pub current : Result Text WorkspaceEvidence
  pub late_end : Bool

-- What the cycle reads once. `json_texts` are serde's texts of the criteria and the source.
pub record Setup : Type 0 where
  pub id : TaskId
  pub initial : Task
  pub config : AcceptanceConfig
  pub profile : AgentExecutionProfile
  pub validation_only : Bool
  pub cycle_id : Uuid
  pub max : ℕ
  pub presets : List (Text × CommandCheck)
  pub criteria_json : Text
  pub source_json : Text

-- The variables that go from one turn to the next.
pub record Progress : Type 0 where
  pub owner : AgentId
  pub previous_failure : Option Text
  pub resume : Option Text
  pub feedback : Text
  pub expected_workspace : Option Text

-- The evidence of a turn: the attempt with its validators, and the workspace before the worker,
-- behind it, and after the validators.
pub record Evidence : Type 0 where
  pub attempt : TaskAttempt
  pub base : WorkspaceEvidence
  pub after : WorkspaceEvidence
  pub current : WorkspaceEvidence

-- A turn that stops the cycle: the code and message of an error, or a panic (an index of a map
-- without the key), in the state that it leaves.
pub data Stop : Type 0 where
  failed : (code message : Text) → RuntimeState → Stop
  panicked : RuntimeState → Stop

abbrev pub Step : Type 0 → Type 0
Step A = Result Stop A

-- A turn that goes on: the review is submitted, or another turn follows.
pub data Ending : Type 0 where
  submitted : RuntimeState → Ending
  again : Progress → RuntimeState → Ending

-- `if bad { return Err((code, message)) }`.
abbrev pub stop_if : Bool → Text → Text → RuntimeState → Step (Unit {0})
stop_if bad code message s = reject_if bad (Stop.failed code message s)

abbrev pub infrastructure : Text
infrastructure = text "validator_infrastructure"

-- `.map_err(fail)?`.
abbrev pub infra : {A : Type 0} → RuntimeState → Result Text A → Step A
infra s (err e) = err (Stop.failed infrastructure e s)
infra s (ok a) = ok a

abbrev pub saved_or_fail : {A : Type 0} → Kept A → Step (RuntimeState × A)
saved_or_fail (s, err e) = err (Stop.failed infrastructure e s)
saved_or_fail (s, ok a) = ok (s, a)

-- `tasks[&id]`.
abbrev pub or_panic : {A : Type 0} → RuntimeState → Option A → Step A
or_panic s none = err (Stop.panicked s)
or_panic s (some a) = ok a
