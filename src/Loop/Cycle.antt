-- ===== src/Loop/Cycle.antt =====
-- The second half of a turn of `acceptance_cycle`, the turns one after the other, and the thread
-- that runs them (crates/ditchd/src/acceptance_runtime.rs).
use ditch.Prelude.{
  ℕ, zero, suc, ◌+◌, ltb, leb, Bool, true, false, not, ◌&&◌, ◌||◌, Option, none, some, unwrap_or,
  List, [], ◌∷◌, ◌++◌, lookup, length, opt_eq, opt_text_eq, Text, text, text_eq, ok, ◌>>=◌, ◌>>◌,
  if◌then◌else◌,
}
use ditch.Core.{
  AgentId, TaskId, Task, TaskAttempt, AttemptResult, CheckStatus, AcceptanceCriterion,
  CriterionKind, AcceptanceConfig, WorkspaceEvidence, CommandCheck, ProjectId,
  AgentExecutionProfile,
}
use ditch.Acceptance.{validate_config}
use ditch.Runtime.State.{RuntimeState, Env, AgentRecord}
use ditch.Loop.{Outside, attempt_update, acceptance_presets}
use ditch.Loop.Turn.{
  Turn, Check, Setup, Progress, Evidence, Step, Ending, stop_if, infrastructure, infra,
  saved_or_fail, or_panic,
}
use ditch.Loop.Verdict.{judge, is_board_queue}
use ditch.Loop.Validators.{run_acceptance_validator}
use ditch.Loop.Work.{begin_turn, next_owner, queue_attempt}
use ditch.Loop.Worker.{work_or_reuse, clear_attempt_group}

-- The criteria of a turn: the configured ones, and the task's own for a human.
unfoldable pub human_criteria : Env → ℕ → List Text → List AcceptanceCriterion
human_criteria env n [] = []
human_criteria env n (label ∷ labels) =
    record { id = env.uuid n; label = label; required = true; kind = CriterionKind.human }
    ∷ human_criteria env (suc n) labels

unfoldable pub criteria_of : Setup → Env → RuntimeState → List AcceptanceCriterion
criteria_of c env s = c.config.criteria ++ human_criteria env s.drawn c.initial.acceptance_criteria

abbrev pub is_infra : CheckStatus → Bool
is_infra CheckStatus.infrastructure_error = true
is_infra _ = false

abbrev pub is_cancelled : CheckStatus → Bool
is_cancelled CheckStatus.cancelled = true
is_cancelled _ = false

-- One validator: its evidence is pushed and saved before its status is read.
unfoldable pub validate_one :
    Setup
    → Check
    → WorkspaceEvidence
    → AcceptanceCriterion
    → TaskAttempt
    → RuntimeState
    → Step (RuntimeState × TaskAttempt)
validate_one c k after criterion a s = do
  stop_if k.cancelled (text "cancelled") (text "Validation cancelled") s
  let found = run_acceptance_validator k c.presets after criterion s
  let a' = record a { validators = a.validators ++ found.0 ∷ [] }
  saved ← saved_or_fail (attempt_update k.outside c.id a' found.1)
  stop_if (is_infra found.0.status) infrastructure
      (text "A validator could not run; inspect its retained evidence.") saved.0
  stop_if (is_cancelled found.0.status) (text "cancelled")
      (text "Validator cancelled or deadline reached") saved.0
  ok (saved.0, a')

unfoldable pub validate_all :
    Setup
    → (ℕ → Check)
    → WorkspaceEvidence
    → ℕ
    → List AcceptanceCriterion
    → TaskAttempt
    → RuntimeState
    → Step (RuntimeState × TaskAttempt)
validate_all c checks after n [] a s = ok (s, a)
validate_all c checks after n (criterion ∷ more) a s = do
  next ← validate_one c (checks n) after criterion a s
  validate_all c checks after (suc n) more next.1 next.0

-- The workspace behind the worker, which must not have moved HEAD.
unfoldable pub observe :
    Setup
    → Turn
    → WorkspaceEvidence
    → WorkspaceEvidence
    → TaskAttempt
    → RuntimeState
    → Step RuntimeState
observe c t base after a s = do
  saved ← saved_or_fail (attempt_update t.finish c.id a s)
  stop_if (not (opt_text_eq base.head after.head)) (text "workspace_changed")
      (text
        "HEAD changed during the attempt; review external or agent Git activity before retrying.")
      saved.0
  ok saved.0

-- The workspace behind the validators, which must be the one that they saw.
unfoldable pub confirm_workspace :
    Turn → AgentId → WorkspaceEvidence → RuntimeState → Step (RuntimeState × WorkspaceEvidence)
confirm_workspace t owner after s = do
  cleared ← saved_or_fail (clear_attempt_group t.finish.env t.group_gone owner s)
  current ← infra cleared.0 t.current
  stop_if (not (text_eq current.fingerprint after.fingerprint)) (text "workspace_changed")
      (text
        "Workspace changed during validation; evidence is stale. Resolve it before revalidation.")
      cleared.0
  stop_if t.late_end (text "budget_exhausted")
      (text "Wall-clock deadline reached during validation") cleared.0
  ok (cleared.0, current)

abbrev pub validating : WorkspaceEvidence → TaskAttempt → TaskAttempt
validating after a = record a { result = AttemptResult.validating; workspace = some after }

abbrev pub with_labels : Setup → RuntimeState → RuntimeState
with_labels c s = record s { drawn = s.drawn + length c.initial.acceptance_criteria }

-- The evidence of a turn.
unfoldable pub gather :
    Setup
    → Turn
    → AgentId
    → WorkspaceEvidence
    → TaskAttempt
    → RuntimeState
    → Step (RuntimeState × Evidence)
gather c t owner base a s = do
  after ← infra s t.after
  s1 ← observe c t base after (validating after a) s
  checked ←
      validate_all c t.check after 0 (criteria_of c t.finish.env s1) (validating after a)
        (with_labels c s1)
  settled ← confirm_workspace t owner after checked.0
  ok (settled.0, record { attempt = checked.1; base = base; after = after; current = settled.1 })

-- One turn.
unfoldable pub turn : Setup → Turn → ℕ → Progress → RuntimeState → Step Ending
turn c t ordinal p s = do
  base ← begin_turn c t p s
  owned ← next_owner c t (ltb 1 ordinal && not (is_board_queue c)) p.owner s
  queued ← queue_attempt c t p ordinal owned.1 base owned.0
  worked ← work_or_reuse c t c.validation_only owned.1 queued.1 queued.0
  evidence ← gather c t owned.1 base worked.1 worked.0
  judge c t ordinal p owned.1 evidence.1 evidence.0

-- `for ordinal in 1..=max`; `n` turns are left. A cycle whose last turn goes on ends with `Ok`.
abbrev pub go_on : (Progress → RuntimeState → Step RuntimeState) → Ending → Step RuntimeState
go_on next (Ending.submitted s) = ok s
go_on next (Ending.again p s) = next p s

unfoldable pub turns :
    Setup → (ℕ → Turn) → (n ordinal : ℕ) → Progress → RuntimeState → Step RuntimeState
turns c world zero ordinal p s = ok s
turns c world (suc n) ordinal p s = do
  ending ← turn c (world ordinal) ordinal p s
  go_on (turns c world n (suc ordinal)) ending

-- The number of turns, and the conversation that the first one goes on with.
abbrev pub max_turns : AcceptanceConfig → Bool → ℕ
max_turns config validation_only =
    if config.policy.enabled && not validation_only then config.policy.max_attempts else 1

abbrev pub session_of : Option AgentRecord → Option Text
session_of none = none
session_of (some r) = r.run.native_session_id

unfoldable pub first_resume : Task → AgentId → Bool → RuntimeState → Option Text
first_resume t owner validation_only s =
    if not validation_only && opt_eq t.continue_agent_id (some owner)
    then session_of (lookup owner s.agents)
    else none

unfoldable pub first_progress : Task → AgentId → Bool → RuntimeState → Progress
first_progress t owner validation_only s = record {
  owner = owner;
  previous_failure = none;
  resume = first_resume t owner validation_only s;
  feedback = unwrap_or t.last_reason [];
  expected_workspace = none;
}

-- The texts that serde makes of a setup, and the world of each turn.
pub record LoopWorld : Type 0 where
  pub outside : Outside
  pub criteria_json : Text
  pub source_json : Text
  pub turn : ℕ → Turn

unfoldable pub setup_of :
    LoopWorld
    → TaskId
    → Task
    → AgentExecutionProfile
    → Bool
    → List (Text × CommandCheck)
    → RuntimeState
    → Setup
setup_of w id t profile validation_only presets s = record {
  id = id;
  initial = t;
  config = t.acceptance.config;
  profile = profile;
  validation_only = validation_only;
  cycle_id = w.outside.env.uuid s.drawn;
  max = max_turns t.acceptance.config validation_only;
  presets = presets;
  criteria_json = w.criteria_json;
  source_json = w.source_json;
}

-- `acceptance_cycle`.
unfoldable pub acceptance_cycle :
    LoopWorld
    → ProjectId
    → TaskId
    → AgentId
    → AgentExecutionProfile
    → Bool
    → RuntimeState
    → Step RuntimeState
acceptance_cycle w project id owner profile validation_only s = do
  t ← or_panic s (lookup id s.tasks)
  infra s (validate_config t.acceptance.config)
  stop_if (leb 50 (length t.acceptance.attempts) || leb 50 (length t.acceptance.submissions))
      (text "history_limit")
      (text "Task history reached 50 attempts/submissions; create a follow-up task.") s
  let s1 = record s { drawn = suc s.drawn }
  presets ← infra s1 (acceptance_presets w.outside project s1)
  let c = setup_of w id t profile validation_only presets s
  turns c w.turn c.max 1 (first_progress t owner validation_only s) s1
