-- ===== src/Loop/Validators.antt =====
-- `run_acceptance_validator` (crates/ditchd/src/acceptance_runtime.rs): the evidence of one
-- criterion. The process of a command is the check's `run`.
use ditch.Prelude.{
  ℕ, ◌-◌, leb, Bool, true, false, not, ◌||◌, Option, none, some, is_none, List, [], ◌∷◌, ◌++◌, any,
  take, is_empty, len_utf8, Text, text, text_eq, Result, ok, err, if◌then◌else◌,
}
use ditch.Core.{
  AcceptanceCriterion, CriterionKind, GitPredicate, CheckStatus, CommandCheck, ValidatorEvidence,
  WorkspaceEvidence,
}
use ditch.Runtime.State.{RuntimeState}
use ditch.Loop.{Outside, redacted}
use ditch.Loop.Redact.{has_prefix}
use ditch.Loop.Turn.{Check, CommandRun}

-- `presets.get(name)`.
unfoldable pub find_preset : Text → List (Text × CommandCheck) → Option CommandCheck
find_preset name [] = none
find_preset name ((n, c) ∷ more) =
    let rest = find_preset name more in if text_eq n name then some c else rest

abbrev pub command_of : List (Text × CommandCheck) → CriterionKind → Option CommandCheck
command_of presets (CriterionKind.command c) = some c
command_of presets (CriterionKind.test_preset name) = find_preset name presets
command_of presets _ = none

-- `p.get(n..)`: none out of range or inside a character.
unfoldable pub from_byte : ℕ → Text → Option Text
from_byte n [] = if leb n 0 then some [] else none
from_byte n (c ∷ cs) =
    let rest = from_byte (n - len_utf8 c) cs in
    if leb n 0 then some (c ∷ cs) else if leb (len_utf8 c) n then rest else none

-- A line of `git status --porcelain` without its letters.
unfoldable pub path_of : Text → Text
path_of p = elim (from_byte 3 p) [ none ↦ p | some q ↦ q ]

abbrev pub is_under : Text → Text → Bool
is_under path p = text_eq p path || has_prefix (path ++ b'/' ∷ []) p

unfoldable pub git_holds : WorkspaceEvidence → GitPredicate → Bool
git_holds w GitPredicate.clean = is_empty w.dirty_paths
git_holds w GitPredicate.dirty = not (is_empty w.dirty_paths)
git_holds w (GitPredicate.max_diff_bytes max) = leb w.diff_bytes max
git_holds w (GitPredicate.changed_path path) = any (λ p. text_eq (path_of p) path) w.dirty_paths
git_holds w (GitPredicate.forbidden_path path) =
    not (any (λ p. is_under path (path_of p)) w.dirty_paths)

-- What a validator found: the status before the result is read, the exit code, the output and the
-- result.
pub record Inspection : Type 0 where
  pub status : CheckStatus
  pub command : Option CommandCheck
  pub exit_code : Option ℕ
  pub output : Text
  pub result : Result Text Bool

abbrev pub inspection : CheckStatus → Text → Result Text Bool → Inspection
inspection status output result = record {
  status = status;
  command = none;
  exit_code = none;
  output = output;
  result = result;
}

unfoldable pub inspect : Check → WorkspaceEvidence → CriterionKind → Inspection
inspect c w CriterionKind.human =
    inspection CheckStatus.human_review (text "Requires explicit human review") (ok true)
inspect c w CriterionKind.agent_assertion =
    inspection CheckStatus.assertion
      (text "Supporting assertion only; not an automatic acceptance check") (ok true)
inspect c w (CriterionKind.file path predicate) =
    inspection CheckStatus.infrastructure_error [] (c.file_check path predicate)
inspect c w (CriterionKind.git predicate) = inspection CheckStatus.infrastructure_error [] (
    if is_none w.head
    then err (text "Git validator requires a committed Git workspace")
    else ok (git_holds w predicate))
inspect c w _ =
    inspection CheckStatus.infrastructure_error []
      (err (text "Project-approved test preset is missing"))

abbrev pub of_run : CommandCheck → CommandRun → Inspection
of_run command r = record {
  status = if r.stopped then CheckStatus.cancelled else CheckStatus.infrastructure_error;
  command = some command;
  exit_code = r.exit_code;
  output = r.output;
  result = r.passed;
}

unfoldable pub find_out :
    Check
    → WorkspaceEvidence
    → CriterionKind
    → Option CommandCheck
    → RuntimeState
    → Inspection × RuntimeState
find_out c w kind none s = (inspect c w kind, s)
find_out c w kind (some command) s = (of_run command (c.run command s).0, (c.run command s).1)

abbrev pub is_told : CheckStatus → Bool
is_told CheckStatus.human_review = true
is_told CheckStatus.assertion = true
is_told _ = false

-- The status and the output that a result gives.
unfoldable pub verdict : CheckStatus → Result Text Bool → CheckStatus
verdict status (err e) = status
verdict status (ok passed) =
    if is_told status then status else if passed then CheckStatus.passed else CheckStatus.failed

unfoldable pub report : Outside → CriterionKind → Text → Result Text Bool → Text
report o kind output (err e) = take 4096 (redacted o e)
report o kind output (ok passed) =
    if is_empty output
    then o.show_kind kind ++ (if passed then text ": passed" else text ": failed")
    else output

unfoldable pub evidence_of : Check → AcceptanceCriterion → Inspection → ValidatorEvidence
evidence_of c criterion f = record {
  criterion = criterion;
  status = verdict f.status f.result;
  command = f.command;
  started_at = c.outside.env.now;
  duration_ms = c.duration_ms;
  exit_code = f.exit_code;
  output = report c.outside criterion.kind f.output f.result;
}

-- `run_acceptance_validator`.
unfoldable pub run_acceptance_validator :
    Check
    → List (Text × CommandCheck)
    → WorkspaceEvidence
    → AcceptanceCriterion
    → RuntimeState
    → ValidatorEvidence × RuntimeState
run_acceptance_validator c presets w criterion s =
    let (f, s') = find_out c w criterion.kind (command_of presets criterion.kind) s in
    (evidence_of c criterion f, s')
