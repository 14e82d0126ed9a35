-- ===== src/Acceptance.antt =====
-- The validation of acceptance contracts (crates/ditch_core/src/acceptance.rs): paths, commands and
-- whole configurations. An error is its message.
pub mod Paths
pub mod Laws
use ditch.Prelude.{
  ℕ, ◌+◌, ◌==◌, ltb, leb, Bool, true, false, not, ◌&&◌, ◌||◌, List, [], ◌∷◌, length, is_empty, any,
  Text, text, byte_len, is_blank, text_eq, Result, ok, err, ◌>>=◌, ◌>>◌, reject_if, if◌then◌else◌,
}
use ditch.Core.{
  CommandCheck, CriterionKind, FilePredicate, GitPredicate, AcceptanceCriterion, AcceptanceConfig,
  LoopPolicy,
}
use Paths.{relative_check_path}

-- `(low..=high).contains(&n)`.
abbrev pub between : ℕ → ℕ → ℕ → Bool
between low high n = leb low n && leb n high

pub total_len : List Text → ℕ
total_len [] = 0
total_len (v ∷ vs) = byte_len v + total_len vs

unfoldable pub bad_argument : Text → Bool
bad_argument v = any (λ c. c == 0) v || ltb 4096 (byte_len v)

-- `argv[0].is_empty()`, which the source evaluates after `argv.is_empty()`.
abbrev pub first_empty : List Text → Bool
first_empty [] = false
first_empty (v ∷ vs) = is_empty v

-- `CommandCheck::validate`.
unfoldable pub validate_command : CommandCheck → Result Text (Unit {0})
validate_command c = do
  reject_if
      (ltb 16384 (total_len c.argv)
        || is_empty c.argv
        || ltb 64 (length c.argv)
        || any bad_argument c.argv
        || first_empty c.argv
        || not (between 1 300 c.timeout_seconds))
      (text "Validator requires fixed argv and a 1–300 second timeout")
  relative_check_path c.cwd

-- The content bound of a file predicate.
abbrev pub content_too_long : FilePredicate → Bool
content_too_long (FilePredicate.contains v) = ltb 4096 (byte_len v)
content_too_long (FilePredicate.not_contains v) = ltb 4096 (byte_len v)
content_too_long FilePredicate.exists = false
content_too_long FilePredicate.absent = false

-- The `match &c.kind` of `AcceptanceConfig::validate`.
unfoldable pub validate_kind : CriterionKind → Result Text (Unit {0})
validate_kind (CriterionKind.command c) = validate_command c
validate_kind (CriterionKind.file path predicate) = do
  relative_check_path path
  reject_if (content_too_long predicate) (text "Content predicate exceeds 4 KiB")
validate_kind (CriterionKind.git (GitPredicate.changed_path p)) = relative_check_path p
validate_kind (CriterionKind.git (GitPredicate.forbidden_path p)) = relative_check_path p
validate_kind (CriterionKind.git GitPredicate.clean) = ok tt
validate_kind (CriterionKind.git GitPredicate.dirty) = ok tt
validate_kind (CriterionKind.git (GitPredicate.max_diff_bytes n)) = ok tt
validate_kind (CriterionKind.test_preset name) =
    reject_if (is_empty name || ltb 128 (byte_len name)) (text "Invalid preset name")
validate_kind CriterionKind.human = ok tt
validate_kind CriterionKind.agent_assertion = ok tt

-- The loop over the criteria; `ids` are the identities seen so far.
unfoldable pub validate_criteria : List ℕ → List AcceptanceCriterion → Result Text (Unit {0})
validate_criteria ids [] = ok tt
validate_criteria ids (c ∷ cs) = do
  reject_if (any (λ id. id == c.id) ids || is_blank c.label || ltb 512 (byte_len c.label))
      (text "Criteria need unique IDs and bounded labels")
  validate_kind c.kind
  validate_criteria (c.id ∷ ids) cs

unfoldable pub invalid_policy : LoopPolicy → Bool
invalid_policy p =
    not (between 1 10 p.max_attempts)
    || not (between 1 86400 p.deadline_seconds)
    || not (between 1 300 p.validator_timeout_seconds)
    || not p.stop_on_denial

-- `AcceptanceConfig::validate`.
unfoldable pub validate_config : AcceptanceConfig → Result Text (Unit {0})
validate_config config = do
  reject_if (invalid_policy config.policy || ltb 16 (length config.criteria)) (
      text
        "Use 1–10 attempts, a deadline of 1–86400 seconds, validator timeouts of 1–300 seconds and at most 16 criteria. Permission denial always stops the loop.")
  validate_criteria [] config.criteria
