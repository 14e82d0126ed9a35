-- ===== src/Examples/Limits.antt =====
-- Drafts, configurations and paths at their limits.
use ditch.Prelude.{
  ◌≡◌, ◌↔◌, ◌≤◌, refl, true, none, [], ◌∷◌, In, length, text, ok, is_blank, is_whitespace, byte_len,
  len_utf8,
}
use ditch.Core.{
  Task, AcceptanceConfig, AcceptanceCriterion, CriterionKind, FilePredicate, TaskState,
}
use ditch.Task.Draft.{validate, new_task, new_backlog_task}
use ditch.Acceptance.{validate_config}
use ditch.Acceptance.Laws.{IsLimited, IsBounded, Distinct, validate_config-IsLimited}
use ditch.Acceptance.Paths.{relative_check_path}
use ditch.Acceptance.Paths.Safe.{IsInside, relative_check_path-IsInside}
use ditch.Core.{default_acceptance}
use ditch.Examples.Data.{todo_card, sample_draft, sample_policy}

relative_check_path-IsInside_example :
    (relative_check_path (text "docs/../../secret") ≡ ok tt) ↔ IsInside (text "docs/../../secret")
relative_check_path-IsInside_example = relative_check_path-IsInside (text "docs/../../secret")

abbrev sample_config : AcceptanceConfig
sample_config = record {
  policy = sample_policy;
  criteria =
      record {
        id = 1;
        label = text "The licence is there";
        required = true;
        kind = CriterionKind.file (text "LICENSE") FilePredicate.exists;
      }
      ∷ [];
}

validate_config-IsLimited_example : (validate_config sample_config ≡ ok tt) ↔ (
    IsLimited sample_config.policy
    × (length sample_config.criteria ≤ 16)
    × ((c : AcceptanceCriterion) → In c sample_config.criteria → IsBounded c)
    × Distinct sample_config.criteria)
validate_config-IsLimited_example = validate_config-IsLimited sample_config

abbrev fresh_card : Task
fresh_card = record todo_card {
  planning = record { text = []; job = none };
  acceptance = default_acceptance;
}

abbrev backlog_card : Task
backlog_card = record fresh_card { state = TaskState.backlog; remote_pending = true }

new_ok : new_task 10 7 1 sample_draft 0 ≡ ok fresh_card
unfolding new_task validate is_blank text is_whitespace byte_len len_utf8
new_ok = refl

backlog_ok : new_backlog_task 10 7 1 sample_draft 0 true ≡ ok backlog_card
unfolding new_backlog_task new_task validate is_blank text is_whitespace byte_len len_utf8
backlog_ok = refl
