-- ===== src/Protocol/Skills.antt =====
-- The requests on skills (crates/ditch_core/src/skills.rs).
use ditch.Prelude.{ℕ, Bool, Option, List, Text}
use ditch.Core.{Uuid, ProjectId, TaskId, SkillBinding}

pub record SkillSource : Type 0 where
  pub id : Uuid
  pub name : Text
  pub location : Text
  pub reference : Text
  pub seeded : Bool

pub record SkillFile : Type 0 where
  pub path : Text
  pub content_base64 : Text
  pub executable : Bool

pub data SkillOperation : Type 0 where
  capabilities : SkillOperation
  list : (offset : ℕ) (limit : ℕ) (source : Option Text) (refresh : Bool) → SkillOperation
  preview : (identity : Text) → SkillOperation
  set_enabled : (identity : Text) (enabled : Bool) → SkillOperation
  sources : (offset : ℕ) (limit : ℕ) → SkillOperation
  add_source : (name : Text) (location : Text) (reference : Text) → SkillOperation
  remove_source : (source_id : Uuid) → SkillOperation
  browse_source :
      (source_id : Uuid) (allow_network : Bool) (offset : ℕ) (limit : ℕ) → SkillOperation
  prepare_install :
      (source_id : Uuid) (relative_path : Text) (allow_network : Bool) → SkillOperation
  confirm_install : (plan_id : Uuid) → SkillOperation
  discard_plan : (plan_id : Uuid) → SkillOperation
  rollback : (identity : Text) (content_hash : Text) → SkillOperation
  versions : (identity : Text) → SkillOperation
  remove : (identity : Text) → SkillOperation
  bind : (task_id : TaskId) (expected_revision : ℕ) (skills : List SkillBinding) → SkillOperation
  sync : (identity : Text) (content_hash : Text) (target_project_id : ProjectId) → SkillOperation
  import_ :
      (resolved_revision : Option Text) (license : Option Text) (source : SkillSource)
      (relative_path : Text) (content_hash : Text) (files : List SkillFile)
      → SkillOperation

pub record SkillRequest : Type 0 where
  pub project_id : Option ProjectId
  pub operation : SkillOperation
