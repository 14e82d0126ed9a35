-- ===== src/Protocol/GitHub.antt =====
-- The requests to GitHub (crates/ditch_core/src/github.rs).
use ditch.Prelude.{ℕ, Option, List, Text}
use ditch.Core.{ProjectId, TaskId, TaskIssueKind}

pub data IssueFilter : Type 0 where
  open_ : IssueFilter
  closed : IssueFilter
  all : IssueFilter

pub data GitHubRequest : Type 0 where
  status : GitHubRequest
  connect : GitHubRequest
  cancel : GitHubRequest
  cancel_read : GitHubRequest
  open_browser : GitHubRequest
  disconnect : GitHubRequest
  manage_repositories : GitHubRequest
  remote_suggestions : (project_id : ProjectId) → GitHubRequest
  sync_changes : (cursor : ℕ) (after_task : Option Text) → GitHubRequest
  create_issue :
      (task_id : Option TaskId) (issue_type : Option Text) (issue_kind : TaskIssueKind)
      (project_id : ProjectId) (repository_id : ℕ) (request_id : Text) (title : Text) (body : Text)
      → GitHubRequest
  issue_types : (project_id : ProjectId) (repository_id : ℕ) → GitHubRequest
  publication : (task_id : TaskId) → GitHubRequest
  repositories : (page : ℕ) → GitHubRequest
  link : (project_id : ProjectId) (repository : Text) → GitHubRequest
  links : (project_id : Option ProjectId) → GitHubRequest
  issues :
      (project_id : ProjectId) (repository_id : ℕ) (state : IssueFilter) (page : ℕ) → GitHubRequest
  import_ :
      (project_id : ProjectId) (repository_id : ℕ) (numbers : List ℕ) (request_id : Option Text)
      → GitHubRequest
  comments : (project_id : ProjectId) (repository_id : ℕ) (number : ℕ) (page : ℕ) → GitHubRequest
  refresh : (task_id : TaskId) → GitHubRequest
