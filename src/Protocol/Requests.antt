-- ===== src/Protocol/Requests.antt =====
-- What a client asks of the daemon (crates/ditch_protocol/src/lib.rs).
use ditch.Prelude.{ℕ, Bool, Option, List, Text}
use ditch.Core.{
  Uuid, AgentExecutionProfile, AgentId, AgentProvider, CodexLaunchMode, ProjectGitPolicy, ProjectId,
  TaskRequest,
}
use ditch.Protocol.Skills.{SkillRequest}
use ditch.Protocol.GitHub.{GitHubRequest}

-- A host for the SSH configuration (crates/ditch_ssh/src/lib.rs).
pub record NewSshHost : Type 0 where
  pub alias : Text
  pub hostname : Text
  pub user : Text
  pub port : ℕ
  pub identity_file : Option Text

pub data ClientRequest : Type 0 where
  skill_request : SkillRequest → ClientRequest
  task_request : TaskRequest → ClientRequest
  github : GitHubRequest → ClientRequest
  health : ClientRequest
  runtime_status : ClientRequest
  snapshot : ClientRequest
  shutdown : ClientRequest
  remote_runtime_maintenance : (instance_id : Uuid) (token : Uuid) (action : Text) → ClientRequest
  subscribe_events : (since_sequence : ℕ) → ClientRequest
  subscribe_events_since : (epoch : Uuid) (sequence : ℕ) → ClientRequest
  reconnect_remote_host : (alias : Text) → ClientRequest
  get_operation_outcome : (request_id : Uuid) → ClientRequest
  rejoin_agent : (agent_id : AgentId) (after_sequence : ℕ) → ClientRequest
  subscribe_attention : ClientRequest
  list_agent_messages :
      (agent_id : AgentId) (before_sequence : Option ℕ) (limit : ℕ) → ClientRequest
  list_projects : ClientRequest
  discover_projects : (search_root : Text) → ClientRequest
  start_project_clone :
      (operation_id : Uuid) (url : Text) (parent : Text) (folder : Text) (name : Text)
      → ClientRequest
  project_clone_status : (operation_id : Uuid) → ClientRequest
  cancel_project_clone : (operation_id : Uuid) → ClientRequest
  retry_project_clone_registration : (operation_id : Uuid) → ClientRequest
  rename_project : (project_id : ProjectId) (name : Text) → ClientRequest
  create_project : (name : Text) (root : Text) (git_policy : ProjectGitPolicy) → ClientRequest
  discover_ssh_hosts : ClientRequest
  resolve_ssh_host : (alias : Text) → ClientRequest
  preview_ssh_host : (host : NewSshHost) → ClientRequest
  add_ssh_host : (host : NewSshHost) → ClientRequest
  check_remote_setup :
      (alias : Text) (password : Option Text) (remember_password : Bool) (trust_unknown_host : Bool)
      → ClientRequest
  install_remote_runtime : (alias : Text) → ClientRequest
  remote_runtime_update_status : (alias : Text) → ClientRequest
  install_remote_codex : (alias : Text) → ClientRequest
  install_remote_git : (alias : Text) → ClientRequest
  open_remote_codex_sandbox_setup : (alias : Text) (columns : ℕ) (rows : ℕ) → ClientRequest
  open_remote_codex_authentication : (alias : Text) (columns : ℕ) (rows : ℕ) → ClientRequest
  open_codex_authentication : (columns : ℕ) (rows : ℕ) → ClientRequest
  open_codex_sandbox_setup : (columns : ℕ) (rows : ℕ) → ClientRequest
  write_setup_terminal : (terminal_id : Uuid) (data_ : List ℕ) → ClientRequest
  resize_setup_terminal : (terminal_id : Uuid) (columns : ℕ) (rows : ℕ) → ClientRequest
  take_setup_terminal_output : (terminal_id : Uuid) → ClientRequest
  close_setup_terminal : (terminal_id : Uuid) → ClientRequest
  list_remote_directory : (alias : Text) (absolute_path : Text) → ClientRequest
  list_filesystem_directory : (absolute_path : Text) → ClientRequest
  create_remote_project :
      (ssh_host_alias : Text) (name : Text) (remote_root : Text) (git_policy : ProjectGitPolicy)
      → ClientRequest
  check_remote_project : (project_id : ProjectId) → ClientRequest
  delete_project : (project_id : ProjectId) → ClientRequest
  start_codex_session :
      (project_id : Option ProjectId) (project_name : Text) (project_root : Text) (prompt : Text)
      (mode : CodexLaunchMode) (execution_profile : AgentExecutionProfile)
      → ClientRequest
  resume_codex_session :
      (project_id : Option ProjectId) (project_name : Text) (project_root : Text) (thread_id : Text)
      (prompt : Text) (execution_profile : AgentExecutionProfile)
      → ClientRequest
  start_remote_codex_app_server_session :
      (project_id : ProjectId) (project_name : Text) (project_root : Text) (prompt : Text)
      (execution_profile : AgentExecutionProfile)
      → ClientRequest
  resume_remote_codex_app_server_session :
      (project_id : ProjectId) (project_name : Text) (project_root : Text) (thread_id : Text)
      (prompt : Text) (execution_profile : AgentExecutionProfile)
      → ClientRequest
  prompt_remote_codex_app_server_agent :
      (agent_id : AgentId) (prompt : Text) (execution_profile : AgentExecutionProfile)
      → ClientRequest
  start_codex : (project_id : ProjectId) (prompt : Text) (mode : CodexLaunchMode) → ClientRequest
  prompt_agent :
      (agent_id : AgentId) (prompt : Text) (execution_profile : AgentExecutionProfile)
      → ClientRequest
  list_agent_models : (provider : AgentProvider) (project_id : Option ProjectId) → ClientRequest
  discover_codex_installations : ClientRequest
  check_codex_readiness : ClientRequest
  update_selected_codex : ClientRequest
  select_codex_binary : (path : Text) → ClientRequest
  open_project_terminal : (project_id : ProjectId) (columns : ℕ) (rows : ℕ) → ClientRequest
  write_project_terminal : (terminal_id : Uuid) (data_ : List ℕ) → ClientRequest
  resize_project_terminal : (terminal_id : Uuid) (columns : ℕ) (rows : ℕ) → ClientRequest
  close_project_terminal : (terminal_id : Uuid) → ClientRequest
  list_project_directory : (project_id : ProjectId) (relative_path : Text) → ClientRequest
  read_project_context :
      (project_id : ProjectId) (relative_path : Text) (max_bytes : ℕ) → ClientRequest
  read_project_file : (project_id : ProjectId) (relative_path : Text) → ClientRequest
  write_project_file :
      (project_id : ProjectId) (relative_path : Text) (expected_revision : Option Text)
      (content : Text)
      → ClientRequest
  stop_agent : (agent_id : AgentId) → ClientRequest
  force_kill_agent : (agent_id : AgentId) → ClientRequest
  delete_agent : (agent_id : AgentId) → ClientRequest
  rename_agent : (agent_id : AgentId) (title : Option Text) → ClientRequest
  dismiss_attention : (attention_id : Uuid) → ClientRequest
  mark_attention_read : (attention_ids : List Uuid) → ClientRequest
  mark_all_attention_read : ClientRequest
  host_identity_status : ClientRequest
  commercial_offers : ClientRequest
  create_commercial_checkout : (offer_id : Text) → ClientRequest
  commercial_entitlement : ClientRequest
  activate_commercial_device : ClientRequest
  redeem_commercial_license : (license_key : Text) → ClientRequest
  commercial_billing_management : ClientRequest
  check_commercial_release : ClientRequest
  check_community_release : ClientRequest
  current_commercial_release : ClientRequest
  current_community_release : ClientRequest
  get_permission_request : (request_id : Uuid) → ClientRequest
  answer_agent_questions : (request_id : Uuid) (answers : List (Text × List Text)) → ClientRequest
  approve_permission : (request_id : Uuid) → ClientRequest
  approve_permission_for_session : (request_id : Uuid) → ClientRequest
  deny_permission : (request_id : Uuid) (reason : Text) → ClientRequest
