-- ===== src/Protocol/Maintenance.antt =====
-- The admission of work on a remote runtime against its upgrades: `RemoteMutationGuard`,
-- `remote_maintenance_request` and their helpers (crates/ditchd/src/remote_maintenance.rs).
pub mod Leases
pub mod Exclusive
use ditch.Prelude.{
  ℕ, suc, ◌+◌, ◌-◌, ◌==◌, ltb, Bool, true, false, not, ◌&&◌, ◌||◌, Option, none, some, is_some_and,
  List, [], ◌∷◌, length, is_empty, keep, lookup, remove, opt_eq, Text, text, text_eq, Result, ok,
  err, if◌then◌else◌,
}
use ditch.Core.{Uuid, ProjectId, AgentId, AgentState}
use ditch.Runtime.State.{RuntimeState, Env, AgentRecord, ServerEvent, send, runs_of}
use ditch.Runtime.Writers.{reap_orphan_writers}
use ditch.Protocol.Requests.{ClientRequest}

-- The fields of `RuntimeState` that maintenance reads beside those of the task handlers. A deadline
-- is an instant; a terminal stands for its project.
pub record Daemon : Type 0 where
  pub runtime : RuntimeState
  pub instance_id : Uuid
  pub remote_maintenance : Option (Uuid × ℕ)
  pub remote_mutations : ℕ
  pub terminals : List (Uuid × ProjectId)
  pub terminal_by_project : List (ProjectId × Uuid)
  pub setup_terminals : List Uuid
  pub app_server_turns : List AgentId
  pub remote_launching : List AgentId

-- The outside at a call: the monotonic clock, the lock of an upgrade, the terminals whose child has
-- exited, and what closing the terminals' processes says.
pub record World : Type 0 where
  pub env : Env
  pub instant : ℕ
  pub upgrade_lock_held : Bool
  pub exited : Uuid → Bool
  pub close_sessions : Result Text Unit

abbrev pub lease_active : World → Option (Uuid × ℕ) → Bool
lease_active w none = false
lease_active w (some (token, until)) = ltb w.instant until || w.upgrade_lock_held

-- `remote_maintenance_active`.
unfoldable pub remote_maintenance_active : World → Daemon → Bool
remote_maintenance_active w d = lease_active w d.remote_maintenance

abbrev pub tell : ServerEvent → Daemon → Daemon
tell event d = record d { runtime = send event d.runtime }

-- A terminal that is gone.
unfoldable pub forget_terminal : Uuid → ProjectId → Daemon → Daemon
forget_terminal id project d = tell (ServerEvent.project_terminal_exited id) (record d {
  terminals = remove id d.terminals;
  terminal_by_project =
      if opt_eq (lookup project d.terminal_by_project) (some id)
      then remove project d.terminal_by_project
      else d.terminal_by_project;
})

unfoldable pub forget_exited : World → List (Uuid × ProjectId) → Daemon → Daemon
forget_exited w [] d = d
forget_exited w ((id, project) ∷ more) d =
    forget_exited w more (if w.exited id then forget_terminal id project d else d)

-- `reap_project_terminals`.
unfoldable pub reap_project_terminals : World → Daemon → Daemon
reap_project_terminals w d =
    let reaped = forget_exited w d.terminals d in
    record reaped { setup_terminals = keep (λ id. not (w.exited id)) reaped.setup_terminals }

-- The states that `runtime_status` counts as active.
abbrev pub in_session : AgentState → Bool
in_session AgentState.starting = true
in_session AgentState.working = true
in_session AgentState.stopping = true
in_session AgentState.awaiting_approval = true
in_session AgentState.blocked = true
in_session _ = false

abbrev pub larger_of : ℕ → ℕ → ℕ
larger_of a b = if ltb a b then b else a

unfoldable pub active_session_count : RuntimeState → ℕ
active_session_count s =
    larger_of (length (keep (λ (a : AgentRecord). in_session a.run.state) (runs_of s)))
      (length s.writer_leases)

unfoldable pub reaped_for_upgrade : World → Daemon → Daemon
reaped_for_upgrade w d =
    let swept = reap_project_terminals w d in
    record swept { runtime = reap_orphan_writers w.env swept.runtime }

unfoldable pub has_work : Daemon → Bool
has_work d =
    not (active_session_count d.runtime == 0)
    || not (d.remote_mutations == 0)
    || not (is_empty d.runtime.children)
    || not (is_empty d.app_server_turns)
    || not (is_empty d.runtime.acceptance_controls)
    || not (is_empty d.runtime.writer_leases)
    || not (is_empty d.runtime.orphan_writer_groups)
    || not (is_empty d.remote_launching)
    || not (is_empty d.setup_terminals)

-- The end of `close_project_terminals_for_upgrade`, once the processes are closed.
unfoldable pub drain_terminals : List (Uuid × ProjectId) → Daemon → Daemon
drain_terminals [] d = d
drain_terminals ((id, project) ∷ more) d = drain_terminals more (
    tell (ServerEvent.project_terminal_exited id)
      (record d { terminal_by_project = remove project d.terminal_by_project }))

pub data Reply : Type 0 where
  accepted : Reply
  refused : (code message : Text) → Reply

abbrev pub refuse : Daemon → Text → Text → Daemon × Reply
refuse d code message = (d, Reply.refused code message)

unfoldable pub close_project_terminals : Uuid → ℕ → Daemon → Result Text Unit → Daemon × Reply
close_project_terminals token until d (err e) =
    refuse (record d { remote_maintenance = none }) (text "terminal_close_failed") e
close_project_terminals token until d (ok done) = (
  drain_terminals d.terminals
      (record d { remote_maintenance = some (token, until); terminals = [] }),
  Reply.accepted,
)

abbrev pub token_of : Option (Uuid × ℕ) → Option Uuid
token_of none = none
token_of (some (token, until)) = some token

-- The action `begin`.
unfoldable pub begin_upgrade : World → Uuid → Daemon → Daemon × Reply
begin_upgrade w token d =
    let idle = reaped_for_upgrade w d in
    if remote_maintenance_active w d && not (opt_eq (token_of d.remote_maintenance) (some token))
    then refuse d (text "upgrade_in_progress") (text "Another repair owns this runtime.")
    else if has_work idle
    then refuse idle (text "runtime_busy")
        (text "Waiting for remote agents, terminal sessions, or pending operations to finish.")
    else close_project_terminals token (w.instant + 180) idle w.close_sessions

-- The action `exit`; the process ends a moment later.
unfoldable pub exit_upgrade : World → Uuid → Daemon → Daemon × Reply
exit_upgrade w token d =
    let idle = reaped_for_upgrade w d in
    if has_work idle
    then refuse idle (text "runtime_busy") (text "Runtime is no longer idle; nothing was stopped.")
    else (record idle { remote_maintenance = some (token, w.instant + 3600) }, Reply.accepted)

unfoldable pub end_upgrade : World → Uuid → Text → Daemon → Daemon × Reply
end_upgrade w token action d =
    let exits = exit_upgrade w token d in
    if text_eq action (text "cancel")
    then (record d { remote_maintenance = none }, Reply.accepted)
    else if text_eq action (text "exit")
    then exits
    else refuse d (text "invalid_maintenance_action") (text "Unknown maintenance action.")

-- `remote_maintenance_request`.
unfoldable pub remote_maintenance_request : World → Uuid → Uuid → Text → Daemon → Daemon × Reply
remote_maintenance_request w instance_id token action d =
    let begins = begin_upgrade w token d in
    let ends = end_upgrade w token action d in
    if not d.runtime.remote_runtime || not (instance_id == d.instance_id)
    then refuse d (text "runtime_identity_changed")
        (text "The remote daemon changed; retry repair.")
    else if text_eq action (text "begin")
    then begins
    else if not (remote_maintenance_active w d)
        || not (opt_eq (token_of d.remote_maintenance) (some token))
    then refuse d (text "maintenance_expired") (text "Maintenance ownership expired; retry repair.")
    else ends

-- `RemoteMutationGuard`: whether it counts.
pub record MutationGuard : Type 0 where
  pub counted : Bool

abbrev pub reads_only : ClientRequest → Bool
reads_only (ClientRequest.remote_runtime_maintenance instance_id token action) = true
reads_only ClientRequest.health = true
reads_only ClientRequest.runtime_status = true
reads_only ClientRequest.host_identity_status = true
reads_only ClientRequest.snapshot = true
reads_only ClientRequest.list_projects = true
reads_only (ClientRequest.list_agent_messages agent_id before_sequence limit) = true
reads_only (ClientRequest.subscribe_events since_sequence) = true
reads_only (ClientRequest.subscribe_events_since epoch sequence) = true
reads_only ClientRequest.subscribe_attention = true
reads_only _ = false

abbrev pub Admission : Type 0
Admission = Daemon × Result Text MutationGuard

-- `background_work`.
unfoldable pub background_work : World → Daemon → Admission
background_work w d =
    if not d.runtime.remote_runtime
    then (d, ok (record { counted = false }))
    else if remote_maintenance_active w d
    then (
      d,
      err (text "Remote runtime is being upgraded. No new work can start until repair finishes."),
    )
    else (record d { remote_mutations = suc d.remote_mutations }, ok (record { counted = true }))

-- `RemoteMutationGuard::acquire`.
unfoldable pub acquire_mutation : World → ClientRequest → Daemon → Admission
acquire_mutation w request d =
    if reads_only request then (d, ok (record { counted = false })) else background_work w d

-- `Drop`.
unfoldable pub drop_mutation : MutationGuard → Daemon → Daemon
drop_mutation g d = if g.counted then record d { remote_mutations = d.remote_mutations - 1 } else d
