-- ===== src/Loop/Thread.antt =====
-- `begin_acceptance` (crates/ditchd/src/acceptance_runtime.rs): the loop is registered, and its
-- thread runs the cycle and then gives the workspace back.
use ditch.Prelude.{
  Option, none, some, insert, lookup, remove, has_key, delete, Bool, ◌∷◌, text, Result, ok, err,
  if◌then◌else◌,
}
use ditch.Core.{
  AgentId, AgentTransport, AgentExecutionProfile, Project, ProjectId, Task, TaskId, TaskError,
  TaskErrorCode,
}
use ditch.Task.Basics.{task_error}
use ditch.Runtime.State.{RuntimeState, Env, draw}
use ditch.Runtime.Admission.{WriterGuard, Granted, acquire, drop}
use ditch.Runtime.Writers.{release_writer}
use ditch.Loop.{Outside, acceptance_block}
use ditch.Loop.Turn.{Stop, Step}
use ditch.Loop.Cycle.{LoopWorld, acceptance_cycle}

-- The profile of a loop: the app server, and the task's skills.
abbrev pub loop_profile : Task → AgentExecutionProfile → AgentExecutionProfile
loop_profile t profile = record profile { transport = AgentTransport.app_server; skills = t.skills }

-- `task.assigned_agent_id.unwrap_or_default()`, which draws a new identity.
unfoldable pub loop_owner : Env → Task → RuntimeState → AgentId × RuntimeState
loop_owner env t s = elim t.assigned_agent_id [ some id ↦ (id, s) | none ↦ draw env s ]

-- The loop that a registration starts: its owner, or the error of the request.
abbrev pub LoopBegun : Type 0
LoopBegun = RuntimeState × Result TaskError AgentId

unfoldable pub register : Env → TaskId → AgentId → WriterGuard → RuntimeState → LoopBegun
register env id owner g s =
    if has_key id s.acceptance_controls
    then (drop env g s, err (task_error TaskErrorCode.agent_busy (text "Loop already active")))
    else (
      record s {
        acceptance_owners = owner ∷ delete owner s.acceptance_owners;
        acceptance_controls = insert id owner s.acceptance_controls;
      },
      ok owner,
    )

unfoldable pub begin_granted : Outside → TaskId → AgentId → Granted → LoopBegun
begin_granted o id owner (s, err e) = (
  acceptance_block o id (text "workspace_busy") e s,
  err (task_error TaskErrorCode.workspace_busy e),
)
begin_granted o id owner (s, ok g) = register o.env id owner g s

-- `begin_acceptance`, up to the thread.
unfoldable pub begin_acceptance :
    Outside → Task → Project → AgentExecutionProfile → RuntimeState → LoopBegun
begin_acceptance o t project profile s =
    let (owner, s1) = loop_owner o.env t s in
    begin_granted o t.id owner (acquire o.env owner project (loop_profile t profile) s1 s1)

-- The end of the thread: the control and its owner go, and the lease is given back.
unfoldable pub unregister : Env → TaskId → RuntimeState → Option AgentId → RuntimeState
unregister env id s none = s
unregister env id s (some owner) = release_writer env owner (record s {
  acceptance_controls = remove id s.acceptance_controls;
  acceptance_owners = delete owner s.acceptance_owners;
})

unfoldable pub end_thread : Env → TaskId → RuntimeState → RuntimeState
end_thread env id s = unregister env id s (lookup id s.acceptance_controls)

-- The thread. A panic leaves the state as it is at that moment.
unfoldable pub conclude : Outside → TaskId → Step RuntimeState → RuntimeState
conclude o id (ok s) = end_thread o.env id s
conclude o id (err (Stop.failed code message s)) =
    end_thread o.env id (acceptance_block o id code message s)
conclude o id (err (Stop.panicked s)) = s

unfoldable pub run_loop :
    LoopWorld
    → Outside
    → ProjectId
    → TaskId
    → AgentId
    → AgentExecutionProfile
    → Bool
    → RuntimeState
    → RuntimeState
run_loop w o project id owner profile validation_only s =
    conclude o id (acceptance_cycle w project id owner profile validation_only s)
