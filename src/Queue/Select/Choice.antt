-- ===== src/Queue/Select/Choice.antt =====
-- The agent that `SelectAgent` chooses, and the task that it leaves.
use ditch.Prelude.{
  ℕ, ◌==◌, ◌≡◌, refl, sym, subst, true, false, not, ◌||◌, Option, none, some, is_none, is_some,
  List, [], ◌∷◌, lookup, opt_eq, opt_eq→eq, opt_text_eq, text, ok, >>=-eq-ok, reject_if, arith,
}
use ditch.Core.{AgentId, Task, TaskActor, TaskAudit, TaskId}
use ditch.Task.Basics.{audit, touch}
use ditch.Runtime.State.{RuntimeState, Env, AgentRecord, task_live}
use ditch.Queue.Board.{board_agent_idle}
use ditch.Queue.Enqueue.{in_todo}
use ditch.Queue.Select.{Binding, bind, bind_record, detach_other, detach_task, detached, other_than}

-- An agent that can be chosen for a task.
pub record IsChosen (s : RuntimeState) (t : Task) (id : AgentId) (a : AgentRecord) : Type 0 where
  pub found : lookup id s.agents ≡ some a
  pub idle : board_agent_idle s id ≡ true
  pub own : a.run.project_id ≡ t.project_id
  pub unmanaged : is_some a.run.coordinator_group ≡ false
  pub resumable : is_some a.run.native_session_id ≡ true
  pub unblocked : is_some a.run.resume_block_reason ≡ false
  pub account : opt_text_eq a.run.origin_codex_home s.codex_home ≡ true

-- The task that a chosen agent leaves: it loses its agent and its place in the queue.
pub record IsLeft (env : Env) (replace_id : Option TaskId) (replace_revision : Option ℕ)
    (s : RuntimeState) (id : TaskId) (changes : List (Task × TaskAudit)) : Type 0 where
  pub left : Task
  pub found : lookup id s.tasks ≡ some left
  pub todo : in_todo left ≡ true
  pub idle : task_live s left ≡ false
  pub confirmed : replace_id ≡ some left.id
  pub current : replace_revision ≡ some left.revision
  pub entry : TaskAudit
  pub next : Task
  pub only : changes ≡ (next, entry) ∷ []
  pub same : next.id ≡ left.id
  pub unassigned : next.assigned_agent_id ≡ none
  pub ended : next.continue_agent_id ≡ none
  pub dequeued : next.execution_queue ≡ none

abbrev pub Leaves :
    Env → Option TaskId → Option ℕ → RuntimeState → Option TaskId → List (Task × TaskAudit) → Type 0
Leaves env replace_id replace_revision s none changes = changes ≡ []
Leaves env replace_id replace_revision s (some id) changes =
    IsLeft env replace_id replace_revision s id changes

-- What the binding holds, by the choice.
abbrev pub Bound :
    Env → Option TaskId → Option ℕ → Task → RuntimeState → Option AgentId → Binding → Type 0
Bound env replace_id replace_revision t s none b = (b.changes ≡ []) × (b.agents ≡ [])
Bound env replace_id replace_revision t s (some id) b =
    (a : AgentRecord) × IsChosen s t id a
    × (b.agents ≡ record a.run { task_id = some t.id } ∷ [])
    × Leaves env replace_id replace_revision s (other_than t.id a.run.task_id) b.changes

detach_other-IsLeft :
    (env : Env) (replace_id : Option TaskId) (replace_revision : Option ℕ) (s : RuntimeState)
    (id : TaskId) (changes : List (Task × TaskAudit))
    → detach_other env replace_id replace_revision s (some id) ≡ ok changes
    → IsLeft env replace_id replace_revision s id changes
unfolding detach_other detach_task detached touch
detach_other-IsLeft env replace_id replace_revision s id changes h =
    by_found (lookup id s.tasks) refl h
  where
    by_found :
        (m : Option Task)
        → lookup id s.tasks ≡ m
        → detach_task env replace_id replace_revision s m ≡ ok changes
        → IsLeft env replace_id replace_revision s id changes
    by_found none e k = absurd (cc)
    by_found (some o) e k =
        let (u1, free, h1) =
          >>=-eq-ok
            (reject_if
              (not (in_todo o) || o.archived || is_some o.coordinator_group || task_live s o) _)
            _ k in
        let (u2, agreed, h2) =
          >>=-eq-ok
            (reject_if
              (not (opt_eq replace_id (some o.id))
                || not (opt_eq replace_revision (some o.revision)))
              _)
            _ h1 in
        record {
          left = o;
          found = e;
          todo = ground arith;
          idle = ground arith;
          confirmed = opt_eq→eq replace_id (some o.id) (ground arith);
          current = opt_eq→eq replace_revision (some o.revision) (ground arith);
          entry =
              audit env.now (env.uuid s.drawn) (detached env o) TaskActor.user
                (text "agent_detached") none (some (text "Reassigned to another Todo task"));
          next = detached env o;
          only = sym (cc);
          same = refl;
          unassigned = refl;
          ended = refl;
          dequeued = refl;
        }

bound-Leaves :
    (env : Env) (replace_id : Option TaskId) (replace_revision : Option ℕ) (s : RuntimeState)
    (other : Option TaskId) (changes : List (Task × TaskAudit))
    → detach_other env replace_id replace_revision s other ≡ ok changes
    → Leaves env replace_id replace_revision s other changes
unfolding detach_other
bound-Leaves env replace_id replace_revision s none changes h =
    let (u1, agreed, h1) =
      >>=-eq-ok (reject_if (is_some replace_id || is_some replace_revision) _) _ h in
    sym (cc)
bound-Leaves env replace_id replace_revision s (some id) changes h =
    detach_other-IsLeft env replace_id replace_revision s id changes h

pub bind-Bound :
    (env : Env) (replace_id : Option TaskId) (replace_revision : Option ℕ) (t : Task)
    (s : RuntimeState) (agent : Option AgentId) (b : Binding)
    → bind env replace_id replace_revision t s agent ≡ ok b
    → Bound env replace_id replace_revision t s agent b
unfolding bind bind_record
bind-Bound env replace_id replace_revision t s none b h = ground arith
bind-Bound env replace_id replace_revision t s (some id) b h = by_found (lookup id s.agents) refl h
  where
    by_found :
        (m : Option AgentRecord)
        → lookup id s.agents ≡ m
        → bind_record env replace_id replace_revision t s id m ≡ ok b
        → Bound env replace_id replace_revision t s (some id) b
    by_found none e k = absurd (cc)
    by_found (some a) e k =
        let (u1, free, h1) =
          >>=-eq-ok
            (reject_if
              (not (board_agent_idle s id)
                || not (a.run.project_id == t.project_id)
                || is_some a.run.coordinator_group)
              _)
            _ k in
        let (changes, done, h2) =
          >>=-eq-ok (detach_other env replace_id replace_revision s (other_than t.id a.run.task_id))
            _ h1 in
        let (u3, ready, h3) =
          >>=-eq-ok
            (reject_if
              (is_none a.run.native_session_id
                || is_some a.run.resume_block_reason
                || not (opt_text_eq a.run.origin_codex_home s.codex_home))
              _)
            _ h2 in
        let same : record { changes = changes; agents = record a.run { task_id = some t.id } ∷ [] }
            ≡ b =
          cc in
        subst (λ (x : Binding). Bound env replace_id replace_revision t s (some id) x) same
          (
            a,
            record {
              found = e;
              idle = ground arith;
              own = ground arith;
              unmanaged = ground arith;
              resumable = ground arith;
              unblocked = ground arith;
              account = ground arith;
            },
            refl,
            bound-Leaves env replace_id replace_revision s (other_than t.id a.run.task_id) changes
                done,
          )
