-- ===== src/Queue/Select/Links.antt =====
-- The links between tasks and agents that `SelectAgent` leaves.
use ditch.Prelude.{
  ℕ, ◌≡◌, refl, sym, subst, inl, inr, ◌⊎◌, Bool, true, false, not, ◌&&◌, Option, none, some,
  is_some_and, or_else, List, [], ◌∷◌, ◌++◌, In, lookup, has_key, opt_eq, opt_eq→eq, ok, >>=-eq-ok,
  reject_if, arith, if◌then◌else◌,
}
use ditch.Core.{AgentId, AgentRun, Task, TaskAudit, TaskId}
use ditch.Task.Basics.{touch}
use ditch.Runtime.State.{RuntimeState, Env, AgentRecord}
use ditch.Queue.Board.{board_agent_idle}
use ditch.Queue.Edit.{Edit}
use ditch.Queue.Enqueue.{in_todo}
use ditch.Queue.Select.{Binding, bind, bound, bound_edit, select_agent, unlink_previous, unlinked}
use ditch.Queue.Select.Choice.{Bound, bind-Bound}

-- A previous agent that loses its link to the task.
pub record IsFreed (agent : Option AgentId) (t : Task) (s : RuntimeState) (run : AgentRun)
    : Type 0 where
  pub old : AgentId
  pub previous : or_else t.continue_agent_id t.assigned_agent_id ≡ some old
  pub replaced : opt_eq (some old) agent ≡ false
  pub record_of : AgentRecord
  pub found : lookup old s.agents ≡ some record_of
  pub linked : record_of.run.task_id ≡ some t.id
  pub freed : run ≡ record record_of.run { task_id = none }

unlink-IsFreed :
    (agent previous : Option AgentId) (t : Task) (s : RuntimeState) (run : AgentRun)
    → or_else t.continue_agent_id t.assigned_agent_id ≡ previous
    → In run (unlink_previous t s agent previous)
    → IsFreed agent t s run
unfolding unlink_previous
unlink-IsFreed agent none t s run e m = absurd m
unlink-IsFreed agent (some old) t s run e m =
    by_test (opt_eq (some old) agent) (lookup old s.agents) refl refl m
  where
    by_link :
        (a : AgentRecord) (b : Bool)
        → opt_eq (some old) agent ≡ false
        → lookup old s.agents ≡ some a
        → opt_eq a.run.task_id (some t.id) ≡ b
        → In run (if b then record a.run { task_id = none } ∷ [] else [])
        → IsFreed agent t s run
    by_link a false other f k l = absurd l
    by_link a true other f k (inr l) = absurd l
    by_link a true other f k (inl l) = record {
      old = old;
      previous = e;
      replaced = other;
      record_of = a;
      found = f;
      linked = opt_eq→eq a.run.task_id (some t.id) k;
      freed = sym l;
    }

    by_test :
        (b : Bool) (o : Option AgentRecord)
        → opt_eq (some old) agent ≡ b
        → lookup old s.agents ≡ o
        → In run (if b then [] else unlinked t o)
        → IsFreed agent t s run
    by_test true o k f l = absurd l
    by_test false none k f l = absurd l
    by_test false (some a) k f l = by_link a (opt_eq a.run.task_id (some t.id)) k f refl l

In-append : (run : AgentRun) (xs ys : List AgentRun) → In run (xs ++ ys) → In run xs ⊎ In run ys
In-append run [] ys m = inr m
In-append run (x ∷ xs) ys (inl e) = inl (inl e)
In-append run (x ∷ xs) ys (inr m) = elim (In-append run xs ys m) [
  | inl k ↦ inl (inr k)
  | inr k ↦ inr k
]

In-append_right : (run : AgentRun) (xs ys : List AgentRun) → In run ys → In run (xs ++ ys)
In-append_right run [] ys m = m
In-append_right run (x ∷ xs) ys m = inr (In-append_right run xs ys m)

-- A linked agent that the choice replaces is among the freed ones.
replaced_freed :
    (agent previous : Option AgentId) (t : Task) (s : RuntimeState) (old : AgentId)
    (a : AgentRecord)
    → previous ≡ some old
    → opt_eq (some old) agent ≡ false
    → lookup old s.agents ≡ some a
    → opt_eq a.run.task_id (some t.id) ≡ true
    → In (record a.run { task_id = none }) (unlink_previous t s agent previous)
unfolding unlink_previous
replaced_freed agent previous t s old a e other found linked =
    rw e (rw other (rw found (rw linked (inl refl))))

-- What a granted choice of an agent changes.
pub record IsSelected (env : Env) (agent : Option AgentId) (replace_id : Option TaskId)
    (replace_revision : Option ℕ) (t : Task) (s : RuntimeState) (e : Edit) : Type 0 where
  pub todo : in_todo t ≡ true
  pub binding : Binding
  pub chosen : Bound env replace_id replace_revision t s agent binding
  pub same : e.task.id ≡ t.id
  pub assigned : e.task.assigned_agent_id ≡ agent
  pub continues : e.task.continue_agent_id ≡ agent
  pub dequeued : e.task.execution_queue ≡ none
  pub entry : TaskAudit
  pub changed : e.changes ≡ binding.changes ++ (e.task, entry) ∷ []
  pub released :
      (old : AgentId) (a : AgentRecord)
      → or_else t.continue_agent_id t.assigned_agent_id ≡ some old
      → opt_eq (some old) agent ≡ false
      → lookup old s.agents ≡ some a
      → opt_eq a.run.task_id (some t.id) ≡ true
      → In (record a.run { task_id = none }) e.agents
  pub runs : (run : AgentRun) → In run e.agents → In run binding.agents ⊎ IsFreed agent t s run

-- A granted choice of an agent for a Todo task links the task to that agent alone. A chosen agent was
-- idle, of the project and resumable under the current account, and its run names the task now; the
-- other task that it leaves is an idle Todo task which the request confirmed at its revision, and
-- which then has no agent and no place in the queue. A previous agent that was linked to the task and
-- is another one is freed: its run names no task then. No other run changes.
pub select-IsSelected :
    (env : Env) (agent : Option AgentId) (replace_id : Option TaskId) (replace_revision : Option ℕ)
    (t : Task) (s : RuntimeState) (e : Edit)
    → select_agent env agent replace_id replace_revision t s ≡ ok e
    → IsSelected env agent replace_id replace_revision t s e
unfolding select_agent bound_edit bound touch
select-IsSelected env agent replace_id replace_revision t s e h =
    let previous = or_else t.continue_agent_id t.assigned_agent_id in
    let (u1, todo, h1) = >>=-eq-ok (reject_if (not (in_todo t)) _) _ h in
    let (u2, stopped, h2) =
      >>=-eq-ok
        (reject_if (is_some_and previous (λ id. has_key id s.agents && not (board_agent_idle s id)))
          _)
        _ h1 in
    let (b, binding, h3) = >>=-eq-ok (bind env replace_id replace_revision t s agent) _ h2 in
    let same : bound_edit env t s previous agent b ≡ e = cc in
    subst (λ (x : Edit). IsSelected env agent replace_id replace_revision t s x) same
      (record {
        todo = ground arith;
        binding = b;
        chosen = bind-Bound env replace_id replace_revision t s agent b binding;
        same = refl;
        assigned = refl;
        continues = refl;
        dequeued = refl;
        entry = _;
        changed = refl;
        released = λ old a p other found linked.
            In-append_right _ b.agents (unlink_previous t s agent previous)
              (replaced_freed agent previous t s old a p other found linked);
        runs = λ run m. elim (In-append run b.agents (unlink_previous t s agent previous) m) [
          | inl k ↦ inl k
          | inr k ↦ inr (unlink-IsFreed agent previous t s run refl k)
        ];
      })
