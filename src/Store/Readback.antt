-- ===== src/Store/Readback.antt =====
-- What the tables answer after a transaction of crates/ditch_store/src/tasks.rs.
use ditch.Prelude.{
  ◌==◌, ◌≡◌, refl, ap, ◌∙◌, false, Option, none, some, or_else, List, [], ◌∷◌, ◌++◌, find, map, ok,
  arith, if◌then◌else◌,
}
use ditch.Core.{TaskId, AgentId, Task, TaskAudit, AgentRun}
use ditch.Store.{Store, Disk, Receipt, save_task_agent_changes, put_task, replace_agent}
use ditch.Store.Effects.{
  save-commits, put_tasks, replace_agents, entries, receipt_used, with_receipt,
}

-- The last task of an identity among the changes.
abbrev pub last_task : TaskId → List (Task × TaskAudit) → Option Task
last_task n [] = none
last_task n ((t, a) ∷ changes) = or_else (last_task n changes) (if t.id == n then some t else none)

abbrev pub last_run : AgentId → List AgentRun → Option AgentRun
last_run n [] = none
last_run n (run ∷ runs) = or_else (last_run n runs) (if run.id == n then some run else none)

-- An update of a row that is there.
abbrev pub updated : Option AgentRun → Option AgentRun → Option AgentRun
updated run none = none
updated none (some old) = some old
updated (some run) (some old) = some run

put_found :
    (n : TaskId) (t : Task) (ts : List Task)
    → find (λ (u : Task). u.id == n) (put_task t ts)
      ≡ or_else (if t.id == n then some t else none) (find (λ (u : Task). u.id == n) ts)
unfolding put_task find
put_found n t [] = ground arith
put_found n t (u ∷ us) = let rest = put_found n t us in ground arith

or_else_assoc : {A : Type 0} (a b c : Option A) → or_else a (or_else b c) ≡ or_else (or_else a b) c
or_else_assoc none b c = refl
or_else_assoc (some a) b c = refl

puts_found :
    (n : TaskId) (changes : List (Task × TaskAudit)) (ts : List Task)
    → find (λ (u : Task). u.id == n) (put_tasks changes ts)
      ≡ or_else (last_task n changes) (find (λ (u : Task). u.id == n) ts)
puts_found n [] ts = refl
puts_found n ((t, a) ∷ changes) ts =
    puts_found n changes (put_task t ts)
    ∙ ap (or_else (last_task n changes)) (put_found n t ts)
    ∙ or_else_assoc (last_task n changes) _ _

replace_found :
    (n : AgentId) (run : AgentRun) (rs : List AgentRun)
    → find (λ (r : AgentRun). r.id == n) (replace_agent run rs)
      ≡ updated (if run.id == n then some run else none) (find (λ (r : AgentRun). r.id == n) rs)
unfolding replace_agent find
replace_found n run [] = ground arith
replace_found n run (r ∷ rs) = let rest = replace_found n run rs in ground arith

updated_twice : (a b old : Option AgentRun) → updated a (updated b old) ≡ updated (or_else a b) old
updated_twice a b none = refl
updated_twice none none (some old) = refl
updated_twice (some a) none (some old) = refl
updated_twice none (some b) (some old) = refl
updated_twice (some a) (some b) (some old) = refl

updated-none : (old : Option AgentRun) → old ≡ updated none old
updated-none none = refl
updated-none (some old) = refl

replaces_found :
    (n : AgentId) (runs rs : List AgentRun)
    → find (λ (r : AgentRun). r.id == n) (replace_agents runs rs)
      ≡ updated (last_run n runs) (find (λ (r : AgentRun). r.id == n) rs)
replaces_found n [] rs = updated-none _
replaces_found n (run ∷ runs) rs =
    replaces_found n runs (replace_agent run rs)
    ∙ ap (updated (last_run n runs)) (replace_found n run rs)
    ∙ updated_twice (last_run n runs) _ _

entries-map :
    (changes : List (Task × TaskAudit))
    → entries changes ≡ map (λ (c : Task × TaskAudit). c.1) changes
entries-map [] = refl
entries-map ((t, a) ∷ changes) = ap (λ (l : List TaskAudit). a ∷ l) (entries-map changes)

-- What a committed transaction leaves of the tables.
pub record IsWritten (changes : List (Task × TaskAudit)) (receipt : Option Receipt)
    (runs : List AgentRun) (s s' : Store) : Type 0 where
  pub tasks :
      (n : TaskId)
      → find (λ (t : Task). t.id == n) s'.tasks
        ≡ or_else (last_task n changes) (find (λ (t : Task). t.id == n) s.tasks)
  pub agents :
      (n : AgentId)
      → find (λ (r : AgentRun). r.id == n) s'.agents
        ≡ updated (last_run n runs) (find (λ (r : AgentRun). r.id == n) s.agents)
  pub audits : s'.audits ≡ s.audits ++ map (λ (c : Task × TaskAudit). c.1) changes
  pub unused : receipt_used receipt s.receipts ≡ false
  pub receipts : s'.receipts ≡ with_receipt receipt s.receipts
  pub projects : s'.projects ≡ s.projects
  pub settings : s'.settings ≡ s.settings
  pub reservations : s'.reservations ≡ s.reservations
  pub attention : s'.attention ≡ s.attention
  pub releases : s'.releases ≡ s.releases

-- After a transaction that commits, the table of tasks answers each identity with the last of the
-- changes that has it, and any other identity as before; the table of agents does the same for the
-- agents that it had, and has no others. The entries stand in order behind the history, a receipt had
-- an unused identity and is stored, and the other tables are as they were.
pub save_read_back :
    (disk : Disk) (changes : List (Task × TaskAudit)) (receipt : Option Receipt)
    (runs : List AgentRun) (s s' : Store)
    → save_task_agent_changes disk changes receipt runs s ≡ ok s'
    → IsWritten changes receipt runs s s'
save_read_back disk changes receipt runs s s' h =
    let (writable, unused, e) = save-commits disk changes receipt runs s s' h in
    record {
      tasks = λ n.
          ap (λ (x : Store). find (λ (t : Task). t.id == n) x.tasks) e
          ∙ puts_found n changes s.tasks;
      agents = λ n.
          ap (λ (x : Store). find (λ (r : AgentRun). r.id == n) x.agents) e
          ∙ replaces_found n runs s.agents;
      audits =
          ap (λ (x : Store). x.audits) e
          ∙ ap (λ (l : List TaskAudit). s.audits ++ l) (entries-map changes);
      unused = unused;
      receipts = ap (λ (x : Store). x.receipts) e;
      projects = ap (λ (x : Store). x.projects) e;
      settings = ap (λ (x : Store). x.settings) e;
      reservations = ap (λ (x : Store). x.reservations) e;
      attention = ap (λ (x : Store). x.attention) e;
      releases = ap (λ (x : Store). x.releases) e;
    }
