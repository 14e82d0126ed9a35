-- ===== src/Store/Effects.antt =====
-- What the parts of a transaction leave behind, table by table.
use ditch.Prelude.{
  ◌==◌, ◌≡◌, refl, ◌∙◌, Bool, true, false, Option, none, some, List, [], ◌∷◌, ◌++◌, any, ok,
  >>=-eq-ok, arith,
}
use mathlib.Core.List.{append-nil, append_assoc}
use ditch.Core.{Task, TaskAudit, AgentRun}
use ditch.Store.{
  Store, Disk, Receipt, write_task, write_audit, write_changes, write_agent, write_agents,
  write_receipt, write_some_receipt, save_task_agent_changes, put_task, replace_agent,
}

pub write_task-ok :
    (t : Task) (s s' : Store)
    → write_task t s ≡ ok s'
    → s' ≡ record s { tasks = put_task t s.tasks }
unfolding write_task
write_task-ok t s s' h = ground arith

pub write_audit-ok :
    (a : TaskAudit) (s s' : Store)
    → write_audit a s ≡ ok s'
    → (s' ≡ record s { audits = s.audits ++ a ∷ [] })
      × (any (λ (b : TaskAudit). b.id == a.id) s.audits ≡ false)
unfolding write_audit
write_audit-ok a s s' h = ground arith

write_agent-ok :
    (run : AgentRun) (s s' : Store)
    → write_agent run s ≡ ok s'
    → s' ≡ record s { agents = replace_agent run s.agents }
unfolding write_agent
write_agent-ok run s s' h = ground arith

pub write_receipt-ok :
    (r : Receipt) (s s' : Store)
    → write_receipt r s ≡ ok s'
    → (any (λ (q : Receipt). q.id == r.id) s.receipts ≡ false)
      × (s' ≡ record s { receipts = r ∷ s.receipts })
unfolding write_receipt
write_receipt-ok r s s' h = ground arith

abbrev pub put_tasks : List (Task × TaskAudit) → List Task → List Task
put_tasks [] ts = ts
put_tasks ((t, a) ∷ changes) ts = put_tasks changes (put_task t ts)

abbrev pub entries : List (Task × TaskAudit) → List TaskAudit
entries [] = []
entries ((t, a) ∷ changes) = a ∷ entries changes

abbrev pub replace_agents : List AgentRun → List AgentRun → List AgentRun
replace_agents [] rs = rs
replace_agents (run ∷ runs) rs = replace_agents runs (replace_agent run rs)

pub write_changes-ok :
    (changes : List (Task × TaskAudit)) (s s' : Store)
    → write_changes changes s ≡ ok s'
    → s' ≡ record s { tasks = put_tasks changes s.tasks; audits = s.audits ++ entries changes }
unfolding write_changes
write_changes-ok [] s s' h = rw append-nil (ground arith)
write_changes-ok ((t, a) ∷ changes) s s' h =
    let (s1, e1, k1) = >>=-eq-ok (write_task t s) _ h in
    let (s2, e2, k2) = >>=-eq-ok (write_audit a s1) _ k1 in
    let f1 = write_task-ok t s s1 e1 in
    let f2 = (write_audit-ok a s1 s2 e2).0 in
    let rest = write_changes-ok changes s2 s' k2 in
    let regroup = append_assoc s.audits (a ∷ []) (entries changes) in ground arith

pub write_agents-ok :
    (runs : List AgentRun) (s s' : Store)
    → write_agents runs s ≡ ok s'
    → s' ≡ record s { agents = replace_agents runs s.agents }
unfolding write_agents
write_agents-ok [] s s' h = ground arith
write_agents-ok (run ∷ runs) s s' h =
    let (s1, e1, k1) = >>=-eq-ok (write_agent run s) _ h in
    let f1 = write_agent-ok run s s1 e1 in let rest = write_agents-ok runs s1 s' k1 in ground arith

abbrev pub with_receipt : Option Receipt → List Receipt → List Receipt
with_receipt none rs = rs
with_receipt (some r) rs = r ∷ rs

-- Whether a receipt's id is already in the table.
abbrev pub receipt_used : Option Receipt → List Receipt → Bool
receipt_used none rs = false
receipt_used (some r) rs = any (λ (q : Receipt). q.id == r.id) rs

pub write_some_receipt-ok :
    (receipt : Option Receipt) (s s' : Store)
    → write_some_receipt receipt s ≡ ok s'
    → (receipt_used receipt s.receipts ≡ false)
      × (s' ≡ record s { receipts = with_receipt receipt s.receipts })
write_some_receipt-ok none s s' h = (refl, ground arith)
write_some_receipt-ok (some r) s s' h = write_receipt-ok r s s' h

-- A transaction that commits had a writable file and has written all of its parts: each task in
-- order, each entry at the end of the history, each agent that has a row, and a receipt whose id was not in
-- use; all other tables are as before.
pub save-commits :
    (disk : Disk) (changes : List (Task × TaskAudit)) (receipt : Option Receipt)
    (runs : List AgentRun) (s s' : Store)
    → save_task_agent_changes disk changes receipt runs s ≡ ok s'
    → (disk.writable ≡ true)
      × (receipt_used receipt s.receipts ≡ false)
      × (s' ≡ record s {
        tasks = put_tasks changes s.tasks;
        audits = s.audits ++ entries changes;
        agents = replace_agents runs s.agents;
        receipts = with_receipt receipt s.receipts;
      })
unfolding save_task_agent_changes
save-commits disk changes receipt runs s s' h =
    let (s1, e1, k1) = >>=-eq-ok (write_changes changes s) _ h in
    let (s2, e2, k2) = >>=-eq-ok (write_agents runs s1) _ k1 in
    let (s3, e3, k3) = >>=-eq-ok (write_some_receipt receipt s2) _ k2 in
    let f1 = write_changes-ok changes s s1 e1 in
    let f2 = write_agents-ok runs s1 s2 e2 in
    let f3 = write_some_receipt-ok receipt s2 s3 e3 in
    let same : s2.receipts ≡ s.receipts = ground arith in
    let committed : s' ≡ s3 = ground arith in
    (ground arith, rw (← same) f3.0, committed ∙ f3.1 ∙ ground arith)
