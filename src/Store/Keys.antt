-- ===== src/Store/Keys.antt =====
-- The keys and references of the task tables (crates/ditch_store/src/tasks.rs).
use ditch.Prelude.{
  ℕ, ◌==◌, ◌≡◌, refl, sym, subst, Bool, true, false, not, ◌||◌, Option, none, some, List, [], ◌∷◌,
  ◌++◌, any, keep, In, inl, inr, ◌⊎◌, any-append, Bool-cases, Text, ok, >>=-eq-ok, arith,
  if◌then◌else◌,
}
use ditch.Core.{Task, TaskAudit, AgentRun}
use ditch.Store.{
  Store, Disk, untouched_draft, Receipt, has_id, write_task, write_audit, write_changes,
  write_agents, write_receipt, save_task_agent_changes, set_task_setting_receipt, delete_draft_task,
  put_task, write_some_receipt,
}
use ditch.Store.Effects.{
  write_agents-ok, write_some_receipt-ok, write_receipt-ok, with_receipt, receipt_used,
}

-- No two rows share a key.
abbrev pub Unique : {A : Type 0} → (A → ℕ) → List A → Type 0
Unique key [] = Unit
Unique key (x ∷ xs) = (any (λ y. key y == key x) xs ≡ false) × Unique key xs

pub record IsKeyed (s : Store) : Type 0 where
  pub task_keys : Unique (λ (t : Task). t.id) s.tasks
  pub audit_keys : Unique (λ (a : TaskAudit). a.id) s.audits
  pub receipt_keys : Unique (λ (r : Receipt). r.id) s.receipts
  pub audited : (a : TaskAudit) → In a s.audits → any (has_id a.task_id) s.tasks ≡ true

any-put_task :
    (k : ℕ) (t : Task) (ts : List Task)
    → any (has_id k) (put_task t ts) ≡ (t.id == k || any (has_id k) ts)
unfolding put_task
any-put_task k t [] = refl
any-put_task k t (u ∷ us) = ground (arith, any-put_task k t us)

Unique-put_task :
    (t : Task) (ts : List Task)
    → Unique (λ (u : Task). u.id) ts
    → Unique (λ (u : Task). u.id) (put_task t ts)
unfolding put_task
Unique-put_task t [] h = (refl, tt)
Unique-put_task t (u ∷ us) h = elim (Bool-cases (u.id == t.id)) [
  | inl e ↦ rw e (ground arith, h.1)
  | inr n ↦ rw n (ground (arith, any-put_task u.id t us), Unique-put_task t us h.1)
]

Unique-append :
    {A : Type 0} (key : A → ℕ) (xs : List A) (x : A)
    → Unique key xs
    → any (λ y. key y == key x) xs ≡ false
    → Unique key (xs ++ x ∷ [])
Unique-append key [] x u n = (refl, tt)
Unique-append key (y ∷ ys) x u n = (
  ground (arith, any-append (λ z. key z == key y) ys (x ∷ [])),
  Unique-append key ys x u.1 (ground arith),
)

In-append : {A : Type 0} (xs ys : List A) (a : A) → In a (xs ++ ys) → In a xs ⊎ In a ys
In-append [] ys a m = inr m
In-append (x ∷ xs) ys a m = elim m [
  | inl e ↦ inl (inl e)
  | inr r ↦ elim (In-append xs ys a r) [ inl l ↦ inl (inr l) | inr k ↦ inr k ]
]

write_task-IsKeyed : (t : Task) (s s' : Store) → write_task t s ≡ ok s' → IsKeyed s → IsKeyed s'
unfolding write_task
write_task-IsKeyed t s s' h k =
    let e : s' ≡ record s { tasks = put_task t s.tasks } = ground arith in
    rw e (record {
      task_keys = Unique-put_task t s.tasks k.task_keys;
      audit_keys = k.audit_keys;
      receipt_keys = k.receipt_keys;
      audited =
          λ a m. let known = k.audited a m in ground (arith, any-put_task a.task_id t s.tasks);
    })

write_audit-IsKeyed :
    (a : TaskAudit) (s s' : Store) → write_audit a s ≡ ok s' → IsKeyed s → IsKeyed s'
unfolding write_audit
write_audit-IsKeyed a s s' h k =
    let e : s' ≡ record s { audits = s.audits ++ a ∷ [] } = ground arith in
    let new : any (λ (b : TaskAudit). b.id == a.id) s.audits ≡ false = ground arith in
    let known : any (has_id a.task_id) s.tasks ≡ true = ground arith in
    rw e (record {
      task_keys = k.task_keys;
      audit_keys = Unique-append (λ (b : TaskAudit). b.id) s.audits a k.audit_keys new;
      receipt_keys = k.receipt_keys;
      audited = λ b m. elim (In-append s.audits (a ∷ []) b m) [
        | inl old ↦ k.audited b old
        | inr (inl is) ↦ subst (λ (x : TaskAudit). any (has_id x.task_id) s.tasks ≡ true) is known
        | inr (inr no_more) ↦ elim no_more [ ]
      ];
    })

write_changes-IsKeyed :
    (changes : List (Task × TaskAudit)) (s s' : Store)
    → write_changes changes s ≡ ok s'
    → IsKeyed s
    → IsKeyed s'
unfolding write_changes
write_changes-IsKeyed [] s s' h k = subst IsKeyed (ground arith) k
write_changes-IsKeyed ((t, a) ∷ changes) s s' h k =
    let (s1, e1, k1) = >>=-eq-ok (write_task t s) _ h in
    let (s2, e2, k2) = >>=-eq-ok (write_audit a s1) _ k1 in
    write_changes-IsKeyed changes s2 s' k2
      (write_audit-IsKeyed a s1 s2 e2 (write_task-IsKeyed t s s1 e1 k))

any-keep :
    {A : Type 0} (p q : A → Bool) (xs : List A) → any p xs ≡ false → any p (keep q xs) ≡ false
unfolding keep
any-keep p q [] h = refl
any-keep p q (x ∷ xs) h = ground (arith, any-keep p q xs)

kept :
    {A : Type 0} (q : A → Bool) (x : A) (xs : List A) (a : A)
    → (In a (keep q xs) → In a xs × (q a ≡ true))
    → In a (keep q (x ∷ xs))
    → In a (x ∷ xs) × (q a ≡ true)
unfolding keep
kept q x xs a ih m = elim (Bool-cases (q x)) [
  | inr n ↦
      (let (later, fact) = ih (subst (λ b. In a (if b then x ∷ keep q xs else keep q xs)) n m) in
        (inr later, fact))
  | inl y ↦ elim (subst (λ b. In a (if b then x ∷ keep q xs else keep q xs)) y m) [
    | inl e ↦ (inl e, subst (λ z. q z ≡ true) e y)
    | inr r ↦ (let (later, fact) = ih r in (inr later, fact))
  ]
]

In-keep :
    {A : Type 0} (q : A → Bool) (xs : List A) (a : A) → In a (keep q xs) → In a xs × (q a ≡ true)
unfolding keep
In-keep q [] a m = elim m [ ]
In-keep q (x ∷ xs) a m = kept q x xs a (In-keep q xs a) m

Unique-keep :
    {A : Type 0} (key : A → ℕ) (p : A → Bool) (xs : List A) → Unique key xs → Unique key (keep p xs)
unfolding keep
Unique-keep key p [] u = tt
Unique-keep key p (x ∷ xs) u = elim (Bool-cases (p x)) [
  | inl e ↦ rw e (any-keep (λ y. key y == key x) p xs u.0, Unique-keep key p xs u.1)
  | inr n ↦ rw n (Unique-keep key p xs u.1)
]

any_id-keep :
    (k id : ℕ) (ts : List Task)
    → (id == k) ≡ false
    → any (has_id k) ts ≡ true
    → any (has_id k) (keep (λ (u : Task). not (u.id == id)) ts) ≡ true
unfolding keep
any_id-keep k id [] n h = ground arith
any_id-keep k id (t ∷ ts) n h = ground (arith, any_id-keep k id ts n)

receipt-IsKeyed :
    (receipt : Option Receipt) (s : Store)
    → receipt_used receipt s.receipts ≡ false
    → IsKeyed s
    → IsKeyed (record s { receipts = with_receipt receipt s.receipts })
receipt-IsKeyed none s n k = k
receipt-IsKeyed (some r) s n k = record {
  task_keys = k.task_keys;
  audit_keys = k.audit_keys;
  receipt_keys = (n, k.receipt_keys);
  audited = k.audited;
}

save-IsKeyed :
    (disk : Disk) (changes : List (Task × TaskAudit)) (receipt : Option Receipt)
    (runs : List AgentRun) (s s' : Store)
    → save_task_agent_changes disk changes receipt runs s ≡ ok s'
    → IsKeyed s
    → IsKeyed s'
unfolding save_task_agent_changes
save-IsKeyed disk changes receipt runs s s' h k =
    let (s1, e1, k1) = >>=-eq-ok (write_changes changes s) _ h in
    let (s2, e2, k2) = >>=-eq-ok (write_agents runs s1) _ k1 in
    let (s3, e3, k3) = >>=-eq-ok (write_some_receipt receipt s2) _ k2 in
    let keyed = write_changes-IsKeyed changes s s1 e1 k in
    let with_agents : IsKeyed s2 = subst IsKeyed (sym (write_agents-ok runs s1 s2 e2)) (record {
      task_keys = keyed.task_keys;
      audit_keys = keyed.audit_keys;
      receipt_keys = keyed.receipt_keys;
      audited = keyed.audited;
    }) in
    let (unused, e) = write_some_receipt-ok receipt s2 s3 e3 in
    let committed : s3 ≡ s' = ground arith in
    subst IsKeyed committed (subst IsKeyed (sym e) (receipt-IsKeyed receipt s2 unused with_agents))

setting-IsKeyed :
    (disk : Disk) (key value : Text) (r : Receipt) (s s' : Store)
    → set_task_setting_receipt disk key value r s ≡ ok s'
    → IsKeyed s
    → IsKeyed s'
unfolding set_task_setting_receipt
setting-IsKeyed disk key value r s s' h k =
    let (s1, e1, k1) = >>=-eq-ok (write_receipt r _) _ h in
    let (unused, e) = write_receipt-ok r _ s1 e1 in
    let committed : s1 ≡ s' = ground arith in
    subst IsKeyed committed (
      subst IsKeyed (sym e) (record {
        task_keys = k.task_keys;
        audit_keys = k.audit_keys;
        receipt_keys = (unused, k.receipt_keys);
        audited = k.audited;
      }))

delete-IsKeyed :
    (disk : Disk) (r : Receipt) (t : Task) (s s' : Store)
    → delete_draft_task disk t r s ≡ ok s'
    → IsKeyed s
    → IsKeyed s'
unfolding delete_draft_task
delete-IsKeyed disk r t s s' h k =
    let (w, e0, k0) = >>=-eq-ok (untouched_draft t s) _ h in
    let (s1, e1, k1) = >>=-eq-ok (write_receipt r _) _ k0 in
    let (unused, e) = write_receipt-ok r _ s1 e1 in
    let committed : s1 ≡ s' = ground arith in
    subst IsKeyed committed (
      subst IsKeyed (sym e) (record {
        task_keys = Unique-keep (λ (u : Task). u.id) _ s.tasks k.task_keys;
        audit_keys = Unique-keep (λ (a : TaskAudit). a.id) _ s.audits k.audit_keys;
        receipt_keys = (unused, k.receipt_keys);
        audited = λ a m.
            let (old, other) = In-keep (λ (b : TaskAudit). not (b.task_id == t.id)) s.audits a m in
            any_id-keep a.task_id t.id s.tasks (ground arith) (k.audited a old);
      }))

-- A transaction that saves tasks, entries, agents and a receipt keeps every key unique and every
-- entry's task present. So does one that stores a setting, and so does the deletion of a draft.
pub transactions-IsKeyed :
    (disk : Disk) (changes : List (Task × TaskAudit)) (receipt : Option Receipt)
    (runs : List AgentRun) (key value : Text) (r : Receipt) (t : Task) (s s' : Store)
    → IsKeyed s
    → (save_task_agent_changes disk changes receipt runs s ≡ ok s')
      ⊎ (set_task_setting_receipt disk key value r s ≡ ok s')
      ⊎ (delete_draft_task disk t r s ≡ ok s')
    → IsKeyed s'
transactions-IsKeyed disk changes receipt runs key value r t s s' k (inl h) =
    save-IsKeyed disk changes receipt runs s s' h k
transactions-IsKeyed disk changes receipt runs key value r t s s' k (inr (inl h)) =
    setting-IsKeyed disk key value r s s' h k
transactions-IsKeyed disk changes receipt runs key value r t s s' k (inr (inr h)) =
    delete-IsKeyed disk r t s s' h k
