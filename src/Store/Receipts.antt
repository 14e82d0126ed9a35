-- ===== src/Store/Receipts.antt =====
-- The receipts that the transactions of crates/ditch_store/src/tasks.rs add.
use ditch.Prelude.{
  none, [], Option, >>=-eq-ok, ◌==◌, ◌≡◌, refl, ◌∙◌, subst, Bool, true, false, some, List, ◌∷◌,
  find, Text, Result, ok, arith, reject_if, ◌>>◌, ◌+◌, ◌%◌, u64_mod, not, ◌&&◌,
}
use ditch.Core.{ProjectRelease, Task, TaskAudit}
use ditch.Store.{
  Store, Disk, Receipt, set_task_setting_receipt, delete_draft_task, write_task, untouched_draft,
  write_receipt,
}
use ditch.Store.Releases.{
  insert_release, stored_task, belongs, write_released, write_batch, save_release_batch,
}
use ditch.Store.Effects.{write_task-ok, write_audit-ok, receipt_used, write_receipt-ok}

pub setting_receipts :
    (disk : Disk) (key value : Text) (r : Receipt) (m n : Store)
    → set_task_setting_receipt disk key value r m ≡ ok n
    → (receipt_used (some r) m.receipts ≡ false) × (n.receipts ≡ r ∷ m.receipts)
unfolding set_task_setting_receipt
setting_receipts disk key value r m n h =
    let (s1, e1, k1) = >>=-eq-ok (write_receipt r _) _ h in
    let (unused, e) = write_receipt-ok r _ s1 e1 in (unused, ground arith)

pub delete_receipts :
    (disk : Disk) (t : Task) (r : Receipt) (m n : Store)
    → delete_draft_task disk t r m ≡ ok n
    → (receipt_used (some r) m.receipts ≡ false) × (n.receipts ≡ r ∷ m.receipts)
unfolding delete_draft_task
delete_receipts disk t r m n h =
    let (w, e0, k0) = >>=-eq-ok (untouched_draft t m) _ h in
    let (s1, e1, k1) = >>=-eq-ok (write_receipt r _) _ k0 in
    let (unused, e) = write_receipt-ok r _ s1 e1 in (unused, ground arith)

insert_release_receipts :
    (release : Option ProjectRelease) (m n : Store)
    → insert_release release m ≡ ok n
    → n.receipts ≡ m.receipts
unfolding insert_release
insert_release_receipts none m n h = ground arith
insert_release_receipts (some r) m n h = ground arith

-- A test that was passed.
passed_ok :
    (bad : Bool) (e : Text) {rest : Result Text Store} {answer : Store}
    → (reject_if bad e >> rest) ≡ ok answer
    → (bad ≡ false) × (rest ≡ ok answer)
passed_ok true e h = cc
passed_ok false e h = (refl, h)

write_released_receipts :
    (t : Task) (a : TaskAudit) (m n : Store) → write_released t a m ≡ ok n → n.receipts ≡ m.receipts
unfolding write_released
write_released_receipts t a m n h =
    let stored = find (λ (u : Task). u.id == t.id && u.project_id == t.project_id) m.tasks in
    let (old, e1, k1) = >>=-eq-ok (stored_task stored) _ h in
    let (current, k2) = passed_ok (not ((old.revision + 1) % u64_mod == t.revision)) _ k1 in
    let (owned, k3) = passed_ok (not (belongs t.release_id t.project_id m.releases)) _ k2 in
    let (s1, e4, k4) = >>=-eq-ok (write_task t m) _ k3 in
    let f1 = write_task-ok t m s1 e4 in let f2 = (write_audit-ok a s1 n k4).0 in ground arith

write_batch_receipts :
    (changes : List (Task × TaskAudit)) (m n : Store)
    → write_batch changes m ≡ ok n
    → n.receipts ≡ m.receipts
unfolding write_batch
write_batch_receipts [] m n h = ground arith
write_batch_receipts ((t, a) ∷ changes) m n h =
    let (s1, e1, k1) = >>=-eq-ok (write_released t a m) _ h in
    write_batch_receipts changes s1 n k1 ∙ write_released_receipts t a m s1 e1

pub release_receipts :
    (disk : Disk) (release : Option ProjectRelease) (changes : List (Task × TaskAudit))
    (r : Receipt) (m n : Store)
    → save_release_batch disk release changes r m ≡ ok n
    → (receipt_used (some r) m.receipts ≡ false) × (n.receipts ≡ r ∷ m.receipts)
unfolding save_release_batch
release_receipts disk release changes r m n h =
    let (s1, e1, k1) = >>=-eq-ok (insert_release release m) _ h in
    let (s2, e2, k2) = >>=-eq-ok (write_batch changes s1) _ k1 in
    let (s3, e3, k3) = >>=-eq-ok (write_receipt r s2) _ k2 in
    let (unused, e) = write_receipt-ok r s2 s3 e3 in
    let same = write_batch_receipts changes s1 s2 e2 ∙ insert_release_receipts release m s1 e1 in
    (subst (λ (rs : List Receipt). receipt_used (some r) rs ≡ false) same unused, ground arith)
