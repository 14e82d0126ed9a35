-- ===== src/Queue/Execution/Switch.antt =====
-- How a switch is computed and stored.
use ditch.Prelude.{
  ℕ, ◌+◌, ◌^◌, ltb, ◌≡◌, refl, ap, sym, subst, Bool, true, false, Option, none, some, Text,
  text_eq_refl, List, [], ◌∷◌, Result, ok, err, if◌then◌else◌, arith, >>=-eq-ok,
}
use ditch.Core.{BoardExecutionState, Project, TaskRequest, TaskResponse}
use ditch.Store.{
  Store, Disk, Receipt, set_task_setting_receipt, get_setting, put_setting, write_receipt,
}
use ditch.Store.Effects.{write_receipt-ok}
use ditch.Runtime.State.{RuntimeState, Env, send}
use ditch.Queue.Execution.{switched, publish_execution, store_execution, bool_eq, Answer}

get_setting-put_setting :
    (k v : Text) (m : List (Text × Text)) → get_setting k (put_setting k v m) ≡ some v
unfolding get_setting put_setting
get_setting-put_setting k v [] = ground (arith, text_eq_refl k)
get_setting-put_setting k v ((j, w) ∷ m) =
    ground (arith, text_eq_refl k, get_setting-put_setting k v m)

setting_stored :
    (disk : Disk) (k v : Text) (r : Receipt) (s s' : Store)
    → set_task_setting_receipt disk k v r s ≡ ok s'
    → get_setting k s'.settings ≡ some v
unfolding set_task_setting_receipt
setting_stored disk k v r s s' h =
    let (s1, e1, k1) = >>=-eq-ok (write_receipt r _) _ h in
    let (unused, e) = write_receipt-ok r _ s1 e1 in
    let committed : s1 ≡ s' = ground arith in
    subst (λ (x : Store). get_setting k x.settings ≡ some v) committed
      (subst (λ (x : Store). get_setting k x.settings ≡ some v) (sym e)
        (get_setting-put_setting k v s.settings))

published_ok :
    (s s' : RuntimeState) (x y : BoardExecutionState) (r : Result Text Store)
    → publish_execution s x r ≡ (s', TaskResponse.board_execution y)
    → (store : Store) × (r ≡ ok store) × (y ≡ x) × (s'.store ≡ store)
unfolding publish_execution send
published_ok s s' x y (err e) h = cc
published_ok s s' x y (ok store) h = (store, refl, cc, sym (ap (λ (o : Answer). o.0.store) h))

-- A switch was stored for a project.
pub stored_ok :
    (env : Env) (request : TaskRequest) (p : Project) (s s' : RuntimeState)
    (next : Option BoardExecutionState) (y : BoardExecutionState)
    → store_execution env request p s next ≡ (s', TaskResponse.board_execution y)
    → (next ≡ some y)
      × (get_setting (env.execution_key p.id) s'.store.settings ≡ some (env.execution_json y))
unfolding store_execution
stored_ok env request p s s' none y h = cc
stored_ok env request p s s' (some x) y h =
    let (store, saved, same, now) = published_ok s s' x y _ h in
    let key = setting_stored env.disk _ _ _ s.store store saved in
    (
      ap (λ (z : BoardExecutionState). some z) (sym same),
      subst
          (λ (z : Store).
            get_setting (env.execution_key p.id) z.settings ≡ some (env.execution_json y))
          (sym now)
          (subst
            (λ (z : BoardExecutionState).
              get_setting (env.execution_key p.id) store.settings ≡ some (env.execution_json z))
            (sym same) key),
    )

-- The revision after a switch.
abbrev pub next_revision : Bool → BoardExecutionState → ℕ
next_revision paused x = if bool_eq x.paused paused then x.revision else x.revision + 1

bool_eq→eq : (a b : Bool) → bool_eq a b ≡ true → a ≡ b
bool_eq→eq true true h = refl
bool_eq→eq false false h = refl
bool_eq→eq true false h = cc
bool_eq→eq false true h = cc

pub switched_ok :
    (paused : Bool) (x y : BoardExecutionState)
    → switched paused x ≡ some y
    → (y.paused ≡ paused) × (y.revision ≡ next_revision paused x)
unfolding switched
switched_ok paused x y h = by_tests (bool_eq x.paused paused) (ltb (x.revision + 1) (2 ^ 64)) refl h
  where
    by_tests :
        (same room : Bool)
        → bool_eq x.paused paused ≡ same
        → (if same
            then some x
            else if room
            then some (record x { paused = paused; revision = x.revision + 1 })
            else none)
          ≡ some y
        → (y.paused ≡ paused) × (y.revision ≡ (if same then x.revision else x.revision + 1))
    by_tests true room e k = (ground (arith, bool_eq→eq x.paused paused), ground arith)
    by_tests false true e k = (ground arith, ground arith)
    by_tests false false e k = cc
