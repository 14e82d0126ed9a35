-- ===== src/Planning/Count.antt =====
-- The count of running plans, and how one changed task changes it.
use ditch.Prelude.{
  ℕ, ◌+◌, ◌≤◌, ◌<◌, ◌==◌, ==→eq, ◌≡◌, refl, sym, ap, ◌∙◌, Bool, true, false, Option, none, some,
  List, [], ◌∷◌, lookup, insert, lookup-insert, values, if◌then◌else◌, arith,
}
use ditch.Core.{Task, TaskId}
use ditch.Runtime.State.{RuntimeState, tasks_of}
use ditch.Planning.{plan_running, running_plans}

abbrev weight : Bool → ℕ
weight true = 1
weight false = 0

abbrev old_weight : Option Task → ℕ
old_weight none = 0
old_weight (some t) = weight (plan_running t)

running_plans-insert :
    (k : TaskId) (t : Task) (m : List (TaskId × Task))
    → running_plans (values (insert k t m)) + old_weight (lookup k m)
      ≡ running_plans (values m) + weight (plan_running t)
unfolding running_plans values insert lookup
running_plans-insert k t [] = ground arith
running_plans-insert k t ((j, u) ∷ m) = ground (arith, running_plans-insert k t m)

-- Every task stands under its identity, and four plans at most are running.
pub record IsBounded (s : RuntimeState) : Type 0 where
  pub keyed : (k : TaskId) (t : Task) → lookup k s.tasks ≡ some t → t.id ≡ k
  pub few : running_plans (tasks_of s) ≤ 4

keyed-insert :
    (u : Task) (m : List (TaskId × Task))
    → ((k : TaskId) (t : Task) → lookup k m ≡ some t → t.id ≡ k)
    → (k : TaskId) (t : Task) → lookup k (insert u.id u m) ≡ some t
    → t.id ≡ k
keyed-insert u m keyed k t h = by_test (u.id == k) refl (sym (lookup-insert u.id k u m) ∙ h)
  where
    by_test : (b : Bool) → (u.id == k) ≡ b → (if b then some u else lookup k m) ≡ some t → t.id ≡ k
    by_test true e g = let same : u ≡ t = cc in ap (λ (x : Task). x.id) (sym same) ∙ ==→eq u.id k e
    by_test false e g = keyed k t g

-- A task is replaced by one that may run a plan only if the old one did or there is room.
abbrev pub MayRun : RuntimeState → Task → Task → Type 0
MayRun s t u = plan_running u ≡ true → plan_running t ≡ false → running_plans (tasks_of s) < 4

pub replaced-IsBounded :
    (s : RuntimeState) (id : TaskId) (t u : Task)
    → IsBounded s
    → lookup id s.tasks ≡ some t
    → u.id ≡ t.id
    → MayRun s t u
    → IsBounded (record s { tasks = insert u.id u s.tasks })
replaced-IsBounded s id t u inv found same may =
    let own : u.id ≡ id = same ∙ inv.keyed id t found in
    let counted = running_plans-insert u.id u s.tasks in
    let old : lookup u.id s.tasks ≡ some t = ap (λ (k : TaskId). lookup k s.tasks) own ∙ found in
    let few = inv.few in
    record {
      keyed = keyed-insert u s.tasks inv.keyed;
      few = by_plans (plan_running u) (plan_running t) refl refl (rw old at counted) may few;
    }
  where
    by_plans :
        (a b : Bool)
        → plan_running u ≡ a
        → plan_running t ≡ b
        → running_plans (values (insert u.id u s.tasks)) + weight (plan_running t)
          ≡ running_plans (values s.tasks) + weight (plan_running u)
        → MayRun s t u
        → running_plans (values s.tasks) ≤ 4
        → running_plans (values (insert u.id u s.tasks)) ≤ 4
    by_plans true false ea eb counted may few = (let room = may ea eb in ground arith)
    by_plans true true ea eb counted may few = ground arith
    by_plans false b ea eb counted may few = ground arith
