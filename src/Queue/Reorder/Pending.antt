-- ===== src/Queue/Reorder/Pending.antt =====
-- The waiting tasks in the order of their positions.
use ditch.Prelude.{
  ◌≤◌, ◌==◌, leb, ◌≡◌, refl, ap, subst, ◌∙◌, inl, inr, ◌⊎◌, Bool, true, false, ◌||◌, is_some, List,
  [], ◌∷◌, any, keep, In, arith, if◌then◌else◌, Bool-cases,
}
use ditch.Core.{Task, TaskId}
use ditch.Queue.Claim.{position}
use ditch.Queue.Reorder.{insert_by_position, sort_by_position}
use ditch.Queue.Reorder.Order.{DistinctTasks, AllQueued}

abbrev pub has_task : TaskId → Task → Bool
has_task id u = u.id == id

-- Sorting and filtering, as they act on one Boolean question.
any-insert_by_position :
    (f : Task → Bool) (t : Task) (ts : List Task)
    → any f (insert_by_position t ts) ≡ (f t || any f ts)
unfolding insert_by_position
any-insert_by_position f t [] = refl
any-insert_by_position f t (u ∷ us) = ground (arith, any-insert_by_position f t us)

pub any-sort_by_position :
    (f : Task → Bool) (ts : List Task) → any f (sort_by_position ts) ≡ any f ts
unfolding sort_by_position
any-sort_by_position f [] = refl
any-sort_by_position f (t ∷ ts) =
    any-insert_by_position f t (sort_by_position ts)
    ∙ ap (λ b. f t || b) (any-sort_by_position f ts)

any-keep_none : (f g : Task → Bool) (ts : List Task) → any f ts ≡ false → any f (keep g ts) ≡ false
unfolding keep
any-keep_none f g [] h = refl
any-keep_none f g (t ∷ ts) h = ground (arith, any-keep_none f g ts)

DistinctTasks-insert_by_position :
    (t : Task) (ts : List Task)
    → any (has_task t.id) ts ≡ false
    → DistinctTasks ts
    → DistinctTasks (insert_by_position t ts)
unfolding insert_by_position
DistinctTasks-insert_by_position t [] h d = (refl, tt)
DistinctTasks-insert_by_position t (u ∷ us) h (single, d) =
    ground
      (arith, DistinctTasks-insert_by_position t us, any-insert_by_position (has_task u.id) t us)

DistinctTasks-sort_by_position :
    (ts : List Task) → DistinctTasks ts → DistinctTasks (sort_by_position ts)
unfolding sort_by_position
DistinctTasks-sort_by_position [] d = tt
DistinctTasks-sort_by_position (t ∷ ts) (single, d) =
    DistinctTasks-insert_by_position t (sort_by_position ts)
      (any-sort_by_position (has_task t.id) ts ∙ single) (DistinctTasks-sort_by_position ts d)

pub DistinctTasks-keep :
    (g : Task → Bool) (ts : List Task) → DistinctTasks ts → DistinctTasks (keep g ts)
unfolding keep
DistinctTasks-keep g [] d = tt
DistinctTasks-keep g (t ∷ ts) (single, d) =
    ground (arith, DistinctTasks-keep g ts, any-keep_none (has_task t.id) g ts)

AllQueued-insert_by_position :
    (t : Task) (ts : List Task)
    → is_some t.execution_queue ≡ true
    → AllQueued ts
    → AllQueued (insert_by_position t ts)
unfolding insert_by_position
AllQueued-insert_by_position t [] h q = (h, tt)
AllQueued-insert_by_position t (u ∷ us) h (own, q) =
    ground (arith, AllQueued-insert_by_position t us)

AllQueued-sort_by_position : (ts : List Task) → AllQueued ts → AllQueued (sort_by_position ts)
unfolding sort_by_position
AllQueued-sort_by_position [] q = tt
AllQueued-sort_by_position (t ∷ ts) (own, q) =
    AllQueued-insert_by_position t (sort_by_position ts) own (AllQueued-sort_by_position ts q)

AllQueued-keep :
    (g : Task → Bool) (ts : List Task)
    → ((t : Task) → g t ≡ true → is_some t.execution_queue ≡ true)
    → AllQueued (keep g ts)
unfolding keep
AllQueued-keep g [] h = tt
AllQueued-keep g (t ∷ ts) h = ground (arith, h t, AllQueued-keep g ts h)

-- The list goes up in its positions.
abbrev pub Ascends : List Task → Type 0
Ascends [] = Unit
Ascends (t ∷ ts) = ((u : Task) → In u ts → position t ≤ position u) × Ascends ts

In-insert_by_position :
    (t v : Task) (ts : List Task) → In v (insert_by_position t ts) → (t ≡ v) ⊎ In v ts
unfolding insert_by_position
In-insert_by_position t v [] m = m
In-insert_by_position t v (u ∷ us) m =
    by_test (leb (position t) (position u)) (In-insert_by_position t v us) m
  where
    by_test :
        (b : Bool)
        → (In v (insert_by_position t us) → (t ≡ v) ⊎ In v us)
        → In v (if b then t ∷ u ∷ us else u ∷ insert_by_position t us)
        → (t ≡ v) ⊎ In v (u ∷ us)
    by_test true rest k = k
    by_test false rest (inl e) = inr (inl e)
    by_test false rest (inr k) = elim (rest k) [ inl e ↦ inl e | inr l ↦ inr (inr l) ]

Ascends-insert_by_position :
    (t : Task) (ts : List Task) → Ascends ts → Ascends (insert_by_position t ts)
unfolding insert_by_position
Ascends-insert_by_position t [] s = (λ u m. absurd m, tt)
Ascends-insert_by_position t (u ∷ us) (least, s) =
    elim (Bool-cases (leb (position t) (position u))) [
      | inl e ↦ rw e (
        (λ v m. elim m [
          | inl same ↦ subst (λ (x : Task). position t ≤ position x) same (ground arith)
          | inr k ↦ (let fact = least v k in ground arith)
        ]),
        (least, s),
      )
      | inr e ↦ rw e (
        (λ v m. elim (In-insert_by_position t v us m) [
          | inl same ↦ subst (λ (x : Task). position u ≤ position x) same (ground arith)
          | inr k ↦ least v k
        ]),
        Ascends-insert_by_position t us s,
      )
    ]

pub Ascends-sort_by_position : (ts : List Task) → Ascends (sort_by_position ts)
unfolding sort_by_position
Ascends-sort_by_position [] = tt
Ascends-sort_by_position (t ∷ ts) =
    Ascends-insert_by_position t (sort_by_position ts) (Ascends-sort_by_position ts)

pub sorted-DistinctTasks :
    (g : Task → Bool) (ts : List Task)
    → DistinctTasks ts
    → DistinctTasks (sort_by_position (keep g ts))
sorted-DistinctTasks g ts d = DistinctTasks-sort_by_position (keep g ts) (DistinctTasks-keep g ts d)

pub sorted-AllQueued :
    (g : Task → Bool) (ts : List Task)
    → ((t : Task) → g t ≡ true → is_some t.execution_queue ≡ true)
    → AllQueued (sort_by_position (keep g ts))
sorted-AllQueued g ts h = AllQueued-sort_by_position (keep g ts) (AllQueued-keep g ts h)
