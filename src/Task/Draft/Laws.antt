-- ===== src/Task/Draft/Laws.antt =====
-- What an admitted draft becomes.
use ditch.Prelude.{
  ℕ, ◌≤◌, ◌≡◌, Bool, false, none, List, [], ◌∷◌, any, length, In, refl, inl, inr, ◌≢◌, ◌↔◌, Text,
  byte_len, trim, is_blank, trim-trim, byte_len-trim-le, ◌>>◌, ok, Result, err, arith,
}
use ditch.Core.{
  Time, ProjectId, TaskId, Task, TaskDraft, TaskState, TaskColumn, TaskCondition, TaskError,
}
use ditch.Task.Basics.{column, waiting_in_queue}
use ditch.Task.Draft.{validate, bad_criterion, new_task, new_backlog_task, fresh_task}

-- The limits that `TaskDraft::validate` promises.
pub record IsValidDraft (d : TaskDraft) : Type 0 where
  pub title : is_blank d.title ≡ false
  pub title_size : byte_len d.title ≤ 512
  pub description : byte_len d.description ≤ 65536
  pub criteria : length d.acceptance_criteria ≤ 100
  pub criterion :
      (c : Text) → In c d.acceptance_criteria → (is_blank c ≡ false) × (byte_len c ≤ 4096)

criterion_ok :
    (xs : List Text)
    → any bad_criterion xs ≡ false
    → (c : Text) → In c xs
    → (is_blank c ≡ false) × (byte_len c ≤ 4096)
unfolding bad_criterion
criterion_ok [] h c m = elim m [ ]
criterion_ok (x ∷ xs) h c m = elim m [
  | inl e ↦ rw (← e) (ground arith)
  | inr later ↦ criterion_ok xs (ground arith) c later
]

criterion_bad :
    (xs : List Text)
    → ((c : Text) → In c xs → (is_blank c ≡ false) × (byte_len c ≤ 4096))
    → any bad_criterion xs ≡ false
unfolding bad_criterion
criterion_bad [] h = refl
criterion_bad (x ∷ xs) h = ground (arith, h x (inl refl), criterion_bad xs (λ c m. h c (inr m)))

-- A draft is admitted exactly when its title is not blank and has at most 512 bytes, its description
-- has at most 64 KiB, and it has at most 100 criteria, none of them blank or above 4096 bytes.
pub validate-IsValidDraft : (d : TaskDraft) → (validate d ≡ ok tt) ↔ IsValidDraft d
unfolding validate
validate-IsValidDraft d = (
  λ h. record {
    title = ground arith;
    title_size = ground arith;
    description = ground arith;
    criteria = ground arith;
    criterion = criterion_ok d.acceptance_criteria (ground arith);
  },
  λ v. ground (arith, criterion_bad d.acceptance_criteria v.criterion),
)

validated : (r : Result TaskError (Unit {0})) (t : Task) {u : Task} → (r >> ok t) ≡ ok u → r ≡ ok tt
validated (ok tt) t h = refl
validated (err e) t h = cc

-- What every task is when it enters the board.
pub record IsFresh (t : Task) : Type 0 where
  pub titled : t.title ≢ []
  pub trimmed : trim t.title ≡ t.title
  pub title_size : byte_len t.title ≤ 512
  pub revision : t.revision ≡ 1
  pub idle : t.condition ≡ TaskCondition.idle
  pub unassigned : t.assigned_agent_id ≡ none
  pub unreviewed : t.review_summary ≡ none
  pub waiting : waiting_in_queue t ≡ false

IsFresh-IsFresh :
    (now : Time) (id : TaskId) (project_id : ProjectId) (d : TaskDraft) (order_key : ℕ)
    (state : TaskState) (pending : Bool)
    → IsValidDraft d
    → IsFresh (record (fresh_task now id project_id d order_key) {
      state = state;
      remote_pending = pending;
    })
unfolding fresh_task is_blank waiting_in_queue
IsFresh-IsFresh now id project_id d order_key state pending v = record {
  titled = λ e. ground arith;
  trimmed = trim-trim d.title;
  title_size = omega (arith, byte_len-trim-le d.title, v.title_size);
  revision = refl;
  idle = refl;
  unassigned = refl;
  unreviewed = refl;
  waiting = refl;
}

-- A task that `Task::new` or the backlog admission makes has a trimmed title of 1 to 512 bytes, is
-- at revision 1, idle, unassigned, unreviewed and in no queue; it stands in Todo or in Backlog.
pub new-IsFresh :
    (now : Time) (id : TaskId) (project_id : ProjectId) (d : TaskDraft) (order_key : ℕ)
    (pending : Bool) (t u : Task)
    → new_task now id project_id d order_key ≡ ok t
    → new_backlog_task now id project_id d order_key pending ≡ ok u
    → (IsFresh t × (column t ≡ TaskColumn.todo)) × (IsFresh u × (column u ≡ TaskColumn.backlog))
unfolding new_task new_backlog_task
new-IsFresh now id project_id d order_key pending t u h k =
    let v = (validate-IsValidDraft d).0 (validated (validate d) _ h) in
    let e : t ≡ fresh_task now id project_id d order_key = ground arith in
    let f : u ≡ record (fresh_task now id project_id d order_key) {
      state = TaskState.backlog;
      remote_pending = pending;
    } =
      ground arith in
    (
      (
        rw e (
            unfold fresh_task in
            IsFresh-IsFresh now id project_id d order_key TaskState.ready false v),
        rw e (unfold fresh_task in refl),
      ),
      (rw f (IsFresh-IsFresh now id project_id d order_key TaskState.backlog pending v), rw f refl),
    )
