-- ===== src/Queue/Execution/Laws.antt =====
-- The pause switch `board_execution_request`, for its own clients and for the claims of the queue.
use ditch.Prelude.{
  ℕ, ◌≡◌, ◌≢◌, refl, sym, ◌∙◌, subst, Bool, true, false, Option, none, some, find, Text, text,
  opt_eq, opt_eq→eq, List, [], ◌∷◌, Result, ok, err, if◌then◌else◌, arith,
}
use ditch.Core.{BoardExecutionState, Project, Task, TaskErrorCode, TaskRequest, TaskResponse}
use ditch.Store.{task_replay, setting, get_setting}
use ditch.Runtime.State.{RuntimeState, Env}
use ditch.Queue.Board.{board_execution}
use ditch.Queue.Claim.{claim_queue}
use ditch.Queue.Claim.Laws.{claim-IsGranted}
use ditch.Queue.Execution.Switch.{stored_ok, switched_ok, next_revision}
use ditch.Queue.Execution.{
  refused, switched, store_execution, control, available, on_project, replay_or,
  board_execution_request,
}

-- What a granted change of the switch did.
pub record IsSwitched (env : Env) (request : TaskRequest) (paused : Bool) (expected : Option ℕ)
    (s s' : RuntimeState) (y : BoardExecutionState) : Type 0 where
  pub project : Project
  pub found : find (available request.project_id) s.projects ≡ some project
  pub before : BoardExecutionState
  pub read : board_execution env s project.id ≡ ok before
  pub current : expected ≡ some before.revision
  pub switch : y.paused ≡ paused
  pub revision : y.revision ≡ next_revision paused before
  pub kept : board_execution env s' project.id ≡ ok y

controlled_ok :
    (env : Env) (request : TaskRequest) (paused : Bool) (expected : Option ℕ) (p : Project)
    (s s' : RuntimeState) (x y : BoardExecutionState)
    → control env request (some paused) expected p s (ok x) ≡ (s', TaskResponse.board_execution y)
    → (expected ≡ some x.revision)
      × (store_execution env request p s (switched paused x) ≡ (s', TaskResponse.board_execution y))
unfolding control
controlled_ok env request paused expected p s s' x y h =
    by_test (opt_eq expected (some x.revision)) refl h
  where
    by_test :
        (b : Bool)
        → opt_eq expected (some x.revision) ≡ b
        → (if b then store_execution env request p s (switched paused x) else (
          s,
          refused TaskErrorCode.revision_conflict
              (text "Board execution changed elsewhere. Refresh its status and try again."),
        ))
          ≡ (s', TaskResponse.board_execution y)
        → (expected ≡ some x.revision)
          × (store_execution env request p s (switched paused x)
              ≡ (s', TaskResponse.board_execution y))
    by_test true e k = (opt_eq→eq expected (some x.revision) e, k)
    by_test false e k = cc

read_back :
    (env : Env) (s : RuntimeState) (id : ℕ) (y : BoardExecutionState)
    → env.disk.readable ≡ true
    → env.parse_execution (env.execution_json y) ≡ ok y
    → get_setting (env.execution_key id) s.store.settings ≡ some (env.execution_json y)
    → board_execution env s id ≡ ok y
unfolding board_execution setting
read_back env s id y readable parsed stored = ground arith

read_ok :
    (env : Env) (s : RuntimeState) (id : ℕ) (x : BoardExecutionState)
    → board_execution env s id ≡ ok x
    → env.disk.readable ≡ true
unfolding board_execution setting
read_ok env s id x h = ground arith

control_unread :
    (env : Env) (request : TaskRequest) (paused : Bool) (expected : Option ℕ) (p : Project)
    (s s' : RuntimeState) (e : Text) (y : BoardExecutionState)
    → control env request (some paused) expected p s (err e) ≡ (s', TaskResponse.board_execution y)
    → ⊥
unfolding control
control_unread env request paused expected p s s' e y h = cc

control_read :
    (env : Env) (request : TaskRequest) (paused : Bool) (expected : Option ℕ) (p : Project)
    (s s' : RuntimeState) (r : Result Text BoardExecutionState) (y : BoardExecutionState)
    → control env request (some paused) expected p s r ≡ (s', TaskResponse.board_execution y)
    → (x : BoardExecutionState) × (r ≡ ok x)
      × (control env request (some paused) expected p s (ok x)
          ≡ (s', TaskResponse.board_execution y))
control_read env request paused expected p s s' (err e) y h =
    absurd (control_unread env request paused expected p s s' e y h)
control_read env request paused expected p s s' (ok x) y h = (x, refl, h)

project_ok :
    (env : Env) (request : TaskRequest) (paused : Bool) (expected : Option ℕ) (s s' : RuntimeState)
    (m : Option Project) (y : BoardExecutionState)
    → on_project env request (some paused) expected s m ≡ (s', TaskResponse.board_execution y)
    → (p : Project) × (x : BoardExecutionState) × (m ≡ some p)
      × (board_execution env s p.id ≡ ok x)
      × (control env request (some paused) expected p s (ok x)
          ≡ (s', TaskResponse.board_execution y))
unfolding on_project
project_ok env request paused expected s s' none y h = cc
project_ok env request paused expected s s' (some p) y h =
    let (x, read, k) =
      control_read env request paused expected p s s' (board_execution env s p.id) y h in
    (p, x, refl, read, k)

-- A request that is no retry and is answered with a switch found an open project of this machine,
-- named the current revision, set the switch as asked, and counted the revision up if the switch
-- changed and not otherwise; the project's switch then reads as answered. The text that serde
-- writes for the answer is one that it reads as the answer.
pub request-IsSwitched :
    (env : Env) (request : TaskRequest) (paused : Bool) (expected : Option ℕ) (s s' : RuntimeState)
    (y : BoardExecutionState)
    → env.parse_execution (env.execution_json y) ≡ ok y
    → task_replay env.to_json env.disk request s.store ≡ ok none
    → board_execution_request env request (some paused) expected s
      ≡ (s', TaskResponse.board_execution y)
    → IsSwitched env request paused expected s s' y
unfolding board_execution_request replay_or
request-IsSwitched env request paused expected s s' y parsed new h =
    let fresh =
      subst
        (λ (r : Result Text (Option TaskResponse)).
          replay_or env request (some paused) expected s r ≡ (s', TaskResponse.board_execution y))
        new h in
    let (p, x, found, read, k) =
      project_ok env request paused expected s s' (find (available request.project_id) s.projects) y
        fresh in
    let (current, stored) = controlled_ok env request paused expected p s s' x y k in
    let (next, key) = stored_ok env request p s s' (switched paused x) y stored in
    let (switch, revision) = switched_ok paused x y next in
    record {
      project = p;
      found = found;
      before = x;
      read = read;
      current = current;
      switch = switch;
      revision = revision;
      kept = read_back env s' p.id y (read_ok env s p.id x read) parsed key;
    }

found-available :
    (f : Project → Bool) (ps : List Project) (p : Project) → find f ps ≡ some p → f p ≡ true
unfolding find
found-available f [] p h = cc
found-available f (q ∷ qs) p h = by_test (f q) refl (found-available f qs p) h
  where
    by_test :
        (b : Bool)
        → f q ≡ b
        → (find f qs ≡ some p → f p ≡ true)
        → (if b then some q else find f qs) ≡ some p
        → f p ≡ true
    by_test true e rest k = let same : q ≡ p = cc in subst (λ (x : Project). f x ≡ true) same e
    by_test false e rest k = rest k

named_project : (named : Option ℕ) (p : Project) → available named p ≡ true → named ≡ some p.id
named_project none p h = cc
named_project (some id) p h = ground arith

-- The switch depends on the settings only.
execution_settings :
    (env : Env) (a b : RuntimeState) (id : ℕ)
    → a.store.settings ≡ b.store.settings
    → board_execution env a id ≡ board_execution env b id
unfolding board_execution setting
execution_settings env a b id same = ground arith

stopped :
    (x y : BoardExecutionState)
    → x.paused ≡ true
    → y.paused ≡ false
    → ◌≡◌ {A = Result Text BoardExecutionState} (ok x) (ok y)
    → ⊥
stopped x y on off h = cc

-- After a pause that was granted to a request that is no retry, no claim of that project gives a
-- task, in whatever later state that has the settings which the request left. The text that serde
-- writes for the answer is one that it reads as the answer.
pub paused_claims :
    (env : Env) (request : TaskRequest) (expected : Option ℕ) (s s' later last : RuntimeState)
    (q : Project) (y : BoardExecutionState) (t : Task)
    → env.parse_execution (env.execution_json y) ≡ ok y
    → task_replay env.to_json env.disk request s.store ≡ ok none
    → board_execution_request env request (some true) expected s
      ≡ (s', TaskResponse.board_execution y)
    → request.project_id ≡ some q.id
    → later.store.settings ≡ s'.store.settings
    → claim_queue env q later ≢ (last, ok (some t))
paused_claims env request expected s s' later last q y t parsed new h own same k =
    let set = request-IsSwitched env request true expected s s' y parsed new h in
    let g = claim-IsGranted env q later last t k in
    let named =
      named_project request.project_id set.project
        (found-available (available request.project_id) s.projects set.project set.found) in
    let id : set.project.id ≡ q.id = ground (arith, sym named ∙ own) in
    let read : board_execution env later q.id ≡ ok y =
      execution_settings env later s' q.id same
      ∙ subst (λ (n : ℕ). board_execution env s' n ≡ ok y) id set.kept in
    stopped y g.execution set.switch g.running (sym read ∙ g.setting)
