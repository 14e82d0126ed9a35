-- ===== src/Protocol/Operations.antt =====
-- Requests that must not run twice: `handle_operation` (crates/ditchd/src/runtime_shared.rs) and the
-- table `runtime_operations` (crates/ditch_store/src/lib.rs).
pub mod Rows
pub mod Once
use ditch.Prelude.{
  ℕ, ◌==◌, Bool, true, false, not, ◌&&◌, Option, none, some, List, [], ◌∷◌, ◌++◌, any, find,
  is_some, Text, text, text_eq, Result, ok, err, ◌>>=◌, ◌>>◌, reject_if, if◌then◌else◌,
}
use ditch.Core.{Uuid}
use ditch.Store.{Disk, database_error, commit}
use ditch.Protocol.Requests.{ClientRequest}
use ditch.Protocol.Maintenance.{
  Daemon, World, MutationGuard, Admission, acquire_mutation, drop_mutation,
}

-- A row; `id` is the primary key.
pub record Operation : Type 0 where
  pub id : Uuid
  pub request_hash : Text
  pub response_json : Option Text

abbrev pub Operations : Type 0
Operations = List Operation

abbrev pub is_operation : Uuid → Operation → Bool
is_operation id o = o.id == id

-- `operation_outcome`, `reserve_operation` and `finish_operation`.
unfoldable pub operation_outcome : Disk → Uuid → Operations → Result Text (Option Operation)
operation_outcome disk id ops = do
  reject_if (not disk.readable) database_error
  ok (find (is_operation id) ops)

unfoldable pub reserve_operation : Disk → Uuid → Text → Operations → Result Text Operations
reserve_operation disk id hash ops = do
  commit disk
  ok (
      if any (is_operation id) ops
      then ops
      else record { id = id; request_hash = hash; response_json = none } ∷ ops)

unfoldable pub set_response : Uuid → Text → Operations → Operations
set_response id response [] = []
set_response id response (o ∷ ops) =
    (if is_operation id o then record o { response_json = some response } else o)
    ∷ set_response id response ops

unfoldable pub finish_operation : Disk → Uuid → Text → Operations → Result Text Operations
finish_operation disk id response ops = do commit disk; ok (set_response id response ops)

-- `ServerResponse`, its JSON, an error of the protocol, an identity's text, and the hash of a
-- request.
pub record Codec (Response : Type 0) : Type 0 where
  pub hash : ClientRequest → Text
  pub to_string : Response → Text
  pub from_str : Text → Option Response
  pub protocol_error : Text → Text → Response
  pub show_id : Uuid → Text

-- The requests that are tracked.
abbrev pub tracked : ClientRequest → Bool
tracked (ClientRequest.start_remote_codex_app_server_session a b c d e) = true
tracked (ClientRequest.resume_remote_codex_app_server_session a b c d e f) = true
tracked (ClientRequest.prompt_remote_codex_app_server_agent a b c) = true
tracked (ClientRequest.start_codex_session a b c d e f) = true
tracked (ClientRequest.resume_codex_session a b c d e f) = true
tracked (ClientRequest.prompt_agent a b c) = true
tracked (ClientRequest.approve_permission a) = true
tracked (ClientRequest.approve_permission_for_session a) = true
tracked (ClientRequest.deny_permission a b) = true
tracked (ClientRequest.answer_agent_questions a b) = true
tracked (ClientRequest.stop_agent a) = true
tracked (ClientRequest.force_kill_agent a) = true
tracked _ = false

-- What the first critical section decides.
pub data Begun (Response : Type 0) : Type 0 where
  answered : Response → Begun Response
  dispatched : Begun Response

-- `handle_request`, which the lock is free for.
abbrev pub Handler : Type 0 → Type 0
Handler Response = ClientRequest → Daemon → Daemon × Response

pub record Served (Response : Type 0) : Type 0 where
  pub daemon : Daemon
  pub operations : Operations
  pub response : Response

module _ {Response : Type 0} where
  abbrev pub outcome_unknown : Codec Response → Uuid → Response
  outcome_unknown c id = c.protocol_error (text "operation_outcome_unknown") (
      text "Operation "
      ++ (c.show_id id ++ text " may have been accepted; rejoin the agent before sending new work"))

  abbrev pub parsed_or : Response → Option Response → Response
  parsed_or unknown none = unknown
  parsed_or unknown (some r) = r

  unfoldable pub recorded : Codec Response → Uuid → Option Text → Response
  recorded c id none = outcome_unknown c id
  recorded c id (some json) = parsed_or (outcome_unknown c id) (c.from_str json)

  -- The answer to an identity that was used before.
  unfoldable pub retried : Codec Response → Uuid → Text → Operation → Response
  retried c id hash o =
      if text_eq o.request_hash hash
      then recorded c id o.response_json
      else c.protocol_error (text "operation_conflict")
          (text "Request ID was already used for a different operation")

  abbrev pub reserved :
      Codec Response → Operations → Result Text Operations → Operations × Begun Response
  reserved c ops (err e) =
      (ops, Begun.answered (c.protocol_error (text "operation_store_failed") e))
  reserved c ops (ok ops') = (ops', Begun.dispatched)

  unfoldable pub decide :
      Codec Response
      → Disk
      → Uuid
      → Text
      → Operations
      → Result Text (Option Operation)
      → Operations × Begun Response
  decide c disk id hash ops (err e) =
      (ops, Begun.answered (c.protocol_error (text "operation_store_failed") e))
  decide c disk id hash ops (ok (some o)) = (ops, Begun.answered (retried c id hash o))
  decide c disk id hash ops (ok none) = reserved c ops (reserve_operation disk id hash ops)

  unfoldable pub begin_operation :
      Codec Response → Disk → Uuid → Text → Operations → Operations × Begun Response
  begin_operation c disk id hash ops = decide c disk id hash ops (operation_outcome disk id ops)

  unfoldable pub saved_response :
      Codec Response → Uuid → Response → Operations → Result Text Operations → Operations × Response
  saved_response c id response ops (err e) = (
    ops,
    c.protocol_error (text "operation_outcome_unknown") (
        text "Operation "
        ++ (c.show_id id ++ (text " was dispatched but its result could not be saved: " ++ e))),
  )
  saved_response c id response ops (ok ops') = (ops', response)

  -- The last critical section.
  unfoldable pub end_operation :
      Codec Response → Disk → Uuid → Response → Operations → Operations × Response
  end_operation c disk id response ops =
      saved_response c id response ops (finish_operation disk id (c.to_string response) ops)

  unfoldable pub dispatch_once :
      Codec Response
      → Disk
      → Handler Response
      → Uuid
      → ClientRequest
      → Daemon
      → Operations × Begun Response
      → Served Response
  dispatch_once c disk handle id request d (ops, Begun.answered r) = record {
    daemon = d;
    operations = ops;
    response = r;
  }
  dispatch_once c disk handle id request d (ops, Begun.dispatched) =
      let (d', r) = handle request d in
      let (ops', answer) = end_operation c disk id r ops in
      record { daemon = d'; operations = ops'; response = answer }

  unfoldable pub run_untracked :
      Handler Response → ClientRequest → Daemon → Operations → Served Response
  run_untracked handle request d ops =
      let (d', r) = handle request d in record { daemon = d'; operations = ops; response = r }

  unfoldable pub guarded :
      Codec Response
      → Disk
      → Handler Response
      → Uuid
      → ClientRequest
      → Operations
      → Admission
      → Served Response
  guarded c disk handle id request ops (d, err message) = record {
    daemon = d;
    operations = ops;
    response = c.protocol_error (text "remote_maintenance") message;
  }
  guarded c disk handle id request ops (d, ok g) =
      let once =
        dispatch_once c disk handle id request d (begin_operation c disk id (c.hash request) ops) in
      let served = if tracked request then once else run_untracked handle request d ops in
      record served { daemon = drop_mutation g served.daemon }

  -- `handle_operation`, where no other request comes between its critical sections.
  unfoldable pub handle_operation :
      Codec Response
      → World
      → Disk
      → Handler Response
      → Uuid
      → ClientRequest
      → Daemon
      → Operations
      → Served Response
  handle_operation c w disk handle id request d ops =
      guarded c disk handle id request ops (acquire_mutation w request d)
