-- ===== src/Examples/Protocol.antt =====
-- A remote daemon between its requests and an upgrade, and a prompt that is sent twice.
use ditch.Prelude.{ℕ, ◌≡◌, refl, false, true, none, some, List, [], ◌∷◌, text, Text, ok, arith, inl}
use ditch.Protocol.Requests.{ClientRequest}
use ditch.Protocol.Maintenance.{
  Daemon, World, acquire_mutation, drop_mutation, remote_maintenance_request,
}
use ditch.Protocol.Maintenance.Leases.{IsExclusive}
use ditch.Protocol.Maintenance.Exclusive.{Life, Life-IsExclusive}
use ditch.Protocol.Operations.{Codec, Begun, Operation, Operations, begin_operation, end_operation}
use ditch.Protocol.Operations.Rows.{Once, Ticket}
use ditch.Protocol.Operations.Once.{IsAnswer, Traffic, Traffic-Once, retry-IsAnswered}
use ditch.Prelude.{find, ◌==◌}
use ditch.Examples.Claims.{calm, idle_board}
use ditch.Examples.Tables.{open_disk}
use ditch.Protocol.Maintenance.{background_work}
use ditch.Protocol.Maintenance.{remote_maintenance_active}
use ditch.Protocol.Operations.{decide}
use ditch.Protocol.Operations.{operation_outcome}
use ditch.Protocol.Operations.{reserve_operation}

abbrev remote_daemon : Daemon
remote_daemon = record {
  runtime = record idle_board { remote_runtime = true };
  instance_id = 4;
  remote_maintenance = none;
  remote_mutations = 0;
  terminals = (31, 1) ∷ [];
  terminal_by_project = (1, 31) ∷ [];
  setup_terminals = [];
  app_server_turns = [];
  remote_launching = [];
}

abbrev at : ℕ → World
at n = record {
  env = calm;
  instant = n;
  upgrade_lock_held = false;
  exited = λ id. false;
  close_sessions = ok tt;
}

abbrev stop_request : ClientRequest
stop_request = ClientRequest.stop_agent 3

-- A request starts and ends, and then an upgrade begins.
abbrev working : Daemon
working = (acquire_mutation (at 10) stop_request remote_daemon).0

abbrev settled : Daemon
settled = drop_mutation (record { counted = true }) working

asked_once : Life remote_daemon 10 1 working
unfolding acquire_mutation background_work remote_maintenance_active
asked_once = Life.asked (Life.fresh 5) (at 10) stop_request (omega arith)

Life-IsExclusive_example :
    IsExclusive 20 0 (remote_maintenance_request (at 20) 4 77 (text "begin") settled).0
Life-IsExclusive_example = Life-IsExclusive refl refl (
    Life.maintained (Life.ended asked_once (record { counted = true }) (omega arith)) (at 20) 4 77
      (text "begin") (omega arith))

-- Responses as text.
abbrev plain : Codec Text
plain = record {
  hash = λ request. text "h";
  to_string = λ r. r;
  from_str = λ json. some json;
  protocol_error = λ code message. code;
  show_id = λ id. id ∷ [];
}

abbrev prompt_log : List Ticket
prompt_log = (5, text "h") ∷ []

abbrev prompted : Operations
prompted =
    (end_operation plain open_disk 5 (text "done")
      (begin_operation plain open_disk 5 (text "h") []).0).0

prompt_sent : Traffic plain prompt_log prompted
unfolding begin_operation decide operation_outcome find reserve_operation
prompt_sent =
    Traffic.ended (Traffic.begun Traffic.start open_disk 5 (text "h")) open_disk 5 (text "done")

Traffic-Once_example : Once prompt_log
Traffic-Once_example = Traffic-Once prompt_sent

retry-IsAnswered_example :
    (o : Operation) × (r : Text) × (find (λ (q : Operation). q.id == 5) prompted ≡ some o)
    × (o.request_hash ≡ text "h")
    × (begin_operation plain open_disk 5 (text "other") prompted ≡ (prompted, Begun.answered r))
    × IsAnswer plain 5 (text "h") (text "other") o.response_json r
retry-IsAnswered_example =
    retry-IsAnswered prompt_sent open_disk 5 (text "h") (text "other") refl (inl refl)
