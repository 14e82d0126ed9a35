-- ===== src/Protocol/Operations/Once.antt =====
-- A tracked request is dispatched at most once, however requests and their ends interleave.
use ditch.Prelude.{
  ◌≡◌, refl, ap, sym, ◌∙◌, subst, Bool, true, false, not, Option, none, some, List, [], ◌∷◌, any,
  find, In, Text, Result, ok, err, ◌>>=◌, reject_if, ◌==◌, ◌≢◌, ◌++◌, text, text_eq, text_eq→eq,
  text_eq_refl, if◌then◌else◌,
}
use ditch.Core.{Uuid}
use ditch.Store.{Disk, database_error}
use ditch.Protocol.Operations.{
  Operation, Operations, Codec, Begun, is_operation, operation_outcome, reserve_operation,
  set_response, finish_operation, retried, reserved, decide, begin_operation, saved_response,
  end_operation, recorded, parsed_or, outcome_unknown,
}
use ditch.Protocol.Operations.Rows.{
  Ticket, has_ticket, Once, tickets, any-tickets, find_ticket, reserve-tickets, absent_rows,
  read_row, tickets-set_response, Agrees,
}

module _ {Response : Type 0} where
  abbrev pub dispatched_log : Uuid → Text → List Ticket → Begun Response → List Ticket
  dispatched_log id hash log (Begun.answered r) = log
  dispatched_log id hash log Begun.dispatched = (id, hash) ∷ log

  -- The table of a runtime, with the requests that were dispatched, the last one first. A request may
  -- end at any time after it began, and with it others may begin.
  pub data Traffic (c : Codec Response) : List Ticket → Operations → Type 0 where
    start : Traffic c [] []
    begun :
        {log : List Ticket} {ops : Operations}
        → Traffic c log ops
        → (disk : Disk) (id : Uuid) (hash : Text)
        → Traffic c
            (dispatched_log id hash log (begin_operation c disk id hash ops).1)
            (begin_operation c disk id hash ops).0
    ended :
        {log : List Ticket} {ops : Operations}
        → Traffic c log ops
        → (disk : Disk) (id : Uuid) (response : Response)
        → Traffic c log (end_operation c disk id response ops).0

  begun-Agrees :
      (c : Codec Response) (disk : Disk) (id : Uuid) (hash : Text) (log : List Ticket)
      (ops : Operations)
      → Agrees log ops
      → Agrees
          (dispatched_log id hash log (begin_operation c disk id hash ops).1)
          (begin_operation c disk id hash ops).0
  unfolding begin_operation decide
  begun-Agrees c disk id hash log ops (same, once) = by_outcome (operation_outcome disk id ops) refl
    where
      by_reserved :
          (r : Result Text Operations)
          → any (is_operation id) ops ≡ false
          → reserve_operation disk id hash ops ≡ r
          → Agrees (dispatched_log id hash log (reserved c ops r).1) (reserved c ops r).0
      by_reserved (err e) new h = (same, once)
      by_reserved (ok ops') new h =
          let row = reserve-tickets disk id hash ops ops' new h in
          let fresh : any (has_ticket id) log ≡ false =
            subst (λ (l : List Ticket). any (has_ticket id) l ≡ false) same
              (any-tickets id ops ∙ new) in
          (row ∙ ap (λ (l : List Ticket). (id, hash) ∷ l) same, (fresh, once))

      by_outcome :
          (r : Result Text (Option Operation))
          → operation_outcome disk id ops ≡ r
          → Agrees
              (dispatched_log id hash log (decide c disk id hash ops r).1)
              (decide c disk id hash ops r).0
      by_outcome (err e) h = (same, once)
      by_outcome (ok (some o)) h = (same, once)
      by_outcome (ok none) h =
          by_reserved (reserve_operation disk id hash ops) (absent_rows disk id ops h) refl

  ended-tickets :
      (c : Codec Response) (disk : Disk) (id : Uuid) (response : Response) (ops : Operations)
      → tickets (end_operation c disk id response ops).0 ≡ tickets ops
  unfolding end_operation saved_response finish_operation
  ended-tickets c disk id response ops =
      by_written disk.writable (tickets-set_response id (c.to_string response) ops)
    where
      by_written :
          (b : Bool)
          → tickets (set_response id (c.to_string response) ops) ≡ tickets ops
          → tickets
              (saved_response c id response ops (
                (reject_if (not b) database_error) >>= λ done.
                ok (set_response id (c.to_string response) ops))).0
            ≡ tickets ops
      by_written true h = h
      by_written false h = refl

  Traffic-Agrees :
      {c : Codec Response} {log : List Ticket} {ops : Operations}
      → Traffic c log ops
      → Agrees log ops
  Traffic-Agrees Traffic.start = (refl, tt)
  Traffic-Agrees {c} (Traffic.begun {log} {ops} r disk id hash) =
      begun-Agrees c disk id hash log ops (Traffic-Agrees r)
  Traffic-Agrees {c} (Traffic.ended {log} {ops} r disk id response) =
      (ended-tickets c disk id response ops ∙ (Traffic-Agrees r).0, (Traffic-Agrees r).1)

  -- However requests begin and end, and whether the store takes what it is given, no request
  -- identity is dispatched twice.
  pub Traffic-Once :
      {c : Codec Response} {log : List Ticket} {ops : Operations} → Traffic c log ops → Once log
  Traffic-Once r = (Traffic-Agrees r).1

  -- What the same identity is told when a request with the hash `again` follows the one with `hash`,
  -- by what was recorded.
  pub data IsAnswer (c : Codec Response) (id : Uuid) (hash again : Text)
      : Option Text → Response → Type 0 where
    conflict :
        (json : Option Text)
        → again ≢ hash
        → IsAnswer c id hash again json (
            c.protocol_error
              (text "operation_conflict")
              (text "Request ID was already used for a different operation"))
    unfinished :
        again ≡ hash
        → IsAnswer c id hash again none (
            c.protocol_error (text "operation_outcome_unknown") (
              text "Operation "
              ++ (c.show_id id
                  ++ text " may have been accepted; rejoin the agent before sending new work")))
    unreadable :
        (json : Text)
        → again ≡ hash
        → c.from_str json ≡ none
        → IsAnswer c id hash again (some json) (
            c.protocol_error (text "operation_outcome_unknown") (
              text "Operation "
              ++ (c.show_id id
                  ++ text " may have been accepted; rejoin the agent before sending new work")))
    recorded_response :
        (json : Text) (response : Response)
        → again ≡ hash
        → c.from_str json ≡ some response
        → IsAnswer c id hash again (some json) response

  recorded-IsAnswer :
      (c : Codec Response) (id : Uuid) (hash again : Text) (json : Option Text)
      → again ≡ hash
      → IsAnswer c id hash again json (recorded c id json)
  unfolding recorded
  recorded-IsAnswer c id hash again none same = IsAnswer.unfinished same
  recorded-IsAnswer c id hash again (some json) same = by_read (c.from_str json) refl
    where
      by_read :
          (read : Option Response)
          → c.from_str json ≡ read
          → IsAnswer c id hash again (some json) (parsed_or (outcome_unknown c id) read)
      by_read none e = IsAnswer.unreadable json same e
      by_read (some r) e = IsAnswer.recorded_response json r same e

  retried-IsAnswer :
      (c : Codec Response) (id : Uuid) (hash again : Text) (o : Operation)
      → o.request_hash ≡ hash
      → IsAnswer c id hash again o.response_json (retried c id again o)
  unfolding retried
  retried-IsAnswer c id hash again o own = by_test (text_eq o.request_hash again) refl
    where
      by_test :
          (b : Bool)
          → text_eq o.request_hash again ≡ b
          → IsAnswer c id hash again o.response_json (
              if b
              then recorded c id o.response_json
              else c.protocol_error
                  (text "operation_conflict")
                  (text "Request ID was already used for a different operation"))
      by_test true e =
          recorded-IsAnswer c id hash again o.response_json
            (sym (text_eq→eq o.request_hash again e) ∙ own)
      by_test false e = IsAnswer.conflict o.response_json (λ same.
          let equal : text_eq o.request_hash again ≡ true =
            subst (λ (x : Text). text_eq o.request_hash x ≡ true) (own ∙ sym same)
              (text_eq_refl o.request_hash) in
          cc)

  -- A request identity that was dispatched and is used again is answered from its row, while the
  -- store can be read, and the table stays as it is. A request with another hash is told of the
  -- conflict. One with the same hash gets the response that was recorded, or is told that the
  -- outcome is unknown where none was recorded or the record cannot be parsed.
  pub retry-IsAnswered :
      {c : Codec Response} {log : List Ticket} {ops : Operations}
      → Traffic c log ops
      → (disk : Disk) (id : Uuid) (hash again : Text) → disk.readable ≡ true
      → In (id, hash) log
      → (o : Operation) × (r : Response) × (find (λ (q : Operation). q.id == id) ops ≡ some o)
        × (o.request_hash ≡ hash)
        × (begin_operation c disk id again ops ≡ (ops, Begun.answered r))
        × IsAnswer c id hash again o.response_json r
  unfolding begin_operation decide
  retry-IsAnswered {c} {log} {ops} r disk id hash again readable m =
      let (same, once) = Traffic-Agrees r in
      let (o, found, own, first) =
        find_ticket id hash ops (subst (λ (l : List Ticket). In (id, hash) l) (sym same) m)
          (subst (λ (l : List Ticket). Once l) (sym same) once) in
      (
        o,
        retried c id again o,
        found,
        first,
        ap (λ (x : Result Text (Option Operation)). decide c disk id again ops x)
            (read_row disk id ops o readable found),
        retried-IsAnswer c id hash again o first,
      )
