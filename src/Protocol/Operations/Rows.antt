-- ===== src/Protocol/Operations/Rows.antt =====
-- The rows of the table `runtime_operations` against the requests that were dispatched.
use ditch.Prelude.{
  ℕ, ◌==◌, ==→eq, ◌≡◌, refl, ap, sym, subst, Bool, true, false, not, none, some, List, [], ◌∷◌, any,
  any-false, find, In, inl, inr, Text, ok, >>=-eq-ok, reject_if, if◌then◌else◌, arith,
}
use ditch.Core.{Uuid}
use ditch.Store.{Disk, database_error, commit}
use ditch.Protocol.Operations.{
  Operation, Operations, is_operation, operation_outcome, reserve_operation, set_response,
}

-- The identity and the hash of a request.
abbrev pub Ticket : Type 0
Ticket = Uuid × Text

abbrev pub has_ticket : Uuid → Ticket → Bool
has_ticket id (other, hash) = other == id

-- No identity stands twice.
abbrev pub Once : List Ticket → Type 0
Once [] = Unit
Once ((id, hash) ∷ log) = (any (has_ticket id) log ≡ false) × Once log

abbrev pub tickets : Operations → List Ticket
tickets [] = []
tickets (o ∷ ops) = (o.id, o.request_hash) ∷ tickets ops

pub any-tickets :
    (id : Uuid) (ops : Operations) → any (has_ticket id) (tickets ops) ≡ any (is_operation id) ops
any-tickets id [] = refl
any-tickets id (o ∷ ops) = ground (arith, any-tickets id ops)

pub tickets-set_response :
    (id : Uuid) (response : Text) (ops : Operations)
    → tickets (set_response id response ops) ≡ tickets ops
unfolding set_response
tickets-set_response id response [] = refl
tickets-set_response id response (o ∷ ops) =
    let rest = tickets-set_response id response ops in by_test (is_operation id o) rest
  where
    by_test :
        (b : Bool)
        → tickets (set_response id response ops) ≡ tickets ops
        → tickets (
            (if b then record o { response_json = some response } else o)
            ∷ set_response id response ops)
          ≡ tickets (o ∷ ops)
    by_test true rest = ap (λ (l : List Ticket). (o.id, o.request_hash) ∷ l) rest
    by_test false rest = ap (λ (l : List Ticket). (o.id, o.request_hash) ∷ l) rest

find-none :
    (id : Uuid) (ops : Operations)
    → find (is_operation id) ops ≡ none
    → any (is_operation id) ops ≡ false
unfolding find
find-none id [] h = refl
find-none id (o ∷ ops) h = ground (arith, find-none id ops)

twice :
    (id : Uuid) (hash : Text) (log : List Ticket)
    → any (has_ticket id) log ≡ false
    → In (id, hash) log
    → ⊥
twice id hash log h m = (let gone = any-false (has_ticket id) log (id, hash) h m in ground arith)

pub find_ticket :
    (id : Uuid) (hash : Text) (ops : Operations)
    → In (id, hash) (tickets ops)
    → Once (tickets ops)
    → (o : Operation) × (find (is_operation id) ops ≡ some o)
      × (o.id ≡ id)
      × (o.request_hash ≡ hash)
unfolding find
find_ticket id hash [] m once = absurd m
find_ticket id hash (o ∷ ops) (inl e) (single, once) =
    let same : o.id ≡ id = cc in (o, ground arith, same, cc)
find_ticket id hash (o ∷ ops) (inr m) (single, once) =
    by_test (o.id == id) refl (find_ticket id hash ops m once)
  where
    by_test :
        (b : Bool)
        → (o.id == id) ≡ b
        → (p : Operation) × (find (is_operation id) ops ≡ some p)
          × (p.id ≡ id)
          × (p.request_hash ≡ hash)
        → (p : Operation) × ((if b then some o else find (is_operation id) ops) ≡ some p)
          × (p.id ≡ id)
          × (p.request_hash ≡ hash)
    by_test true e rest = absurd (
        twice id hash (tickets ops)
          (subst (λ (k : ℕ). any (has_ticket k) (tickets ops) ≡ false) (==→eq o.id id e) single) m)
    by_test false e rest = rest

pub reserve-tickets :
    (disk : Disk) (id : Uuid) (hash : Text) (ops ops' : Operations)
    → any (is_operation id) ops ≡ false
    → reserve_operation disk id hash ops ≡ ok ops'
    → tickets ops' ≡ (id, hash) ∷ tickets ops
unfolding reserve_operation
reserve-tickets disk id hash ops ops' new h =
    let (u, written, h1) = >>=-eq-ok (commit disk) _ h in
    let same : record { id = id; request_hash = hash; response_json = none } ∷ ops ≡ ops' =
      ground arith in
    ap (λ (x : Operations). tickets x) (sym same)

pub absent_rows :
    (disk : Disk) (id : Uuid) (ops : Operations)
    → operation_outcome disk id ops ≡ ok none
    → any (is_operation id) ops ≡ false
unfolding operation_outcome
absent_rows disk id ops h =
    let (u, read, h1) = >>=-eq-ok (reject_if (not disk.readable) database_error) _ h in
    let absent : find (is_operation id) ops ≡ none = cc in find-none id ops absent

pub read_row :
    (disk : Disk) (id : Uuid) (ops : Operations) (o : Operation)
    → disk.readable ≡ true
    → find (is_operation id) ops ≡ some o
    → operation_outcome disk id ops ≡ ok (some o)
unfolding operation_outcome
read_row disk id ops o h f = ground arith

-- What begins agrees with the log: the table holds exactly the requests that were dispatched.
abbrev pub Agrees : List Ticket → Operations → Type 0
Agrees log ops = (tickets ops ≡ log) × Once log
