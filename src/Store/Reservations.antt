-- ===== src/Store/Reservations.antt =====
-- The table `writer_reservations` (crates/ditch_store/src/tasks.rs); `agent_id` is its primary key.
use ditch.Prelude.{
  ℕ, ◌==◌, Bool, true, false, not, ◌&&◌, Option, none, some, List, [], ◌∷◌, any, keep, Text, text,
  if◌then◌else◌, Result, ok, ◌>>=◌, ◌>>◌, reject_if,
}
use ditch.Core.{AgentId, WorkspaceLease}
use ditch.Store.{Store, Disk, Reservation, database_error, commit}

abbrev pub owned_by : AgentId → Reservation → Bool
owned_by id r = r.agent_id == id

-- `reserve_writer`.
unfoldable pub reserve_writer : Disk → AgentId → WorkspaceLease → Store → Result Text Store
reserve_writer disk id lease s = do
  reject_if (any (owned_by id) s.reservations) database_error
  commit disk
  ok (record s {
    reservations =
        record { agent_id = id; lease = lease; process_group_id = none; validator = false }
        ∷ s.reservations;
  })

unfoldable pub update_rows :
    AgentId → (Reservation → Reservation) → List Reservation → List Reservation
update_rows id f [] = []
update_rows id f (r ∷ rs) = (if owned_by id r then f r else r) ∷ update_rows id f rs

abbrev pub update_reservation :
    Disk → AgentId → (Reservation → Reservation) → Store → Result Text Store
update_reservation disk id f s = do
  commit disk
  ok (record s { reservations = update_rows id f s.reservations })

-- `writer_stopped`, `validator_started` and `writer_started`.
unfoldable pub writer_stopped : Disk → AgentId → Store → Result Text Store
writer_stopped disk id =
    update_reservation disk id (λ r. record r { process_group_id = none; validator = false })

unfoldable pub validator_started : Disk → AgentId → ℕ → Store → Result Text Store
validator_started disk id pid =
    update_reservation disk id (λ r. record r { process_group_id = some pid; validator = true })

unfoldable pub writer_started : Disk → AgentId → ℕ → Store → Result Text Store
writer_started disk id pid =
    update_reservation disk id (λ r. record r { process_group_id = some pid; validator = false })

-- `transfer_writer`: the new key must be free if the old one is in use.
unfoldable pub transfer_writer : Disk → AgentId → AgentId → Store → Result Text Store
transfer_writer disk old new s = do
  reject_if
      (any (owned_by old) s.reservations && any (owned_by new) s.reservations && not (old == new))
      database_error
  update_reservation disk old (λ r. record r { agent_id = new }) s

-- `release_writer`.
unfoldable pub release_writer : Disk → AgentId → Store → Result Text Store
release_writer disk id s = do
  commit disk
  ok (record s { reservations = keep (λ r. not (owned_by id r)) s.reservations })

-- `update_writer_lease`.
unfoldable pub update_writer_lease : Disk → AgentId → WorkspaceLease → Store → Result Text Store
update_writer_lease disk id lease s = do
  s' ← update_reservation disk id (λ r. record r { lease = lease }) s
  reject_if (not (any (owned_by id) s.reservations)) (text "Writer reservation is missing")
  ok s'

-- The process group that `writer_reservations` finds for an agent.
unfoldable pub reserved_group : AgentId → List Reservation → Option ℕ
reserved_group id [] = none
reserved_group id (r ∷ rs) =
    let rest = reserved_group id rs in
    if owned_by id r then elim r.process_group_id [ none ↦ rest | some pid ↦ some pid ] else rest
