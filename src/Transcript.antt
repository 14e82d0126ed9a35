-- ===== src/Transcript.antt =====
-- The messages of agents in the store (crates/ditch_store/src/lib.rs): `append_message`,
-- `agent_messages_after` and `list_agent_messages`. The table is its rows in the order of their
-- insertion, and a row holds its message rather than the message's JSON text.
pub mod Split
pub mod Pages
pub mod Append
use ditch.Prelude.{
  ℕ, suc, ◌+◌, ◌^◌, ◌==◌, ltb, leb, Bool, true, false, ◌&&◌, Option, none, some, unwrap_or, List,
  [], ◌∷◌, ◌++◌, keep, length, take, member, Text, Result, ok, err, ◌>>=◌, ◌>>◌, reject_if, not,
  if◌then◌else◌,
}
use ditch.Core.{AgentId}
use ditch.Store.{Disk, commit, database_error, read}
use ditch.Runtime.State.{AgentChatMessage}

-- `SequencedAgentMessage`, with the agent whose row it is.
pub record MessageRow : Type 0 where
  pub agent_id : AgentId
  pub sequence : ℕ
  pub message : AgentChatMessage

-- `AgentMessagePage`.
pub record AgentMessagePage : Type 0 where
  pub agent_id : AgentId
  pub messages : List MessageRow
  pub next_before_sequence : Option ℕ
  pub has_more : Bool

abbrev pub of_agent : AgentId → MessageRow → Bool
of_agent id r = r.agent_id == id

-- `COALESCE(MAX(sequence),0)`.
unfoldable pub last_sequence : AgentId → List MessageRow → ℕ
last_sequence id [] = 0
last_sequence id (r ∷ rs) =
    let rest = last_sequence id rs in
    if of_agent id r && ltb rest r.sequence then r.sequence else rest

-- `append_message`. The agent is one of the agents' table.
unfoldable pub append_message :
    Disk → List AgentId → AgentChatMessage → List MessageRow → Result Text (List MessageRow)
append_message disk agents m rows = do
  reject_if (not (member m.agent_id agents)) database_error
  commit disk
  ok (
      rows
      ++ record {
        agent_id = m.agent_id;
        sequence = suc (last_sequence m.agent_id rows);
        message = m;
      }
        ∷ [])

-- `ORDER BY sequence`, and `ORDER BY sequence DESC`: no two rows of an agent share a sequence number.
unfoldable pub insert_by_sequence : MessageRow → List MessageRow → List MessageRow
insert_by_sequence r [] = r ∷ []
insert_by_sequence r (q ∷ qs) =
    let rest = insert_by_sequence r qs in if leb r.sequence q.sequence then r ∷ q ∷ qs else q ∷ rest

unfoldable pub order_by_sequence : List MessageRow → List MessageRow
order_by_sequence [] = []
order_by_sequence (r ∷ rs) = insert_by_sequence r (order_by_sequence rs)

unfoldable pub reverse {ℓ} : {A : Type ℓ} → List A → List A
reverse [] = []
reverse (x ∷ xs) = reverse xs ++ x ∷ []

-- `i64::try_from(n).unwrap_or(i64::MAX)`.
abbrev pub to_i64 : ℕ → ℕ
to_i64 n = if ltb n (2 ^ 63) then n else 0x7fffffffffffffff

abbrev pub is_after : AgentId → ℕ → MessageRow → Bool
is_after id after r = of_agent id r && ltb after r.sequence

-- `agent_messages_after`.
unfoldable pub agent_messages_after :
    Disk → AgentId → ℕ → List MessageRow → Result Text (List MessageRow)
agent_messages_after disk id after rows = do
  read disk
  ok (take 201 (order_by_sequence (keep (is_after id (to_i64 after)) rows)))

-- `limit.clamp(1, 200)`.
abbrev pub clamp : ℕ → ℕ
clamp limit = if ltb limit 1 then 1 else if ltb 200 limit then 200 else limit

abbrev pub is_before : AgentId → ℕ → MessageRow → Bool
is_before id before r = of_agent id r && ltb r.sequence before

abbrev pub first_sequence : List MessageRow → Option ℕ
first_sequence [] = none
first_sequence (r ∷ rs) = some r.sequence

-- The page of the rows that the query gives, the newest first and one more than the limit.
unfoldable pub page_of : AgentId → ℕ → List MessageRow → AgentMessagePage
page_of id limit newest_first =
    let has_more = ltb limit (length newest_first) in
    let messages = reverse (if has_more then take limit newest_first else newest_first) in
    record {
      agent_id = id;
      messages = messages;
      next_before_sequence = if has_more then first_sequence messages else none;
      has_more = has_more;
    }

-- `list_agent_messages`.
abbrev pub newest_first : AgentId → ℕ → ℕ → List MessageRow → List MessageRow
newest_first id before limit rows =
    take (limit + 1) (reverse (order_by_sequence (keep (is_before id before) rows)))

unfoldable pub list_agent_messages :
    Disk → AgentId → Option ℕ → ℕ → List MessageRow → Result Text AgentMessagePage
list_agent_messages disk id before_sequence limit rows = do
  read disk
  ok (
      page_of id (clamp limit) (
        newest_first id (to_i64 (unwrap_or before_sequence 0xffffffffffffffff)) (clamp limit) rows))
