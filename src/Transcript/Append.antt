-- ===== src/Transcript/Append.antt =====
-- A new message stands behind the others of its agent.
use ditch.Prelude.{
  ℕ, suc, ◌<◌, ◌==◌, ==→eq, ◌≡◌, refl, sym, subst, Bool, true, false, not, List, [], ◌∷◌, ◌++◌,
  none, some, length, all, keep, member, ok, >>=-eq-ok, reject_if, arith, if◌then◌else◌,
}
use ditch.Core.{AgentId}
use ditch.Store.{Disk, commit}
use ditch.Runtime.State.{AgentChatMessage}
use ditch.Transcript.{MessageRow, append_message, last_sequence, of_agent}
use ditch.Transcript.Split.{append_nil, GoesUp, above, below}
use ditch.Transcript.Pages.{list_agent_messages_complete, read_back}

-- The rows of an agent, with one row more.
abbrev appended : List MessageRow → AgentChatMessage → List MessageRow
appended rows m =
    rows
    ++ record { agent_id = m.agent_id; sequence = suc (last_sequence m.agent_id rows); message = m }
      ∷ []

bounded :
    (id : AgentId) (k : ℕ) (rows : List MessageRow)
    → last_sequence id rows < k
    → all (below k) (keep (of_agent id) rows) ≡ true
unfolding last_sequence keep
bounded id k [] h = refl
bounded id k (r ∷ rs) h = ground (arith, bounded id k rs)

keep-append :
    (f : MessageRow → Bool) (xs ys : List MessageRow) → keep f (xs ++ ys) ≡ keep f xs ++ keep f ys
unfolding keep
keep-append f [] ys = refl
keep-append f (x ∷ xs) ys = ground (arith, keep-append f xs ys)

all-end :
    (f : MessageRow → Bool) (xs : List MessageRow) (r : MessageRow)
    → all f xs ≡ true
    → f r ≡ true
    → all f (xs ++ r ∷ []) ≡ true
all-end f [] r h k = ground arith
all-end f (x ∷ xs) r h k = ground (arith, all-end f xs r)

GoesUp-end :
    (xs : List MessageRow) (r : MessageRow)
    → GoesUp xs
    → all (below r.sequence) xs ≡ true
    → GoesUp (xs ++ r ∷ [])
GoesUp-end [] r up h = (refl, tt)
GoesUp-end (x ∷ xs) r (first, up) h =
    (all-end (above x.sequence) xs r first (ground arith), GoesUp-end xs r up (ground arith))

appended-GoesUp :
    (id : AgentId) (m : AgentChatMessage) (rows : List MessageRow)
    → GoesUp (keep (of_agent id) rows)
    → GoesUp (keep (of_agent id) (appended rows m))
unfolding keep
appended-GoesUp id m rows up =
    subst GoesUp (sym (keep-append (of_agent id) rows _)) (by_test (m.agent_id == id) refl)
  where
    new : MessageRow
    new = record {
      agent_id = m.agent_id;
      sequence = suc (last_sequence m.agent_id rows);
      message = m;
    }

    by_test :
        (b : Bool)
        → (m.agent_id == id) ≡ b
        → GoesUp (keep (of_agent id) rows ++ (if b then new ∷ [] else []))
    by_test true e = GoesUp-end (keep (of_agent id) rows) new up (
        subst
          (λ k. all (below (suc (last_sequence m.agent_id rows))) (keep (of_agent k) rows) ≡ true)
          (==→eq m.agent_id id e)
          (bounded m.agent_id (suc (last_sequence m.agent_id rows)) rows (omega arith)))
    by_test false e = subst GoesUp (sym (append_nil (keep (of_agent id) rows))) up

append_message-GoesUp :
    (disk : Disk) (agents : List AgentId) (m : AgentChatMessage) (rows rows' : List MessageRow)
    (id : AgentId)
    → append_message disk agents m rows ≡ ok rows'
    → GoesUp (keep (of_agent id) rows)
    → GoesUp (keep (of_agent id) rows')
unfolding append_message
append_message-GoesUp disk agents m rows rows' id h up =
    let (u1, known, h1) = >>=-eq-ok (reject_if (not (member m.agent_id agents)) _) _ h in
    let (u2, written, h2) = >>=-eq-ok (commit disk) _ h1 in
    let same : appended rows m ≡ rows' = cc in
    subst (λ (l : List MessageRow). GoesUp (keep (of_agent id) l)) same
      (appended-GoesUp id m rows up)

-- The tables that appends make of an empty one.
pub data Appends (agents : List AgentId) : List MessageRow → Type 0 where
  nothing : Appends agents []
  append :
      {rows rows' : List MessageRow} (disk : Disk) (m : AgentChatMessage)
      → Appends agents rows
      → append_message disk agents m rows ≡ ok rows'
      → Appends agents rows'

Appends-GoesUp :
    (agents : List AgentId) (rows : List MessageRow) (id : AgentId)
    → Appends agents rows
    → GoesUp (keep (of_agent id) rows)
unfolding keep
Appends-GoesUp agents rows id nothing = tt
Appends-GoesUp agents rows id (append disk m before done) =
    append_message-GoesUp disk agents m _ _ id done (Appends-GoesUp agents _ id before)

-- Where a table was made by appends, the database is readable and the agent's sequence numbers are
-- below the largest `i64`, a reader who starts at the agent's newest page and follows
-- `next_before_sequence`, with whatever limit, reaches the beginning, within one round more than
-- there are messages, and has then read exactly the agent's messages, each once and in their order.
pub append_message-read_back :
    (agents : List AgentId) (disk : Disk) (id : AgentId) (limit : ℕ) (rows : List MessageRow)
    → Appends agents rows
    → disk.readable ≡ true
    → all (below 0x7fffffffffffffff) (keep (of_agent id) rows) ≡ true
    → read_back (suc (length (keep (of_agent id) rows))) disk id limit rows none
      ≡ some (keep (of_agent id) rows)
append_message-read_back agents disk id limit rows made readable small =
    list_agent_messages_complete disk id limit rows readable (Appends-GoesUp agents rows id made)
      small
