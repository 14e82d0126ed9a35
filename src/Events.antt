-- ===== src/Events.antt =====
-- The daemon's event stream: `RuntimeState::broadcast` with its replay buffer and its subscribers,
-- `subscribe_since` and `subscribe_attention` (crates/ditchd/src/runtime_shared.rs).
pub mod Ring
pub mod History
pub mod Delivery
pub mod Replay
use ditch.Prelude.{
  ℕ, zero, suc, ◌+◌, ◌-◌, ◌*◌, ◌%◌, ◌==◌, ltb, leb, u64_mod, Bool, true, false, not, ◌&&◌, ◌||◌,
  Option, none, some, List, [], ◌∷◌, ◌++◌, keep, length, map, Text, byte_len, Result, ok, err,
  ◌>>=◌, if◌then◌else◌,
}
use ditch.Core.{Uuid}

-- A number and a line of the replay buffer.
abbrev pub Entry : Type 0
Entry = ℕ × Text

-- A bounded channel: what its receiver has taken, and what waits. `since` is the number of the last
-- event when the channel was made.
pub record Channel : Type 0 where
  pub since : ℕ
  pub taken : List Text
  pub waiting : List Text
  pub connected : Bool

-- The part of `RuntimeState` that the stream is made of; the front of the buffer comes first.
pub record Stream : Type 0 where
  pub instance_id : Uuid
  pub next_sequence : ℕ
  pub replay : List Entry
  pub replay_bytes : ℕ
  pub subscribers : List Channel
  pub attention_subscribers : List Channel

-- The state of a new runtime; sequences start at 1.
abbrev pub new_stream : Uuid → Stream
new_stream id = record {
  instance_id = id;
  next_sequence = 1;
  replay = [];
  replay_bytes = 0;
  subscribers = [];
  attention_subscribers = [];
}

abbrev pub max_events : ℕ
max_events = 2048

abbrev pub max_bytes : ℕ
max_bytes = 8 * 1024 * 1024

abbrev pub line_of : Entry → Text
line_of (n, line) = line

abbrev pub number_of : Entry → ℕ
number_of (n, line) = n

abbrev pub over : List Entry → ℕ → Bool
over replay bytes = ltb max_events (length replay) || ltb max_bytes bytes

abbrev pub pop_front : List Entry → List Entry
pop_front [] = []
pop_front (e ∷ es) = es

abbrev pub popped_bytes : List Entry → ℕ → ℕ
popped_bytes [] bytes = bytes
popped_bytes (e ∷ es) bytes = bytes - byte_len (line_of e)

abbrev pub Buffer : Type 0
Buffer = List Entry × ℕ

-- The `while` loop, for at most so many rounds.
unfoldable pub shrink : ℕ → List Entry → ℕ → Option Buffer
shrink zero replay bytes = none
shrink (suc rounds) replay bytes =
    let rest = shrink rounds (pop_front replay) (popped_bytes replay bytes) in
    if over replay bytes then rest else some (replay, bytes)

-- `try_send` of a `sync_channel(2048)`; a channel that does not take the line is dropped.
unfoldable pub try_send : Text → List Channel → List Channel
try_send line [] = []
try_send line (c ∷ cs) =
    let live = try_send line cs in
    if c.connected && ltb (length c.waiting) 2048
    then record c { waiting = c.waiting ++ line ∷ [] } ∷ live
    else live

-- `send` of an unbounded channel.
unfoldable pub send_all : Text → List Channel → List Channel
send_all line [] = []
send_all line (c ∷ cs) =
    let live = send_all line cs in
    if c.connected then record c { waiting = c.waiting ++ line ∷ [] } ∷ live else live

unfoldable pub publish : Bool → Text → Stream → Option Buffer → Option Stream
publish attention line s none = none
publish attention line s (some (replay, bytes)) = some (record s {
  replay = replay;
  replay_bytes = bytes;
  subscribers = try_send line s.subscribers;
  attention_subscribers =
      if attention then send_all line s.attention_subscribers else s.attention_subscribers;
})

-- The rest of `broadcast` once the event has its number: a line that cannot be written is skipped.
unfoldable pub append_line : Bool → ℕ → Option Text → Stream → Option Stream
append_line attention n none s = some s
append_line attention n (some line) s =
    let replay = s.replay ++ (n, line) ∷ [] in
    publish attention line s (shrink (suc (length replay)) replay (s.replay_bytes + byte_len line))

-- `broadcast`, from the numbering on. `line` is the text of the event's envelope. There is no state
-- where the loop does not end.
unfoldable pub broadcast : Bool → (Uuid → ℕ → Option Text) → Stream → Option Stream
broadcast attention line s =
    append_line attention s.next_sequence (line s.instance_id s.next_sequence)
      (record s { next_sequence = suc s.next_sequence % u64_mod })

abbrev pub last_sequence : Stream → ℕ
last_sequence s = s.next_sequence - 1

abbrev pub saturating_suc : ℕ → ℕ
saturating_suc n = if ltb (suc n) u64_mod then suc n else n

abbrev pub reaches : ℕ → ℕ → List Entry → Bool
reaches last sequence [] = sequence == last
reaches last sequence (e ∷ es) = leb (number_of e) (saturating_suc sequence)

unfoldable pub can_replay : Stream → Option (Uuid × ℕ) → Bool
can_replay s none = false
can_replay s (some (epoch, sequence)) =
    epoch == s.instance_id
    && leb sequence (last_sequence s)
    && reaches (last_sequence s) sequence s.replay

-- The lines behind a number.
unfoldable pub lines_after : ℕ → List Entry → List Text
lines_after since [] = []
lines_after since (e ∷ es) =
    let rest = lines_after since es in if ltb since (number_of e) then line_of e ∷ rest else rest

abbrev pub cursor_sequence : Option (Uuid × ℕ) → ℕ
cursor_sequence none = 0
cursor_sequence (some (epoch, sequence)) = sequence

abbrev pub snapshot_lines : Option Text → Result Text (List Text)
snapshot_lines none = err []
snapshot_lines (some line) = ok (line ∷ [])

-- The lines that a new subscriber gets first; `snapshot` is the text of a snapshot's envelope.
unfoldable pub initial_lines :
    Option (Uuid × ℕ) → (Uuid → ℕ → Option Text) → Stream → Result Text (List Text)
initial_lines cursor snapshot s =
    if can_replay s cursor
    then ok (lines_after (cursor_sequence cursor) s.replay)
    else snapshot_lines (snapshot s.instance_id (last_sequence s))

abbrev pub new_channel : Stream → Channel
new_channel s = record { since = last_sequence s; taken = []; waiting = []; connected = true }

-- `subscribe_since`, up to the writing of the lines.
unfoldable pub subscribe_since :
    Option (Uuid × ℕ) → (Uuid → ℕ → Option Text) → Stream → Result Text (List Text × Stream)
subscribe_since cursor snapshot s = do
  lines ← initial_lines cursor snapshot s
  ok (lines, record s { subscribers = s.subscribers ++ new_channel s ∷ [] })

-- `subscribe_attention`, up to the writing of the line.
unfoldable pub subscribe_attention :
    (Uuid → ℕ → Option Text) → Stream → Stream × Result Text (List Text)
subscribe_attention snapshot s = (
  record s { attention_subscribers = s.attention_subscribers ++ new_channel s ∷ [] },
  snapshot_lines (snapshot s.instance_id (last_sequence s)),
)

-- A receiver takes the next line of its channel.
abbrev pub received : Channel → List Text → Channel
received c [] = record c { waiting = [] }
received c (line ∷ rest) = record c { taken = c.taken ++ line ∷ []; waiting = rest }

unfoldable pub take_line : Channel → Channel
take_line c = received c c.waiting

unfoldable pub take_at : ℕ → List Channel → List Channel
take_at n [] = []
take_at zero (c ∷ cs) = take_line c ∷ cs
take_at (suc n) (c ∷ cs) = c ∷ take_at n cs

-- A receiver goes away.
unfoldable pub leave_at : ℕ → List Channel → List Channel
leave_at n [] = []
leave_at zero (c ∷ cs) = record c { connected = false } ∷ cs
leave_at (suc n) (c ∷ cs) = c ∷ leave_at n cs
