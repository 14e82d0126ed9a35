-- ===== src/Examples/Stream.antt =====
-- A stream with two events, and a subscriber that had seen the first.
use ditch.Prelude.{
  ℕ, ◌≡◌, refl, false, true, some, List, [], ◌∷◌, ◌++◌, Text, ok, Option, arith, inl,
}
use ditch.Core.{Uuid}
use ditch.Events.{
  Stream, Entry, new_stream, new_channel, broadcast, subscribe_since, initial_lines, lines_after,
}
use ditch.Events.History.{Published, IsLogged, Published-IsLogged, broadcast-IsLogged}
use ditch.Events.Delivery.{subscribers-IsComplete}
use ditch.Events.Replay.{replay-IsComplete}
use ditch.Events.{append_line}
use ditch.Events.{publish}
use ditch.Events.{shrink}
use ditch.Prelude.{byte_len}
use ditch.Prelude.{len_utf8}
use ditch.Events.{try_send}
use ditch.Events.{can_replay}
use ditch.Events.{send_all}

-- The line of an event is its number.
abbrev numbered : Uuid → ℕ → Option Text
numbered id n = some (n ∷ [])

abbrev after_one : Stream
after_one = record (new_stream 6) { next_sequence = 2; replay = (1, 1 ∷ []) ∷ []; replay_bytes = 1 }

first_sent : broadcast false numbered (new_stream 6) ≡ some after_one
unfolding broadcast append_line publish shrink byte_len len_utf8 try_send
first_sent = refl

abbrev joined : Stream
joined = record after_one { subscribers = new_channel after_one ∷ [] }

join_ok : subscribe_since (some (6, 0)) numbered after_one ≡ ok ((1 ∷ []) ∷ [], joined)
unfolding subscribe_since initial_lines can_replay lines_after
join_ok = refl

abbrev after_two : Stream
after_two = record joined {
  next_sequence = 3;
  replay = (1, 1 ∷ []) ∷ (2, 2 ∷ []) ∷ [];
  replay_bytes = 2;
  subscribers = record (new_channel after_one) { waiting = (2 ∷ []) ∷ [] } ∷ [];
}

second_sent : broadcast true numbered joined ≡ some after_two
unfolding broadcast append_line publish shrink byte_len len_utf8 try_send send_all
second_sent = refl

abbrev two_lines : List Entry
two_lines = (1, 1 ∷ []) ∷ (2, 2 ∷ []) ∷ []

sent_one : Published 6 ((1, 1 ∷ []) ∷ []) after_one
sent_one = Published.event Published.start false numbered after_one (omega arith) first_sent

sent_two : Published 6 two_lines after_two
sent_two =
    Published.event
      (Published.subscribed sent_one (some (6, 0)) numbered ((1 ∷ []) ∷ []) joined join_ok) true
      numbered after_two (omega arith) second_sent

broadcast-IsLogged_example :
    (s' : Stream) × (broadcast false numbered after_two ≡ some s')
    × IsLogged (two_lines ++ (3, 3 ∷ []) ∷ []) s'
broadcast-IsLogged_example =
    broadcast-IsLogged false numbered after_two two_lines (Published-IsLogged sent_two)
      (omega arith)

Published-IsLogged_example : IsLogged two_lines after_two
Published-IsLogged_example = Published-IsLogged sent_two

replay-IsComplete_example :
    initial_lines (some (6, 1)) numbered after_two ≡ ok (lines_after 1 two_lines)
unfolding can_replay
replay-IsComplete_example = replay-IsComplete sent_two (some (6, 1)) numbered refl

subscribers-IsComplete_example : (2 ∷ []) ∷ [] ≡ lines_after 1 two_lines
subscribers-IsComplete_example =
    subscribers-IsComplete sent_two (record (new_channel after_one) { waiting = (2 ∷ []) ∷ [] })
      (inl refl)
