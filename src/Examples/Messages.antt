-- ===== src/Examples/Messages.antt =====
-- A transcript of three messages, read in pages of two.
use ditch.Prelude.{
  ℕ, ◌≡◌, refl, true, some, none, List, [], ◌∷◌, all, keep, length, ok, suc, take, member,
}
use ditch.Runtime.State.{AgentChatMessage, AgentChatRole}
use ditch.Transcript.{
  MessageRow, append_message, last_sequence, of_agent, list_agent_messages, page_of, reverse,
  order_by_sequence, insert_by_sequence,
}
use ditch.Transcript.Split.{below}
use ditch.Transcript.Pages.{read_back}
use ditch.Transcript.Append.{Appends, nothing, append, append_message-read_back}
use ditch.Examples.Tables.{open_disk}

abbrev message_at : ℕ → ℕ → AgentChatMessage
message_at agent time = record {
  agent_id = agent;
  role = AgentChatRole.user;
  text = [];
  created_at = time;
}

abbrev row_at : ℕ → ℕ → ℕ → MessageRow
row_at agent n time = record { agent_id = agent; sequence = n; message = message_at agent time }

abbrev four_rows : List MessageRow
four_rows = row_at 4 1 10 ∷ row_at 4 2 11 ∷ row_at 5 1 12 ∷ row_at 4 3 13 ∷ []

first_ok : append_message open_disk (4 ∷ 5 ∷ []) (message_at 4 10) [] ≡ ok (row_at 4 1 10 ∷ [])
unfolding append_message last_sequence member
first_ok = refl

second_ok :
    append_message open_disk (4 ∷ 5 ∷ []) (message_at 4 11) (row_at 4 1 10 ∷ [])
    ≡ ok (row_at 4 1 10 ∷ row_at 4 2 11 ∷ [])
unfolding append_message last_sequence member
second_ok = refl

third_ok :
    append_message open_disk (4 ∷ 5 ∷ []) (message_at 5 12) (row_at 4 1 10 ∷ row_at 4 2 11 ∷ [])
    ≡ ok (row_at 4 1 10 ∷ row_at 4 2 11 ∷ row_at 5 1 12 ∷ [])
unfolding append_message last_sequence member
third_ok = refl

fourth_ok :
    append_message open_disk
      (4 ∷ 5 ∷ [])
      (message_at 4 13)
      (row_at 4 1 10 ∷ row_at 4 2 11 ∷ row_at 5 1 12 ∷ [])
    ≡ ok four_rows
unfolding append_message last_sequence member
fourth_ok = refl

made : Appends (4 ∷ 5 ∷ []) four_rows
made =
    append open_disk (message_at 4 13)
      (append open_disk (message_at 5 12)
        (append open_disk (message_at 4 11) (append open_disk (message_at 4 10) nothing first_ok)
          second_ok)
        third_ok)
      fourth_ok

all_small : all (below 0x7fffffffffffffff) (keep (of_agent 4) four_rows) ≡ true
unfolding keep
all_small = refl

append_message-read_back_example :
    read_back (suc (length (keep (of_agent 4) four_rows))) open_disk 4 2 four_rows none
    ≡ some (keep (of_agent 4) four_rows)
append_message-read_back_example =
    append_message-read_back (4 ∷ 5 ∷ []) open_disk 4 2 four_rows made refl all_small

two_pages :
    read_back 2 open_disk 4 2 four_rows none
    ≡ some (row_at 4 1 10 ∷ row_at 4 2 11 ∷ row_at 4 3 13 ∷ [])
unfolding read_back list_agent_messages page_of take reverse order_by_sequence keep
    insert_by_sequence
two_pages = refl
