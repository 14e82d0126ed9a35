-- ===== src/SessionTitle.antt =====
-- The titles of sessions (crates/ditch_core/src/session_title.rs).
pub mod Limit
use ditch.Prelude.{
  ℕ, ◌+◌, ltb, leb, Bool, Option, none, some, List, [], ◌∷◌, ◌++◌, is_empty, or_else, unwrap_or,
  Text, text, is_whitespace, trim_end, if◌then◌else◌,
}
use ditch.Core.{AgentRun}

abbrev pub session_title_max_utf16 : ℕ
session_title_max_utf16 = 240

abbrev pub session_title_pending : Text
session_title_pending = text "Naming session…"

abbrev pub session_title_failed : Text
session_title_failed = text "Unnamed session"

-- `char::len_utf16`, and the length of a text in UTF-16 units.
abbrev pub len_utf16 : ℕ → ℕ
len_utf16 c = if ltb c 0x10000 then 1 else 2

abbrev pub utf16_len : Text → ℕ
utf16_len [] = 0
utf16_len (c ∷ cs) = len_utf16 c + utf16_len cs

-- `split_whitespace`: the words between white space, the word that has begun first.
abbrev pub add_word : Text → List Text → List Text
add_word word words = if is_empty word then words else word ∷ words

unfoldable pub words_from : Text → Text → List Text
words_from word [] = add_word word []
words_from word (c ∷ cs) =
    let between = words_from [] cs in
    let inside = words_from (word ++ c ∷ []) cs in
    if is_whitespace c then add_word word between else inside

abbrev pub spaced_words : List Text → Text
spaced_words [] = []
spaced_words (w ∷ ws) = b' ' ∷ (w ++ spaced_words ws)

-- `join(" ")`.
abbrev pub join : List Text → Text
join [] = []
join (w ∷ ws) = w ++ spaced_words ws

-- The `take_while`, with the units so far.
unfoldable pub take_units : ℕ → Text → Text
take_units units [] = []
take_units units (c ∷ cs) =
    let rest = take_units (units + len_utf16 c) cs in
    if leb (units + len_utf16 c) session_title_max_utf16 then c ∷ rest else []

abbrev pub unless_empty : Text → Option Text
unless_empty t = if is_empty t then none else some t

-- `normalize_session_title`.
unfoldable pub normalize_session_title : Text → Option Text
normalize_session_title value = unless_empty (trim_end (take_units 0 (join (words_from [] value))))

abbrev pub normalized : Option Text → Option Text
normalized none = none
normalized (some t) = normalize_session_title t

-- `display_name` and `session_display_name`.
unfoldable pub display_name : AgentRun → Text
display_name run =
    unwrap_or (or_else (normalized run.user_title) (normalized run.codex_title))
      (if run.naming_failed then session_title_failed else session_title_pending)

unfoldable pub session_display_name : Option Text → Option Text → Text
session_display_name user_title codex_name =
    unwrap_or (or_else (normalized user_title) (normalized codex_name)) session_title_pending
