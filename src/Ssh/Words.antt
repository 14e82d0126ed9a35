-- ===== src/Ssh/Words.antt =====
-- Words without quotes, escapes and white space, and how they are read back.
use ditch.Prelude.{
  ℕ, ◌==◌, ◌≡◌, refl, ap, sym, ◌∙◌, Bool, true, false, not, ◌&&◌, none, List, [], ◌∷◌, ◌++◌, all,
  is_empty, Text, is_whitespace, arith,
}
use ditch.Ssh.{Splitter, read_character, read_characters, finished, split_words, is_quote}

abbrev pub is_plain : ℕ → Bool
is_plain c = not (is_whitespace c) && not (c == b'\\') && not (is_quote c)

-- A splitter between words, or in a word that is neither quoted nor escaped.
abbrev bare : List Text → Text → Splitter
bare words word = record { words = words; word = word; quote = none; escaped = false }

append_assoc : (a b c : Text) → (a ++ b) ++ c ≡ a ++ (b ++ c)
append_assoc [] b c = refl
append_assoc (x ∷ a) b c = ap (λ (t : Text). x ∷ t) (append_assoc a b c)

append_nil : (a : Text) → a ++ [] ≡ a
append_nil [] = refl
append_nil (x ∷ a) = ap (λ (t : Text). x ∷ t) (append_nil a)

read_plain :
    (words : List Text) (word : Text) (c : ℕ)
    → is_plain c ≡ true
    → read_character (bare words word) c ≡ bare words (word ++ c ∷ [])
unfolding read_character
read_plain words word c h = ground arith

-- A plain word is read into the splitter.
read_word :
    (words : List Text) (word w rest : Text)
    → all is_plain w ≡ true
    → read_characters (bare words word) (w ++ rest) ≡ read_characters (bare words (word ++ w)) rest
unfolding read_characters
read_word words word [] rest h =
    ap (λ (t : Text). read_characters (bare words t) rest) (sym (append_nil word))
read_word words word (c ∷ cs) rest h =
    ap (λ (s : Splitter). read_characters s (cs ++ rest)) (read_plain words word c (ground arith))
    ∙ read_word words (word ++ c ∷ []) cs rest (ground arith)
    ∙ ap (λ (t : Text). read_characters (bare words t) rest) (append_assoc word (c ∷ []) cs)

-- The words behind the first, each behind a space.
abbrev pub spaced : List Text → Text
spaced [] = []
spaced (w ∷ ws) = b' ' ∷ (w ++ spaced ws)

abbrev pub is_plain_word : Text → Bool
is_plain_word w = not (is_empty w) && all is_plain w

append_words : (a b c : List Text) → (a ++ b) ++ c ≡ a ++ (b ++ c)
append_words [] b c = refl
append_words (x ∷ a) b c = ap (λ (t : List Text). x ∷ t) (append_words a b c)

read_space :
    (words : List Text) (word : Text)
    → is_empty word ≡ false
    → read_character (bare words word) b' ' ≡ bare (words ++ word ∷ []) []
unfolding read_character is_whitespace
read_space words word h = ground arith

read_spaced :
    (words : List Text) (word : Text) (ws : List Text)
    → is_empty word ≡ false
    → all is_plain_word ws ≡ true
    → finished (read_characters (bare words word) (spaced ws)) ≡ words ++ word ∷ ws
unfolding read_characters
read_spaced words word [] h p = ground arith
read_spaced words word (w ∷ ws) h p =
    ap (λ (s : Splitter). finished (read_characters s (w ++ spaced ws))) (read_space words word h)
    ∙ ap (λ (s : Splitter). finished s)
        (read_word (words ++ word ∷ []) [] w (spaced ws) (ground arith))
    ∙ read_spaced (words ++ word ∷ []) w ws (ground arith) (ground arith)
    ∙ append_words words (word ∷ []) (w ∷ ws)

-- Words that are not empty and have no white space, quote or backslash are split again as they were,
-- when they stand behind each other with a space between.
pub split_words-spaced :
    (w : Text) (ws : List Text)
    → is_plain_word w ≡ true
    → all is_plain_word ws ≡ true
    → split_words (w ++ spaced ws) ≡ w ∷ ws
unfolding split_words
split_words-spaced w ws h p =
    ap (λ (s : Splitter). finished s) (read_word [] [] w (spaced ws) (ground arith))
    ∙ read_spaced [] w ws (ground arith) p
