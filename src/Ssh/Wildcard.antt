-- ===== src/Ssh/Wildcard.antt =====
-- `wildcard_match` (crates/ditch_ssh/src/lib.rs), which chooses the files of an `Include` line. The
-- strings are their bytes, and an index into one is the rest of it from there on. The loop runs on
-- fuel, and `none` says that it is used up.
pub mod Laws
use ditch.Prelude.{
  ℕ, zero, suc, ◌+◌, ◌*◌, ◌==◌, Bool, true, false, ◌&&◌, ◌||◌, Option, none, some, List, [], ◌∷◌,
  length, if◌then◌else◌,
}

abbrev pub Bytes : Type 0
Bytes = List ℕ

-- `*` and `?`.
abbrev pub is_star : ℕ → Bool
is_star b = b == 42

abbrev pub accepts : ℕ → ℕ → Bool
accepts p b = p == 63 || p == b

-- `star` and `checkpoint`: the pattern behind the last star, and the value from its checkpoint on.
abbrev pub Star : Type 0
Star = Option (Bytes × Bytes)

abbrev pub Scan : Type 0
Scan = Bytes → Bytes → Star → Option Bool

-- The last two branches: the star takes one byte more, or the match has failed.
abbrev pub next_checkpoint : Bytes → Bytes
next_checkpoint [] = []
next_checkpoint (b ∷ bs) = bs

abbrev pub backtrack : Scan → Star → Option Bool
backtrack scan none = some false
backtrack scan (some (pattern_rest, checkpoint)) =
    scan pattern_rest (next_checkpoint checkpoint) (some (pattern_rest, next_checkpoint checkpoint))

-- The second loop and the last line.
unfoldable pub only_stars : Bytes → Bool
only_stars [] = true
only_stars (p ∷ ps) = is_star p && only_stars ps

-- One round for a pattern that has not ended.
abbrev pub round : ℕ → ℕ → Option Bool → Option Bool → Option Bool → Option Bool
round p b onward starred again =
    if accepts p b then onward else if is_star p then starred else again

unfoldable pub scan : ℕ → Scan
scan zero pattern value star = none
scan (suc fuel) pattern [] star = some (only_stars pattern)
scan (suc fuel) [] (b ∷ bs) star = backtrack (scan fuel) star
scan (suc fuel) (p ∷ ps) (b ∷ bs) star =
    round p b (scan fuel ps bs star) (scan fuel ps (b ∷ bs) (some (ps, b ∷ bs)))
      (backtrack (scan fuel) star)

-- `wildcard_match`. A star's checkpoint moves at most once for each byte of the value, and between
-- two moves the pattern's index goes up.
unfoldable pub wildcard_match : Bytes → Bytes → Option Bool
wildcard_match pattern value = scan ((length value + 1) * (length pattern + 1)) pattern value none
