-- ===== src/Prelude/Trim.antt =====
-- Laws of `str::trim` and its halves.
use Prim.Native.Nat.{◌≤◌}
use mathlib.Core.Path.{◌≡◌, refl, ap, ◌∙◌}
use mathlib.Core.Logic.{inl, inr}
use mathlib.Core.Bool.{false, ◌&&◌}
use mathlib.Core.List.{[], ◌∷◌}
use native.Mathlib.Omega.{arith}
use ditch.Prelude.Tests.{Bool-cases}
use ditch.Prelude.Lists.{is_empty}
use ditch.Prelude.Strings.{Text, is_whitespace, byte_len, trim_start, trim_end, trim}

-- A text that begins with no white space.
abbrev pub Starts : Text → Type 0
Starts [] = Unit
Starts (c ∷ cs) = is_whitespace c ≡ false

trim_start-Starts : (s : Text) → Starts (trim_start s)
unfolding trim_start
trim_start-Starts [] = tt
trim_start-Starts (c ∷ cs) = elim (Bool-cases (is_whitespace c)) [
  | inl w ↦ rw w (trim_start-Starts cs)
  | inr n ↦ rw n n
]

trim_start_of_Starts : (s : Text) → Starts s → trim_start s ≡ s
unfolding trim_start
trim_start_of_Starts [] h = refl
trim_start_of_Starts (c ∷ cs) h = rw h

Starts-trim_end : (s : Text) → Starts s → Starts (trim_end s)
unfolding trim_end
Starts-trim_end [] h = tt
Starts-trim_end (c ∷ cs) h = elim (Bool-cases (is_empty (trim_end cs) && is_whitespace c)) [
  | inl e ↦ rw e tt
  | inr n ↦ rw n h
]

pub trim_end-trim_end : (s : Text) → trim_end (trim_end s) ≡ trim_end s
unfolding trim_end
trim_end-trim_end [] = refl
trim_end-trim_end (c ∷ cs) = ground (arith, trim_end-trim_end cs)

pub trim-trim : (s : Text) → trim (trim s) ≡ trim s
unfolding trim
trim-trim s =
    ap trim_end (trim_start_of_Starts _ (Starts-trim_end _ (trim_start-Starts s)))
    ∙ trim_end-trim_end (trim_start s)

byte_len-trim_start : (s : Text) → byte_len (trim_start s) ≤ byte_len s
unfolding trim_start byte_len
byte_len-trim_start [] = omega arith
byte_len-trim_start (c ∷ cs) = ground (arith, byte_len-trim_start cs)

byte_len-trim_end : (s : Text) → byte_len (trim_end s) ≤ byte_len s
unfolding trim_end byte_len
byte_len-trim_end [] = omega arith
byte_len-trim_end (c ∷ cs) = ground (arith, byte_len-trim_end cs)

pub byte_len-trim-le : (s : Text) → byte_len (trim s) ≤ byte_len s
unfolding trim
byte_len-trim-le s = omega (arith, byte_len-trim_start s, byte_len-trim_end (trim_start s))
