-- ===== src/Events/Ring.antt =====
-- The replay buffer keeps within its bounds, and the loop that keeps it there ends.
use ditch.Prelude.{
  ℕ, zero, suc, ◌+◌, ◌-◌, ◌≤◌, ◌<◌, ◌≡◌, refl, ap, Bool, true, false, some, List, [], ◌∷◌, ◌++◌,
  length, byte_len, if◌then◌else◌, arith,
}
use ditch.Events.{Entry, shrink, over, line_of, max_events, max_bytes}

-- The bytes of a buffer.
abbrev pub total_bytes : List Entry → ℕ
total_bytes [] = 0
total_bytes (e ∷ es) = byte_len (line_of e) + total_bytes es

pub total_bytes-append :
    (xs ys : List Entry) → total_bytes (xs ++ ys) ≡ total_bytes xs + total_bytes ys
total_bytes-append [] ys = omega arith
total_bytes-append (x ∷ xs) ys = omega (arith, total_bytes-append xs ys)

-- A buffer within the bounds, whose bytes are counted right, and what was taken from its front.
pub record IsShrunk (old new : List Entry) (bytes : ℕ) : Type 0 where
  pub gone : List Entry
  pub kept : old ≡ gone ++ new
  pub few : length new ≤ max_events
  pub small : bytes ≤ max_bytes
  pub counted : bytes ≡ total_bytes new

pub shrink-IsShrunk :
    (rounds : ℕ) (replay : List Entry) (bytes : ℕ)
    → length replay < rounds
    → bytes ≡ total_bytes replay
    → (new : List Entry) × (left : ℕ) × (shrink rounds replay bytes ≡ some (new, left))
      × IsShrunk replay new left
unfolding shrink
shrink-IsShrunk zero replay bytes h c = absurd (omega arith)
shrink-IsShrunk (suc rounds) [] bytes h c = (
  [],
  bytes,
  ground arith,
  record { gone = []; kept = refl; few = omega arith; small = ground arith; counted = c },
)
shrink-IsShrunk (suc rounds) (e ∷ es) bytes h c =
    by_test (over (e ∷ es) bytes) refl
      (shrink-IsShrunk rounds es (bytes - byte_len (line_of e)) (ground arith) (ground arith))
  where
    by_test :
        (b : Bool)
        → over (e ∷ es) bytes ≡ b
        → (new : List Entry) × (left : ℕ) × (shrink rounds es (bytes - byte_len (line_of e))
            ≡ some (new, left))
          × IsShrunk es new left
        → (new : List Entry) × (left : ℕ) × ((if b
              then shrink rounds es (bytes - byte_len (line_of e))
              else some (e ∷ es, bytes))
            ≡ some (new, left))
          × IsShrunk (e ∷ es) new left
    by_test true o (new, left, run, rest) = (
      new,
      left,
      run,
      record {
        gone = e ∷ rest.gone;
        kept = ap (λ (x : List Entry). e ∷ x) rest.kept;
        few = rest.few;
        small = rest.small;
        counted = rest.counted;
      },
    )
    by_test false o rest = (
      e ∷ es,
      bytes,
      refl,
      record { gone = []; kept = refl; few = ground arith; small = ground arith; counted = c },
    )
