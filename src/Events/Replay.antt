-- ===== src/Events/Replay.antt =====
-- A subscriber that comes back with a cursor, and what it has missed.
use ditch.Prelude.{
  ℕ, suc, ◌≤◌, ◌≡◌, refl, ap, sym, ◌∙◌, subst, true, Option, none, some, List, [], ◌∷◌, ◌++◌, Text,
  ok, arith,
}
use ditch.Core.{Uuid}
use ditch.Events.{
  Entry, Stream, lines_after, number_of, can_replay, reaches, last_sequence, initial_lines,
  cursor_sequence,
}
use ditch.Events.History.{
  AllBelow, AllBelow-up, Ascends, Ascends-front, IsLogged, Published, Published-IsLogged,
}

pub lines_after-append :
    (k : ℕ) (xs ys : List Entry) → lines_after k (xs ++ ys) ≡ lines_after k xs ++ lines_after k ys
unfolding lines_after
lines_after-append k [] ys = refl
lines_after-append k (x ∷ xs) ys = ground (arith, lines_after-append k xs ys)

pub lines_after_old : (k : ℕ) (es : List Entry) → AllBelow (suc k) es → lines_after k es ≡ []
unfolding lines_after
lines_after_old k [] b = refl
lines_after_old k (e ∷ es) (first, b) = ground (arith, lines_after_old k es b)

below_front : (gone replay : List Entry) (n : ℕ) → AllBelow n (gone ++ replay) → AllBelow n gone
below_front [] replay n b = tt
below_front (e ∷ gone) replay n (first, b) = (first, below_front gone replay n b)

gone_old :
    (gone replay : List Entry) (last next k : ℕ)
    → Ascends (gone ++ replay)
    → AllBelow next (gone ++ replay)
    → next ≤ suc last
    → reaches last k replay ≡ true
    → AllBelow (suc k) gone
gone_old gone [] last next k a b h r =
    AllBelow-up next (suc k) gone (ground arith) (below_front gone [] next b)
gone_old gone (e ∷ es) last next k a b h r =
    AllBelow-up (number_of e) (suc k) gone (ground arith) (Ascends-front gone e es a)

replayed_lines :
    (cursor : Option (Uuid × ℕ)) (s : Stream) (log : List Entry)
    → IsLogged log s
    → can_replay s cursor ≡ true
    → lines_after (cursor_sequence cursor) s.replay ≡ lines_after (cursor_sequence cursor) log
unfolding can_replay
replayed_lines none s log inv h = absurd (ground arith)
replayed_lines (some (epoch, k)) s log inv h =
    let old =
      gone_old inv.gone s.replay (last_sequence s) s.next_sequence k
        (subst (λ (l : List Entry). Ascends l) inv.kept inv.ascends)
        (subst (λ (l : List Entry). AllBelow s.next_sequence l) inv.kept inv.below)
        (let begun = inv.begun in omega arith) (ground arith) in
    sym (
      ap (λ (l : List Entry). lines_after k l) inv.kept
      ∙ lines_after-append k inv.gone s.replay
      ∙ ap (λ (l : List Text). l ++ lines_after k s.replay) (lines_after_old k inv.gone old))

-- A subscriber whose cursor the buffer still reaches gets first exactly the lines that were published
-- behind its cursor since the start of the runtime, in their order.
pub replay-IsComplete :
    {id : Uuid} {log : List Entry} {s : Stream}
    → Published id log s
    → (cursor : Option (Uuid × ℕ)) (snapshot : Uuid → ℕ → Option Text) → can_replay s cursor ≡ true
    → initial_lines cursor snapshot s ≡ ok (lines_after (cursor_sequence cursor) log)
unfolding initial_lines
replay-IsComplete {id} {log} {s} r cursor snapshot h =
    let same = replayed_lines cursor s log (Published-IsLogged r) h in
    rw h (ap (λ (l : List Text). ok l) same)
