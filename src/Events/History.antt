-- ===== src/Events/History.antt =====
-- What the stream has published since the start, against what its buffer still holds.
use ditch.Prelude.{
  ℕ, suc, ◌+◌, ◌≤◌, ◌<◌, ◌%◌, u64_mod, ◌≡◌, refl, ap, sym, ◌∙◌, subst, Bool, Option, none, some,
  List, [], ◌∷◌, ◌++◌, length, Text, byte_len, ok, >>=-eq-ok, if◌then◌else◌, arith,
}
use ditch.Core.{Uuid}
use ditch.Events.{
  new_stream, Entry, Stream, broadcast, append_line, publish, number_of, max_events, max_bytes,
  Buffer, try_send, send_all, subscribe_since, subscribe_attention, new_channel, take_at, leave_at,
  initial_lines, Channel,
}
use ditch.Events.Ring.{total_bytes, total_bytes-append, shrink-IsShrunk}

-- All numbers of a log are below, or above, a bound; and they go up.
abbrev pub AllBelow : ℕ → List Entry → Type 0
AllBelow n [] = Unit
AllBelow n (e ∷ es) = (number_of e < n) × AllBelow n es

abbrev pub AllAbove : ℕ → List Entry → Type 0
AllAbove n [] = Unit
AllAbove n (e ∷ es) = (n < number_of e) × AllAbove n es

abbrev pub Ascends : List Entry → Type 0
Ascends [] = Unit
Ascends (e ∷ es) = AllAbove (number_of e) es × Ascends es

pub AllBelow-up : (m n : ℕ) (es : List Entry) → m ≤ n → AllBelow m es → AllBelow n es
AllBelow-up m n [] h b = tt
AllBelow-up m n (e ∷ es) h (first, b) = (omega arith, AllBelow-up m n es h b)

AllBelow-append :
    (n : ℕ) (es : List Entry) (e : Entry)
    → AllBelow n es
    → number_of e < n
    → AllBelow n (es ++ e ∷ [])
AllBelow-append n [] e b h = (h, tt)
AllBelow-append n (d ∷ es) e (first, b) h = (first, AllBelow-append n es e b h)

AllAbove-append :
    (n : ℕ) (es : List Entry) (e : Entry)
    → AllAbove n es
    → n < number_of e
    → AllAbove n (es ++ e ∷ [])
AllAbove-append n [] e b h = (h, tt)
AllAbove-append n (d ∷ es) e (first, b) h = (first, AllAbove-append n es e b h)

Ascends-append :
    (es : List Entry) (e : Entry) → Ascends es → AllBelow (number_of e) es → Ascends (es ++ e ∷ [])
Ascends-append [] e a b = (tt, tt)
Ascends-append (d ∷ es) e (above, a) (first, b) =
    (AllAbove-append (number_of d) es e above first, Ascends-append es e a b)

-- What stands before an entry has smaller numbers.
above_tail :
    (n : ℕ) (gone : List Entry) (e : Entry) (es : List Entry)
    → AllAbove n (gone ++ e ∷ es)
    → n < number_of e
above_tail n [] e es (first, above) = first
above_tail n (d ∷ gone) e es (first, above) = above_tail n gone e es above

pub Ascends-front :
    (gone : List Entry) (e : Entry) (es : List Entry)
    → Ascends (gone ++ e ∷ es)
    → AllBelow (number_of e) gone
Ascends-front [] e es a = tt
Ascends-front (d ∷ gone) e es (above, a) =
    (above_tail (number_of d) gone e es above, Ascends-front gone e es a)

-- The log of a stream, of which the buffer is the last part.
pub record IsLogged (log : List Entry) (s : Stream) : Type 0 where
  pub gone : List Entry
  pub kept : log ≡ gone ++ s.replay
  pub ascends : Ascends log
  pub below : AllBelow s.next_sequence log
  pub begun : 1 ≤ s.next_sequence
  pub few : length s.replay ≤ max_events
  pub small : s.replay_bytes ≤ max_bytes
  pub counted : s.replay_bytes ≡ total_bytes s.replay

-- The log after an event, whose line may be missing.
abbrev pub logged : List Entry → ℕ → Option Text → List Entry
logged log n none = log
logged log n (some line) = log ++ (n, line) ∷ []

append_assoc : (xs ys zs : List Entry) → (xs ++ ys) ++ zs ≡ xs ++ (ys ++ zs)
append_assoc [] ys zs = refl
append_assoc (x ∷ xs) ys zs = ap (λ (l : List Entry). x ∷ l) (append_assoc xs ys zs)

append-IsLogged :
    (attention : Bool) (n : ℕ) (m : Option Text) (s : Stream) (log : List Entry)
    → IsLogged log s
    → suc s.next_sequence < u64_mod
    → n ≡ s.next_sequence
    → (s' : Stream) × (append_line attention n m
          (record s { next_sequence = suc s.next_sequence % u64_mod })
        ≡ some s')
      × IsLogged (logged log n m) s'
unfolding append_line publish
append-IsLogged attention n none s log inv fits own = (
  record s { next_sequence = suc s.next_sequence % u64_mod },
  refl,
  record {
    gone = inv.gone;
    kept = inv.kept;
    ascends = inv.ascends;
    below = AllBelow-up s.next_sequence (suc s.next_sequence % u64_mod) log (omega arith) inv.below;
    begun = omega arith;
    few = inv.few;
    small = inv.small;
    counted = inv.counted;
  },
)
append-IsLogged attention n (some line) s log inv fits own =
    let longer = s.replay ++ (n, line) ∷ [] in
    let counted : s.replay_bytes + byte_len line ≡ total_bytes longer =
      (let sum = total_bytes-append s.replay ((n, line) ∷ []) in omega (arith, inv.counted)) in
    let (new, left, run, shrunk) =
      shrink-IsShrunk (suc (length longer)) longer (s.replay_bytes + byte_len line) (omega arith)
        counted in
    let numbered = record s { next_sequence = suc s.next_sequence % u64_mod } in
    (
      record numbered {
        replay = new;
        replay_bytes = left;
        subscribers = try_send line s.subscribers;
        attention_subscribers =
            if attention then send_all line s.attention_subscribers else s.attention_subscribers;
      },
      ap (λ (b : Option Buffer). publish attention line numbered b) run,
      record {
        gone = inv.gone ++ shrunk.gone;
        kept =
            ap (λ (l : List Entry). l ++ (n, line) ∷ []) inv.kept
            ∙ append_assoc inv.gone s.replay ((n, line) ∷ [])
            ∙ ap (λ (l : List Entry). inv.gone ++ l) shrunk.kept
            ∙ sym (append_assoc inv.gone shrunk.gone new);
        ascends =
            Ascends-append log (n, line) inv.ascends
              (AllBelow-up s.next_sequence n log (omega arith) inv.below);
        below =
            AllBelow-append (suc s.next_sequence % u64_mod) log (n, line)
              (AllBelow-up s.next_sequence (suc s.next_sequence % u64_mod) log (omega arith)
                inv.below)
              (omega arith);
        begun = omega arith;
        few = shrunk.few;
        small = shrunk.small;
        counted = shrunk.counted;
      },
    )

-- On a stream that agrees with a log, while the sequence numbers last, `broadcast` ends and gives a
-- stream that agrees with the log and the event's line.
pub broadcast-IsLogged :
    (attention : Bool) (line : Uuid → ℕ → Option Text) (s : Stream) (log : List Entry)
    → IsLogged log s
    → suc s.next_sequence < u64_mod
    → (s' : Stream) × (broadcast attention line s ≡ some s')
      × IsLogged (logged log s.next_sequence (line s.instance_id s.next_sequence)) s'
unfolding broadcast
broadcast-IsLogged attention line s log inv fits =
    append-IsLogged attention s.next_sequence (line s.instance_id s.next_sequence) s log inv fits
      refl

-- What happens to a stream: events, subscriptions, receivers that take a line or leave.
pub data Published (id : Uuid) : List Entry → Stream → Type 0 where
  start : Published id [] (new_stream id)
  event :
      {log : List Entry} {s : Stream}
      → Published id log s
      → (attention : Bool) (line : Uuid → ℕ → Option Text) (s' : Stream)
      → suc s.next_sequence < u64_mod
      → broadcast attention line s ≡ some s'
      → Published id (logged log s.next_sequence (line s.instance_id s.next_sequence)) s'
  subscribed :
      {log : List Entry} {s : Stream}
      → Published id log s
      → (cursor : Option (Uuid × ℕ)) (snapshot : Uuid → ℕ → Option Text) (lines : List Text)
        (s' : Stream)
      → subscribe_since cursor snapshot s ≡ ok (lines, s')
      → Published id log s'
  attended :
      {log : List Entry} {s : Stream}
      → Published id log s
      → (snapshot : Uuid → ℕ → Option Text) → Published id log (subscribe_attention snapshot s).0
  taken :
      {log : List Entry} {s : Stream}
      → Published id log s
      → (n : ℕ) → Published id log (record s { subscribers = take_at n s.subscribers })
  left :
      {log : List Entry} {s : Stream}
      → Published id log s
      → (n : ℕ) → Published id log (record s { subscribers = leave_at n s.subscribers })

pub subscribed_lem :
    (cursor : Option (Uuid × ℕ)) (snapshot : Uuid → ℕ → Option Text) (s s' : Stream)
    (lines : List Text)
    → subscribe_since cursor snapshot s ≡ ok (lines, s')
    → (initial_lines cursor snapshot s ≡ ok lines)
      × (s' ≡ record s { subscribers = s.subscribers ++ new_channel s ∷ [] })
unfolding subscribe_since
subscribed_lem cursor snapshot s s' lines h =
    let (found, first, h1) = >>=-eq-ok (initial_lines cursor snapshot s) _ h in
    let same : found ≡ lines = cc in (first ∙ ap (λ (x : List Text). ok x) same, cc)

same_buffer :
    (log : List Entry) (s : Stream) (cs ds : List Channel)
    → IsLogged log s
    → IsLogged log (record s { subscribers = cs; attention_subscribers = ds })
same_buffer log s cs ds inv = record {
  gone = inv.gone;
  kept = inv.kept;
  ascends = inv.ascends;
  below = inv.below;
  begun = inv.begun;
  few = inv.few;
  small = inv.small;
  counted = inv.counted;
}

-- At all times, the buffer is the last part of what was published, holds at most 2048 lines and 8
-- MiB, and its bytes are counted right.
pub Published-IsLogged :
    {id : Uuid} {log : List Entry} {s : Stream} → Published id log s → IsLogged log s
unfolding subscribe_attention
Published-IsLogged start = record {
  gone = [];
  kept = refl;
  ascends = tt;
  below = tt;
  begun = omega arith;
  few = omega arith;
  small = omega arith;
  counted = refl;
}
Published-IsLogged (event {log} {s} r attention line s' fits h) =
    let (t, run, inv) = broadcast-IsLogged attention line s log (Published-IsLogged r) fits in
    let same : t ≡ s' = cc in
    subst
      (λ (x : Stream). IsLogged (logged log s.next_sequence (line s.instance_id s.next_sequence)) x)
      same inv
Published-IsLogged (subscribed {log} {s} r cursor snapshot lines s' h) =
    let (first, same) = subscribed_lem cursor snapshot s s' lines h in
    subst (λ (x : Stream). IsLogged log x) (sym same)
      (same_buffer log s (s.subscribers ++ new_channel s ∷ []) s.attention_subscribers
        (Published-IsLogged r))
Published-IsLogged (attended {log} {s} r snapshot) =
    same_buffer log s s.subscribers (s.attention_subscribers ++ new_channel s ∷ [])
      (Published-IsLogged r)
Published-IsLogged (taken {log} {s} r n) =
    same_buffer log s (take_at n s.subscribers) s.attention_subscribers (Published-IsLogged r)
Published-IsLogged (left {log} {s} r n) =
    same_buffer log s (leave_at n s.subscribers) s.attention_subscribers (Published-IsLogged r)
