-- ===== src/Events/Delivery.antt =====
-- What the subscribers of the stream get.
use ditch.Prelude.{
  ℕ, zero, suc, ◌+◌, ◌≤◌, ◌<◌, ltb, ◌%◌, u64_mod, ◌≡◌, refl, ap, sym, ◌∙◌, subst, Bool, true, false,
  ◌&&◌, Option, none, some, List, [], ◌∷◌, ◌++◌, In, length, Text, byte_len, if◌then◌else◌, arith,
  inl, inr,
}
use ditch.Core.{Uuid}
use ditch.Events.{
  Entry, Buffer, Channel, Stream, lines_after, last_sequence, try_send, take_line, received,
  send_all, take_at, leave_at, new_channel, broadcast, append_line, publish, shrink,
  subscribe_attention,
}
use ditch.Events.History.{
  AllBelow-up, IsLogged, Published, Published-IsLogged, logged, subscribed_lem,
}
use ditch.Events.Replay.{lines_after-append, lines_after_old}

-- The channels have got what was published since they were made.
abbrev pub Served : List Entry → ℕ → List Channel → Type 0
Served log n [] = Unit
Served log n (c ∷ cs) =
    (c.taken ++ c.waiting ≡ lines_after c.since log) × (c.since < n) × Served log n cs

append_assoc : (xs ys zs : List Text) → (xs ++ ys) ++ zs ≡ xs ++ (ys ++ zs)
append_assoc [] ys zs = refl
append_assoc (x ∷ xs) ys zs = ap (λ (l : List Text). x ∷ l) (append_assoc xs ys zs)

one_more :
    (c : Channel) (log : List Entry) (n : ℕ) (line : Text)
    → c.taken ++ c.waiting ≡ lines_after c.since log
    → c.since < n
    → c.taken ++ (c.waiting ++ line ∷ []) ≡ lines_after c.since (log ++ (n, line) ∷ [])
unfolding lines_after
one_more c log n line h since =
    let longer = lines_after-append c.since log ((n, line) ∷ []) in
    let whole = append_assoc c.taken c.waiting (line ∷ []) in ground arith

Served-try_send :
    (log : List Entry) (n : ℕ) (line : Text) (cs : List Channel)
    → Served log n cs
    → Served (log ++ (n, line) ∷ []) (suc n) (try_send line cs)
unfolding try_send
Served-try_send log n line [] h = tt
Served-try_send log n line (c ∷ cs) (got, since, rest) =
    let live = Served-try_send log n line cs rest in
    by_test (c.connected && ltb (length c.waiting) 2048) live
  where
    by_test :
        (b : Bool)
        → Served (log ++ (n, line) ∷ []) (suc n) (try_send line cs)
        → Served (log ++ (n, line) ∷ []) (suc n) (
            if b
            then record c { waiting = c.waiting ++ line ∷ [] } ∷ try_send line cs
            else try_send line cs)
    by_test true live = (one_more c log n line got since, omega arith, live)
    by_test false live = live

Served_up :
    (log : List Entry) (m n : ℕ) (cs : List Channel) → m ≤ n → Served log m cs → Served log n cs
Served_up log m n [] h s = tt
Served_up log m n (c ∷ cs) h (got, since, rest) = (got, omega arith, Served_up log m n cs h rest)

Served-join :
    (log : List Entry) (n : ℕ) (c : Channel) (cs : List Channel)
    → Served log n cs
    → c.taken ++ c.waiting ≡ lines_after c.since log
    → c.since < n
    → Served log n (cs ++ c ∷ [])
Served-join log n c [] s got since = (got, since, tt)
Served-join log n c (d ∷ cs) (first, old, rest) got since =
    (first, old, Served-join log n c cs rest got since)

taken_lines : (c : Channel) → (take_line c).taken ++ (take_line c).waiting ≡ c.taken ++ c.waiting
unfolding take_line
taken_lines c = by_waiting c.waiting
  where
    by_waiting : (w : List Text) → (received c w).taken ++ (received c w).waiting ≡ c.taken ++ w
    by_waiting [] = refl
    by_waiting (line ∷ rest) = append_assoc c.taken (line ∷ []) rest

taken_since : (c : Channel) → (take_line c).since ≡ c.since
unfolding take_line
taken_since c = by_waiting c.waiting
  where
    by_waiting : (w : List Text) → (received c w).since ≡ c.since
    by_waiting [] = refl
    by_waiting (line ∷ rest) = refl

Served-take_at :
    (log : List Entry) (n k : ℕ) (cs : List Channel) → Served log n cs → Served log n (take_at k cs)
unfolding take_at
Served-take_at log n k [] s = tt
Served-take_at log n zero (c ∷ cs) (got, since, rest) =
    let same = taken_since c in
    (taken_lines c ∙ got ∙ ap (λ (k : ℕ). lines_after k log) (sym same), omega arith, rest)
Served-take_at log n (suc k) (c ∷ cs) (got, since, rest) =
    (got, since, Served-take_at log n k cs rest)

Served-leave_at :
    (log : List Entry) (n k : ℕ) (cs : List Channel)
    → Served log n cs
    → Served log n (leave_at k cs)
unfolding leave_at
Served-leave_at log n k [] s = tt
Served-leave_at log n zero (c ∷ cs) (got, since, rest) = (got, since, rest)
Served-leave_at log n (suc k) (c ∷ cs) (got, since, rest) =
    (got, since, Served-leave_at log n k cs rest)

-- Where `broadcast` ends, the subscribers are those that took the line.
published_lem :
    (attention : Bool) (line : Text) (s s' : Stream) (m : Option Buffer)
    → publish attention line s m ≡ some s'
    → (s'.subscribers ≡ try_send line s.subscribers) × (s'.next_sequence ≡ s.next_sequence)
unfolding publish
published_lem attention line s s' none h = absurd (cc)
published_lem attention line s s' (some (replay, bytes)) h =
    let same : record s {
      replay = replay;
      replay_bytes = bytes;
      subscribers = try_send line s.subscribers;
      attention_subscribers =
          if attention then send_all line s.attention_subscribers else s.attention_subscribers;
    }
        ≡ s' =
      cc in
    (ap (λ (x : Stream). x.subscribers) (sym same), ap (λ (x : Stream). x.next_sequence) (sym same))

append-Served :
    (attention : Bool) (n : ℕ) (m : Option Text) (s s' : Stream) (log : List Entry)
    → append_line attention n m s ≡ some s'
    → Served log n s.subscribers
    → s.next_sequence ≡ suc n
    → Served (logged log n m) s'.next_sequence s'.subscribers
unfolding append_line
append-Served attention n none s s' log h served next =
    let same : s ≡ s' = cc in
    subst (λ (x : Stream). Served log x.next_sequence x.subscribers) same
      (Served_up log n s.next_sequence s.subscribers (omega arith) served)
append-Served attention n (some line) s s' log h served next =
    let (cs, step) =
      published_lem attention line s s'
        (shrink (suc (length (s.replay ++ (n, line) ∷ []))) (s.replay ++ (n, line) ∷ [])
          (s.replay_bytes + byte_len line))
        h in
    subst (λ (x : List Channel). Served (log ++ (n, line) ∷ []) s'.next_sequence x) (sym cs)
      (subst (λ (k : ℕ). Served (log ++ (n, line) ∷ []) k (try_send line s.subscribers))
        (sym next ∙ sym step) (Served-try_send log n line s.subscribers served))

new_served :
    (log : List Entry) (s : Stream)
    → IsLogged log s
    → Served log s.next_sequence s.subscribers
    → Served log s.next_sequence (s.subscribers ++ new_channel s ∷ [])
new_served log s inv served =
    let begun = inv.begun in
    Served-join log s.next_sequence (new_channel s) s.subscribers served
      (sym (
        lines_after_old (last_sequence s) log
          (AllBelow-up s.next_sequence (suc (last_sequence s)) log (omega arith) inv.below)))
      (omega arith)

pub Published-Served :
    {id : Uuid} {log : List Entry} {s : Stream}
    → Published id log s
    → Served log s.next_sequence s.subscribers
unfolding broadcast subscribe_attention
Published-Served Published.start = tt
Published-Served (Published.event {log} {s} r attention line s' fits h) =
    append-Served attention s.next_sequence (line s.instance_id s.next_sequence)
      (record s { next_sequence = suc s.next_sequence % u64_mod }) s' log h (Published-Served r)
      (omega arith)
Published-Served (Published.subscribed {log} {s} r cursor snapshot lines s' h) =
    let (first, same) = subscribed_lem cursor snapshot s s' lines h in
    subst (λ (x : Stream). Served log x.next_sequence x.subscribers) (sym same)
      (new_served log s (Published-IsLogged r) (Published-Served r))
Published-Served (Published.attended {log} {s} r snapshot) = Published-Served r
Published-Served (Published.taken {log} {s} r n) =
    Served-take_at log s.next_sequence n s.subscribers (Published-Served r)
Published-Served (Published.left {log} {s} r n) =
    Served-leave_at log s.next_sequence n s.subscribers (Published-Served r)

served_at :
    (log : List Entry) (n : ℕ) (cs : List Channel) (c : Channel)
    → Served log n cs
    → In c cs
    → c.taken ++ c.waiting ≡ lines_after c.since log
served_at log n [] c s m = absurd m
served_at log n (d ∷ cs) c (got, since, rest) (inl e) =
    subst (λ (x : Channel). x.taken ++ x.waiting ≡ lines_after x.since log) e got
served_at log n (d ∷ cs) c (got, since, rest) (inr m) = served_at log n cs c rest m

-- A channel that is still subscribed has got, taken or waiting, exactly the lines that were published
-- since it was made, in their order and without a gap.
pub subscribers-IsComplete :
    {id : Uuid} {log : List Entry} {s : Stream}
    → Published id log s
    → (c : Channel) → In c s.subscribers
    → c.taken ++ c.waiting ≡ lines_after c.since log
subscribers-IsComplete {id} {log} {s} r c m =
    served_at log s.next_sequence s.subscribers c (Published-Served r) m
