-- ===== src/Transcript/Pages.antt =====
-- The pages of a transcript: each is the last part of what stands before its cursor, and a reader
-- who follows the cursors gets the whole transcript.
use ditch.Prelude.{
  ℕ, zero, suc, ◌+◌, ◌-◌, ◌^◌, ◌<◌, ltb, ◌≡◌, refl, ap, sym, subst, ◌∙◌, Bool, true, false, not,
  Option, none, some, unwrap_or, List, [], ◌∷◌, ◌++◌, all, is_empty, keep, length, take, Text,
  Result, ok, err, arith, if◌then◌else◌,
}
use ditch.Core.{AgentId}
use ditch.Store.{Disk}
use ditch.Transcript.{
  AgentMessagePage, MessageRow, clamp, first_sequence, is_before, list_agent_messages, of_agent,
  page_of, reverse, to_i64,
}
use ditch.Transcript.Split.{
  GoesUp, GoesUp-keep, below, drop, keep-below, keep-front, more-drop, order-GoesUp, reverse-append,
  reverse-reverse, take-drop, take-take, take_all, all_back,
}

-- A page of the rows that stand before its cursor.
record IsPage (rows : List MessageRow) (page : AgentMessagePage) : Type 0 where
  front : List MessageRow
  parts : rows ≡ front ++ page.messages
  last : page.next_before_sequence ≡ none → front ≡ []
  next :
      (q : ℕ)
      → page.next_before_sequence ≡ some q
      → (r : MessageRow) × (later : List MessageRow) × (page.messages ≡ r ∷ later)
        × (r.sequence ≡ q)

abbrev page_with : AgentId → Bool → List MessageRow → AgentMessagePage
page_with id more messages = record {
  agent_id = id;
  messages = messages;
  next_before_sequence = if more then first_sequence messages else none;
  has_more = more;
}

parts-IsPage :
    (id : AgentId) (front messages : List MessageRow)
    → is_empty messages ≡ false
    → IsPage (front ++ messages) (page_with id true messages)
parts-IsPage id front [] h = cc
parts-IsPage id front (r ∷ later) h = record {
  front = front;
  parts = refl;
  last = λ e. cc;
  next = λ q e. (r, later, refl, ground arith);
}

all-IsPage :
    (id : AgentId) (messages : List MessageRow) → IsPage messages (page_with id false messages)
all-IsPage id messages = record { front = []; parts = refl; last = λ e. refl; next = λ q e. cc }

taken_some :
    (n : ℕ) (ys : List MessageRow)
    → is_empty (drop (suc n) ys) ≡ false
    → is_empty (reverse (take (suc n) ys)) ≡ false
unfolding take reverse
taken_some n [] h = cc
taken_some n (y ∷ ys) h = appended (reverse (take n ys)) y
  where
    appended : (xs : List MessageRow) (y : MessageRow) → is_empty (xs ++ y ∷ []) ≡ false
    appended [] y = refl
    appended (x ∷ xs) y = refl

page_more :
    (id : AgentId) (n : ℕ) (zs : List MessageRow)
    → ltb n (length zs) ≡ true
    → page_of id n zs ≡ page_with id true (reverse (take n zs))
unfolding page_of
page_more id n zs h = rw h refl

page_last :
    (id : AgentId) (n : ℕ) (zs : List MessageRow)
    → ltb n (length zs) ≡ false
    → page_of id n zs ≡ page_with id false (reverse zs)
unfolding page_of
page_last id n zs h = rw h refl

page_of-IsPage :
    (id : AgentId) (n : ℕ) (xs : List MessageRow)
    → IsPage xs (page_of id (suc n) (take (suc (suc n)) (reverse xs)))
page_of-IsPage id n xs = by_more (is_empty (drop (suc n) (reverse xs))) refl
  where
    ys : List MessageRow
    ys = reverse xs

    cut : reverse (drop (suc n) ys) ++ reverse (take (suc n) ys) ≡ xs
    cut =
        sym (reverse-append (take (suc n) ys) (drop (suc n) ys))
        ∙ ap reverse (take-drop (suc n) ys)
        ∙ reverse-reverse xs

    by_more :
        (b : Bool)
        → is_empty (drop (suc n) ys) ≡ b
        → IsPage xs (page_of id (suc n) (take (suc (suc n)) ys))
    by_more true e =
        let whole : reverse (take (suc (suc n)) ys) ≡ xs =
          ap reverse (take_all (suc n) ys e) ∙ reverse-reverse xs in
        let ends = page_last id (suc n) (take (suc (suc n)) ys) (more-drop (suc n) ys ∙ ap not e) in
        subst (IsPage xs) (sym (ends ∙ ap (page_with id false) whole)) (all-IsPage id xs)
    by_more false e =
        let kept : reverse (take (suc n) (take (suc (suc n)) ys)) ≡ reverse (take (suc n) ys) =
          ap reverse (take-take (suc n) ys) in
        let goes_on =
          page_more id (suc n) (take (suc (suc n)) ys) (more-drop (suc n) ys ∙ ap not e) in
        subst (λ (l : List MessageRow). IsPage l (page_of id (suc n) (take (suc (suc n)) ys))) cut
          (subst (IsPage (reverse (drop (suc n) ys) ++ reverse (take (suc n) ys)))
            (sym (goes_on ∙ ap (page_with id true) kept))
            (parts-IsPage id (reverse (drop (suc n) ys)) (reverse (take (suc n) ys))
              (taken_some n ys e)))

abbrev joined : List MessageRow → Option (List MessageRow) → Option (List MessageRow)
joined messages none = none
joined messages (some older) = some (older ++ messages)

abbrev Reader : Type 0
Reader = Option ℕ → Option (List MessageRow)

abbrev earlier : Reader → Option ℕ → Option (List MessageRow)
earlier again none = some []
earlier again (some q) = again (some q)

abbrev read_on : Reader → Result Text AgentMessagePage → Option (List MessageRow)
read_on again (err e) = none
read_on again (ok page) = joined page.messages (earlier again page.next_before_sequence)

-- A reader who follows `next_before_sequence` to the beginning, on fuel.
unfoldable pub read_back : ℕ → Disk → AgentId → ℕ → List MessageRow → Reader
read_back zero disk id limit rows before = none
read_back (suc fuel) disk id limit rows before =
    read_on (read_back fuel disk id limit rows) (list_agent_messages disk id before limit rows)

abbrev cursor : Option ℕ → ℕ
cursor before = to_i64 (unwrap_or before 0xffffffffffffffff)

keep_both :
    (id : AgentId) (b : ℕ) (rows : List MessageRow)
    → keep (is_before id b) rows ≡ keep (below b) (keep (of_agent id) rows)
unfolding keep
keep_both id b [] = refl
keep_both id b (r ∷ rs) = ground (arith, keep_both id b rs)

all_kept : (f : MessageRow → Bool) (rows : List MessageRow) → all f (keep f rows) ≡ true
unfolding keep
all_kept f [] = refl
all_kept f (r ∷ rs) = ground (arith, all_kept f rs)

keep-all :
    (rows : List MessageRow)
    → all (below 0x7fffffffffffffff) rows ≡ true
    → keep (below 0x7fffffffffffffff) rows ≡ rows
unfolding keep
keep-all [] h = refl
keep-all (r ∷ rs) h = ground (arith, keep-all rs)

clamped : (limit : ℕ) → (n : ℕ) × (clamp limit ≡ suc n)
clamped limit = (clamp limit - 1, ground arith)

cursor_fits : (before : Option ℕ) → cursor before < 2 ^ 63
cursor_fits none = ground arith
cursor_fits (some b) = ground arith

length-front :
    (front : List MessageRow) (r : MessageRow) (back : List MessageRow)
    → length front < length (front ++ r ∷ back)
length-front [] r back = omega arith
length-front (x ∷ xs) r back = (let rest = length-front xs r back in omega arith)

-- The rows of an agent before a cursor.
abbrev older : AgentId → ℕ → List MessageRow → List MessageRow
older id b rows = keep (is_before id b) rows

listed :
    (disk : Disk) (id : AgentId) (before : Option ℕ) (limit n : ℕ) (rows : List MessageRow)
    → disk.readable ≡ true
    → GoesUp (older id (cursor before) rows)
    → clamp limit ≡ suc n
    → list_agent_messages disk id before limit rows
      ≡ ok (page_of id (suc n) (take (suc (suc n)) (reverse (older id (cursor before) rows))))
unfolding list_agent_messages
listed disk id before limit n rows readable up e =
    let ordered = order-GoesUp (older id (cursor before) rows) up in
    let one_more : suc n + 1 ≡ suc (suc n) = omega arith in rw (readable, e, ordered, one_more) refl

older-GoesUp :
    (id : AgentId) (b : ℕ) (rows : List MessageRow)
    → GoesUp (keep (of_agent id) rows)
    → GoesUp (older id b rows)
older-GoesUp id b rows up =
    subst GoesUp (sym (keep_both id b rows)) (GoesUp-keep (below b) (keep (of_agent id) rows) up)

-- What stands before a row of the page.
older-front :
    (id : AgentId) (b : ℕ) (rows front later : List MessageRow) (r : MessageRow)
    → GoesUp (keep (of_agent id) rows)
    → older id b rows ≡ front ++ r ∷ later
    → (older id r.sequence rows ≡ front) × (r.sequence < b)
older-front id b rows front later r up parts =
    let low : ltb r.sequence b ≡ true = all_back (below b) front r later (
      subst (λ (l : List MessageRow). all (below b) l ≡ true) (sym (keep_both id b rows) ∙ parts)
        (all_kept (below b) (keep (of_agent id) rows))) in
    let smaller : r.sequence < b = ground arith in
    (
      keep_both id r.sequence rows
          ∙ sym (keep-below r.sequence b (keep (of_agent id) rows) (omega arith))
          ∙ ap (keep (below r.sequence)) (sym (keep_both id b rows) ∙ parts)
          ∙ keep-front front r later (subst GoesUp parts (older-GoesUp id b rows up)),
      smaller,
    )

joined_parts :
    (rows : List MessageRow) (page : AgentMessagePage) (again : Reader)
    → (p : IsPage rows page)
    → ((q : ℕ) (r : MessageRow) (later : List MessageRow)
        → rows ≡ p.front ++ r ∷ later
        → r.sequence ≡ q
        → again (some q) ≡ some p.front)
    → joined page.messages (earlier again page.next_before_sequence) ≡ some rows
joined_parts rows page again p rest = by_next page.next_before_sequence refl
  where
    by_next :
        (o : Option ℕ)
        → page.next_before_sequence ≡ o
        → joined page.messages (earlier again o) ≡ some rows
    by_next none e =
        ap some (ap (λ (l : List MessageRow). l ++ page.messages) (sym (p.last e)) ∙ sym p.parts)
    by_next (some q) e =
        let (r, later, messages, own) = p.next q e in
        let got =
          rest q r later (p.parts ∙ ap (λ (l : List MessageRow). p.front ++ l) messages) own in
        ap (joined page.messages) got ∙ ap some (sym p.parts)

read_back-older :
    (fuel : ℕ) (disk : Disk) (id : AgentId) (limit : ℕ) (rows : List MessageRow) (before : Option ℕ)
    → disk.readable ≡ true
    → GoesUp (keep (of_agent id) rows)
    → length (older id (cursor before) rows) < fuel
    → read_back fuel disk id limit rows before ≡ some (older id (cursor before) rows)
unfolding read_back
read_back-older zero disk id limit rows before readable up enough = absurd (omega arith)
read_back-older (suc fuel) disk id limit rows before readable up enough =
    let (n, e) = clamped limit in
    let xs : List MessageRow = older id (cursor before) rows in
    let page = page_of id (suc n) (take (suc (suc n)) (reverse xs)) in
    let p = page_of-IsPage id n xs in
    ap (read_on (read_back fuel disk id limit rows))
      (listed disk id before limit n rows readable (older-GoesUp id (cursor before) rows up) e)
    ∙ joined_parts xs page (read_back fuel disk id limit rows) p (λ q r later parts own.
      (let (front, small) = older-front id (cursor before) rows p.front later r up parts in
        let fits = cursor_fits before in
        let here : cursor (some q) ≡ r.sequence = ground arith in
        let same : older id (cursor (some q)) rows ≡ p.front =
          ap (λ b. older id b rows) here ∙ front in
        let shorter = length-front p.front r later in
        let counted : length (older id (cursor (some q)) rows) < fuel =
          subst (λ (l : List MessageRow). length l < fuel) (sym same)
            (let total = ap length parts in omega arith) in
        read_back-older fuel disk id limit rows (some q) readable up counted ∙ ap some same))

-- Where the database is readable and an agent's messages stand in the table in the order of their
-- sequence numbers, which are below the largest `i64`, a reader who starts at the newest page and
-- follows `next_before_sequence` reaches the beginning, within one round more than there are messages,
-- and has then read exactly the agent's messages, each once and in order.
pub list_agent_messages_complete :
    (disk : Disk) (id : AgentId) (limit : ℕ) (rows : List MessageRow)
    → disk.readable ≡ true
    → GoesUp (keep (of_agent id) rows)
    → all (below 0x7fffffffffffffff) (keep (of_agent id) rows) ≡ true
    → read_back (suc (length (keep (of_agent id) rows))) disk id limit rows none
      ≡ some (keep (of_agent id) rows)
list_agent_messages_complete disk id limit rows readable up small =
    let whole : older id (cursor none) rows ≡ keep (of_agent id) rows =
      keep_both id (cursor none) rows ∙ keep-all (keep (of_agent id) rows) small in
    read_back-older (suc (length (keep (of_agent id) rows))) disk id limit rows none readable up (
      subst (λ (l : List MessageRow). length l < suc (length (keep (of_agent id) rows))) (sym whole)
        (omega arith))
    ∙ ap some whole
