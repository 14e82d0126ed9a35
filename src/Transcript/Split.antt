-- ===== src/Transcript/Split.antt =====
-- Lists cut in two, from the front and from the back, and rows in the order of their numbers.
use ditch.Prelude.{
  ℕ, zero, suc, ◌≤◌, ltb, ◌≡◌, refl, ap, sym, ◌∙◌, Bool, true, not, List, [], ◌∷◌, ◌++◌, all,
  is_empty, keep, length, take, arith,
}
use ditch.Transcript.{MessageRow, insert_by_sequence, order_by_sequence, reverse}

module _ {A : Type 0} where
  abbrev pub drop : ℕ → List A → List A
  drop zero xs = xs
  drop (suc n) [] = []
  drop (suc n) (x ∷ xs) = drop n xs

  pub append_nil : (xs : List A) → xs ++ [] ≡ xs
  append_nil [] = refl
  append_nil (x ∷ xs) = ap (λ (l : List A). x ∷ l) (append_nil xs)

  append_assoc : (xs ys zs : List A) → (xs ++ ys) ++ zs ≡ xs ++ (ys ++ zs)
  append_assoc [] ys zs = refl
  append_assoc (x ∷ xs) ys zs = ap (λ (l : List A). x ∷ l) (append_assoc xs ys zs)

  pub take-drop : (n : ℕ) (xs : List A) → take n xs ++ drop n xs ≡ xs
  unfolding take
  take-drop zero xs = refl
  take-drop (suc n) [] = refl
  take-drop (suc n) (x ∷ xs) = ap (λ (l : List A). x ∷ l) (take-drop n xs)

  pub reverse-append : (xs ys : List A) → reverse (xs ++ ys) ≡ reverse ys ++ reverse xs
  unfolding reverse
  reverse-append [] ys = sym (append_nil (reverse ys))
  reverse-append (x ∷ xs) ys =
      ap (λ (l : List A). l ++ x ∷ []) (reverse-append xs ys)
      ∙ append_assoc (reverse ys) (reverse xs) (x ∷ [])

  pub reverse-reverse : (xs : List A) → reverse (reverse xs) ≡ xs
  unfolding reverse
  reverse-reverse [] = refl
  reverse-reverse (x ∷ xs) =
      reverse-append (reverse xs) (x ∷ []) ∙ ap (λ (l : List A). x ∷ l) (reverse-reverse xs)

  -- One more than the limit tells whether there is more.
  pub more-drop :
      (n : ℕ) (xs : List A) → ltb n (length (take (suc n) xs)) ≡ not (is_empty (drop n xs))
  unfolding take
  more-drop zero [] = refl
  more-drop zero (x ∷ xs) = ground arith
  more-drop (suc n) [] = ground arith
  more-drop (suc n) (x ∷ xs) = ground (arith, more-drop n xs)

  pub take-take : (n : ℕ) (xs : List A) → take n (take (suc n) xs) ≡ take n xs
  unfolding take
  take-take zero xs = refl
  take-take (suc n) [] = refl
  take-take (suc n) (x ∷ xs) = ap (λ (l : List A). x ∷ l) (take-take n xs)

  pub take_all : (n : ℕ) (xs : List A) → is_empty (drop n xs) ≡ true → take (suc n) xs ≡ xs
  unfolding take
  take_all zero [] h = refl
  take_all zero (x ∷ xs) h = cc
  take_all (suc n) [] h = refl
  take_all (suc n) (x ∷ xs) h = ap (λ (l : List A). x ∷ l) (take_all n xs h)

abbrev pub below : ℕ → MessageRow → Bool
below k r = ltb r.sequence k

abbrev pub above : ℕ → MessageRow → Bool
above k r = ltb k r.sequence

-- The numbers go up.
abbrev pub GoesUp : List MessageRow → Type 0
GoesUp [] = Unit
GoesUp (r ∷ rs) = (all (above r.sequence) rs ≡ true) × GoesUp rs

insert-first :
    (r : MessageRow) (rs : List MessageRow)
    → all (above r.sequence) rs ≡ true
    → insert_by_sequence r rs ≡ r ∷ rs
unfolding insert_by_sequence
insert-first r [] h = refl
insert-first r (q ∷ qs) h = ground arith

pub order-GoesUp : (rs : List MessageRow) → GoesUp rs → order_by_sequence rs ≡ rs
unfolding order_by_sequence
order-GoesUp [] g = refl
order-GoesUp (r ∷ rs) (first, g) =
    ap (insert_by_sequence r) (order-GoesUp rs g) ∙ insert-first r rs first

all-keep :
    (f g : MessageRow → Bool) (rs : List MessageRow) → all f rs ≡ true → all f (keep g rs) ≡ true
unfolding keep
all-keep f g [] h = refl
all-keep f g (r ∷ rs) h = ground (arith, all-keep f g rs)

pub GoesUp-keep : (g : MessageRow → Bool) (rs : List MessageRow) → GoesUp rs → GoesUp (keep g rs)
unfolding keep
GoesUp-keep g [] h = tt
GoesUp-keep g (r ∷ rs) (first, h) =
    ground (arith, GoesUp-keep g rs, all-keep (above r.sequence) g rs)

keep_none : (k : ℕ) (rs : List MessageRow) → all (above k) rs ≡ true → keep (below k) rs ≡ []
unfolding keep
keep_none k [] h = refl
keep_none k (r ∷ rs) h = ground (arith, keep_none k rs)

pub all_back :
    (f : MessageRow → Bool) (xs : List MessageRow) (r : MessageRow) (ys : List MessageRow)
    → all f (xs ++ r ∷ ys) ≡ true
    → f r ≡ true
all_back f [] r ys h = ground arith
all_back f (x ∷ xs) r ys h = all_back f xs r ys (ground arith)

-- The rows before a row are those with a smaller number.
pub keep-front :
    (front : List MessageRow) (r : MessageRow) (back : List MessageRow)
    → GoesUp (front ++ r ∷ back)
    → keep (below r.sequence) (front ++ r ∷ back) ≡ front
unfolding keep
keep-front [] r back (first, g) = (let gone = keep_none r.sequence back first in ground arith)
keep-front (x ∷ xs) r back (first, g) =
    let later = keep-front xs r back g in
    let small = all_back (above x.sequence) xs r back first in ground arith

pub keep-below :
    (q b : ℕ) (rs : List MessageRow)
    → q ≤ b
    → keep (below q) (keep (below b) rs) ≡ keep (below q) rs
unfolding keep
keep-below q b [] h = refl
keep-below q b (r ∷ rs) h = ground (arith, keep-below q b rs h)
