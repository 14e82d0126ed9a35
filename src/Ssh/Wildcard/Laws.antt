-- ===== src/Ssh/Wildcard/Laws.antt =====
-- The meaning of a wildcard pattern, and the answer of the loop.
use ditch.Prelude.{
  ℕ, zero, suc, ◌+◌, ◌*◌, ◌≤◌, ◌<◌, ◌≡◌, refl, ap, sym, subst, ◌∙◌, Bool, true, false, not, ◌&&◌,
  ◌||◌, none, some, [], ◌∷◌, length, all, is_empty, arith, if◌then◌else◌,
}
use ditch.Ssh.Wildcard.{Bytes, Star, accepts, backtrack, is_star, only_stars, scan, wildcard_match}

-- A question holds of the value or of one of its suffixes.
abbrev pub somewhere : (Bytes → Bool) → Bytes → Bool
somewhere f [] = f []
somewhere f (b ∷ bs) = f (b ∷ bs) || somewhere f bs

abbrev pub first_byte : ℕ → (Bytes → Bool) → Bytes → Bool
first_byte p f [] = false
first_byte p f (b ∷ bs) = accepts p b && f bs

-- The reference: `*` stands for any bytes, `?` for one, and any other byte for itself.
unfoldable pub matches : Bytes → Bytes → Bool
matches [] value = is_empty value
matches (p ∷ ps) value =
    if is_star p then somewhere (matches ps) value else first_byte p (matches ps) value

somewhere_now : (f : Bytes → Bool) (v : Bytes) → f v ≡ true → somewhere f v ≡ true
somewhere_now f [] h = h
somewhere_now f (b ∷ bs) h = ground arith

somewhere_twice :
    (f : Bytes → Bool) (v : Bytes) → somewhere (somewhere f) v ≡ true → somewhere f v ≡ true
somewhere_twice f [] h = h
somewhere_twice f (b ∷ bs) h = ground (arith, somewhere_twice f bs)

-- A byte of the pattern can be left out, with one of the value.
somewhere_first :
    (p : ℕ) (f : Bytes → Bool) (v : Bytes)
    → somewhere (first_byte p f) v ≡ true
    → somewhere f v ≡ true
somewhere_first p f [] h = cc
somewhere_first p f (b ∷ bs) h = ground (arith, somewhere_first p f bs, somewhere_now f bs)

drop_first :
    (p : ℕ) (f : Bytes → Bool) (b : ℕ) (bs : Bytes)
    → somewhere (first_byte p f) (b ∷ bs) ≡ true
    → somewhere f bs ≡ true
drop_first p f b bs h = ground (arith, somewhere_first p f bs, somewhere_now f bs)

matches-nil : (ps : Bytes) → matches ps [] ≡ only_stars ps
unfolding matches only_stars
matches-nil [] = refl
matches-nil (p ∷ ps) = ground (arith, matches-nil ps)

-- The two kinds of a pattern's first byte.
matches-first :
    (p : ℕ) (ps : Bytes) → is_star p ≡ false → matches (p ∷ ps) ≡ first_byte p (matches ps)
unfolding matches
matches-first p ps e = λ i value. at value i
  where
    at : (value : Bytes) → matches (p ∷ ps) value ≡ first_byte p (matches ps) value
    at value = rw e refl

matches-star : (p : ℕ) (ps : Bytes) → is_star p ≡ true → matches (p ∷ ps) ≡ somewhere (matches ps)
unfolding matches
matches-star p ps e = λ i value. at value i
  where
    at : (value : Bytes) → matches (p ∷ ps) value ≡ somewhere (matches ps) value
    at value = rw e refl

abbrev pub plain : Bytes → Bool
plain v = all (λ b. not (is_star b)) v

both : (x y : Bool) → (x ≡ true → y ≡ true) → (y ≡ true → x ≡ true) → x ≡ y
both false false h k = refl
both false true h k = k refl
both true y h k = sym (h refl)

none_left : (b : ℕ) (bs : Bytes) → matches [] (b ∷ bs) ≡ false
unfolding matches
none_left b bs = refl

plain-accepts :
    (p b : ℕ) (bs : Bytes) → accepts p b ≡ true → plain (b ∷ bs) ≡ true → is_star p ≡ false
plain-accepts p b bs h k = ground arith

refused :
    (p b : ℕ) (ps bs : Bytes)
    → accepts p b ≡ false
    → is_star p ≡ false
    → matches (p ∷ ps) (b ∷ bs) ≡ false
unfolding matches
refused p b ps bs h k = ground arith

-- `answer` is right, and every pattern in play is shorter than `bound`.
module _ (answer : Bool) (bound : ℕ) where
  -- What the last star promises. `left` bounds the bytes that are left to try.
  abbrev Promised : ℕ → Bytes → Bytes → Star → Type 0
  Promised left ps v none = answer ≡ true → matches ps v ≡ true
  Promised left ps v (some (qs, w)) =
      (somewhere (matches qs) w ≡ answer)
      × (matches qs w ≡ true → matches ps v ≡ true)
      × (length v ≤ length w)
      × (length w ≤ left)
      × (length qs < bound)
      × (plain w ≡ true)

  record IsScanning (fuel left : ℕ) (ps v : Bytes) (star : Star) : Type 0 where
    plain_value : plain v ≡ true
    now : matches ps v ≡ true → answer ≡ true
    later : answer ≡ true → somewhere (matches ps) v ≡ true
    promised : Promised left ps v star
    value_bound : length v ≤ left
    pattern_bound : length ps < bound
    enough : left * bound + length ps < fuel

  -- Right behind a star.
  restarted :
      (fuel left : ℕ) (ps v : Bytes)
      → somewhere (matches ps) v ≡ answer
      → plain v ≡ true
      → length v ≤ left
      → length ps < bound
      → left * bound + length ps < fuel
      → IsScanning fuel left ps v (some (ps, v))
  restarted fuel left ps v same no_star short small enough = record {
    plain_value = no_star;
    now = λ h. sym same ∙ somewhere_now (matches ps) v h;
    later = λ h. same ∙ h;
    promised = (same, (λ h. h), omega arith, short, small, no_star);
    value_bound = short;
    pattern_bound = small;
    enough = enough;
  }

  -- Behind a byte that the pattern accepts.
  Promised-first :
      (left p b : ℕ) (ps bs : Bytes) (star : Star)
      → (is_star p ≡ false)
      → Promised left (p ∷ ps) (b ∷ bs) star
      → Promised left ps bs star
  unfolding matches
  Promised-first left p b ps bs none e h = λ g. (let all_of = h g in ground arith)
  Promised-first left p b ps bs (some (qs, w)) e (same, down, longer, short, small, no_star) =
      (same, (λ h. (let all_of = down h in ground arith)), omega arith, short, small, no_star)

  onward :
      (fuel left p b : ℕ) (ps bs : Bytes) (star : Star)
      → accepts p b ≡ true
      → is_star p ≡ false
      → IsScanning (suc fuel) left (p ∷ ps) (b ∷ bs) star
      → IsScanning fuel left ps bs star
  unfolding matches
  onward fuel left p b ps bs star good e i =
      let short = i.value_bound in
      let small = i.pattern_bound in
      let enough = i.enough in
      let no_star = i.plain_value in
      let now = i.now in
      let later = i.later in
      record {
        plain_value = ground arith;
        now = λ h. now (ground arith);
        later = λ h. drop_first p (matches ps) b bs (
            subst (λ (f : Bytes → Bool). somewhere f (b ∷ bs) ≡ true) (matches-first p ps e)
              (later h));
        promised = Promised-first left p b ps bs star e i.promised;
        value_bound = omega arith;
        pattern_bound = omega arith;
        enough = omega arith;
      }

  -- The saved star takes a byte more.
  backtrack-answer :
      (fuel left b : ℕ) (ps bs : Bytes) (star : Star)
      → ((l : ℕ) (qs w : Bytes) (s : Star)
          → IsScanning fuel l qs w s
          → scan fuel qs w s ≡ some answer)
      → IsScanning (suc fuel) left ps (b ∷ bs) star
      → matches ps (b ∷ bs) ≡ false
      → backtrack (scan fuel) star ≡ some answer
  backtrack-answer fuel left b ps bs none again i bad =
      let promised = i.promised in by_answer answer promised bad
    where
      by_answer :
          (g : Bool)
          → (g ≡ true → matches ps (b ∷ bs) ≡ true)
          → matches ps (b ∷ bs) ≡ false
          → some false ≡ some g
      by_answer false h k = refl
      by_answer true h k = (let found = h refl in ground arith)
  backtrack-answer fuel left b ps bs (some (qs, [])) again i bad =
      let (same, down, longer, short, small, no_star) = i.promised in absurd (omega arith)
  backtrack-answer fuel zero b ps bs (some (qs, c ∷ cs)) again i bad =
      let (same, down, longer, short, small, no_star) = i.promised in absurd (omega arith)
  backtrack-answer fuel (suc left) b ps bs (some (qs, c ∷ cs)) again i bad =
      let (same, down, longer, short, small, no_star) = i.promised in
      let enough = i.enough in
      let failed : matches qs (c ∷ cs) ≡ false = contrary (matches qs (c ∷ cs)) down bad in
      again left qs cs (some (qs, cs)) (
        restarted fuel left qs cs (rw failed at same) (ground arith) (omega arith) small
          (omega arith))
    where
      contrary :
          (x : Bool)
          → (x ≡ true → matches ps (b ∷ bs) ≡ true)
          → matches ps (b ∷ bs) ≡ false
          → x ≡ false
      contrary false h k = refl
      contrary true h k = (let found = h refl in ground arith)

  starred :
      (fuel left p b : ℕ) (ps bs : Bytes) (star : Star)
      → is_star p ≡ true
      → IsScanning (suc fuel) left (p ∷ ps) (b ∷ bs) star
      → IsScanning fuel left ps (b ∷ bs) (some (ps, b ∷ bs))
  starred fuel left p b ps bs star e i =
      let small = i.pattern_bound in
      let enough = i.enough in
      let now =
        subst (λ (f : Bytes → Bool). f (b ∷ bs) ≡ true → answer ≡ true) (matches-star p ps e)
          i.now in
      let later =
        subst (λ (f : Bytes → Bool). answer ≡ true → somewhere f (b ∷ bs) ≡ true)
          (matches-star p ps e) i.later in
      restarted fuel left ps (b ∷ bs)
        (both (somewhere (matches ps) (b ∷ bs)) answer now
          (λ h. somewhere_twice (matches ps) (b ∷ bs) (later h)))
        i.plain_value i.value_bound (omega arith) (omega arith)

  scan-answer :
      (fuel left : ℕ) (ps v : Bytes) (star : Star)
      → IsScanning fuel left ps v star
      → scan fuel ps v star ≡ some answer
  unfolding scan
  scan-answer zero left ps v star i = (let enough = i.enough in absurd (omega arith))
  scan-answer (suc fuel) left ps [] star i = ap some (
      both (only_stars ps) answer (λ h. i.now (matches-nil ps ∙ h))
        (λ h. sym (matches-nil ps) ∙ i.later h))
  scan-answer (suc fuel) left [] (b ∷ bs) star i =
      backtrack-answer fuel left b [] bs star (scan-answer fuel) i (none_left b bs)
  scan-answer (suc fuel) left (p ∷ ps) (b ∷ bs) star i =
      by_byte (accepts p b) (is_star p) refl refl (scan-answer fuel)
    where
      by_byte :
          (x y : Bool)
          → accepts p b ≡ x
          → is_star p ≡ y
          → ((l : ℕ) (qs w : Bytes) (s : Star)
              → IsScanning fuel l qs w s
              → scan fuel qs w s ≡ some answer)
          → (if x
              then scan fuel ps bs star
              else if y
              then scan fuel ps (b ∷ bs) (some (ps, b ∷ bs))
              else backtrack (scan fuel) star)
            ≡ some answer
      by_byte true y e s again =
          again left ps bs star
            (onward fuel left p b ps bs star e (plain-accepts p b bs e i.plain_value) i)
      by_byte false true e s again =
          again left ps (b ∷ bs) (some (ps, b ∷ bs)) (starred fuel left p b ps bs star s i)
      by_byte false false e s again =
          backtrack-answer fuel left b (p ∷ ps) bs star again i (refused p b ps bs e s)

-- For a value without the byte `*`, the loop ends before its fuel does, and it says exactly whether
-- the value matches the pattern in the sense of the reference: `*` stands for any bytes, `?` for
-- one byte, and any other byte for itself.
pub wildcard_match-matches :
    (pattern value : Bytes)
    → plain value ≡ true
    → wildcard_match pattern value ≡ some (matches pattern value)
unfolding wildcard_match
wildcard_match-matches pattern value no_star =
    scan-answer (matches pattern value) (length pattern + 1)
      ((length value + 1) * (length pattern + 1)) (length value) pattern value none
      (record {
        plain_value = no_star;
        now = λ h. h;
        later = λ h. somewhere_now (matches pattern) value h;
        promised = λ h. h;
        value_bound = omega arith;
        pattern_bound = omega arith;
        enough = omega arith;
      })
