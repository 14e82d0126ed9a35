-- ===== src/SessionTitle/Limit.antt =====
-- A title is neither empty nor too long.
use ditch.Prelude.{
  ℕ, ◌+◌, ◌≤◌, leb, ◌≡◌, refl, subst, Bool, true, false, Option, none, some, [], ◌∷◌, is_empty,
  or_else, unwrap_or, Text, text, is_whitespace, trim_end, if◌then◌else◌, arith, trim_end-trim_end,
}
use ditch.Core.{AgentRun}
use ditch.SessionTitle.{
  session_title_max_utf16, session_title_pending, session_title_failed, len_utf16, utf16_len,
  words_from, join, take_units, normalize_session_title, normalized, display_name,
}

take_units_le :
    (units : ℕ) (t : Text)
    → units ≤ session_title_max_utf16
    → units + utf16_len (take_units units t) ≤ session_title_max_utf16
unfolding take_units
take_units_le units [] h = omega arith
take_units_le units (c ∷ cs) h =
    by_test (leb (units + len_utf16 c) session_title_max_utf16) refl
      (take_units_le (units + len_utf16 c) cs)
  where
    by_test :
        (b : Bool)
        → leb (units + len_utf16 c) session_title_max_utf16 ≡ b
        → (units + len_utf16 c ≤ session_title_max_utf16
            → units + len_utf16 c + utf16_len (take_units (units + len_utf16 c) cs)
              ≤ session_title_max_utf16)
        → units + utf16_len (if b then c ∷ take_units (units + len_utf16 c) cs else [])
          ≤ session_title_max_utf16
    by_test true e rest = (let below = rest (ground arith) in omega arith)
    by_test false e rest = omega arith

trim_end_le : (t : Text) → utf16_len (trim_end t) ≤ utf16_len t
unfolding trim_end
trim_end_le [] = omega arith
trim_end_le (c ∷ cs) = ground (arith, trim_end_le cs)

-- What every title is like.
pub record IsTitle (t : Text) : Type 0 where
  pub filled : is_empty t ≡ false
  pub short : utf16_len t ≤ session_title_max_utf16
  pub trimmed : trim_end t ≡ t

-- A normalised title is not empty, has 240 UTF-16 units at most and does not end in white space.
pub normalize_session_title-IsTitle :
    (value t : Text) → normalize_session_title value ≡ some t → IsTitle t
unfolding normalize_session_title
normalize_session_title-IsTitle value t h =
    let taken = take_units 0 (join (words_from [] value)) in
    let filled : is_empty (trim_end taken) ≡ false = ground arith in
    let same : trim_end taken ≡ t = ground arith in
    subst (λ (x : Text). IsTitle x) same
      (record {
        filled = filled;
        short =
            (let below = take_units_le 0 (join (words_from [] value)) (omega arith) in
              let shorter = trim_end_le taken in omega arith);
        trimmed = trim_end-trim_end taken;
      })

pending-IsTitle : IsTitle session_title_pending
unfolding text trim_end is_whitespace
pending-IsTitle = record { filled = refl; short = omega arith; trimmed = refl }

failed-IsTitle : IsTitle session_title_failed
unfolding text trim_end is_whitespace
failed-IsTitle = record { filled = refl; short = omega arith; trimmed = refl }

normalized-IsTitle : (m : Option Text) (t : Text) → normalized m ≡ some t → IsTitle t
normalized-IsTitle none t h = absurd (cc)
normalized-IsTitle (some v) t h = normalize_session_title-IsTitle v t h

-- Every agent has a name to display that is not empty, has 240 UTF-16 units at most and does not end
-- in white space, whatever titles the user and Codex gave.
pub display_name-IsTitle : (run : AgentRun) → IsTitle (display_name run)
unfolding display_name
display_name-IsTitle run =
    by_titles (normalized run.user_title) (normalized run.codex_title) run.naming_failed
      (normalized-IsTitle run.user_title) (normalized-IsTitle run.codex_title)
  where
    by_titles :
        (user codex : Option Text) (failed : Bool)
        → ((t : Text) → user ≡ some t → IsTitle t)
        → ((t : Text) → codex ≡ some t → IsTitle t)
        → IsTitle (
            unwrap_or
              (or_else user codex)
              (if failed then session_title_failed else session_title_pending))
    by_titles (some t) codex failed hu hc = hu t refl
    by_titles none (some t) failed hu hc = hc t refl
    by_titles none none true hu hc = failed-IsTitle
    by_titles none none false hu hc = pending-IsTitle
