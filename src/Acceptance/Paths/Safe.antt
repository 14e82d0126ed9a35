-- ===== src/Acceptance/Paths/Safe.antt =====
-- What `relative_check_path` lets through.
use ditch.Prelude.{
  ℕ, ◌≤◌, ◌≡◌, any-false, any_none, ◌≢◌, ◌↔◌, refl, inl, inr, Bool, true, false, ◌||◌, ◌==◌, List,
  [], ◌∷◌, is_empty, any, In, Text, byte_len, text_eq, text_eq→eq, text_eq_refl, ok, arith,
  Bool-cases,
}
use ditch.Acceptance.Paths.{
  split_slash, inner_components, of_parts, components, leaves_project, forbidden,
  relative_check_path,
}

abbrev pub dot_dot : Text
dot_dot = b'.' ∷ b'.' ∷ []

abbrev up : Text → Bool
up part = text_eq part dot_dot

dot_not_up : (part : Text) → text_eq part (b'.' ∷ []) ≡ true → up part ≡ false
unfolding text_eq
dot_not_up [] h = ground arith
dot_not_up (a ∷ []) h = ground arith
dot_not_up (a ∷ b ∷ rest) h = ground arith

empty_not_up : up [] ≡ false
unfolding text_eq
empty_not_up = refl

inner_leaves : (parts : List Text) → any leaves_project (inner_components parts) ≡ any up parts
unfolding inner_components
inner_leaves [] = refl
inner_leaves ([] ∷ parts) = ground (arith, inner_leaves parts, empty_not_up)
inner_leaves ((c ∷ cs) ∷ parts) = ground (arith, inner_leaves parts, dot_not_up (c ∷ cs))

abbrev pub absolute : Text → Bool
absolute [] = false
absolute (c ∷ cs) = c == b'/'

parts_leave : (parts : List Text) → any leaves_project (of_parts parts) ≡ any up parts
parts_leave [] = refl
parts_leave ([] ∷ parts) = ground (arith, inner_leaves parts, empty_not_up)
parts_leave ((c ∷ cs) ∷ parts) = ground (arith, inner_leaves parts, dot_not_up (c ∷ cs))

-- A path leaves the project, for the source, exactly if it is absolute or has a part `..`.
components_leave :
    (path : Text)
    → any leaves_project (components path) ≡ (absolute path || any up (split_slash path))
unfolding components
components_leave [] = unfold split_slash text_eq in refl
components_leave (c ∷ cs) = elim (Bool-cases (c == b'/')) [
  | inl slash ↦ rw slash refl
  | inr other ↦ rw other (parts_leave (split_slash (c ∷ cs)))
]

-- A path that stays inside the project it is joined to, by its text alone.
pub record IsInside (path : Text) : Type 0 where
  pub named : path ≢ []
  pub size : byte_len path ≤ 1024
  pub relative : absolute path ≡ false
  pub no_parent : (part : Text) → In part (split_slash path) → part ≢ dot_dot
  pub characters : (c : ℕ) → In c path → forbidden c ≡ false

not_up : (part : Text) → part ≢ dot_dot → up part ≡ false
not_up part n = elim (Bool-cases (up part)) [
  | inl e ↦ absurd (n (text_eq→eq part dot_dot e))
  | inr e ↦ e
]

not_empty : (path : Text) → path ≢ [] → is_empty path ≡ false
not_empty [] n = absurd (n refl)
not_empty (c ∷ cs) n = refl

-- A validator path is accepted exactly if it is not empty, has at most 1024 bytes, does not begin
-- with `/`, has no part `..` between its slashes, and has no backslash, NUL or line break.
pub relative_check_path-IsInside :
    (path : Text) → (relative_check_path path ≡ ok tt) ↔ IsInside path
unfolding relative_check_path
relative_check_path-IsInside path = (
  λ h. record {
    named = λ e. ground arith;
    size = ground arith;
    relative = ground (arith, components_leave path);
    no_parent = λ part m e.
        let kept = any-false up (split_slash path) part (ground (arith, components_leave path)) m in
        ground (arith, text_eq_refl dot_dot);
    characters = λ c m. any-false forbidden path c (ground arith) m;
  },
  λ v.
      let safe = any_none forbidden path v.characters in
      let inside = any_none up (split_slash path) (λ part m. not_up part (v.no_parent part m)) in
      let named : is_empty path ≡ false = not_empty path v.named in
      ground (arith, v.size, v.relative, components_leave path),
)
