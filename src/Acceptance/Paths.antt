-- ===== src/Acceptance/Paths.antt =====
-- `relative_check_path` (crates/ditch_core/src/acceptance.rs), with the part of `std::path::Path`
-- that it calls: the components of a Unix path.
pub mod Safe
use ditch.Prelude.{
  ℕ, ◌==◌, ltb, Bool, true, false, ◌||◌, List, [], ◌∷◌, is_empty, any, Text, text, byte_len,
  text_eq, Result, reject_if, if◌then◌else◌,
}

-- `std::path::Component`; a Unix path has no prefix.
pub data Component : Type 0 where
  root_dir cur_dir parent_dir : Component
  normal : Text → Component

-- The part up to the next `/`, put before the parts that follow.
abbrev pub onto_first : ℕ → List Text → List Text
onto_first c [] = (c ∷ []) ∷ []
onto_first c (part ∷ parts) = (c ∷ part) ∷ parts

-- `str::split('/')`: one part more than there are separators.
unfoldable pub split_slash : Text → List Text
split_slash [] = [] ∷ []
split_slash (c ∷ cs) =
    let rest = split_slash cs in if c == b'/' then [] ∷ rest else onto_first c rest

-- A part that is not the first one: empty parts and `.` are dropped.
unfoldable pub inner_components : List Text → List Component
inner_components [] = []
inner_components (part ∷ parts) =
    let rest = inner_components parts in
    if is_empty part || text_eq part (b'.' ∷ [])
    then rest
    else if text_eq part (b'.' ∷ b'.' ∷ [])
    then Component.parent_dir ∷ rest
    else Component.normal part ∷ rest

-- The first part: empty before a leading `/`, and `.` is kept.
abbrev pub first_component : Text → List Component → List Component
first_component [] rest = rest
first_component part rest =
    if text_eq part (b'.' ∷ [])
    then Component.cur_dir ∷ rest
    else if text_eq part (b'.' ∷ b'.' ∷ [])
    then Component.parent_dir ∷ rest
    else Component.normal part ∷ rest

abbrev pub of_parts : List Text → List Component
of_parts [] = []
of_parts (part ∷ parts) = first_component part (inner_components parts)

-- `Path::components`.
unfoldable pub components : Text → List Component
components [] = []
components (c ∷ cs) =
    if c == b'/'
    then Component.root_dir ∷ inner_components (split_slash cs)
    else of_parts (split_slash (c ∷ cs))

-- `!matches!(c, Normal(_) | CurDir)`.
abbrev pub leaves_project : Component → Bool
leaves_project Component.root_dir = true
leaves_project Component.parent_dir = true
leaves_project Component.cur_dir = false
leaves_project (Component.normal name) = false

-- `['\\', '\0', '\n', '\r']`.
abbrev pub forbidden : ℕ → Bool
forbidden c = c == 0x5c || c == 0 || c == 10 || c == 13

unfoldable pub relative_check_path : Text → Result Text (Unit {0})
relative_check_path path =
    reject_if
      (is_empty path
        || ltb 1024 (byte_len path)
        || any forbidden path
        || any leaves_project (components path))
      (text "Validator path must stay inside the registered project")
