-- ===== src/Loop/Redact.antt =====
-- `redact` (crates/ditchd/src/acceptance_evidence.rs) and the methods of `str` that it calls.
use ditch.Prelude.{
  ℕ, zero, suc, ◌+◌, ◌-◌, ◌==◌, ltb, leb, Bool, true, false, not, ◌&&◌, ◌||◌, List, [], ◌∷◌, ◌++◌,
  any, keep, map, is_empty, length, Text, text, byte_len, if◌then◌else◌,
}

-- `str::starts_with` and `str::contains`.
unfoldable pub has_prefix : Text → Text → Bool
has_prefix [] s = true
has_prefix (p ∷ ps) [] = false
has_prefix (p ∷ ps) (c ∷ cs) = p == c && has_prefix ps cs

unfoldable pub contains : Text → Text → Bool
contains needle [] = is_empty needle
contains needle (c ∷ cs) = has_prefix needle (c ∷ cs) || contains needle cs

-- `str::lines`, with the characters of the line that is being read in front.
unfoldable pub without_cr : Text → Text
without_cr [] = []
without_cr (c ∷ cs) = let rest = without_cr cs in if is_empty cs && c == b'\r' then [] else c ∷ rest

unfoldable pub scan_lines : Text → Text → List Text
scan_lines line [] = if is_empty line then [] else line ∷ []
scan_lines line (c ∷ cs) =
    let next = scan_lines [] cs in
    let longer = scan_lines (line ++ c ∷ []) cs in
    if c == b'\n' then without_cr line ∷ next else longer

abbrev pub text_lines : Text → List Text
text_lines s = scan_lines [] s

-- `join("\n")`.
unfoldable pub join_lines : List Text → Text
join_lines [] = []
join_lines (l ∷ []) = l
join_lines (l ∷ m ∷ ls) = l ++ b'\n' ∷ join_lines (m ∷ ls)

-- `to_ascii_lowercase` of a character.
unfoldable pub ascii_lower : ℕ → ℕ
ascii_lower c = if leb b'A' c && leb c b'Z' then c + 32 else c

-- `lower`: small letters, without quotes, spaces and tabs.
abbrev pub is_noise : ℕ → Bool
is_noise c = c == b'"' || c == b'\'' || c == b' ' || c == b'\t'

unfoldable pub normalized_line : Text → Text
normalized_line line = keep (λ c. not (is_noise c)) (map ascii_lower line)

abbrev pub markers : List Text
markers =
    text "sk-"
    ∷ text "ghp_"
    ∷ text "github_pat_"
    ∷ text "authorization:"
    ∷ text "bearer"
    ∷ text "privatekey"
    ∷ text "password="
    ∷ text "password:"
    ∷ text "api_key"
    ∷ text "api-key"
    ∷ text "access_token"
    ∷ text "secret="
    ∷ text "secret:"
    ∷ text "token="
    ∷ []

unfoldable pub is_sensitive : Text → Bool
is_sensitive line = any (λ k. contains k (normalized_line line)) markers

abbrev pub hidden_line : Text
hidden_line = text "[sensitive line redacted]"

unfoldable pub redact_line : Text → Text
redact_line line = if is_sensitive line then hidden_line else line

-- `str::replace`: `skip` characters of a match are still to be dropped.
unfoldable pub replace_from : Text → Text → ℕ → Text → Text
replace_from old new skip [] = []
replace_from old new (suc skip) (c ∷ cs) = replace_from old new skip cs
replace_from old new zero (c ∷ cs) =
    let matched = replace_from old new (length old - 1) cs in
    let kept = replace_from old new zero cs in
    if has_prefix old (c ∷ cs) then new ++ matched else c ∷ kept

module _ (uppercase : Text → Text) where
  unfoldable pub is_secret_name : Text → Bool
  is_secret_name name =
      any (λ s. contains s (uppercase name))
        (text "TOKEN" ∷ text "SECRET" ∷ text "PASSWORD" ∷ text "API_KEY" ∷ [])

  -- The environment's variables, one after the other.
  unfoldable pub redact_variables : List (Text × Text) → Text → Text
  redact_variables [] s = s
  redact_variables ((name, value) ∷ more) s = redact_variables more (
      if leb 8 (byte_len value) && is_secret_name name
      then replace_from value (text "[redacted]") 0 s
      else s)

  -- `char::is_control`.
  abbrev pub is_control : ℕ → Bool
  is_control c = ltb c 32 || (leb 127 c && leb c 159)

  -- `redact`.
  unfoldable pub redact : List (Text × Text) → Text → Text
  redact variables value =
      keep (λ c. not (is_control c) || c == b'\n' || c == b'\t')
        (redact_variables variables (join_lines (map redact_line (text_lines value))))
