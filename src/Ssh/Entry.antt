-- ===== src/Ssh/Entry.antt =====
-- The entry that is written for a host, and what it is read as.
use ditch.Prelude.{
  ℕ, ◌==◌, ◌≡◌, refl, ap, sym, ◌∙◌, true, false, not, ◌||◌, Option, some, [], ◌∷◌, ◌++◌, all,
  is_empty, Text, text, is_whitespace, trim, trim_start, trim_end, ok, >>=-eq-ok, reject_if,
  if◌then◌else◌, arith,
}
use ditch.Protocol.Requests.{NewSshHost}
use ditch.Ssh.{
  split_words, safe_user_character, safe_host_character, concrete_alias, split_key, trim_separators,
  directive_of, split_directive, Finding, Directive, aliases_of, read_directive, read_line,
  host_line, render_config_entry, fixed_lines, identity_line, eq_ignore_ascii_case, is_separator,
  starts_with,
}
use ditch.Ssh.Words.{is_plain, is_plain_word, split_words-spaced}

safe_plain : (c : ℕ) → safe_user_character c ≡ true → is_plain c ≡ true
unfolding is_whitespace
safe_plain c h = ground arith

safe_plain_word : (w : Text) → all safe_user_character w ≡ true → all is_plain w ≡ true
safe_plain_word [] h = refl
safe_plain_word (c ∷ cs) h = ground (arith, safe_plain c, safe_plain_word cs)

trim_end_plain : (w : Text) → all is_plain w ≡ true → trim_end w ≡ w
unfolding trim_end
trim_end_plain [] h = refl
trim_end_plain (c ∷ cs) h = ground (arith, trim_end_plain cs)

append_nil : (a : Text) → a ++ [] ≡ a
append_nil [] = refl
append_nil (x ∷ a) = ap (λ (t : Text). x ∷ t) (append_nil a)

trim_host : (w : Text) → is_plain_word w ≡ true → trim (text "Host " ++ w) ≡ text "Host " ++ w
unfolding trim trim_start trim_end text is_whitespace
trim_host w h = let same = trim_end_plain w (ground arith) in ground arith

safe_not_separator : (c : ℕ) → safe_user_character c ≡ true → is_separator c ≡ false
unfolding is_whitespace
safe_not_separator c h = ground arith

trim_separators_safe : (w : Text) → all safe_user_character w ≡ true → trim_separators w ≡ w
unfolding trim_separators
trim_separators_safe [] h = refl
trim_separators_safe (c ∷ cs) h = let first = safe_not_separator c (ground arith) in ground arith

split_host :
    (w : Text)
    → all safe_user_character w ≡ true
    → is_empty w ≡ false
    → split_directive (text "Host " ++ w) ≡ some (text "Host", w)
unfolding split_directive split_key directive_of text is_whitespace trim_separators
split_host w h filled = let same = trim_separators_safe w h in ground arith

alias_word :
    (w : Text) → all safe_user_character w ≡ true → is_empty w ≡ false → split_words w ≡ w ∷ []
alias_word w h filled =
    let plain = safe_plain_word w h in
    ap (λ (t : Text). split_words t) (sym (append_nil w))
    ∙ split_words-spaced w [] (ground arith) refl

host_aliases :
    (w : Text)
    → concrete_alias w ≡ true
    → split_words w ≡ w ∷ []
    → read_directive (some (text "Host", w)) ≡ Finding.found_alias w ∷ []
unfolding read_directive eq_ignore_ascii_case text aliases_of
host_aliases w h one = ground arith

alias_safe :
    (w : Text) → concrete_alias w ≡ true → (all safe_user_character w ≡ true) × (is_empty w ≡ false)
unfolding concrete_alias
alias_safe w h = ground arith

read_host :
    (w : Text)
    → concrete_alias w ≡ true
    → read_line (text "Host " ++ w) ≡ Finding.found_alias w ∷ []
unfolding read_line text
read_host w h =
    let (safe, filled) = alias_safe w h in
    let plain = safe_plain_word w safe in
    ap
      (λ (line : Text).
        if is_empty line || starts_with b'#' line
        then []
        else read_directive (split_directive line))
      (trim_host w (ground arith))
    ∙ ap (λ (d : Option Directive). read_directive d) (split_host w safe filled)
    ∙ host_aliases w h (alias_word w safe filled)

-- An entry that is written for a host begins with a line that is read back as exactly its alias.
pub render-read_line :
    (host : NewSshHost) (entry : Text)
    → render_config_entry host ≡ ok entry
    → (rest : Text) × (entry ≡ host_line host ++ (10 ∷ rest))
      × (read_line (host_line host) ≡ Finding.found_alias host.alias ∷ [])
unfolding render_config_entry
render-read_line host entry h =
    let (u, safe, h1) =
      >>=-eq-ok
        (reject_if
          (not (concrete_alias host.alias)
            || is_empty host.hostname
            || is_empty host.user
            || host.port == 0
            || not (all safe_host_character host.hostname)
            || not (all safe_user_character host.user))
          _)
        _ h in
    let (identity, found, h2) = >>=-eq-ok (identity_line host.identity_file) _ h1 in
    let same : host_line host ++ (10 ∷ (fixed_lines host ++ identity)) ≡ entry = cc in
    (fixed_lines host ++ identity, sym same, read_host host.alias (ground arith))
