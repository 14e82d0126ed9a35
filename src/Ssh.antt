-- ===== src/Ssh.antt =====
-- The reading and writing of SSH configuration files (crates/ditch_ssh/src/lib.rs). A test on the
-- bytes of a text that only ASCII passes is a test on its characters.
pub mod Words
pub mod Entry
pub mod Wildcard
use ditch.Prelude.{
  ℕ, zero, suc, ◌+◌, ◌/◌, ◌%◌, ◌==◌, ltb, leb, Bool, true, false, not, ◌&&◌, ◌||◌, Option, none,
  some, List, [], ◌∷◌, ◌++◌, any, all, is_empty, Text, text, text_eq, is_whitespace, trim, is_blank,
  opt_eq, Result, ok, err, ◌>>=◌, ◌>>◌, reject_if, if◌then◌else◌,
}
use ditch.Protocol.Requests.{NewSshHost}

-- `eq_ignore_ascii_case`.
abbrev pub lower : ℕ → ℕ
lower c = if leb 65 c && leb c 90 then c + 32 else c

unfoldable pub eq_ignore_ascii_case : Text → Text → Bool
eq_ignore_ascii_case [] [] = true
eq_ignore_ascii_case (a ∷ as') (b ∷ bs) = lower a == lower b && eq_ignore_ascii_case as' bs
eq_ignore_ascii_case _ _ = false

abbrev pub is_separator : ℕ → Bool
is_separator c = is_whitespace c || c == b'='

abbrev pub Directive : Type 0
Directive = Text × Text

abbrev pub longer_key : ℕ → Option Directive → Option Directive
longer_key c none = none
longer_key c (some (key, rest)) = some (c ∷ key, rest)

-- `find` and `split_at`.
unfoldable pub split_key : Text → Option Directive
split_key [] = none
split_key (c ∷ cs) =
    let rest = split_key cs in if is_separator c then some ([], c ∷ cs) else longer_key c rest

unfoldable pub trim_separators : Text → Text
trim_separators [] = []
trim_separators (c ∷ cs) = let rest = trim_separators cs in if is_separator c then rest else c ∷ cs

unfoldable pub directive_of : Option Directive → Option Directive
directive_of none = none
directive_of (some (key, rest)) =
    let value = trim_separators rest in
    if not (is_empty key) && not (is_empty value) then some (key, value) else none

-- `split_directive`.
unfoldable pub split_directive : Text → Option Directive
split_directive line = directive_of (split_key line)

-- The variables of the loop in `split_words`.
pub record Splitter : Type 0 where
  pub words : List Text
  pub word : Text
  pub quote : Option ℕ
  pub escaped : Bool

abbrev pub push : Splitter → ℕ → Splitter
push s c = record s { word = s.word ++ c ∷ [] }

abbrev pub is_quote : ℕ → Bool
is_quote c = c == b'\'' || c == b'"'

abbrev pub end_word : Splitter → Splitter
end_word s = if is_empty s.word then s else record s { words = s.words ++ s.word ∷ []; word = [] }

abbrev pub read_quote : Splitter → ℕ → Splitter
read_quote s c =
    if opt_eq s.quote (some c)
    then record s { quote = none }
    else if opt_eq s.quote none
    then record s { quote = some c }
    else push s c

-- The body of the loop.
unfoldable pub read_character : Splitter → ℕ → Splitter
read_character s c =
    if s.escaped
    then record (push s c) { escaped = false }
    else if c == b'\\' && not (opt_eq s.quote (some b'\''))
    then record s { escaped = true }
    else if is_quote c
    then read_quote s c
    else if is_whitespace c && opt_eq s.quote none
    then end_word s
    else push s c

unfoldable pub read_characters : Splitter → Text → Splitter
read_characters s [] = s
read_characters s (c ∷ cs) = read_characters (read_character s c) cs

abbrev pub fresh_splitter : Splitter
fresh_splitter = record { words = []; word = []; quote = none; escaped = false }

abbrev pub finished : Splitter → List Text
finished s = (end_word (if s.escaped then push s b'\\' else s)).words

-- `split_words`.
unfoldable pub split_words : Text → List Text
split_words value = finished (read_characters fresh_splitter value)

abbrev pub is_alphanumeric : ℕ → Bool
is_alphanumeric c = (leb 48 c && leb c 57) || (leb 65 c && leb c 90) || (leb 97 c && leb c 122)

-- `safe_user_character` and `safe_host_character`.
abbrev pub safe_user_character : ℕ → Bool
safe_user_character c = is_alphanumeric c || c == b'.' || c == b'_' || c == b'-'

abbrev pub safe_host_character : ℕ → Bool
safe_host_character c = is_alphanumeric c || c == b'.' || c == b':' || c == b'_' || c == b'-'

abbrev pub is_pattern_character : ℕ → Bool
is_pattern_character c = c == b'*' || c == b'?' || c == b'[' || c == b']'

abbrev pub starts_with : ℕ → Text → Bool
starts_with c [] = false
starts_with c (d ∷ ds) = c == d

-- `concrete_alias`.
unfoldable pub concrete_alias : Text → Bool
concrete_alias alias =
    not (is_empty alias)
    && not (starts_with b'!' alias)
    && not (any is_pattern_character alias)
    && all safe_user_character alias

-- The decimal digits of a `u16`, which has five at most.
unfoldable pub digits : ℕ → ℕ → Text
digits zero n = []
digits (suc left) n =
    let more = digits left (n / 10) in
    if ltb n 10 then (48 + n) ∷ [] else more ++ (48 + n % 10) ∷ []

abbrev pub show_port : ℕ → Text
show_port n = digits 5 n

abbrev pub identity_character : ℕ → Bool
identity_character c =
    is_alphanumeric c || c == b'/' || c == b'.' || c == b'_' || c == b'-' || c == b'~'

pub data SshError : Type 0 where
  openssh_unavailable invalid_config unsupported_config failed io : Text → SshError
  timeout : SshError

unfoldable pub identity_line : Option Text → Result SshError Text
identity_line none = ok []
identity_line (some identity) =
    if is_blank identity
    then ok []
    else if all identity_character identity
    then ok (text "    IdentityFile " ++ (trim identity ++ 10 ∷ []))
    else err (SshError.invalid_config (text "identity file is invalid"))

abbrev pub host_line : NewSshHost → Text
host_line host = text "Host " ++ host.alias

unfoldable pub fixed_lines : NewSshHost → Text
fixed_lines host =
    text "    HostName "
    ++ (host.hostname
        ++ (10
            ∷ (text "    User "
                ++ (host.user ++ (10 ∷ (text "    Port " ++ (show_port host.port ++ 10 ∷ [])))))))

-- `render_config_entry`.
unfoldable pub render_config_entry : NewSshHost → Result SshError Text
render_config_entry host = do
  reject_if
      (not (concrete_alias host.alias)
        || is_empty host.hostname
        || is_empty host.user
        || host.port == 0
        || not (all safe_host_character host.hostname)
        || not (all safe_user_character host.user))
      (SshError.invalid_config (text "host fields contain unsupported characters"))
  identity ← identity_line host.identity_file
  ok (host_line host ++ (10 ∷ (fixed_lines host ++ identity)))

-- `str::lines`; the carriage return that it strips goes with `trim` below.
abbrev pub add_to_first : ℕ → List Text → List Text
add_to_first c [] = (c ∷ []) ∷ []
add_to_first c (line ∷ more) = (c ∷ line) ∷ more

unfoldable pub lines : Text → List Text
lines [] = []
lines (c ∷ cs) = let rest = lines cs in if c == 10 then [] ∷ rest else add_to_first c rest

-- What a line of a configuration names: aliases, or files to include.
pub data Finding : Type 0 where
  found_alias : Text → Finding
  found_include : Text → Finding

unfoldable pub aliases_of : List Text → List Finding
aliases_of [] = []
aliases_of (w ∷ ws) =
    let rest = aliases_of ws in if concrete_alias w then Finding.found_alias w ∷ rest else rest

unfoldable pub includes_of : List Text → List Finding
includes_of [] = []
includes_of (w ∷ ws) = Finding.found_include w ∷ includes_of ws

unfoldable pub read_directive : Option Directive → List Finding
read_directive none = []
read_directive (some (keyword, value)) =
    if eq_ignore_ascii_case keyword (text "host")
    then aliases_of (split_words value)
    else if eq_ignore_ascii_case keyword (text "include")
    then includes_of (split_words value)
    else []

-- The body of the loop over the lines in `discover_file`.
unfoldable pub read_line : Text → List Finding
read_line raw =
    let line = trim raw in
    if is_empty line || starts_with b'#' line then [] else read_directive (split_directive line)

unfoldable pub read_lines : List Text → List Finding
read_lines [] = []
read_lines (line ∷ more) = read_line line ++ read_lines more

abbrev pub read_contents : Text → List Finding
read_contents contents = read_lines (lines contents)
