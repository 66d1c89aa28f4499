-- ===== src/Logs/Format.antt =====
-- apps/logs/parsers.py: the variables of an nginx log_format and `compile_format`.
use ip_scout.Prelude.{
  ℕ, Bool, true, false, ◌&&◌, ◌||◌, Option, none, some, List, [], ◌∷◌, ◌++◌, Text, ◌==◌, between,
  codes, text_eq, if◌then◌else◌,
}

-- The keys of _TOKEN_PATTERNS.
pub data Variable : Type 0 where
  remote_addr remote_user time_local request status body_bytes_sent http_referer : Variable
  http_user_agent request_time host : Variable

-- A format is compiled to literal characters and variables, in their order.
pub data Piece : Type 0 where
  literal : ℕ → Piece
  token : Variable → Piece

-- The two ways in which compiling fails: the ValueError of the source, and the error of `re` for a
-- group name that occurs twice.
pub data Compiled : Type 0 where
  pattern : List Piece → Compiled
  unsupported : Text → Compiled
  redefined : Variable → Compiled

unfoldable pub token_named : Text → Option Variable
unfolding text_eq
token_named s =
    if text_eq s (codes "remote_addr")
    then some remote_addr
    else if text_eq s (codes "remote_user")
    then some remote_user
    else if text_eq s (codes "time_local")
    then some time_local
    else if text_eq s (codes "request")
    then some request
    else if text_eq s (codes "status")
    then some status
    else if text_eq s (codes "body_bytes_sent")
    then some body_bytes_sent
    else if text_eq s (codes "http_referer")
    then some http_referer
    else if text_eq s (codes "http_user_agent")
    then some http_user_agent
    else if text_eq s (codes "request_time")
    then some request_time
    else if text_eq s (codes "host")
    then some host
    else none

-- Whether the fragment of a variable is a named group.
unfoldable pub is_named : Variable → Bool
is_named remote_user = false
is_named _ = true

variable_index : Variable → ℕ
variable_index remote_addr = 0
variable_index remote_user = 1
variable_index time_local = 2
variable_index request = 3
variable_index status = 4
variable_index body_bytes_sent = 5
variable_index http_referer = 6
variable_index http_user_agent = 7
variable_index request_time = 8
variable_index host = 9

unfoldable pub same_variable : Variable → Variable → Bool
unfolding variable_index
same_variable a b = variable_index a == variable_index b

-- What _TOKEN_RE finds in a format string, and the text between.
pub data Lexeme : Type 0 where
  char : ℕ → Lexeme
  name : Text → Lexeme

is_name_char : ℕ → Bool
is_name_char c = between b'a' b'z' c || c == b'_'

-- The end of what stood after a "$": a lone "$" is literal text.
close : Text → List Lexeme → List Lexeme
close [] rest = char b'$' ∷ rest
close (c ∷ s) rest = name (c ∷ s) ∷ rest

-- `some read` when the characters `read` stand after a "$".
lexemes_from : Option Text → Text → List Lexeme
unfolding close is_name_char
lexemes_from none [] = []
lexemes_from (some read) [] = close read []
lexemes_from none (c ∷ s) = elim (c == b'$') [
  | true ↦ lexemes_from (some []) s
  | false ↦ char c ∷ lexemes_from none s
]
lexemes_from (some read) (c ∷ s) = elim (is_name_char c) [
  | true ↦ lexemes_from (some (read ++ c ∷ [])) s
  | false ↦ elim (c == b'$') [
    | true ↦ close read (lexemes_from (some []) s)
    | false ↦ close read (char c ∷ lexemes_from none s)
  ]
]

unfoldable pub lexemes : Text → List Lexeme
unfolding lexemes_from
lexemes = lexemes_from none

-- The loop of compile_format, which stops at the first unknown variable.
unfoldable pub pieces : List Lexeme → Compiled
unfolding token_named
pieces [] = pattern []
pieces (char c ∷ rest) = elim (pieces rest) [
  | pattern ps ↦ pattern (literal c ∷ ps)
  | unsupported s ↦ unsupported s
  | redefined v ↦ redefined v
]
pieces (name s ∷ rest) = elim (token_named s) [
  | none ↦ unsupported s
  | some v ↦ elim (pieces rest) [
    | pattern ps ↦ pattern (token v ∷ ps)
    | unsupported t ↦ unsupported t
    | redefined w ↦ redefined w
  ]
]

occurs : Variable → List Piece → Bool
unfolding same_variable
occurs v [] = false
occurs v (literal _ ∷ ps) = occurs v ps
occurs v (token w ∷ ps) = same_variable v w || occurs v ps

-- A named group that occurs again.
repeated : List Piece → Option Variable
unfolding occurs is_named
repeated [] = none
repeated (literal _ ∷ ps) = repeated ps
repeated (token v ∷ ps) =
    let rest = repeated ps in if is_named v && occurs v ps then some v else rest

compile_regex : Compiled → Compiled
unfolding repeated
compile_regex (pattern ps) = elim (repeated ps) [ none ↦ pattern ps | some v ↦ redefined v ]
compile_regex e = e

unfoldable pub compile_format : Text → Compiled
unfolding lexemes pieces compile_regex
compile_format s = compile_regex (pieces (lexemes s))

-- NGINX_LOG_FORMATS
abbrev pub combined : Text
combined =
    codes
      "$remote_addr - $remote_user [$time_local] \"$request\" $status $body_bytes_sent \"$http_referer\" \"$http_user_agent\""

abbrev pub combined_host : Text
combined_host =
    codes
      "$host $remote_addr - $remote_user [$time_local] \"$request\" $status $body_bytes_sent \"$http_referer\" \"$http_user_agent\""

abbrev pub combined_timed : Text
combined_timed =
    codes
      "$remote_addr - $remote_user [$time_local] \"$request\" $status $body_bytes_sent \"$http_referer\" \"$http_user_agent\" $request_time"

unfoldable pub format_string : Text → Text
unfolding text_eq
format_string value =
    if text_eq value (codes "combined")
    then combined
    else if text_eq value (codes "combined_host")
    then combined_host
    else if text_eq value (codes "combined_timed")
    then combined_timed
    else value

unfoldable pub compiled_pattern : Text → Compiled
unfolding compile_format format_string
compiled_pattern value = compile_format (format_string value)
