-- ===== src/Logs/Pattern.antt =====
-- The patterns that a log format compiles to, matched as `re` does: each variable takes as much as
-- it can, and gives back one character at a time while the rest does not match.
pub mod Laws
pub mod Remote
use ip_scout.Prelude.{
  ℕ, suc, ◌≡◌, refl, Bool, true, false, not, ◌&&◌, Option, none, some, List, [], ◌∷◌, ◌++◌, Text,
  ◌==◌, leb, ltb, is_some, if◌then◌else◌, length, map,
}
use ip_scout.Python.Strip.{is_space, is_nil}
use ip_scout.Python.Number.{digit_value}
use ip_scout.Logs.Format.{
  Variable, remote_addr, remote_user, time_local, request, status, body_bytes_sent, http_referer,
  http_user_agent, request_time, host, Piece, literal, token, is_named, same_variable,
}

-- What the fragment of a variable accepts: the characters, and how many of them.
unfoldable pub accepts : Variable → ℕ → Bool
unfolding is_space digit_value
accepts time_local c = not (c == b']')
accepts request c = not (c == b'"')
accepts status c = is_some (digit_value c)
accepts http_referer c = not (c == b'"')
accepts http_user_agent c = not (c == b'"')
accepts _ c = not (is_space c)

abbrev pub at_least : Variable → ℕ
at_least request = 0
at_least http_referer = 0
at_least http_user_agent = 0
at_least status = 3
at_least _ = 1

-- Whether `n` characters more than `taken` may follow: only the status has an upper bound.
abbrev pub has_room : Variable → ℕ → Bool
has_room status n = ltb n 3
has_room _ n = true

abbrev pub Captures : Type 0
Captures = List (Variable × Text)

abbrev pub add_capture : Variable → Text → Option Captures → Option Captures
add_capture v taken none = none
add_capture v taken (some caps) = some ((v, taken) ∷ caps)

-- The variable `v` has taken `taken`, and `rest` matches what follows it.
unfoldable pub finish : Variable → (Text → Option Captures) → Text → Text → Option Captures
finish v rest taken s =
    if leb (at_least v) (length taken) then add_capture v taken (rest s) else none

unfoldable pub match_token : Variable → (Text → Option Captures) → Text → Text → Option Captures
match_token v rest taken [] = finish v rest taken []
match_token v rest taken (c ∷ s) = elim (accepts v c && has_room v (length taken)) [
  | true ↦ elim (match_token v rest (taken ++ c ∷ []) s) [
    | some caps ↦ some caps
    | none ↦ finish v rest taken (c ∷ s)
  ]
  | false ↦ finish v rest taken (c ∷ s)
]

-- `$` matches at the end, and before a newline at the end.
abbrev pub at_end : Text → Bool
at_end [] = true
at_end (c ∷ []) = c == b'\n'
at_end (c ∷ d ∷ s) = false

unfoldable pub match_pieces : List Piece → Text → Option Captures
match_pieces [] s = if at_end s then some [] else none
match_pieces (literal p ∷ ps) [] = none
match_pieces (literal p ∷ ps) (c ∷ s) =
    let rest = match_pieces ps s in if c == p then rest else none
match_pieces (token v ∷ ps) s = match_token v (match_pieces ps) [] s

-- match.groupdict().get(name)
unfoldable pub group : Variable → Captures → Option Text
unfolding same_variable is_named
group v [] = none
group v ((w, t) ∷ caps) =
    let rest = group v caps in if same_variable v w && is_named w then some t else rest
