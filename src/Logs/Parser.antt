-- ===== src/Logs/Parser.antt =====
-- apps/logs/parsers.py: `split_request` and `NginxLogParser`.
pub mod Laws
use ip_scout.Prelude.{
  Bool, not, ◌&&◌, ◌||◌, Option, none, some, List, [], ◌∷◌, Text, ◌==◌, between, codes, text_eq,
  if◌then◌else◌, any,
}
use ip_scout.Prelude.Int.{ℤ, pos}
use ip_scout.Errors.{Outcome, ok, raise, value_error, re_error, log_parse_error, ◌>>=◌}
use ip_scout.Python.Strip.{is_space, is_nil, rstrip_newlines}
use ip_scout.Python.Split.{split}
use ip_scout.Python.Number.{int}
use ip_scout.Python.Ipaddress.Network.{ip_address}
use ip_scout.Models.{Time, Float}
use ip_scout.Logs.Format.{
  remote_addr, time_local, request, status, body_bytes_sent, http_referer, http_user_agent,
  request_time, host, Piece, Compiled, pattern, unsupported, redefined,
}
use ip_scout.Logs.Pattern.{Captures, match_pieces, group}

pub record ParsedLine : Type 0 where
  pub remote_addr : Text
  pub timestamp : Time
  pub method : Text
  pub uri : Text
  pub status : ℤ
  pub bytes : ℤ
  pub request_time : Option Float
  pub host : Text
  pub user_agent : Text
  pub referer : Text
  pub raw_line : Text

-- The two conversions of the standard library that stay parameters: `datetime.strptime` at the
-- format of `time_local`, and `float`. `none` is a ValueError.
pub record Conversions : Type 0 where
  pub strptime : Text → Option Time
  pub float : Text → Option Float

all_upper : Text → Bool
all_upper s = not (is_nil s) && not (any (λ c. not (between b'A' b'Z' c)) s)

no_space : Text → Bool
unfolding is_space
no_space s = not (is_nil s) && not (any is_space s)

-- A newline at the very end, before which `$` matches too.
drop_newline : Text → Text
drop_newline [] = []
drop_newline (c ∷ []) = if c == b'\n' then [] else c ∷ []
drop_newline (c ∷ d ∷ s) = c ∷ drop_newline (d ∷ s)

-- _REQUEST_RE: a method, a URI and a protocol with one space between. No part has a space, so the
-- parts are those that `split` gives.
request_parts : Text → List Text → Text × Text
unfolding all_upper no_space drop_newline any
request_parts whole (method ∷ uri ∷ protocol ∷ []) =
    if all_upper method && no_space uri && no_space (drop_newline protocol)
    then (method, uri)
    else ([], whole)
request_parts whole _ = ([], whole)

unfoldable pub split_request : Text → Text × Text
unfolding request_parts split
split_request s = request_parts s (split b' ' s)

abbrev pub or_empty : Option Text → Text
or_empty none = []
or_empty (some t) = t

-- int(groups.get("body_bytes_sent", "0")), with 0 for what is no number
unfoldable pub bytes_sent : Option Text → ℤ
unfolding int
bytes_sent none = pos 0
bytes_sent (some t) = elim (int t) [ none ↦ pos 0 | some n ↦ n ]

module _ (lib : Conversions) where
  unfoldable pub read_request_time : Option Text → Option Float
  unfolding text_eq
  read_request_time none = none
  read_request_time (some t) = if is_nil t || text_eq t (codes "-") then none else lib.float t

  -- A missing group is a KeyError, which the parser turns into a LogParseError too.
  abbrev pub read_time : Option Text → Outcome Time
  read_time none = raise log_parse_error
  read_time (some t) = elim (lib.strptime t) [ none ↦ raise log_parse_error | some n ↦ ok n ]

  abbrev pub read_status : Option Text → Outcome ℤ
  read_status none = raise log_parse_error
  read_status (some t) = elim (int t) [ none ↦ raise log_parse_error | some n ↦ ok n ]

  abbrev pub read_address : Text → Outcome Text
  read_address t = elim (ip_address t) [ none ↦ raise log_parse_error | some _ ↦ ok t ]

  unfoldable pub parse_captures : Text → Captures → Outcome ParsedLine
  unfolding read_request_time
  parse_captures line groups = do
    address ← read_address (or_empty (group remote_addr groups))
    timestamp ← read_time (group time_local groups)
    code ← read_status (group status groups)
    let request_line = split_request (or_empty (group request groups))
    ok (record {
      remote_addr = address;
      timestamp = timestamp;
      method = request_line.0;
      uri = request_line.1;
      status = code;
      bytes = bytes_sent (group body_bytes_sent groups);
      request_time = read_request_time (group request_time groups);
      host = or_empty (group host groups);
      user_agent = or_empty (group http_user_agent groups);
      referer = or_empty (group http_referer groups);
      raw_line = line;
    })

  unfoldable pub parse_line : List Piece → Text → Outcome ParsedLine
  unfolding parse_captures
  parse_line pieces raw_line =
      let line = rstrip_newlines raw_line in
      elim (match_pieces pieces line) [
        | none ↦ raise log_parse_error
        | some groups ↦ parse_captures line groups
      ]

-- NginxLogParser(format).pattern
unfoldable pub pattern_of : Compiled → Outcome (List Piece)
pattern_of (pattern ps) = ok ps
pattern_of (unsupported _) = raise value_error
pattern_of (redefined _) = raise re_error
