-- ===== src/Tests/Logs.antt =====
-- Formats and lines at concrete inputs.
use ip_scout.Logs.Parser.Laws.{Reads, parse_line-Reads}
use ip_scout.Logs.Format
use ip_scout.Python.Strip.{rstrip_newlines}
use ip_scout.Python.Number.{int}
use ip_scout.Python.Ipaddress.Network.{ip_address}
use ip_scout.Prelude.{◌≡◌, refl, none, some, List, [], ◌∷◌, codes}
use ip_scout.Prelude.Int.{pos}
use ip_scout.Logs.Format.{
  Piece, literal, token, status, host, compile_format, format_string, is_named, lexemes,
  same_variable, token_named, compiled_pattern,
}
use ip_scout.Logs.Pattern.{match_pieces, match_token, accepts, finish, group}
use ip_scout.Logs.Parser.{ParsedLine, Conversions, bytes_sent, split_request, parse_line}

abbrev lib : Conversions
lib = record { strptime = λ t. some 500; float = λ t. none }

abbrev short_pieces : List Piece
short_pieces =
    token Format.remote_addr
    ∷ literal b' '
    ∷ token Format.time_local
    ∷ literal b']'
    ∷ token status
    ∷ []

abbrev short_parsed : ParsedLine
short_parsed = record {
  remote_addr = codes "2.57.3.9";
  timestamp = 500;
  method = [];
  uri = [];
  status = pos 503;
  bytes = pos 0;
  request_time = none;
  host = [];
  user_agent = [];
  referer = [];
  raw_line = codes "2.57.3.9 now]503";
}

parse_line-Reads_example :
    Reads lib short_pieces short_parsed
    × (short_parsed.raw_line ≡ rstrip_newlines (codes "2.57.3.9 now]503\r\n"))
unfolding parse_line match_pieces match_token rstrip_newlines accepts finish ip_address group int
    split_request bytes_sent
parse_line-Reads_example =
    parse_line-Reads lib short_pieces (codes "2.57.3.9 now]503\r\n") short_parsed refl
