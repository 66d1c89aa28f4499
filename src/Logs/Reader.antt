-- ===== src/Logs/Reader.antt =====
-- apps/logs/services.py: `NginxLogReader.poll`.
pub mod Laws
pub mod Admitted
pub mod Stored
pub mod Follow
pub mod Lines
pub mod Storing
pub mod Total
use ip_scout.Prelude.{
  any, not, ◌&&◌, ℕ, zero, suc, ◌+◌, ◌-◌, ◌≡◌, refl, Bool, true, false, Option, none, some, List,
  [], ◌∷◌, ◌++◌, Text, ◌==◌, ltb, codes, length, take, map, if◌then◌else◌,
}
use ip_scout.Prelude.Int.{ℤ, pos, negsuc}
use ip_scout.Errors.{Error, Outcome, ok, raise, key_error, data_error, log_parse_error, ◌>>=◌, ◌>>◌}
use ip_scout.Python.Number
use ip_scout.Models.{Time, Server, LogSource, IpAddress, RequestEvent, Db}
use ip_scout.Models.Tables.{update_source}
use ip_scout.Servers.Ssh.{Host, LogChunk, poll_log}
use ip_scout.Ips.Identity.{normalize_ip}
use ip_scout.Ips.Sightings.{Sighting, row_at, record_sightings_bulk}
use ip_scout.Logs.Format.{Piece, compiled_pattern}
use ip_scout.Logs.Parser.{ParsedLine, Conversions, parse_line, pattern_of}
use ip_scout.Logs.Chunk.{complete_lines, consumed_bytes}

pub record PollSummary : Type 0 where
  pub events_created : ℕ
  pub parse_errors : ℕ
  pub lines_read : ℕ
  pub rotated : Bool
  pub file_missing : Bool

pub record ParsedLines : Type 0 where
  pub parsed_lines : List ParsedLine
  pub parse_errors : ℕ

-- A LogParseError is counted; any other exception leaves the loop.
abbrev count_line : Outcome ParsedLine → Outcome ParsedLines → Outcome ParsedLines
count_line (ok p) (ok r) = ok (record r { parsed_lines = p ∷ r.parsed_lines })
count_line (ok p) (raise e) = raise e
count_line (raise log_parse_error) (ok r) = ok (record r { parse_errors = suc r.parse_errors })
count_line (raise log_parse_error) (raise e) = raise e
count_line (raise e) r = raise e

module _ (lib : Conversions) where
  unfoldable pub parse_all : List Piece → List Text → Outcome ParsedLines
  parse_all pattern [] = ok (record { parsed_lines = []; parse_errors = 0 })
  parse_all pattern (line ∷ lines) =
      count_line (parse_line lib pattern line) (parse_all pattern lines)

-- RequestEvent(…) of one line, its fields cut to their columns.
abbrev event_of : LogSource → ℕ → ParsedLine → RequestEvent
event_of source ip_id p = record {
  server_id = source.server_id;
  log_source_id = source.id;
  ip_id = ip_id;
  timestamp = p.timestamp;
  host = take 255 p.host;
  method = take 16 p.method;
  uri = take 2048 p.uri;
  status = p.status;
  bytes = p.bytes;
  request_time = p.request_time;
  user_agent = take 512 p.user_agent;
  referer = take 2048 p.referer;
  raw_line = take 8192 p.raw_line;
}

-- ip_map[normalize_ip(parsed.remote_addr)].id
unfoldable pub ip_id_of : List IpAddress → ParsedLine → Outcome ℕ
ip_id_of ip_map p = do
  address ← normalize_ip p.remote_addr
  elim (row_at address ip_map) [ none ↦ raise key_error | some r ↦ ok r.id ]

unfoldable pub events_of :
    LogSource → List IpAddress → List ParsedLine → Outcome (List RequestEvent)
unfolding ip_id_of
events_of source ip_map [] = ok []
events_of source ip_map (p ∷ parsed) = do
  id ← ip_id_of ip_map p
  rest ← events_of source ip_map parsed
  ok (event_of source id p ∷ rest)

-- A text column cannot hold a NUL.
abbrev pub is_storable : Text → Bool
is_storable t = not (any (λ c. c == 0) t)

unfoldable pub all_storable : List Text → Bool
all_storable [] = true
all_storable (t ∷ ts) = let rest = all_storable ts in is_storable t && rest

abbrev pub is_below : ℕ → ℤ → Bool
is_below bound (pos n) = ltb n bound
is_below bound (negsuc n) = false

-- Whether the columns can hold the values: those of numbers are PositiveSmallIntegerField and
-- PositiveBigIntegerField.
unfoldable pub fits_columns : RequestEvent → Bool
unfolding all_storable
fits_columns e =
    is_below 32768 e.status
    && is_below 9223372036854775808 e.bytes
    && all_storable (e.host ∷ e.method ∷ e.uri ∷ e.user_agent ∷ e.referer ∷ e.raw_line ∷ [])

-- bulk_create is a DataError, or a ValueError of the driver, for a value that a column cannot hold.
unfoldable pub check_events : List RequestEvent → Outcome (Unit {0})
unfolding fits_columns
check_events [] = ok tt
check_events (e ∷ events) =
    let rest = check_events events in if fits_columns e then rest else raise data_error

unfoldable pub latest_event : ParsedLine → List ParsedLine → Time
latest_event p [] = p.timestamp
latest_event p (q ∷ parsed) =
    let rest = latest_event q parsed in if ltb p.timestamp rest then rest else p.timestamp

-- The new events and the time of the last one.
unfoldable pub store_events : LogSource → List ParsedLine → Db → Outcome (Db × Option Time)
unfolding events_of check_events latest_event
store_events source [] db = ok (db, none)
store_events source (p ∷ parsed) db = do
  (recorded, ip_map) ←
      record_sightings_bulk (map (λ (q : ParsedLine). (q.remote_addr, q.timestamp)) (p ∷ parsed)) db
  events ← events_of source ip_map (p ∷ parsed)
  check_events events
  ok (record recorded { events = recorded.events ++ events }, some (latest_event p parsed))

unfoldable pub parse_error_text : ℕ → Text
unfolding Number.print
parse_error_text zero = []
parse_error_text (suc n) = Number.print (suc n) ++ codes " line(s) failed to parse on last read"

abbrev or_else : Option Time → Option Time → Option Time
or_else none old = old
or_else (some t) old = some t

-- The columns that a read of the file sets.
abbrev pub advance : Time → LogSource → LogChunk → ParsedLines → Option Time → LogSource → LogSource
advance now source chunk parsed latest s = record s {
  inode = some chunk.inode;
  byte_offset = chunk.offset + consumed_bytes chunk.data_read;
  last_read_at = some now;
  last_event_at = or_else latest source.last_event_at;
  last_error = parse_error_text parsed.parse_errors;
}

-- The columns that a poll of a missing file sets.
abbrev pub missing : Time → LogSource → LogSource → LogSource
missing now source s = record s {
  last_error = codes "Log file not found: " ++ source.path;
  last_read_at = some now;
}

-- The offset is known only together with the inode.
abbrev pub known_offset : LogSource → Option ℕ
known_offset source = elim source.inode [ none ↦ none | some _ ↦ some source.byte_offset ]

module _ (lib : Conversions) where
  -- The part of `poll` behind the read.
  unfoldable pub process_chunk : Time → LogSource → LogChunk → Db → Outcome (Db × PollSummary)
  unfolding parse_all store_events pattern_of update_source
  process_chunk now source chunk db = do
    let lines = complete_lines chunk.data_read
    pattern ← pattern_of (compiled_pattern source.format)
    parsed ← parse_all lib pattern lines
    (stored, latest) ← store_events source parsed.parsed_lines db
    ok (
      update_source source.id (advance now source chunk parsed latest) stored,
      record {
        events_created = length parsed.parsed_lines;
        parse_errors = parsed.parse_errors;
        lines_read = length lines;
        rotated = chunk.rotated;
        file_missing = false;
      },
    )

  unfoldable pub poll : Host → Server → Time → LogSource → Db → Outcome (Db × PollSummary)
  unfolding process_chunk update_source
  poll host server now source db = do
    chunk ← poll_log host server source.path source.inode (known_offset source)
    elim chunk [
      | none ↦ ok (
        update_source source.id (missing now source) db,
        record {
          events_created = 0;
          parse_errors = 0;
          lines_read = 0;
          rotated = false;
          file_missing = true;
        },
      )
      | some c ↦ process_chunk now source c db
    ]
