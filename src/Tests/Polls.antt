-- ===== src/Tests/Polls.antt =====
-- Polls of a log at concrete inputs.
use ip_scout.Python.Ipaddress.V4
use ip_scout.Python.Number
use ip_scout.Logs.Format
use ip_scout.Python.Utf8.{decode}
use ip_scout.Python.Strip.{is_space, lstrip_by, rstrip_by, strip, rstrip_newlines}
use ip_scout.Python.Split.{pop, split}
use ip_scout.Python.Number.{digit_value, int}
use ip_scout.Python.Ipaddress.Network.{print_address, version, ip_address}
use ip_scout.Ips.Identity.{version_of, normalize_ip}
use ip_scout.Prelude.{
  ℕ, ◌+◌, ◌≡◌, refl, true, false, none, some, List, [], ◌∷◌, ◌++◌, Text, codes, arith, drop, take,
  length, any, filter, find?, update_where, text_eq,
}
use ip_scout.Prelude.Int.{pos}
use ip_scout.Errors.{Outcome, ok, raise}
use ip_scout.Models.{Server, ssh_key, LogSource, RequestEvent, process_new_ip, Db, empty_db}
use ip_scout.Models.Tables.{get_source, update_source}
use ip_scout.Ips.Sightings.{
  keep_texts, new_row, create_missing, announce, existing_rows, exists_at, insert_row, latest_from,
  put_latest, record_latest, row_at, touch, touch_all, record_sightings_bulk,
}
use ip_scout.Servers.Ssh.{
  read_from, Host, Stat, read_start, connect_kwargs, load_private_key, poll_log, client,
}
use ip_scout.Servers.Ssh.Laws.{Shows}
use ip_scout.Logs.Format.{
  Piece, literal, token, status, host, compile_format, format_string, is_named, lexemes,
  same_variable, token_named, compiled_pattern,
}
use ip_scout.Logs.Pattern.{match_pieces, match_token, accepts, finish, group}
use ip_scout.Logs.Chunk.{tail_of, consumed_bytes, leftover, raw_lines, complete_lines}
use ip_scout.Logs.Parser.{
  Conversions, bytes_sent, parse_captures, pattern_of, read_request_time, split_request, parse_line,
}
use ip_scout.Logs.Reader.{
  check_events, fits_columns, PollSummary, poll, events_of, ip_id_of, latest_event, parse_all,
  parse_error_text, process_chunk, store_events,
}
use ip_scout.Logs.Reader.Laws.{poll-tail_of}
use ip_scout.Logs.Reader.Stored.{Stores}
use ip_scout.Logs.Reader.Follow.{Polled, start, grows, polls, At}
use ip_scout.Logs.Reader.Follow.Laws.{Follows-Stores}
use ip_scout.Logs.Reader.Total.{Ending, poll_total}
use ip_scout.Logs.Reader.Admitted.{Appends, poll-Appends}

-- A file of one line, a bad one, and the front of a third.
abbrev line : Text
line = codes "2.57.3.9 - - [10/Oct/2026:13:55:36 +0000] \"GET /a HTTP/1.1\" 503 7 \"-\" \"curl\""

abbrev content : List ℕ
content = line ++ codes "\nbad\n2.5"

abbrev stat : Stat
stat = record { inode = 7; size = 84; mtime = 1 }

abbrev remote : Host
remote = record {
  key_error = λ k t. none;
  connect_error = λ h c. none;
  stdout = λ a. [];
  stderr = λ a. [];
  stat = λ p. ok (some stat);
  read = λ p o n. ok (take n (drop o content));
  listdir = λ p. none;
}

abbrev server : Server
server = record {
  id = 1;
  name = codes "web";
  hostname = codes "web.example";
  ssh_auth_type = ssh_key;
  ssh_private_key = codes "k";
  log_search_paths = [];
  enabled = true;
  last_connected_at = none;
  last_error = [];
}

abbrev source : LogSource
source = record {
  id = 3;
  server_id = 1;
  name = codes "access.log";
  path = codes "/var/log/nginx/access.log";
  format = codes "combined";
  enabled = true;
  inode = some 7;
  byte_offset = 0;
  last_read_at = none;
  last_event_at = none;
  last_error = [];
}

abbrev lib : Conversions
lib = record { strptime = λ t. some 500; float = λ t. none }

abbrev before : Db
before = record empty_db { servers = server ∷ []; log_sources = source ∷ [] }

abbrev event : RequestEvent
event = record {
  server_id = 1;
  log_source_id = 3;
  ip_id = 1;
  timestamp = 500;
  host = [];
  method = codes "GET";
  uri = codes "/a";
  status = pos 503;
  bytes = pos 7;
  request_time = none;
  user_agent = codes "curl";
  referer = codes "-";
  raw_line = line;
}

abbrev after : Db
after = record before {
  log_sources =
      record source {
        byte_offset = 81;
        last_read_at = some 900;
        last_event_at = some 500;
        last_error = codes "1 line(s) failed to parse on last read";
      }
      ∷ [];
  ips = new_row 1 (codes "2.57.3.9") 4 500 ∷ [];
  events = event ∷ [];
  queue = process_new_ip 1 ∷ [];
  next_ip = 2;
}

abbrev summary : PollSummary
summary = record {
  events_created = 1;
  parse_errors = 1;
  lines_read = 2;
  rotated = false;
  file_missing = false;
}

remote-Shows : Shows remote source.path stat content
remote-Shows = record { status = refl; size = refl; bytes = λ o n. refl }

polled : poll lib remote server 900 source before ≡ ok (after, summary)
unfolding poll read_start match_pieces tail_of create_missing announce existing_rows exists_at
    insert_row latest_from put_latest record_latest row_at touch touch_all record_sightings_bulk
    version_of normalize_ip consumed_bytes leftover raw_lines complete_lines compile_format
    format_string is_named lexemes same_variable token_named compiled_pattern bytes_sent
    parse_captures pattern_of read_request_time split_request parse_line events_of ip_id_of
    latest_event parse_all parse_error_text process_chunk store_events update_source any filter
    find? update_where text_eq print_address version ip_address digit_value int pop split is_space
    lstrip_by rstrip_by strip rstrip_newlines decode connect_kwargs load_private_key poll_log
    read_from client keep_texts check_events fits_columns match_token accepts finish group V4.octet
    V4.of_octets V4.parse V4.print V4.print_octet Number.print Format.pieces
polled = refl

poll-tail_of_example :
    (2 ≡ length (tail_of content 0).lines)
    × (length after.events ≡ length before.events + 1)
    × ((r : LogSource)
        → get_source 3 before ≡ some r
        → (r' : LogSource) × (get_source 3 after ≡ some r')
          × ((r'.inode ≡ some 7)
              × (r'.byte_offset ≡ (tail_of content 0).next)
              × (r'.path ≡ r.path)
              × (r'.enabled ≡ r.enabled)
              × (r'.format ≡ r.format)
              × (r'.id ≡ r.id)
              × (r'.server_id ≡ r.server_id)))
unfolding read_start
poll-tail_of_example =
    poll-tail_of lib remote server 900 source before stat content after summary remote-Shows polled

poll-Appends_example : Appends source before after
poll-Appends_example = poll-Appends lib remote server 900 source before after summary polled

-- The file after it grew by the end of its third line, and by a fourth one, which do not parse.
abbrev grown : List ℕ
grown = content ++ codes "\nx\n"

abbrev grown_stat : Stat
grown_stat = record { inode = 7; size = 87; mtime = 2 }

abbrev grown_remote : Host
grown_remote = record remote {
  stat = λ p. ok (some grown_stat);
  read = λ p o n. ok (take n (drop o grown));
}

abbrev source_after : LogSource
source_after = record source {
  byte_offset = 81;
  last_read_at = some 900;
  last_event_at = some 500;
  last_error = codes "1 line(s) failed to parse on last read";
}

abbrev source_later : LogSource
source_later = record source_after {
  byte_offset = 87;
  last_read_at = some 950;
  last_error = codes "2 line(s) failed to parse on last read";
}

abbrev later : Db
later = record after { log_sources = source_later ∷ [] }

abbrev later_summary : PollSummary
later_summary = record {
  events_created = 0;
  parse_errors = 2;
  lines_read = 2;
  rotated = false;
  file_missing = false;
}

first_poll : Polled lib 3 7 content before after (event ∷ []) 1
unfolding get_source find?
first_poll = record {
  host = remote;
  server = server;
  now = 900;
  source = source;
  stat = stat;
  summary = summary;
  row = refl;
  shows = remote-Shows;
  same_file = refl;
  done = polled;
  events = refl;
  errors = refl;
}

polled_again : poll lib grown_remote server 950 source_after after ≡ ok (later, later_summary)
unfolding poll read_start match_pieces complete_lines consumed_bytes leftover raw_lines
    compile_format format_string is_named lexemes same_variable token_named compiled_pattern
    pattern_of parse_line parse_all parse_error_text process_chunk store_events update_source filter
    update_where text_eq find? pop split rstrip_by rstrip_newlines is_space strip lstrip_by decode
    connect_kwargs load_private_key poll_log read_from client keep_texts check_events fits_columns
    match_token accepts finish Number.print Format.pieces
polled_again = refl

second_poll : Polled lib 3 7 grown after later [] 2
unfolding get_source find?
second_poll = record {
  host = grown_remote;
  server = server;
  now = 950;
  source = source_after;
  stat = grown_stat;
  summary = later_summary;
  row = refl;
  shows = record { status = refl; size = refl; bytes = λ o n. refl };
  same_file = refl;
  done = polled_again;
  events = refl;
  errors = refl;
}

abbrev pieces_of : Outcome (List Piece) → List Piece
pieces_of (ok p) = p
pieces_of (raise e) = []

abbrev combined_pieces : List Piece
combined_pieces = pieces_of (pattern_of (compiled_pattern (codes "combined")))

combined_readable : pattern_of (compiled_pattern (codes "combined")) ≡ ok combined_pieces
unfolding pattern_of compiled_pattern compile_format format_string is_named lexemes same_variable
    token_named text_eq find? Format.pieces
combined_readable = refl

found_before : get_source 3 before ≡ some source
unfolding get_source find?
found_before = refl

Follows-Stores_example :
    Stores lib source combined_pieces (tail_of grown 0).lines (event ∷ []) 3
    × (row : LogSource) × (get_source 3 later ≡ some row)
    × At 7 grown 0 source row
Follows-Stores_example =
    Follows-Stores lib 3 7 0 source combined_pieces combined_readable before [] found_before refl
      refl (omega arith) after later grown (event ∷ []) [] 1 2
      (grows (codes "\nx\n") (polls first_poll (grows content start))) second_poll

poll_total_example :
    Ending lib remote server 900 source before (poll lib remote server 900 source before)
poll_total_example = poll_total lib remote server 900 source before
