-- ===== src/Logs/Reader/Total.antt =====
-- apps/logs/services.py: how a poll ends.
use ip_scout.Prelude.{
  ℕ, ap, ◌∙◌, Bool, Elem, false, ◌+◌, ◌≡◌, refl, true, false, Option, none, some, List, Text,
  length, Option-cases, inl, inr, sym, subst,
}
use ip_scout.Errors.{Error, Outcome, ok, raise, key_error, data_error, Outcome-cases}
use ip_scout.Models.{Time, Server, LogSource, Db}
use ip_scout.Models.Tables.{update_source}
use ip_scout.Servers.Ssh.{Host, Stat, LogChunk, client, read_start, chunk_of, read_from, poll_log}
use ip_scout.Ips.Identity.{normalize_ip}
use ip_scout.Logs.Format.{Piece, compiled_pattern}
use ip_scout.Logs.Reader.Storing.{Storing, unkept, unstorable, stored, store_events-Storing}
use ip_scout.Logs.Reader.Lines.{parse_all_total}
use ip_scout.Logs.Parser.{ParsedLine, Conversions, parse_line, pattern_of}
use ip_scout.Logs.Chunk.{complete_lines}
use ip_scout.Logs.Reader.{
  PollSummary, event_of, fits_columns, ParsedLines, advance, parse_all, store_events, missing,
  process_chunk, known_offset, poll,
}

-- How the processing of the lines that were read ends: the column of addresses does not keep the address
-- of one that parses, a column of events cannot hold a value of one, or each line is an event or a parse
-- error.
pub data Processing (lib : Conversions) (source : LogSource) (pattern : List Piece)
    (lines : List Text) (keeps : Text → Bool) : Outcome (Db × PollSummary) → Type 0 where
  unkept_address :
      (line : Text) (p : ParsedLine) (a : Text)
      → Elem line lines
      → parse_line lib pattern line ≡ ok p
      → normalize_ip p.remote_addr ≡ ok a
      → keeps a ≡ false
      → Processing lib source pattern lines keeps (raise key_error)
  unstorable_event :
      (line : Text) (p : ParsedLine) (id : ℕ)
      → Elem line lines
      → parse_line lib pattern line ≡ ok p
      → fits_columns (event_of source id p) ≡ false
      → Processing lib source pattern lines keeps (raise data_error)
  processed :
      (db : Db) (s : PollSummary)
      → s.file_missing ≡ false
      → s.lines_read ≡ length lines
      → s.events_created + s.parse_errors ≡ s.lines_read
      → Processing lib source pattern lines keeps (ok (db, s))

module _ (lib : Conversions) (now : Time) (source : LogSource) (pattern : List Piece)
    (readable : pattern_of (compiled_pattern source.format) ≡ ok pattern) (chunk : LogChunk)
    (db : Db) where
  abbrev lines : List Text
  lines = complete_lines chunk.data_read

  abbrev Done : Outcome (Db × PollSummary) → Type 0
  Done = Processing lib source pattern lines db.keeps

  with_parsed :
      (parsed : ParsedLines)
      → parse_all lib pattern lines ≡ ok parsed
      → length parsed.parsed_lines + parsed.parse_errors ≡ length lines
      → ((p : ParsedLine)
          → Elem p parsed.parsed_lines
          → (line : Text) × Elem line lines × (parse_line lib pattern line ≡ ok p))
      → {o : Outcome (Db × Option Time)} → Storing source parsed.parsed_lines db.keeps o
      → store_events source parsed.parsed_lines db ≡ o
      → Done (process_chunk lib now source chunk db)
  unfolding process_chunk
  with_parsed parsed f count from (unkept p a i n lost) g =
      let (line, j, h) = from p i in
      let done : process_chunk lib now source chunk db ≡ raise key_error =
        rw readable (rw f (rw g refl)) in
      subst Done (sym done) (unkept_address line p a j h n lost)
  with_parsed parsed f count from (unstorable p id i bad) g =
      let (line, j, h) = from p i in
      let done : process_chunk lib now source chunk db ≡ raise data_error =
        rw readable (rw f (rw g refl)) in
      subst Done (sym done) (unstorable_event line p id j h bad)
  with_parsed parsed f count from (stored db' latest) g =
      let s : PollSummary = record {
        events_created = length parsed.parsed_lines;
        parse_errors = parsed.parse_errors;
        lines_read = length lines;
        rotated = chunk.rotated;
        file_missing = false;
      } in
      let left = update_source source.id (advance now source chunk parsed latest) db' in
      let done : process_chunk lib now source chunk db ≡ ok (left, s) =
        rw readable (rw f (rw g refl)) in
      subst Done (sym done) (processed left s refl refl count)

  process_chunk-Processing : Done (process_chunk lib now source chunk db)
  process_chunk-Processing =
      let (parsed, f, all, count, from) = parse_all_total lib pattern lines in
      with_parsed parsed f count from (store_events-Storing source parsed.parsed_lines db all) refl

-- How a poll ends: its session, the `stat` of the file or the read of it raises, the file is not there, its
-- format is unknown, or the lines behind the start of the read are processed.
pub data Ending (lib : Conversions) (host : Host) (server : Server) (now : Time)
    (source : LogSource) (db : Db) : Outcome (Db × PollSummary) → Type 0 where
  no_session :
      (e : Error) → client host server ≡ raise e → Ending lib host server now source db (raise e)
  no_file :
      (s : PollSummary)
      → client host server ≡ ok tt
      → host.stat source.path ≡ ok none
      → s.file_missing ≡ true
      → Ending lib host server now source db
          (ok (update_source source.id (missing now source) db, s))
  no_stat :
      (e : Error)
      → client host server ≡ ok tt
      → host.stat source.path ≡ raise e
      → Ending lib host server now source db (raise e)
  no_read :
      (st : Stat) (e : Error)
      → client host server ≡ ok tt
      → host.stat source.path ≡ ok (some st)
      → read_from host source.path (read_start source.inode (known_offset source) st).0 st ≡ raise e
      → Ending lib host server now source db (raise e)
  no_format :
      (st : Stat) (e : Error)
      → client host server ≡ ok tt
      → host.stat source.path ≡ ok (some st)
      → pattern_of (compiled_pattern source.format) ≡ raise e
      → Ending lib host server now source db (raise e)
  read_through :
      (st : Stat) (bytes : List ℕ) (pattern : List Piece) (o : Outcome (Db × PollSummary))
      → client host server ≡ ok tt
      → host.stat source.path ≡ ok (some st)
      → read_from host source.path (read_start source.inode (known_offset source) st).0 st
        ≡ ok bytes
      → pattern_of (compiled_pattern source.format) ≡ ok pattern
      → Processing lib source pattern (complete_lines bytes) db.keeps o
      → Ending lib host server now source db o

-- What a poll of a missing file reports.
abbrev no_summary : PollSummary
no_summary = record {
  events_created = 0;
  parse_errors = 0;
  lines_read = 0;
  rotated = false;
  file_missing = true;
}

module _ (lib : Conversions) (host : Host) (server : Server) (now : Time) (source : LogSource)
    (db : Db) where
  abbrev End : Outcome (Db × PollSummary) → Type 0
  End = Ending lib host server now source db

  abbrev start : Stat → ℕ × Bool
  start st = read_start source.inode (known_offset source) st

  unread_format :
      (e : Error) (chunk : LogChunk)
      → pattern_of (compiled_pattern source.format) ≡ raise e
      → process_chunk lib now source chunk db ≡ raise e
  unfolding process_chunk
  unread_format e chunk unknown = rw unknown refl

  with_bytes :
      (st : Stat) (bytes : List ℕ)
      → client host server ≡ ok tt
      → host.stat source.path ≡ ok (some st)
      → read_from host source.path (start st).0 st ≡ ok bytes
      → End (poll lib host server now source db)
  unfolding poll poll_log
  with_bytes st bytes open_session there read =
      let chunk = chunk_of host (start st) st bytes in
      let same : poll lib host server now source db ≡ process_chunk lib now source chunk db =
        rw open_session (rw there (rw read refl)) in
      elim (Outcome-cases (pattern_of (compiled_pattern source.format))) [
        | inl (e, unknown) ↦
            let p : poll lib host server now source db ≡ raise e =
              same ∙ unread_format e chunk unknown in
            subst End (sym p) (no_format st e open_session there unknown)
        | inr (pattern, known) ↦ subst End (sym same) (
            read_through st bytes pattern (process_chunk lib now source chunk db) open_session there
              read known (process_chunk-Processing lib now source pattern known chunk db))
      ]

  with_session : client host server ≡ ok tt → End (poll lib host server now source db)
  unfolding poll poll_log
  with_session open_session = elim (Outcome-cases (host.stat source.path)) [
    | inl (e, closed) ↦
        let p : poll lib host server now source db ≡ raise e = rw open_session (rw closed refl) in
        subst End (sym p) (no_stat e open_session closed)
    | inr (status, there) ↦ elim (Option-cases status) [
      | inl gone ↦
          let none_there = there ∙ ap ok gone in
          let p : poll lib host server now source db
              ≡ ok (update_source source.id (missing now source) db, no_summary) =
            rw open_session (rw none_there refl) in
          subst End (sym p) (no_file no_summary open_session none_there refl)
      | inr (st, found) ↦
          let here = there ∙ ap ok found in
          elim (Outcome-cases (read_from host source.path (start st).0 st)) [
            | inl (e, broken) ↦
                let p : poll lib host server now source db ≡ raise e =
                  rw open_session (rw here (rw broken refl)) in
                subst End (sym p) (no_read st e open_session here broken)
            | inr (bytes, read) ↦ with_bytes st bytes open_session here read
          ]
    ]
  ]

-- A poll raises only what its session, the `stat` of the file, the read of it, or its format raises; a
-- KeyError if the column of addresses does not keep the address of a line that parses; or a data error
-- if a column of events cannot hold a value of such a line. If the file is missing, it says so in the
-- row of the source and changes nothing else. Otherwise it returns, and each line that was read is an
-- event or a parse error: no line makes it raise in another way.
pub poll_total :
    (lib : Conversions) (host : Host) (server : Server) (now : Time) (source : LogSource) (db : Db)
    → Ending lib host server now source db (poll lib host server now source db)
unfolding poll poll_log
poll_total lib host server now source db = elim (Outcome-cases (client host server)) [
  | inl (e, closed) ↦
      let p : poll lib host server now source db ≡ raise e = rw (closed, poll_log) refl in
      subst (Ending lib host server now source db) (sym p) (no_session e closed)
  | inr (tt, open_session) ↦ with_session lib host server now source db open_session
]
