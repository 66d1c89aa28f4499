-- ===== src/Logs/Reader/Laws.antt =====
-- A poll accounts for every line that it read, and moves the offset of its source, and nothing else
-- of it, as far as the complete lines go.
use ip_scout.Prelude.{
  ℕ, suc, ◌+◌, ◌≡◌, refl, ap, ◌∙◌, false, Option, some, List, [], ◌∷◌, ◌++◌, Text, arith, ◌==◌,
  length, length-append, drop, map, Option-cases, Bool-cases, inl, inr, subst, find?, update_where,
}
use mathlib.Core.Path.{ap₂}
use ip_scout.Errors.{Outcome, ok, raise, log_parse_error, >>=-eq-ok}
use ip_scout.Models.{Time, Server, LogSource, IpAddress, RequestEvent, Db}
use ip_scout.Models.Tables.{get_source, update_source}
use ip_scout.Servers.Ssh.{Host, Stat, LogChunk, read_start, poll_log}
use ip_scout.Servers.Ssh.Laws.{Shows, poll_log-content, poll_log-ne-none}
use ip_scout.Ips.Sightings.{record_sightings_bulk}
use ip_scout.Ips.Sightings.Rows.{record_sightings_bulk-SameOthers}
use ip_scout.Logs.Format.{Piece, compiled_pattern}
use ip_scout.Logs.Parser.{ParsedLine, Conversions, parse_line, pattern_of}
use ip_scout.Logs.Chunk.{complete_lines, consumed_bytes, tail_of}
use ip_scout.Logs.Reader.{
  PollSummary, ParsedLines, count_line, parse_all, events_of, check_events, ip_id_of, event_of,
  store_events, process_chunk, advance, known_offset, poll,
}

count_line-length :
    (o : Outcome ParsedLine) (r : Outcome ParsedLines) (n : ℕ) (out : ParsedLines)
    → ((q : ParsedLines) → r ≡ ok q → length q.parsed_lines + q.parse_errors ≡ n)
    → count_line o r ≡ ok out
    → length out.parsed_lines + out.parse_errors ≡ suc n
count_line-length (ok p) (ok q) n out h e =
    let e' : record q { parsed_lines = p ∷ q.parsed_lines } ≡ out = cc in
    rw (← e') (omega (arith, h q refl))
count_line-length (ok p) (raise x) n out h e = cc
count_line-length (raise log_parse_error) (ok q) n out h e =
    let e' : record q { parse_errors = suc q.parse_errors } ≡ out = cc in
    rw (← e') (omega (arith, h q refl))
count_line-length (raise log_parse_error) (raise x) n out h e = cc
count_line-length (raise y) r n out h e = cc

-- Each line is parsed or counted as an error.
parse_all-length :
    (lib : Conversions) (pattern : List Piece) (lines : List Text) (out : ParsedLines)
    → parse_all lib pattern lines ≡ ok out
    → length out.parsed_lines + out.parse_errors ≡ length lines
unfolding parse_all
parse_all-length lib pattern [] out h =
    let e : record { parsed_lines = []; parse_errors = 0 } ≡ out = cc in rw (← e) (omega arith)
parse_all-length lib pattern (line ∷ lines) out h =
    count_line-length (parse_line lib pattern line) (parse_all lib pattern lines) (length lines) out
      (parse_all-length lib pattern lines) h

events_of-length :
    (source : LogSource) (ips : List IpAddress) (parsed : List ParsedLine) (out : List RequestEvent)
    → events_of source ips parsed ≡ ok out
    → length out ≡ length parsed
unfolding events_of
events_of-length source ips [] out h = let e : [] ≡ out = cc in rw (← e)
events_of-length source ips (p ∷ parsed) out h =
    let (id, i, h') = >>=-eq-ok (ip_id_of ips p) _ h in
    let (rest, r, h'') = >>=-eq-ok (events_of source ips parsed) _ h' in
    let e : event_of source id p ∷ rest ≡ out = cc in
    rw (← e) (ap suc (events_of-length source ips parsed rest r))

store_events-length :
    (source : LogSource) (parsed : List ParsedLine) (db db' : Db) (latest : Option Time)
    → store_events source parsed db ≡ ok (db', latest)
    → (length db'.events ≡ length db.events + length parsed) × (db'.log_sources ≡ db.log_sources)
unfolding store_events
store_events-length source [] db db' latest h =
    let e : db ≡ db' = cc in rw (← e) (omega arith, refl)
store_events-length source (p ∷ parsed) db db' latest h =
    let sightings = map (λ (q : ParsedLine). (q.remote_addr, q.timestamp)) (p ∷ parsed) in
    let ((recorded, ips), r, h') = >>=-eq-ok (record_sightings_bulk sightings db) _ h in
    let (events, v, checked) = >>=-eq-ok (events_of source ips (p ∷ parsed)) _ h' in
    let (_, _, h'') = >>=-eq-ok (check_events events) _ checked in
    let same = record_sightings_bulk-SameOthers sightings db recorded ips r in
    let e : record recorded { events = recorded.events ++ events } ≡ db' = cc in
    rw (← e) (
      omega (
        arith,
        length-append recorded.events events,
        events_of-length source ips (p ∷ parsed) events v,
        ap length same.events,
      ),
      same.log_sources,
    )

get-update_source :
    (pk : ℕ) (f : LogSource → LogSource) (rows : List LogSource) (s : LogSource)
    → ((r : LogSource) → (f r).id ≡ r.id)
    → find? (λ (r : LogSource). r.id == pk) rows ≡ some s
    → find? (λ (r : LogSource). r.id == pk) (update_where (λ (r : LogSource). r.id == pk) f rows)
      ≡ some (f s)
unfolding find? update_where
get-update_source pk f [] s k h = cc
get-update_source pk f (r ∷ rows) s k h = elim (Bool-cases (r.id == pk)) [
  | inl here ↦ ground (arith, k r)
  | inr there ↦ ground (arith, get-update_source pk f rows s k)
]

-- What a poll that read `chunk` leaves: the summary adds up, the new events are in the table, and
-- the row of the source is as it was but for the columns of a read.
pub record Accounted (now : Time) (source : LogSource) (chunk : LogChunk) (db db' : Db)
    (s : PollSummary) : Type 0 where
  pub lines : s.events_created + s.parse_errors ≡ s.lines_read
  pub read : s.lines_read ≡ length (complete_lines chunk.data_read)
  pub stored : length db'.events ≡ length db.events + s.events_created
  pub row :
      (r : LogSource)
      → get_source source.id db ≡ some r
      → (parsed : ParsedLines) × (latest : Option Time) × (get_source source.id db'
          ≡ some (advance now source chunk parsed latest r))

-- The state and the summary that the end of `process_chunk` returns.
abbrev result : Time → LogSource → LogChunk → ParsedLines → Option Time → Db → Db × PollSummary
result now source chunk parsed latest stored = (
  update_source source.id (advance now source chunk parsed latest) stored,
  record {
    events_created = length parsed.parsed_lines;
    parse_errors = parsed.parse_errors;
    lines_read = length (complete_lines chunk.data_read);
    rotated = chunk.rotated;
    file_missing = false;
  },
)

result-Accounted :
    (now : Time) (source : LogSource) (chunk : LogChunk) (db stored : Db) (parsed : ParsedLines)
    (latest : Option Time)
    → length parsed.parsed_lines + parsed.parse_errors ≡ length (complete_lines chunk.data_read)
    → length stored.events ≡ length db.events + length parsed.parsed_lines
    → stored.log_sources ≡ db.log_sources
    → (t : Db × PollSummary) → result now source chunk parsed latest stored ≡ t
    → Accounted now source chunk db t.0 t.1
unfolding update_source get_source
result-Accounted now source chunk db stored parsed latest lines events sources t e =
    subst (λ t. Accounted now source chunk db t.0 t.1) e
      (record {
        lines = lines;
        read = refl;
        stored = events;
        row = λ row found. (
          parsed,
          latest,
          get-update_source source.id (advance now source chunk parsed latest) stored.log_sources
              row (λ x. refl) (rw sources found),
        );
      })

process_chunk-Accounted :
    (lib : Conversions) (now : Time) (source : LogSource) (chunk : LogChunk) (db db' : Db)
    (s : PollSummary)
    → process_chunk lib now source chunk db ≡ ok (db', s)
    → Accounted now source chunk db db' s
unfolding process_chunk
process_chunk-Accounted lib now source chunk db db' s h =
    let lines = complete_lines chunk.data_read in
    let (pattern, p, h1) = >>=-eq-ok (pattern_of (compiled_pattern source.format)) _ h in
    let (parsed, q, h2) = >>=-eq-ok (parse_all lib pattern lines) _ h1 in
    let ((stored, latest), r, h3) = >>=-eq-ok (store_events source parsed.parsed_lines db) _ h2 in
    let kept = store_events-length source parsed.parsed_lines db stored latest r in
    result-Accounted now source chunk db stored parsed latest
      (parse_all-length lib pattern lines parsed q) kept.0 kept.1 (db', s) (cc)

module _ (lib : Conversions) (host : Host) (server : Server) (now : Time) (source : LogSource)
    (db : Db) (st : Stat) (content : List ℕ) (db' : Db) (s : PollSummary)
    (shows : Shows host source.path st content)
    (done : poll lib host server now source db ≡ ok (db', s)) where
  abbrev start : ℕ
  start = (read_start source.inode (known_offset source) st).0

  abbrev pub Moved : LogSource → LogSource → Type 0
  Moved r r' =
      (r'.inode ≡ some st.inode)
      × (r'.byte_offset ≡ (tail_of content start).next)
      × (r'.path ≡ r.path)
      × (r'.enabled ≡ r.enabled)
      × (r'.format ≡ r.format)
      × (r'.id ≡ r.id)
      × (r'.server_id ≡ r.server_id)

  -- The chunk that it read and processed.
  pub chunk_of_poll :
      (c : LogChunk) × (poll_log host server source.path source.inode (known_offset source)
        ≡ ok (some c))
      × (process_chunk lib now source c db ≡ ok (db', s))
  unfolding poll
  chunk_of_poll =
      let (chunk, e, h) =
        >>=-eq-ok (poll_log host server source.path source.inode (known_offset source)) _ done in
      elim (Option-cases chunk) [
        | inl gone ↦ absurd (
            poll_log-ne-none host server source.path st content shows source.inode
              (known_offset source) (e ∙ ap ok gone))
        | inr (c, there) ↦ (c, e ∙ ap ok there, rw there at h)
      ]

  -- If the remote file has the content and the poll returns, it read the content from its start on:
  -- from the stored offset, from 0 after a rotation, or from the end where no inode is stored. Every
  -- complete line there is an event or a parse error, and the row of the source has the inode of the
  -- file and the offset behind the last complete line.
  pub poll-tail_of :
      (s.events_created + s.parse_errors ≡ length (tail_of content start).lines)
      × (length db'.events ≡ length db.events + s.events_created)
      × ((r : LogSource)
          → get_source source.id db ≡ some r
          → (r' : LogSource) × (get_source source.id db' ≡ some r') × Moved r r')
  unfolding tail_of
  poll-tail_of =
      let (c, e, processed) = chunk_of_poll in
      let accounted = process_chunk-Accounted lib now source c db db' s processed in
      let (offset, _, inode, _, data_read) =
        poll_log-content host server source.path st content shows source.inode (known_offset source)
          c e in
      let bytes : c.data_read ≡ drop start content = data_read ∙ ap (λ o. drop o content) offset in
      (
        accounted.lines ∙ accounted.read ∙ ap (λ b. length (complete_lines b)) bytes,
        accounted.stored,
        λ r found.
            let (parsed, latest, found') = accounted.row r found in
            (
              advance now source c parsed latest r,
              found',
              (
                ap some inode,
                ap₂ (λ (o : ℕ) (b : List ℕ). o + consumed_bytes b) offset bytes,
                refl,
                refl,
                refl,
                refl,
                refl,
              ),
            ),
      )
