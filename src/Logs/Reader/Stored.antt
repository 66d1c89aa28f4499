-- ===== src/Logs/Reader/Stored.antt =====
-- What a poll stores of the lines that it read (apps/logs/services.py), line by line.
use ip_scout.Prelude.{
  ℕ, suc, ◌+◌, ◌≡◌, refl, sym, ap, ◌∙◌, Option, List, [], ◌∷◌, ◌++◌, append-nil, Text, arith, map,
  subst,
}
use ip_scout.Errors.{Outcome, ok, raise, log_parse_error, >>=-eq-ok, ok-injective}
use ip_scout.Models.{Time, LogSource, IpAddress, RequestEvent, Db}
use ip_scout.Models.Tables.{update_source}
use ip_scout.Servers.Ssh.{LogChunk}
use ip_scout.Ips.Sightings.{record_sightings_bulk}
use ip_scout.Ips.Sightings.Rows.{record_sightings_bulk-SameOthers}
use ip_scout.Logs.Format.{Piece, compiled_pattern}
use ip_scout.Logs.Parser.{ParsedLine, Conversions, parse_line, pattern_of}
use ip_scout.Logs.Chunk.{complete_lines}
use ip_scout.Logs.Reader.{
  PollSummary, ParsedLines, count_line, parse_all, events_of, check_events, ip_id_of, event_of,
  store_events, process_chunk,
}

-- Each line is an event with the fields that it parses to, or a line that does not parse.
pub data Stores (lib : Conversions) (source : LogSource) (pattern : List Piece)
    : List Text → List RequestEvent → ℕ → Type 0 where
  end : Stores lib source pattern [] [] 0
  stored :
      {line : Text} {p : ParsedLine} {id : ℕ} {lines : List Text} {events : List RequestEvent}
      {n : ℕ}
      → parse_line lib pattern line ≡ ok p
      → Stores lib source pattern lines events n
      → Stores lib source pattern (line ∷ lines) (event_of source id p ∷ events) n
  failed :
      {line : Text} {lines : List Text} {events : List RequestEvent} {n : ℕ}
      → parse_line lib pattern line ≡ raise log_parse_error
      → Stores lib source pattern lines events n
      → Stores lib source pattern (line ∷ lines) events (suc n)

module _ (lib : Conversions) (source : LogSource) (pattern : List Piece) where
  pub Stores-append :
      (lines lines' : List Text) (events events' : List RequestEvent) (n n' : ℕ)
      → Stores lib source pattern lines events n
      → Stores lib source pattern lines' events' n'
      → Stores lib source pattern (lines ++ lines') (events ++ events') (n + n')
  Stores-append _ lines' _ events' _ n' end k =
      let same : n' ≡ 0 + n' = omega arith in
      subst (Stores lib source pattern lines' events') same k
  Stores-append (line ∷ lines) lines' (e ∷ events) events' n n' (stored p h) k =
      stored p (Stores-append lines lines' events events' n n' h k)
  Stores-append (line ∷ lines) lines' events events' (suc n) n' (failed p h) k =
      let same : suc (n + n') ≡ suc n + n' = omega arith in
      subst (Stores lib source pattern (line ∷ lines ++ lines') (events ++ events')) same
        (failed p (Stores-append lines lines' events events' n n' h k))

  count_line-Stores :
      (ips : List IpAddress) (line : Text) (lines : List Text) (o : Outcome ParsedLine)
      (r : Outcome ParsedLines) (out : ParsedLines) (events : List RequestEvent)
      → parse_line lib pattern line ≡ o
      → ((q : ParsedLines) (es : List RequestEvent)
          → r ≡ ok q
          → events_of source ips q.parsed_lines ≡ ok es
          → Stores lib source pattern lines es q.parse_errors)
      → count_line o r ≡ ok out
      → events_of source ips out.parsed_lines ≡ ok events
      → Stores lib source pattern (line ∷ lines) events out.parse_errors
  unfolding events_of
  count_line-Stores ips line lines (ok p) (ok q) out events f rest e v =
      let e' : record q { parsed_lines = p ∷ q.parsed_lines } ≡ out = cc in
      let v' : events_of source ips (p ∷ q.parsed_lines) ≡ ok events =
        ap (λ (x : ParsedLines). events_of source ips x.parsed_lines) e' ∙ v in
      let (id, _, v1) = >>=-eq-ok (ip_id_of ips p) _ v' in
      let (es, w, v2) = >>=-eq-ok (events_of source ips q.parsed_lines) _ v1 in
      let same : event_of source id p ∷ es ≡ events = ok-injective _ events v2 in
      let errors : q.parse_errors ≡ out.parse_errors =
        ap (λ (x : ParsedLines). x.parse_errors) e' in
      subst (λ n. Stores lib source pattern (line ∷ lines) events n) errors
        (subst (λ xs. Stores lib source pattern (line ∷ lines) xs q.parse_errors) same
          (stored f (rest q es refl w)))
  count_line-Stores ips line lines (ok p) (raise x) out events f rest e v = absurd (ground arith)
  count_line-Stores ips line lines (raise log_parse_error) (ok q) out events f rest e v =
      let e' : record q { parse_errors = suc q.parse_errors } ≡ out = cc in
      let v' : events_of source ips q.parsed_lines ≡ ok events =
        ap (λ (x : ParsedLines). events_of source ips x.parsed_lines) e' ∙ v in
      let errors : suc q.parse_errors ≡ out.parse_errors =
        ap (λ (x : ParsedLines). x.parse_errors) e' in
      subst (λ n. Stores lib source pattern (line ∷ lines) events n) errors
        (failed f (rest q events refl v'))
  count_line-Stores ips line lines (raise log_parse_error) (raise x) out events f rest e v =
      absurd (ground arith)
  count_line-Stores ips line lines (raise y) r out events f rest e v = absurd (ground arith)

  parse_all-Stores :
      (ips : List IpAddress) (lines : List Text) (out : ParsedLines) (events : List RequestEvent)
      → parse_all lib pattern lines ≡ ok out
      → events_of source ips out.parsed_lines ≡ ok events
      → Stores lib source pattern lines events out.parse_errors
  unfolding parse_all events_of
  parse_all-Stores ips [] out events h v =
      let e : record { parsed_lines = []; parse_errors = 0 } ≡ out = ok-injective _ out h in
      let v' : [] ≡ events =
        ok-injective _ events
          (ap (λ (x : ParsedLines). events_of source ips x.parsed_lines) e ∙ v) in
      let errors : 0 ≡ out.parse_errors = ap (λ (x : ParsedLines). x.parse_errors) e in
      subst (λ n. Stores lib source pattern [] events n) errors
        (subst (λ xs. Stores lib source pattern [] xs 0) v' end)
  parse_all-Stores ips (line ∷ lines) out events h v =
      count_line-Stores ips line lines (parse_line lib pattern line) (parse_all lib pattern lines)
        out events refl (parse_all-Stores ips lines) h v

-- The events that a poll adds are those of its parsed lines.
store_events-events :
    (source : LogSource) (parsed : List ParsedLine) (db db' : Db) (latest : Option Time)
    → store_events source parsed db ≡ ok (db', latest)
    → (ips : List IpAddress) × (events : List RequestEvent) × (events_of source ips parsed
        ≡ ok events)
      × (db'.events ≡ db.events ++ events)
unfolding store_events events_of
store_events-events source [] db db' latest h =
    let same : db ≡ db' = ground arith in
    ([], [], refl, ap (λ (x : Db). x.events) (sym same) ∙ sym (append-nil db.events))
store_events-events source (p ∷ parsed) db db' latest h =
    let sightings = map (λ (q : ParsedLine). (q.remote_addr, q.timestamp)) (p ∷ parsed) in
    let ((recorded, ips), r, h1) = >>=-eq-ok (record_sightings_bulk sightings db) _ h in
    let (events, v, checked) = >>=-eq-ok (events_of source ips (p ∷ parsed)) _ h1 in
    let (_, _, h2) = >>=-eq-ok (check_events events) _ checked in
    let others = record_sightings_bulk-SameOthers sightings db recorded ips r in
    let same : record recorded { events = recorded.events ++ events } ≡ db' = ground arith in
    (ips, events, v, ap (λ (x : Db). x.events) (sym same) ∙ ap (λ xs. xs ++ events) others.events)

-- The lines of a chunk, stored.
pub record Chunked (lib : Conversions) (source : LogSource) (chunk : LogChunk) (db db' : Db)
    (errors : ℕ) : Type 0 where
  pub pattern : List Piece
  pub format : pattern_of (compiled_pattern source.format) ≡ ok pattern
  pub new : List RequestEvent
  pub events : db'.events ≡ db.events ++ new
  pub lines : Stores lib source pattern (complete_lines chunk.data_read) new errors

pub process_chunk-Chunked :
    (lib : Conversions) (now : Time) (source : LogSource) (chunk : LogChunk) (db db' : Db)
    (s : PollSummary)
    → process_chunk lib now source chunk db ≡ ok (db', s)
    → Chunked lib source chunk db db' s.parse_errors
unfolding process_chunk update_source
process_chunk-Chunked lib now source chunk db db' s h =
    let (pattern, f, h1) = >>=-eq-ok (pattern_of (compiled_pattern source.format)) _ h in
    let (parsed, g, h2) = >>=-eq-ok (parse_all lib pattern (complete_lines chunk.data_read)) _ h1 in
    let ((stored_db, latest), r, h3) =
      >>=-eq-ok (store_events source parsed.parsed_lines db) _ h2 in
    let (ips, events, v, added) =
      store_events-events source parsed.parsed_lines db stored_db latest r in
    subst (λ (t : Db × PollSummary). Chunked lib source chunk db t.0 t.1.parse_errors)
      (ok-injective _ (db', s) h3)
      (record {
        pattern = pattern;
        format = f;
        new = events;
        events = added;
        lines =
            parse_all-Stores lib source pattern ips (complete_lines chunk.data_read) parsed events g
              v;
      })
