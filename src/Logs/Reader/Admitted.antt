-- ===== src/Logs/Reader/Admitted.antt =====
-- The constraints of the table of events: its foreign keys and the sizes of its columns.
use ip_scout.Prelude.{
  Bool, ◌&&◌, true, false, any, ◌==◌, ◌<◌, ◌∙◌, Bool-cases, ℕ, ◌≤◌, ◌≡◌, refl, sym, ap, Option,
  List, [], ◌∷◌, ◌++◌, append-nil, Text, arith, length, length-take, take, map, Elem, Option-cases,
  inl, inr, subst,
}
use ip_scout.Prelude.Int.{ℤ, pos, negsuc}
use ip_scout.Errors.{ok, ok-injective, >>=-eq-ok}
use ip_scout.Models.{Time, Server, LogSource, IpAddress, RequestEvent, Db}
use ip_scout.Models.Tables.{update_source}
use ip_scout.Servers.Ssh.{Host, LogChunk, poll_log}
use ip_scout.Ips.Identity.{normalize_ip}
use ip_scout.Ips.Sightings.{row_at, record_sightings_bulk}
use ip_scout.Ips.Sightings.Rows.{record_sightings_bulk-SameOthers}
use ip_scout.Ips.Sightings.View.Touch.{row_at-Elem}
use ip_scout.Ips.Sightings.Known.{HasRow, KnownRows, record_sightings_bulk-KnownRows}
use ip_scout.Logs.Format.{compiled_pattern}
use ip_scout.Logs.Parser.{ParsedLine, Conversions, pattern_of}
use ip_scout.Logs.Chunk.{complete_lines}
use ip_scout.Logs.Reader.{
  PollSummary, parse_all, events_of, check_events, fits_columns, is_below, all_storable, ip_id_of,
  event_of, store_events, process_chunk, known_offset, poll,
}

-- The character does not occur.
abbrev pub Free : ℕ → Text → Type 0
Free c t = any (λ d. d == c) t ≡ false

-- What the table demands of an event of a source.
pub record Admitted (source : LogSource) (ips : List IpAddress) (e : RequestEvent) : Type 0 where
  pub server : e.server_id ≡ source.server_id
  pub log_source : e.log_source_id ≡ source.id
  pub ip : HasRow ips e.ip_id
  pub host : length e.host ≤ 255
  pub method : length e.method ≤ 16
  pub uri : length e.uri ≤ 2048
  pub user_agent : length e.user_agent ≤ 512
  pub referer : length e.referer ≤ 2048
  pub status : (n : ℕ) × (e.status ≡ pos n) × (n < 32768)
  pub bytes : (n : ℕ) × (e.bytes ≡ pos n) × (n < 9223372036854775808)
  pub no_nul :
      (t : Text)
      → Elem t (e.host ∷ e.method ∷ e.uri ∷ e.user_agent ∷ e.referer ∷ e.raw_line ∷ [])
      → Free 0 t

is_below-pos : (bound : ℕ) (z : ℤ) → is_below bound z ≡ true → (n : ℕ) × (z ≡ pos n) × (n < bound)
is_below-pos bound (pos n) h = (n, refl, ground arith)
is_below-pos bound (negsuc n) h = absurd (ground arith)

all_storable-Free : (ts : List Text) → all_storable ts ≡ true → (t : Text) → Elem t ts → Free 0 t
unfolding all_storable
all_storable-Free [] h t i = absurd i
all_storable-Free (u ∷ ts) h t (inl same) = subst (Free 0) (sym same) (ground arith)
all_storable-Free (u ∷ ts) h t (inr later) = all_storable-Free ts (ground arith) t later

-- What it means that the columns can hold an event.
fits_columns-parts :
    (e : RequestEvent)
    → fits_columns e ≡ true
    → ((n : ℕ) × (e.status ≡ pos n) × (n < 32768))
      × ((n : ℕ) × (e.bytes ≡ pos n) × (n < 9223372036854775808))
      × ((t : Text)
          → Elem t (e.host ∷ e.method ∷ e.uri ∷ e.user_agent ∷ e.referer ∷ e.raw_line ∷ [])
          → Free 0 t)
unfolding fits_columns
fits_columns-parts e h =
    let texts = e.host ∷ e.method ∷ e.uri ∷ e.user_agent ∷ e.referer ∷ e.raw_line ∷ [] in
    let (status, bytes, storable) =
      three (is_below 32768 e.status) (is_below 9223372036854775808 e.bytes) (all_storable texts)
        h in
    (
      is_below-pos 32768 e.status status,
      is_below-pos 9223372036854775808 e.bytes bytes,
      all_storable-Free texts storable,
    )
  where
    three : (a b c : Bool) → (a && b && c) ≡ true → (a ≡ true) × (b ≡ true) × (c ≡ true)
    three a b c k = (ground arith, ground arith, ground arith)

length-take-le : (n : ℕ) (s : Text) → length (take n s) ≤ n
length-take-le n s = omega (arith, length-take n s)

event_of-Admitted :
    (source : LogSource) (ips rows : List IpAddress) (p : ParsedLine) (id : ℕ)
    → KnownRows ips rows
    → ip_id_of rows p ≡ ok id
    → fits_columns (event_of source id p) ≡ true
    → Admitted source ips (event_of source id p)
unfolding ip_id_of
event_of-Admitted source ips rows p id known h fits =
    let (a, _, h') = >>=-eq-ok (normalize_ip p.remote_addr) _ h in
    elim (Option-cases (row_at a rows)) [
      | inl missing ↦ absurd (ground arith)
      | inr (r, found) ↦
          let same : r.id ≡ id = ground arith in
          let columns = fits_columns-parts (event_of source id p) fits in
          record {
            server = refl;
            log_source = refl;
            ip = subst (HasRow ips) same (known r (row_at-Elem a rows r found));
            host = length-take-le 255 p.host;
            method = length-take-le 16 p.method;
            uri = length-take-le 2048 p.uri;
            user_agent = length-take-le 512 p.user_agent;
            referer = length-take-le 2048 p.referer;
            status = columns.0;
            bytes = columns.1;
            no_nul = columns.2;
          }
    ]

check_events-ok :
    (e : RequestEvent) (events : List RequestEvent)
    → check_events (e ∷ events) ≡ ok tt
    → (fits_columns e ≡ true) × (check_events events ≡ ok tt)
unfolding check_events
check_events-ok e events h = elim (Bool-cases (fits_columns e)) [
  | inl fits ↦ (fits, ground arith)
  | inr bad ↦ absurd (ground arith)
]

events_of-Admitted :
    (source : LogSource) (ips rows : List IpAddress) (parsed : List ParsedLine)
    (events : List RequestEvent)
    → KnownRows ips rows
    → events_of source rows parsed ≡ ok events
    → check_events events ≡ ok tt
    → (e : RequestEvent) → Elem e events
    → Admitted source ips e
unfolding events_of check_events
events_of-Admitted source ips rows [] events known h fine e i =
    let none_left : [] ≡ events = ground arith in absurd (subst (Elem e) (sym none_left) i)
events_of-Admitted source ips rows (p ∷ parsed) events known h fine e i =
    let (id, f, h1) = >>=-eq-ok (ip_id_of rows p) _ h in
    let (rest, g, h2) = >>=-eq-ok (events_of source rows parsed) _ h1 in
    let same : event_of source id p ∷ rest ≡ events = ground arith in
    let whole = ap check_events same ∙ fine in
    let (fits, later) = check_events-ok (event_of source id p) rest whole in
    elim (subst (Elem e) (sym same) i) [
      | inl here ↦
          subst (Admitted source ips) (sym here)
            (event_of-Admitted source ips rows p id known f fits)
      | inr there ↦ events_of-Admitted source ips rows parsed rest known g later e there
    ]

-- The events of one state are those of the other, and then admitted ones.
pub record Appends (source : LogSource) (db db' : Db) : Type 0 where
  pub new : List RequestEvent
  pub events : db'.events ≡ db.events ++ new
  pub admitted : (e : RequestEvent) → Elem e new → Admitted source db'.ips e

store_events-Appends :
    (source : LogSource) (parsed : List ParsedLine) (db db' : Db) (latest : Option Time)
    → store_events source parsed db ≡ ok (db', latest)
    → Appends source db db'
unfolding store_events
store_events-Appends source [] db db' latest h =
    let same : db ≡ db' = ground arith in
    subst (Appends source db) same
      (record { new = []; events = sym (append-nil db.events); admitted = λ e i. absurd i })
store_events-Appends source (p ∷ parsed) db db' latest h =
    let sightings = map (λ (q : ParsedLine). (q.remote_addr, q.timestamp)) (p ∷ parsed) in
    let ((recorded, rows), r, h1) = >>=-eq-ok (record_sightings_bulk sightings db) _ h in
    let (events, v, checked) = >>=-eq-ok (events_of source rows (p ∷ parsed)) _ h1 in
    let (_, fine, h2) = >>=-eq-ok (check_events events) _ checked in
    let others = record_sightings_bulk-SameOthers sightings db recorded rows r in
    let known = record_sightings_bulk-KnownRows sightings db recorded rows r in
    let same : record recorded { events = recorded.events ++ events } ≡ db' = ground arith in
    subst (Appends source db) same (record {
      new = events;
      events = ap (λ xs. xs ++ events) others.events;
      admitted = events_of-Admitted source recorded.ips rows (p ∷ parsed) events known v fine;
    })

update_source-Appends :
    (source : LogSource) (pk : ℕ) (f : LogSource → LogSource) (db db' : Db)
    → Appends source db db'
    → Appends source db (update_source pk f db')
unfolding update_source
update_source-Appends source pk f db db' a = record {
  new = a.new;
  events = a.events;
  admitted = a.admitted;
}

process_chunk-Appends :
    (lib : Conversions) (now : Time) (source : LogSource) (chunk : LogChunk) (db db' : Db)
    (s : PollSummary)
    → process_chunk lib now source chunk db ≡ ok (db', s)
    → Appends source db db'
unfolding process_chunk
process_chunk-Appends lib now source chunk db db' s h =
    let (pattern, _, h1) = >>=-eq-ok (pattern_of (compiled_pattern source.format)) _ h in
    let (parsed, _, h2) = >>=-eq-ok (parse_all lib pattern (complete_lines chunk.data_read)) _ h1 in
    let ((stored, latest), r, h3) = >>=-eq-ok (store_events source parsed.parsed_lines db) _ h2 in
    let a = store_events-Appends source parsed.parsed_lines db stored latest r in
    subst (λ (t : Db × PollSummary). Appends source db t.0) (ok-injective _ (db', s) h3)
      (update_source-Appends source source.id _ db stored a)

-- A poll that returns only adds events, and each of them meets these constraints of its table: it is of
-- the source and its server, its address is in the table of addresses, its texts are no longer than their
-- columns, however long the line was, and hold no NUL, and its status and its bytes are within the bounds
-- of theirs.
pub poll-Appends :
    (lib : Conversions) (host : Host) (server : Server) (now : Time) (source : LogSource)
    (db db' : Db) (s : PollSummary)
    → poll lib host server now source db ≡ ok (db', s)
    → Appends source db db'
unfolding poll
poll-Appends lib host server now source db db' s h =
    let (chunk, _, h1) =
      >>=-eq-ok (poll_log host server source.path source.inode (known_offset source)) _ h in
    elim (Option-cases chunk) [
      | inl gone ↦
          subst (λ (t : Db × PollSummary). Appends source db t.0)
            (ok-injective _ (db', s) (rw gone at h1))
            (update_source-Appends source source.id _ db db (record {
              new = [];
              events = sym (append-nil db.events);
              admitted = λ e i. absurd i;
            }))
      | inr (c, there) ↦ process_chunk-Appends lib now source c db db' s (rw there at h1)
    ]
