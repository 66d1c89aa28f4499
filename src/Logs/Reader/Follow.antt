-- ===== src/Logs/Reader/Follow.antt =====
-- A log that is polled while it grows (apps/logs/services.py and the web server that writes it).
pub mod Step
pub mod Laws
use ip_scout.Prelude.{
  zero, suc, filter, find?, find?-holds, drop-length, length-take, ℕ, ◌+◌, ◌-◌, ◌≤◌, ◌≡◌, refl, sym,
  ap, ◌∙◌, Bool, true, false, not, Option, none, some, List, [], ◌∷◌, ◌++◌, append-nil,
  append_assoc, Text, arith, length, length-append, length-drop, drop, take, min, ◌==◌, inl, inr,
  subst,
}
use ip_scout.Errors.{ok, ok-injective}
use ip_scout.Models.{Time, Server, LogSource, RequestEvent, Db}
use ip_scout.Models.Tables.{get_source}
use ip_scout.Servers.Ssh.{Host, Stat, LogChunk, read_start}
use ip_scout.Servers.Ssh.Laws.{Shows, poll_log-content}
use ip_scout.Logs.Format.{Piece, compiled_pattern}
use ip_scout.Logs.Parser.{Conversions, pattern_of}
use ip_scout.Logs.Chunk.{complete_lines, consumed_bytes, tail_of, raw_lines, leftover}
use ip_scout.Python.Split.{split, pop}
use ip_scout.Logs.Chunk.Laws.{tail_of-append, consumed_bytes-le}
use ip_scout.Logs.Reader.{event_of, PollSummary, known_offset, poll}
use ip_scout.Logs.Reader.Laws.{Moved, poll-tail_of, chunk_of_poll}
use ip_scout.Logs.Reader.Stored.{
  Stores, end, stored, failed, Stores-append, Chunked, process_chunk-Chunked,
}

-- A poll of the file with the inode and the content, by the row of the source, that adds the events and
-- counts the errors.
pub record Polled (lib : Conversions) (pk inode : ℕ) (content : List ℕ) (db db' : Db)
    (new : List RequestEvent) (n : ℕ) : Type 0 where
  pub host : Host
  pub server : Server
  pub now : Time
  pub source : LogSource
  pub stat : Stat
  pub summary : PollSummary
  pub row : get_source pk db ≡ some source
  pub shows : Shows host source.path stat content
  pub same_file : stat.inode ≡ inode
  pub done : poll lib host server now source db ≡ ok (db', summary)
  pub events : db'.events ≡ db.events ++ new
  pub errors : summary.parse_errors ≡ n

-- What may happen to a file and a database: the file grows, another part of the program changes anything
-- but the row of the source, and a poll returns. The list has the events of the polls, and the number is
-- that of the lines that did not parse.
pub data Follows (lib : Conversions) (pk inode : ℕ) (first : Db) (content : List ℕ)
    : Db → List ℕ → List RequestEvent → ℕ → Type 0 where
  start : Follows lib pk inode first content first content [] 0
  grows :
      {db : Db} {now : List ℕ} {events : List RequestEvent} {errors : ℕ} (more : List ℕ)
      → Follows lib pk inode first content db now events errors
      → Follows lib pk inode first content db (now ++ more) events errors
  elsewhere :
      {db db' : Db} {now : List ℕ} {events : List RequestEvent} {errors : ℕ}
      → get_source pk db' ≡ get_source pk db
      → Follows lib pk inode first content db now events errors
      → Follows lib pk inode first content db' now events errors
  polls :
      {db db' : Db} {now : List ℕ} {events new : List RequestEvent} {errors n : ℕ}
      → Polled lib pk inode now db db' new n
      → Follows lib pk inode first content db now events errors
      → Follows lib pk inode first content db' now (events ++ new) (errors + n)

-- The row of the source after the content was read: it is at the end of the complete lines.
abbrev pub At : ℕ → List ℕ → ℕ → LogSource → LogSource → Type 0
At inode content offset first r =
    (r.inode ≡ some inode)
    × (r.byte_offset ≡ (tail_of content offset).next)
    × (r.format ≡ first.format)
    × (r.id ≡ first.id)
    × (r.server_id ≡ first.server_id)
