-- ===== src/Logs/Reader/Follow/Step.antt =====
-- One poll of a log from the offset of its row.
use ip_scout.Prelude.{
  suc, filter, find?-holds, drop-length, ℕ, ◌≤◌, ◌≡◌, refl, sym, ap, ◌∙◌, some, List, [], ◌∷◌, ◌++◌,
  Text, arith, length, length-drop, drop, ◌==◌, subst,
}
use ip_scout.Errors.{ok}
use ip_scout.Models.{LogSource, RequestEvent, Db}
use ip_scout.Models.Tables.{get_source}
use ip_scout.Servers.Ssh.{Stat, read_start}
use ip_scout.Servers.Ssh.Laws.{poll_log-content}
use ip_scout.Logs.Format.{Piece, compiled_pattern}
use ip_scout.Logs.Parser.{Conversions, pattern_of}
use ip_scout.Logs.Chunk.{complete_lines, consumed_bytes, tail_of, raw_lines, leftover}
use ip_scout.Python.Split.{split, pop}
use ip_scout.Logs.Chunk.Laws.{consumed_bytes-le}
use ip_scout.Logs.Reader.{event_of, known_offset}
use ip_scout.Logs.Reader.Laws.{poll-tail_of, chunk_of_poll}
use ip_scout.Logs.Reader.Stored.{Stores, end, stored, failed, process_chunk-Chunked}
use ip_scout.Logs.Reader.Follow.{Polled, At}

-- Nothing is behind the end.
pub tail_of-end :
    (n : ℕ) (content : List ℕ)
    → drop n content ≡ []
    → ((tail_of content n).lines ≡ []) × ((tail_of content n).next ≡ n)
unfolding tail_of complete_lines consumed_bytes raw_lines leftover split pop filter
tail_of-end n content h = (ap complete_lines h, omega (arith, ap consumed_bytes h))

pub tail_of-next-le :
    (content : List ℕ) (n : ℕ) → n ≤ length content → (tail_of content n).next ≤ length content
unfolding tail_of
tail_of-next-le content n h =
    omega (arith, consumed_bytes-le (drop n content), length-drop n content)

-- A poll of the same file starts at the offset of the row.
read_start-known :
    (inode offset : ℕ) (s : Stat)
    → s.inode ≡ inode
    → offset ≤ s.size
    → (read_start (some inode) (some offset) s).0 ≡ offset
unfolding read_start
read_start-known inode offset s same within = ground arith

get_source-id : (pk : ℕ) (db : Db) (r : LogSource) → get_source pk db ≡ some r → r.id ≡ pk
unfolding get_source
get_source-id pk db r h =
    ground (arith, find?-holds (λ (x : LogSource). x.id == pk) db.log_sources r h)

added_once :
    (before new new' after : List RequestEvent)
    → after ≡ before ++ new
    → after ≡ before ++ new'
    → new ≡ new'
added_once before new new' after h k =
    sym (drop-length before new) ∙ ap (drop (length before)) (sym h ∙ k) ∙ drop-length before new'

-- Events carry the keys of their source and of its server, and nothing else of it.
pub Stores-source :
    (lib : Conversions) (source source' : LogSource) (pattern : List Piece) (lines : List Text)
    (events : List RequestEvent) (n : ℕ)
    → source'.id ≡ source.id
    → source'.server_id ≡ source.server_id
    → Stores lib source' pattern lines events n
    → Stores lib source pattern lines events n
Stores-source lib source source' pattern _ _ _ i j end = end
Stores-source lib source source' pattern (line ∷ lines) (e ∷ events) n i j
      (stored {p = p} {id} f h) =
    let same : event_of source id p ≡ event_of source' id p = rw (i, j) refl in
    subst (λ x. Stores lib source pattern (line ∷ lines) (x ∷ events) n) same
      (stored f (Stores-source lib source source' pattern lines events n i j h))
Stores-source lib source source' pattern (line ∷ lines) events (suc n) i j (failed f h) =
    failed f (Stores-source lib source source' pattern lines events n i j h)

-- A poll from a row at an offset stores the lines from there on, and leaves the row behind them.
pub poll-Chunked :
    (lib : Conversions) (pk inode offset : ℕ) (content : List ℕ) (db db' : Db)
    (new : List RequestEvent) (n : ℕ) (p : Polled lib pk inode content db db' new n)
    → p.source.inode ≡ some inode
    → p.source.byte_offset ≡ offset
    → offset ≤ length content
    → (pattern : List Piece) × (pattern_of (compiled_pattern p.source.format) ≡ ok pattern)
      × Stores lib p.source pattern (tail_of content offset).lines new n
      × (row : LogSource) × (get_source pk db' ≡ some row)
      × At inode content offset p.source row
unfolding tail_of
poll-Chunked lib pk inode offset content db db' new n p known at within =
    let start : (read_start p.source.inode (known_offset p.source) p.stat).0 ≡ offset =
      rw (known, at)
        (read_start-known inode offset p.stat p.same_file (omega (arith, p.shows.size))) in
    let key = get_source-id pk db p.source p.row in
    let (_, _, moved) =
      poll-tail_of lib p.host p.server p.now p.source db p.stat content db' p.summary p.shows
        p.done in
    let (row, found, (i, o, _, _, format, id, server_id)) =
      moved p.source (ap (λ k. get_source k db) key ∙ p.row) in
    let (c, e, processed) =
      chunk_of_poll lib p.host p.server p.now p.source db p.stat content db' p.summary p.shows
        p.done in
    let (from, _, _, _, rest) =
      poll_log-content p.host p.server p.source.path p.stat content p.shows p.source.inode
        (known_offset p.source) c e in
    let bytes : c.data_read ≡ drop offset content =
      rest ∙ ap (λ k. drop k content) (from ∙ start) in
    let chunked = process_chunk-Chunked lib p.now p.source c db db' p.summary processed in
    let same = added_once db.events chunked.new new db'.events chunked.events p.events in
    (
      chunked.pattern,
      chunked.format,
      subst (λ k. Stores lib p.source chunked.pattern (complete_lines (drop offset content)) new k)
          p.errors
          (subst
            (λ es.
              Stores lib p.source chunked.pattern (complete_lines (drop offset content)) es
                p.summary.parse_errors)
            same
            (subst
              (λ b.
                Stores lib p.source chunked.pattern (complete_lines b) chunked.new
                  p.summary.parse_errors)
              bytes chunked.lines)),
      row,
      ap (λ k. get_source k db') (sym key) ∙ found,
      (
        i ∙ ap some p.same_file,
        o ∙ ap (λ k. (tail_of content k).next) start,
        format,
        id,
        server_id,
      ),
    )
