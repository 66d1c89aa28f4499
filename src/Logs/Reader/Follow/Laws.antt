-- ===== src/Logs/Reader/Follow/Laws.antt =====
-- After any number of polls, the events are those of the lines of the file.
use ip_scout.Prelude.{
  zero, suc, length-take, ℕ, ◌+◌, ◌≤◌, ◌≡◌, refl, sym, ap, ◌∙◌, some, List, [], ◌∷◌, ◌++◌,
  append-nil, append_assoc, arith, length, length-append, drop, take, subst,
}
use ip_scout.Errors.{ok, ok-injective}
use ip_scout.Models.{LogSource, RequestEvent, Db}
use ip_scout.Models.Tables.{get_source}
use ip_scout.Logs.Format.{Piece, compiled_pattern}
use ip_scout.Logs.Parser.{Conversions, pattern_of}
use ip_scout.Logs.Chunk.{tail_of}
use ip_scout.Logs.Chunk.Laws.{tail_of-append}
use ip_scout.Logs.Reader.Stored.{Stores, end, Stores-append}
use ip_scout.Logs.Reader.Follow.{Polled, Follows, start, grows, elsewhere, polls, At}
use ip_scout.Logs.Reader.Follow.Step.{tail_of-end, tail_of-next-le, Stores-source, poll-Chunked}

-- What is known of a file and a database: how far the file was read, and that the lines up to there are
-- stored.
record Caught (lib : Conversions) (pk inode offset : ℕ) (source : LogSource) (pattern : List Piece)
    (db : Db) (now : List ℕ) (events : List RequestEvent) (errors : ℕ) : Type 0 where
  read : List ℕ
  more : List ℕ
  whole : now ≡ read ++ more
  within : offset ≤ length read
  row : LogSource
  found : get_source pk db ≡ some row
  at : At inode read offset source row
  lines : Stores lib source pattern (tail_of read offset).lines events errors

drop-take : (n : ℕ) (xs : List ℕ) → n ≤ length xs → drop n (take n xs) ≡ []
drop-take zero xs h = refl
drop-take (suc n) [] h = refl
drop-take (suc n) (x ∷ xs) h = drop-take n xs (omega arith)

take-drop : (n : ℕ) (xs : List ℕ) → xs ≡ take n xs ++ drop n xs
take-drop zero xs = refl
take-drop (suc n) [] = refl
take-drop (suc n) (x ∷ xs) = ap (◌∷◌ x) (take-drop n xs)

module _ (lib : Conversions) (pk inode offset : ℕ) (source : LogSource) (pattern : List Piece)
    (readable : pattern_of (compiled_pattern source.format) ≡ ok pattern) where
  -- A poll catches up with the file.
  Caught-polls :
      (db db' : Db) (now : List ℕ) (events new : List RequestEvent) (errors n : ℕ)
      → Caught lib pk inode offset source pattern db now events errors
      → Polled lib pk inode now db db' new n
      → Stores lib source pattern (tail_of now offset).lines (events ++ new) (errors + n)
        × (row : LogSource) × (get_source pk db' ≡ some row)
        × At inode now offset source row
  Caught-polls db db' now events new errors n caught polled =
      let same : some caught.row ≡ some polled.source = sym caught.found ∙ polled.row in
      let row : caught.row ≡ polled.source = cc in
      let (i, o, format, id, server_id) =
        subst (At inode caught.read offset source) row caught.at in
      let next = (tail_of caught.read offset).next in
      let fits : next ≤ length now = omega (
        arith,
        tail_of-next-le caught.read offset caught.within,
        ap length caught.whole,
        length-append caught.read caught.more,
      ) in
      let (pattern', readable', lines, row', found, (i', o', format', id', server_id')) =
        poll-Chunked lib pk inode next now db db' new n polled i o fits in
      let same_pattern : pattern' ≡ pattern =
        ok-injective pattern' pattern
          (sym readable' ∙ ap (λ f. pattern_of (compiled_pattern f)) format ∙ readable) in
      let mine =
        Stores-source lib source polled.source pattern' (tail_of now next).lines new n id server_id
          lines in
      let (all_lines, all_next) = tail_of-append caught.read caught.more offset caught.within in
      (
        subst (λ ls. Stores lib source pattern ls (events ++ new) (errors + n))
            (sym (
              ap (λ c. (tail_of c offset).lines) caught.whole
              ∙ all_lines
              ∙ ap (λ c. (tail_of caught.read offset).lines ++ (tail_of c next).lines)
                  (sym caught.whole)))
            (Stores-append lib source pattern (tail_of caught.read offset).lines
              (tail_of now next).lines events new errors n caught.lines
              (subst (λ p. Stores lib source p (tail_of now next).lines new n) same_pattern mine)),
        row',
        found,
        (
          i',
          o'
              ∙ ap (λ c. (tail_of c next).next) caught.whole
              ∙ sym all_next
              ∙ ap (λ c. (tail_of c offset).next) (sym caught.whole),
          format' ∙ format,
          id' ∙ id,
          server_id' ∙ server_id,
        ),
      )

  module _ (first : Db) (content : List ℕ) (found : get_source pk first ≡ some source)
      (known : source.inode ≡ some inode) (at : source.byte_offset ≡ offset)
      (within : offset ≤ length content) where
    Follows-Caught :
        (db : Db) (now : List ℕ) (events : List RequestEvent) (errors : ℕ)
        → Follows lib pk inode first content db now events errors
        → Caught lib pk inode offset source pattern db now events errors
    Follows-Caught _ _ _ _ start =
        let (no_line, there) =
          tail_of-end offset (take offset content) (drop-take offset content within) in
        record {
          read = take offset content;
          more = drop offset content;
          whole = take-drop offset content;
          within = omega (arith, length-take offset content, within);
          row = source;
          found = found;
          at = (known, at ∙ sym there, refl, refl, refl);
          lines = subst (λ ls. Stores lib source pattern ls [] 0) (sym no_line) end;
        }
    Follows-Caught db _ events errors (grows {now = now} more f) =
        let c = Follows-Caught db now events errors f in
        record {
          read = c.read;
          more = c.more ++ more;
          whole = ap (λ xs. xs ++ more) c.whole ∙ append_assoc c.read c.more more;
          within = c.within;
          row = c.row;
          found = c.found;
          at = c.at;
          lines = c.lines;
        }
    Follows-Caught _ now events errors (elsewhere {db} {db'} same f) =
        let c = Follows-Caught db now events errors f in
        record {
          read = c.read;
          more = c.more;
          whole = c.whole;
          within = c.within;
          row = c.row;
          found = same ∙ c.found;
          at = c.at;
          lines = c.lines;
        }
    Follows-Caught _ now _ _ (polls {db} {db'} {events = events} {new} {errors} {n} p f) =
        let c = Follows-Caught db now events errors f in
        let (lines, row, found', at') = Caught-polls db db' now events new errors n c p in
        record {
          read = now;
          more = [];
          whole = sym (append-nil now);
          within = omega (arith, c.within, ap length c.whole, length-append c.read c.more);
          row = row;
          found = found';
          at = at';
          lines = lines;
        }

    -- A log that is polled while it grows, from a row with an inode and an offset in the file, and while
    -- the rest of the program leaves the row alone: after each poll that returns, the events of all the
    -- polls are, in order, those of the complete lines from the first offset on, each line once, but for
    -- the lines that do not parse, whose number is the sum of the polls' errors; and the row stands behind
    -- the last complete line.
    pub Follows-Stores :
        (db db' : Db) (now : List ℕ) (events new : List RequestEvent) (errors n : ℕ)
        → Follows lib pk inode first content db now events errors
        → Polled lib pk inode now db db' new n
        → Stores lib source pattern (tail_of now offset).lines (events ++ new) (errors + n)
          × (row : LogSource) × (get_source pk db' ≡ some row)
          × At inode now offset source row
    Follows-Stores db db' now events new errors n follows =
        Caught-polls db db' now events new errors n (Follows-Caught db now events errors follows)
