-- ===== src/Logs/Chunk.antt =====
-- apps/logs/services.py: how `NginxLogReader.poll` cuts the bytes that it read into lines.
pub mod Laws
use ip_scout.Prelude.{ℕ, ◌+◌, ◌-◌, Bool, not, List, [], ◌∷◌, Text, length, filter, map, drop}
use ip_scout.Python.Strip.{is_nil}
use ip_scout.Python.Split.{split, pop}
use ip_scout.Python.Utf8.{decode}

-- raw_lines, after the last piece was taken off
unfoldable pub raw_lines : List ℕ → List (List ℕ)
unfolding split pop
raw_lines bytes = (pop (split b'\n' bytes)).0

-- The last piece, a line that is still being written.
unfoldable pub leftover : List ℕ → List ℕ
unfolding split pop
leftover bytes = (pop (split b'\n' bytes)).1

unfoldable pub consumed_bytes : List ℕ → ℕ
unfolding leftover
consumed_bytes bytes = length bytes - length (leftover bytes)

unfoldable pub complete_lines : List ℕ → List Text
unfolding raw_lines filter decode
complete_lines bytes = map decode (filter (λ l. not (is_nil l)) (raw_lines bytes))

-- What a read of the content from the offset on gives: its lines, and where the next read starts.
pub record Tail : Type 0 where
  pub lines : List Text
  pub next : ℕ

unfoldable pub tail_of : List ℕ → ℕ → Tail
unfolding consumed_bytes complete_lines
tail_of content offset = record {
  lines = complete_lines (drop offset content);
  next = offset + consumed_bytes (drop offset content);
}
