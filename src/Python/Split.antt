-- ===== src/Python/Split.antt =====
-- bytes.split, str.split by one character, str.splitlines and str.startswith.
pub mod Laws
use ip_scout.Prelude.{
  ℕ, ◌≡◌, refl, ap, Bool, true, false, ◌&&◌, ◌||◌, List, [], ◌∷◌, ◌++◌, Text, ◌==◌, between,
  if◌then◌else◌,
}

-- Puts a character in front of the first piece.
abbrev pub onto_first : ℕ → List Text → List Text
onto_first c [] = (c ∷ []) ∷ []
onto_first c (piece ∷ pieces) = (c ∷ piece) ∷ pieces

-- s.split(sep) with a separator of one character: never the empty list.
unfoldable pub split : ℕ → Text → List Text
split sep [] = [] ∷ []
split sep (c ∷ s) =
    let pieces = split sep s in if c == sep then [] ∷ pieces else onto_first c pieces

-- l.pop() on a list that is not empty: the list without its last entry, and that entry.
unfoldable pub pop : List Text → List Text × Text
pop [] = ([], [])
pop (x ∷ []) = ([], x)
pop (x ∷ y ∷ xs) = let (front, last) = pop (y ∷ xs) in (x ∷ front, last)

-- The separators of str.splitlines, "\r\n" apart.
unfoldable pub is_line_break : ℕ → Bool
is_line_break c =
    between 0x0a 0x0d c || between 0x1c 0x1e c || (c == 0x85) || (c == 0x2028) || (c == 0x2029)

-- Every "\r\n" as one "\r".
unfoldable pub join_crlf : Text → Text
join_crlf [] = []
join_crlf (c ∷ []) = c ∷ []
join_crlf (c ∷ d ∷ s) =
    let both = join_crlf s in
    let one = join_crlf (d ∷ s) in if c == b'\r' && d == b'\n' then c ∷ both else c ∷ one

lines_of : Text → List Text
unfolding is_line_break
lines_of [] = []
lines_of (c ∷ s) = let rest = lines_of s in if is_line_break c then [] ∷ rest else onto_first c rest

-- s.splitlines(): a line break at the end opens no further line.
unfoldable pub splitlines : Text → List Text
unfolding join_crlf lines_of
splitlines s = lines_of (join_crlf s)

unfoldable pub starts_with : Text → Text → Bool
starts_with s [] = true
starts_with [] (p ∷ prefix) = false
starts_with (c ∷ s) (p ∷ prefix) = (c == p) && starts_with s prefix

-- A list of pieces that is not empty, which `pop` takes apart and `++` puts together again.
abbrev pub NotNil : List Text → Type 0
NotNil [] = ⊥
NotNil (_ ∷ _) = Unit

pub split-NotNil : (sep : ℕ) (s : Text) → NotNil (split sep s)
unfolding split
split-NotNil sep [] = tt
split-NotNil sep (c ∷ s) = go (c == sep) (split sep s)
  where
    go : (b : Bool) (p : List Text) → NotNil (if b then [] ∷ p else onto_first c p)
    go true p = tt
    go false [] = tt
    go false (x ∷ p) = tt

pub pop-append : (p : List Text) → NotNil p → (pop p).0 ++ (pop p).1 ∷ [] ≡ p
unfolding pop
pop-append [] h = elim h [ ]
pop-append (x ∷ []) h = refl
pop-append (x ∷ y ∷ p) h = ap (◌∷◌ x) (pop-append (y ∷ p) tt)
