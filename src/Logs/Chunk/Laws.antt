-- ===== src/Logs/Chunk/Laws.antt =====
-- Reading a growing file in steps gives the lines that one read of the whole gives, each once.
use ip_scout.Prelude.{
  ℕ, zero, suc, ◌+◌, ◌≤◌, ◌≡◌, refl, sym, ap, ◌∙◌, Bool, false, not, List, [], ◌∷◌, ◌++◌, Text,
  arith, ◌==◌, length, filter, drop, length-append, append_assoc, Bool-cases, inl, inr, drop-length,
  drop-drop,
}
use mathlib.Core.List.{map-append}
use ip_scout.Python.Strip.{is_nil}
use ip_scout.Python.Split.{split, pop, onto_first, NotNil, split-NotNil}
use ip_scout.Python.Utf8.{decode}
use ip_scout.Logs.Chunk.{raw_lines, leftover, consumed_bytes, complete_lines, tail_of}

NotNil-append : (xs ys : List Text) → NotNil ys → NotNil (xs ++ ys)
NotNil-append [] ys h = h
NotNil-append (x ∷ xs) ys h = tt

pop-append_front : (xs ys : List Text) → NotNil ys → (pop (xs ++ ys)).0 ≡ xs ++ (pop ys).0
unfolding pop
pop-append_front [] ys h = refl
pop-append_front (x ∷ []) [] h = elim h [ ]
pop-append_front (x ∷ []) (y ∷ ys) h = refl
pop-append_front (x ∷ z ∷ xs) ys h = ap (◌∷◌ x) (pop-append_front (z ∷ xs) ys h)

pop-append_last : (xs ys : List Text) → NotNil ys → (pop (xs ++ ys)).1 ≡ (pop ys).1
unfolding pop
pop-append_last [] ys h = refl
pop-append_last (x ∷ []) [] h = elim h [ ]
pop-append_last (x ∷ []) (y ∷ ys) h = refl
pop-append_last (x ∷ z ∷ xs) ys h = pop-append_last (z ∷ xs) ys h

module _ (sep : ℕ) where
  -- Pieces that begin with one more character, which is no separator.
  split-onto_first :
      (c : ℕ) (p : List Text) (s : List Text) (ys : Text)
      → NotNil p
      → (c == sep) ≡ false
      → s ≡ (pop p).0 ++ split sep ((pop p).1 ++ ys)
      → onto_first c s ≡ (pop (onto_first c p)).0 ++ split sep ((pop (onto_first c p)).1 ++ ys)
  unfolding pop split
  split-onto_first c [] s ys h e i = elim h [ ]
  split-onto_first c (x ∷ []) s ys h e i = rw (i, e)
  split-onto_first c (x ∷ y ∷ p) s ys h e i = rw i

  -- Cutting behind a prefix goes on with the last piece of the prefix.
  split-append :
      (xs ys : Text)
      → split sep (xs ++ ys) ≡ (pop (split sep xs)).0 ++ split sep ((pop (split sep xs)).1 ++ ys)
  unfolding split pop
  split-append [] ys = refl
  split-append (c ∷ xs) ys =
      let ih = split-append xs ys in
      let full = split-NotNil sep xs in
      elim (Bool-cases (c == sep)) [
        | inl here ↦ rw here (on_sep (split sep xs) ys (split sep (xs ++ ys)) full ih)
        | inr there ↦
            rw there (split-onto_first c (split sep xs) (split sep (xs ++ ys)) ys full there ih)
      ]
    where
      on_sep :
          (p : List Text) (zs : Text) (s : List Text)
          → NotNil p
          → s ≡ (pop p).0 ++ split sep ((pop p).1 ++ zs)
          → [] ∷ s ≡ (pop ([] ∷ p)).0 ++ split sep ((pop ([] ∷ p)).1 ++ zs)
      on_sep [] zs s h i = elim h [ ]
      on_sep (x ∷ p) zs s h i = rw i

  -- Each line with its separator.
  terminated : List Text → Text
  terminated [] = []
  terminated (l ∷ ls) = l ++ sep ∷ terminated ls

  joined_onto_first :
      (c : ℕ) (p : List Text) (s : Text)
      → NotNil p
      → s ≡ terminated (pop p).0 ++ (pop p).1
      → c ∷ s ≡ terminated (pop (onto_first c p)).0 ++ (pop (onto_first c p)).1
  unfolding pop terminated
  joined_onto_first c [] s h i = elim h [ ]
  joined_onto_first c (x ∷ []) s h i = ap (◌∷◌ c) i
  joined_onto_first c (x ∷ y ∷ p) s h i = ap (◌∷◌ c) i

  joined_sep :
      (p : List Text) (s : Text)
      → NotNil p
      → s ≡ terminated (pop p).0 ++ (pop p).1
      → sep ∷ s ≡ terminated (pop ([] ∷ p)).0 ++ (pop ([] ∷ p)).1
  unfolding pop terminated
  joined_sep [] s h i = elim h [ ]
  joined_sep (x ∷ p) s h i = ap (◌∷◌ sep) i

  -- A text is its complete lines, each with its separator, and the piece behind them.
  joined : (s : Text) → s ≡ terminated (pop (split sep s)).0 ++ (pop (split sep s)).1
  unfolding split pop terminated
  joined [] = refl
  joined (c ∷ s) = elim (Bool-cases (c == sep)) [
    | inl here ↦
        let e : c ≡ sep = ground arith in
        rw here (rw e (joined_sep (split sep s) s (split-NotNil sep s) (joined s)))
    | inr there ↦ rw there (joined_onto_first c (split sep s) s (split-NotNil sep s) (joined s))
  ]

module _ (xs ys : List ℕ) where
  raw_lines-append : raw_lines (xs ++ ys) ≡ raw_lines xs ++ raw_lines (leftover xs ++ ys)
  unfolding raw_lines leftover
  raw_lines-append =
      ap (λ p. (pop p).0) (split-append b'\n' xs ys)
      ∙ pop-append_front (pop (split b'\n' xs)).0 (split b'\n' (leftover xs ++ ys))
          (split-NotNil b'\n' (leftover xs ++ ys))

  leftover-append : leftover (xs ++ ys) ≡ leftover (leftover xs ++ ys)
  unfolding raw_lines leftover
  leftover-append =
      ap (λ p. (pop p).1) (split-append b'\n' xs ys)
      ∙ pop-append_last (pop (split b'\n' xs)).0 (split b'\n' (leftover xs ++ ys))
          (split-NotNil b'\n' (leftover xs ++ ys))

-- The bytes that count as read are those of the complete lines.
consumed_bytes-terminated :
    (xs : List ℕ) → consumed_bytes xs ≡ length (terminated b'\n' (raw_lines xs))
unfolding consumed_bytes raw_lines leftover
consumed_bytes-terminated xs =
    let e = ap length (joined b'\n' xs) in
    omega (arith, e, length-append (terminated b'\n' (raw_lines xs)) (leftover xs))

drop-consumed_bytes : (xs ys : List ℕ) → drop (consumed_bytes xs) (xs ++ ys) ≡ leftover xs ++ ys
unfolding raw_lines leftover
drop-consumed_bytes xs ys =
    let t = terminated b'\n' (raw_lines xs) in
    ap (λ n. drop n (xs ++ ys)) (consumed_bytes-terminated xs)
    ∙ ap (λ s. drop (length t) (s ++ ys)) (joined b'\n' xs)
    ∙ ap (drop (length t)) (append_assoc t (leftover xs) ys)
    ∙ drop-length t (leftover xs ++ ys)

length-leftover-le : (xs : List ℕ) → length (leftover xs) ≤ length xs
unfolding raw_lines leftover
length-leftover-le xs =
    let e = ap length (joined b'\n' xs) in
    omega (arith, e, length-append (terminated b'\n' (raw_lines xs)) (leftover xs))

consumed_bytes-append :
    (xs ys : List ℕ)
    → consumed_bytes (xs ++ ys) ≡ consumed_bytes xs + consumed_bytes (leftover xs ++ ys)
unfolding consumed_bytes
consumed_bytes-append xs ys = omega (
  arith,
  ap length (leftover-append xs ys),
  length-append xs ys,
  length-append (leftover xs) ys,
  length-leftover-le xs,
  length-leftover-le (leftover xs ++ ys),
)

filter-append :
    (p : Text → Bool) (xs ys : List Text) → filter p (xs ++ ys) ≡ filter p xs ++ filter p ys
unfolding filter
filter-append p [] ys = refl
filter-append p (x ∷ xs) ys = ground (arith, filter-append p xs ys)

complete_lines-append :
    (xs ys : List ℕ)
    → complete_lines (xs ++ ys) ≡ complete_lines xs ++ complete_lines (leftover xs ++ ys)
unfolding complete_lines
complete_lines-append xs ys = rw (raw_lines-append xs ys) (
    rw (filter-append (λ l. not (is_nil l)) (raw_lines xs) (raw_lines (leftover xs ++ ys)))
      (map-append decode _ _))

-- Consumed bytes never pass what was read.
pub consumed_bytes-le : (xs : List ℕ) → consumed_bytes xs ≤ length xs
unfolding consumed_bytes
consumed_bytes-le xs = omega arith

drop-append : (n : ℕ) (xs ys : List ℕ) → n ≤ length xs → drop n (xs ++ ys) ≡ drop n xs ++ ys
drop-append zero xs ys h = refl
drop-append (suc n) [] ys h = absurd (omega arith)
drop-append (suc n) (x ∷ xs) ys h = drop-append n xs ys (omega arith)

module _ (old more : List ℕ) (offset : ℕ) (within : offset ≤ length old) where
  drop-next : drop (tail_of old offset).next (old ++ more) ≡ leftover (drop offset old) ++ more
  unfolding tail_of
  drop-next =
      sym (drop-drop offset (consumed_bytes (drop offset old)) (old ++ more))
      ∙ ap (drop (consumed_bytes (drop offset old))) (drop-append offset old more within)
      ∙ drop-consumed_bytes (drop offset old) more

  -- One read before a file grew and one after it give together the lines, and leave the offset, that
  -- a single read of the grown file gives: no line is lost, cut or given twice.
  pub tail_of-append :
      ((tail_of (old ++ more) offset).lines
        ≡ (tail_of old offset).lines ++ (tail_of (old ++ more) (tail_of old offset).next).lines)
      × ((tail_of (old ++ more) offset).next
          ≡ (tail_of (old ++ more) (tail_of old offset).next).next)
  unfolding tail_of
  tail_of-append =
      let d = drop offset old in
      let e = drop-append offset old more within in
      let f = drop-next in
      (
        ap complete_lines e
            ∙ complete_lines-append d more
            ∙ ap (λ s. complete_lines d ++ complete_lines s) (sym f),
        omega (arith, ap consumed_bytes e, consumed_bytes-append d more, ap consumed_bytes f),
      )
