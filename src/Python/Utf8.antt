-- ===== src/Python/Utf8.antt =====
-- bytes.decode("utf-8", errors="replace"): one U+FFFD for each maximal ill-formed part.
use ip_scout.Prelude.{
  ℕ, zero, suc, ◌+◌, ◌-◌, ◌*◌, ◌≡◌, refl, List, [], ◌∷◌, ◌++◌, Text, ltb, between, ◌==◌,
  if◌then◌else◌,
}

-- Where the decoder stands: `more need lo hi acc` wants `need + 1` continuation bytes, the next of
-- them from `lo` to `hi`.
pub data State : Type 0 where
  start : State
  more : ℕ → ℕ → ℕ → ℕ → State

-- A byte at the start of a character: the characters that are complete, and the next state.
lead : ℕ → Text × State
lead b =
    if ltb b 0x80
    then (b ∷ [], start)
    else if between 0xc2 0xdf b
    then ([], more 0 0x80 0xbf (b - 0xc0))
    else if b == 0xe0
    then ([], more 1 0xa0 0xbf 0)
    else if b == 0xed
    then ([], more 1 0x80 0x9f 0xd)
    else if between 0xe1 0xef b
    then ([], more 1 0x80 0xbf (b - 0xe0))
    else if b == 0xf0
    then ([], more 2 0x90 0xbf 0)
    else if between 0xf1 0xf3 b
    then ([], more 2 0x80 0xbf (b - 0xf0))
    else if b == 0xf4
    then ([], more 2 0x80 0x8f 4)
    else (0xfffd ∷ [], start)

-- A byte that continues a character, of which `need` more bytes are wanted after it.
accept : ℕ → ℕ → Text × State
accept zero acc = (acc ∷ [], start)
accept (suc n) acc = ([], more n 0x80 0xbf acc)

-- A byte that does not continue a character ends it, and is read again as a first byte.
step : State → ℕ → Text × State
unfolding lead accept
step start b = lead b
step (more need lo hi acc) b =
    if between lo hi b
    then accept need (acc * 64 + (b - 0x80))
    else (0xfffd ∷ (lead b).0, (lead b).1)

decode_from : State → List ℕ → Text
unfolding step
decode_from start [] = []
decode_from (more _ _ _ _) [] = 0xfffd ∷ []
decode_from s (b ∷ bytes) = let (out, s') = step s b in out ++ decode_from s' bytes

unfoldable pub decode : List ℕ → Text
unfolding decode_from
decode = decode_from start

decode_example :
    decode (0x61 ∷ 0xe2 ∷ 0x82 ∷ 0xac ∷ 0xf0 ∷ 0x9f ∷ 0x62 ∷ 0xff ∷ [])
    ≡ 0x61 ∷ 0x20ac ∷ 0xfffd ∷ 0x62 ∷ 0xfffd ∷ []
unfolding decode
decode_example = refl
