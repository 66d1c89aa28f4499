-- ===== src/Python/Strip.antt =====
-- str.strip, str.rstrip, str.lower and the white space that they and `\s` of `re` go by.
use ip_scout.Prelude.{
  ℕ, ◌+◌, ◌≡◌, refl, Bool, true, false, ◌&&◌, ◌||◌, List, [], ◌∷◌, Text, arith, ◌==◌, between,
  if◌then◌else◌, map,
}

-- str.isspace of one character
unfoldable pub is_space : ℕ → Bool
is_space c =
    between 0x09 0x0d c
    || between 0x1c 0x20 c
    || (c == 0x85)
    || (c == 0xa0)
    || (c == 0x1680)
    || between 0x2000 0x200a c
    || (c == 0x2028)
    || (c == 0x2029)
    || (c == 0x202f)
    || (c == 0x205f)
    || (c == 0x3000)

abbrev pub is_nil : List ℕ → Bool
is_nil [] = true
is_nil (_ ∷ _) = false

-- Drops the leading characters that pass the test.
unfoldable pub lstrip_by : (ℕ → Bool) → Text → Text
lstrip_by p [] = []
lstrip_by p (c ∷ s) = let rest = lstrip_by p s in if p c then rest else c ∷ s

-- Drops the trailing characters that pass the test.
unfoldable pub rstrip_by : (ℕ → Bool) → Text → Text
rstrip_by p [] = []
rstrip_by p (c ∷ s) = let rest = rstrip_by p s in if p c && is_nil rest then [] else c ∷ rest

-- s.strip()
unfoldable pub strip : Text → Text
unfolding lstrip_by rstrip_by is_space
strip s = rstrip_by is_space (lstrip_by is_space s)

-- s.rstrip("\r\n")
unfoldable pub rstrip_newlines : Text → Text
unfolding rstrip_by
rstrip_newlines = rstrip_by (λ c. c == b'\r' || c == b'\n')

unfoldable pub is_upper : ℕ → Bool
is_upper c = between b'A' b'Z' c

-- str.lower on ASCII text
unfoldable pub ascii_lower : Text → Text
unfolding is_upper
ascii_lower = map (λ c. if is_upper c then c + 32 else c)

-- A stripped text does not end in a character that is stripped.
abbrev pub LastKept : (ℕ → Bool) → Text → Type 0
LastKept p [] = Unit
LastKept p (c ∷ []) = p c ≡ false
LastKept p (c ∷ d ∷ s) = LastKept p (d ∷ s)

pub rstrip_by-LastKept : (p : ℕ → Bool) (s : Text) → LastKept p (rstrip_by p s)
unfolding rstrip_by
rstrip_by-LastKept p [] = tt
rstrip_by-LastKept p (c ∷ s) = go (rstrip_by p s) (rstrip_by-LastKept p s) (p c) refl
  where
    go :
        (rest : Text)
        → LastKept p rest
        → (b : Bool) → p c ≡ b
        → LastKept p (if b && is_nil rest then [] else c ∷ rest)
    go [] h true e = tt
    go [] h false e = e
    go (d ∷ r) h true e = h
    go (d ∷ r) h false e = h

pub rstrip_by_fixed : (p : ℕ → Bool) (s : Text) → LastKept p s → rstrip_by p s ≡ s
unfolding rstrip_by
rstrip_by_fixed p [] h = refl
rstrip_by_fixed p (c ∷ []) h = ground arith
rstrip_by_fixed p (c ∷ d ∷ s) h = rw (rstrip_by_fixed p (d ∷ s) h) (ground arith)

pub rstrip_by_idem : (p : ℕ → Bool) (s : Text) → rstrip_by p (rstrip_by p s) ≡ rstrip_by p s
rstrip_by_idem p s = rstrip_by_fixed p (rstrip_by p s) (rstrip_by-LastKept p s)
