-- ===== src/Python/Split/Laws.antt =====
-- Splitting at a character.
use ip_scout.Prelude.{ℕ, ◌≡◌, refl, false, [], ◌∷◌, ◌++◌, Text, ◌==◌, arith, any}
use ip_scout.Python.Split.{split}

-- A part without the separator in front of one is split off.
pub split-append :
    (c : ℕ) (xs ys : Text) → any (λ d. d == c) xs ≡ false → split c (xs ++ c ∷ ys) ≡ xs ∷ split c ys
unfolding split any
split-append c [] ys h = ground arith
split-append c (x ∷ xs) ys h =
    let other : (x == c) ≡ false = ground arith in
    rw (other, split-append c xs ys (ground arith)) refl

-- A part without the separator stays whole.
pub split-none : (c : ℕ) (xs : Text) → any (λ d. d == c) xs ≡ false → split c xs ≡ xs ∷ []
unfolding split any
split-none c [] h = refl
split-none c (x ∷ xs) h =
    let other : (x == c) ≡ false = ground arith in rw (other, split-none c xs (ground arith)) refl
