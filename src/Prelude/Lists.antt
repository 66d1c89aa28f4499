-- ===== src/Prelude/Lists.antt =====
-- List functions with Boolean tests and native lengths, and their laws.
use Prim.Native.Nat.{ℕ, zero, suc, ◌+◌, ◌-◌, ◌≤◌, min}
use mathlib.Core.Path.{◌≡◌, refl, sym, ap, ◌∙◌}
use mathlib.Core.Bool.{Bool, true, false, ◌||◌}
use mathlib.Core.Option.{Option, none, some}
use mathlib.Core.Logic.{◌⊎◌, inl, inr}
use mathlib.Core.List.{map, List, [], ◌∷◌, ◌++◌}
use native.Mathlib.Omega.{arith}
use ip_scout.Prelude.Tests.{if◌then◌else◌, Bool-cases}

module _ {ℓ} {A : Type ℓ} where
  abbrev pub length : List A → ℕ
  length [] = 0
  length (x ∷ xs) = suc (length xs)

  abbrev pub take : ℕ → List A → List A
  take zero xs = []
  take (suc n) [] = []
  take (suc n) (x ∷ xs) = x ∷ take n xs

  abbrev pub drop : ℕ → List A → List A
  drop zero xs = xs
  drop (suc n) [] = []
  drop (suc n) (x ∷ xs) = drop n xs

  abbrev pub head? : List A → Option A
  head? [] = none
  head? (x ∷ xs) = some x

  unfoldable pub filter : (A → Bool) → List A → List A
  filter p [] = []
  filter p (x ∷ xs) = let rest = filter p xs in if p x then x ∷ rest else rest

  unfoldable pub any : (A → Bool) → List A → Bool
  any p [] = false
  any p (x ∷ xs) = p x || any p xs

  unfoldable pub find? : (A → Bool) → List A → Option A
  find? p [] = none
  find? p (x ∷ xs) = let rest = find? p xs in if p x then some x else rest

  -- Every entry that passes the test is replaced by its image.
  unfoldable pub update_where : (A → Bool) → (A → A) → List A → List A
  update_where p f [] = []
  update_where p f (x ∷ xs) = (if p x then f x else x) ∷ update_where p f xs

module _ {ℓ κ} {A : Type ℓ} where
  abbrev pub All : (A → Type κ) → List A → Type κ
  All P [] = Unit
  All P (x ∷ xs) = P x × All P xs

module _ {A : Type 0} where
  abbrev pub Elem : A → List A → Type 0
  Elem a [] = ⊥
  Elem a (x ∷ xs) = (a ≡ x) ⊎ Elem a xs

pub length-map {ℓ κ} :
    {A : Type ℓ} {B : Type κ} (f : A → B) (xs : List A) → length (map f xs) ≡ length xs
length-map f [] = omega arith
length-map f (x ∷ xs) = omega (arith, length-map f xs)

module _ {ℓ} {A : Type ℓ} where
  pub length-append : (xs ys : List A) → length (xs ++ ys) ≡ length xs + length ys
  length-append [] ys = omega arith
  length-append (x ∷ xs) ys = omega (arith, length-append xs ys)

  pub length-drop : (n : ℕ) (xs : List A) → length (drop n xs) ≡ length xs - n
  length-drop zero xs = omega arith
  length-drop (suc n) [] = omega arith
  length-drop (suc n) (x ∷ xs) = omega (arith, length-drop n xs)

  pub length-take : (n : ℕ) (xs : List A) → length (take n xs) ≡ min n (length xs)
  length-take zero xs = omega arith
  length-take (suc n) [] = omega arith
  length-take (suc n) (x ∷ xs) = omega (arith, length-take n xs)

  pub take_of_length-le : (m : ℕ) (ys : List A) → length ys ≤ m → take m ys ≡ ys
  take_of_length-le (suc m) (y ∷ ys) short = ap (◌∷◌ y) (take_of_length-le m ys (omega arith))
  take_of_length-le (suc m) [] short = refl
  take_of_length-le zero (y ∷ ys) short = absurd (omega arith)
  take_of_length-le zero [] short = refl

  pub take-length : (xs ys : List A) → take (length xs) (xs ++ ys) ≡ xs
  take-length [] ys = refl
  take-length (x ∷ xs) ys = ap (◌∷◌ x) (take-length xs ys)

  pub drop-length : (xs ys : List A) → drop (length xs) (xs ++ ys) ≡ ys
  drop-length [] ys = refl
  drop-length (x ∷ xs) ys = drop-length xs ys

  drop-nil : (n : ℕ) → drop {A = A} n [] ≡ []
  drop-nil zero = refl
  drop-nil (suc n) = refl

  pub drop-drop : (m n : ℕ) (xs : List A) → drop n (drop m xs) ≡ drop (m + n) xs
  drop-drop zero n xs = let e : n ≡ zero + n = omega arith in ap (λ k. drop k xs) e
  drop-drop (suc m) n [] = drop-nil n ∙ sym (drop-nil (suc m + n))
  drop-drop (suc m) n (x ∷ xs) =
      let e : suc (m + n) ≡ suc m + n = omega arith in
      drop-drop m n xs ∙ ap (λ k. drop k (x ∷ xs)) e

  pub length-filter-le : (p : A → Bool) (xs : List A) → length (filter p xs) ≤ length xs
  unfolding filter
  length-filter-le p [] = omega arith
  length-filter-le p (x ∷ xs) = ground (arith, length-filter-le p xs)

  pub filter_idem : (p : A → Bool) (xs : List A) → filter p (filter p xs) ≡ filter p xs
  unfolding filter
  filter_idem p [] = refl
  filter_idem p (x ∷ xs) = ground (arith, filter_idem p xs)

  pub length-update_where :
      (p : A → Bool) (f : A → A) (xs : List A) → length (update_where p f xs) ≡ length xs
  unfolding update_where
  length-update_where p f [] = refl
  length-update_where p f (x ∷ xs) = ap suc (length-update_where p f xs)

  pub find?-holds : (p : A → Bool) (xs : List A) (a : A) → find? p xs ≡ some a → p a ≡ true
  unfolding find?
  find?-holds p [] a h = ground arith
  find?-holds p (x ∷ xs) a h = ground (arith, find?-holds p xs a)

  pub any-eq-is_some : (p : A → Bool) (xs : List A) → find? p xs ≡ none → any p xs ≡ false
  unfolding find? any
  any-eq-is_some p [] h = refl
  any-eq-is_some p (x ∷ xs) h = ground (arith, any-eq-is_some p xs)

module _ {A : Type 0} where
  pub Elem-filter :
      (p : A → Bool) (xs : List A) (a : A) → Elem a (filter p xs) → Elem a xs × (p a ≡ true)
  unfolding filter
  Elem-filter p [] a h = absurd h
  Elem-filter p (x ∷ xs) a h = elim (Bool-cases (p x)) [
    | inl kept ↦ elim (rw kept at h) [
      | inl e ↦ (inl e, ap p e ∙ kept)
      | inr rest ↦ let (i, q) = Elem-filter p xs a rest in (inr i, q)
    ]
    | inr dropped ↦ let (i, q) = Elem-filter p xs a (rw dropped at h) in (inr i, q)
  ]

  pub filter-Elem :
      (p : A → Bool) (xs : List A) (a : A) → Elem a xs → p a ≡ true → Elem a (filter p xs)
  unfolding filter
  filter-Elem p [] a h q = h
  filter-Elem p (x ∷ xs) a (inl e) q = rw (ap p (sym e) ∙ q) (inl e)
  filter-Elem p (x ∷ xs) a (inr i) q = elim (Bool-cases (p x)) [
    | inl kept ↦ rw kept (inr (filter-Elem p xs a i q))
    | inr dropped ↦ rw dropped (filter-Elem p xs a i q)
  ]

  pub any-Elem : (p : A → Bool) (xs : List A) (a : A) → Elem a xs → p a ≡ true → any p xs ≡ true
  unfolding any
  any-Elem p [] a i h = absurd i
  any-Elem p (x ∷ xs) a (inl e) h = let f : p x ≡ true = ap p (sym e) ∙ h in ground arith
  any-Elem p (x ∷ xs) a (inr i) h = ground (arith, any-Elem p xs a i h)

  -- An entry that passes, if one does.
  pub any_found :
      (p : A → Bool) (xs : List A) → any p xs ≡ true → (a : A) × Elem a xs × (p a ≡ true)
  unfolding any
  any_found p [] h = absurd (ground arith)
  any_found p (x ∷ xs) h = elim (Bool-cases (p x)) [
    | inl here ↦ (x, inl refl, here)
    | inr other ↦ let (a, i, k) = any_found p xs (ground arith) in (a, inr i, k)
  ]

  -- A filter that every entry passes changes nothing.
  pub filter_all :
      (p : A → Bool) (xs : List A) → ((a : A) → Elem a xs → p a ≡ true) → filter p xs ≡ xs
  unfolding filter
  filter_all p [] h = refl
  filter_all p (x ∷ xs) h = rw (h x (inl refl)) (ap (◌∷◌ x) (filter_all p xs (λ a i. h a (inr i))))

  pub any-none :
      (p : A → Bool) (xs : List A) → ((a : A) → Elem a xs → p a ≡ false) → any p xs ≡ false
  unfolding any
  any-none p [] h = refl
  any-none p (x ∷ xs) h = ground (arith, h x (inl refl), any-none p xs (λ a i. h a (inr i)))
