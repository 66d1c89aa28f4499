-- ===== src/Config/Laws.antt =====
-- What a list that is read from the environment holds.
use ip_scout.Prelude.{
  ℕ, ◌≡◌, refl, ap, ◌∙◌, false, not, Option, some, List, [], ◌∷◌, ◌++◌, Text, filter, map, All, any,
  ◌==◌,
}
use ip_scout.Python.Strip.{is_nil, strip}
use ip_scout.Python.Split.{split}
use ip_scout.Python.Split.Laws.{split-append, split-none}
use ip_scout.Config.{Environ, items, env_list}

-- The parts with the separator between them.
unfoldable pub joined : ℕ → List Text → Text
joined c [] = []
joined c (x ∷ []) = x
joined c (x ∷ y ∷ xs) = x ++ c ∷ joined c (y ∷ xs)

abbrev pub IsPart : ℕ → Text → Type 0
IsPart c t = any (λ d. d == c) t ≡ false

split-joined :
    (c : ℕ) (x : Text) (xs : List Text)
    → All (IsPart c) (x ∷ xs)
    → split c (joined c (x ∷ xs)) ≡ x ∷ xs
unfolding joined
split-joined c x [] h = split-none c x h.0
split-joined c x (y ∷ xs) h =
    split-append c x (joined c (y ∷ xs)) h.0 ∙ ap (◌∷◌ x) (split-joined c y xs h.1)

-- A part that is stripped and not blank.
pub record IsItem (c : ℕ) (t : Text) : Type 0 where
  pub part : IsPart c t
  pub full : is_nil t ≡ false
  pub stripped : strip t ≡ t

filter-items :
    (c : ℕ) (xs : List Text) → All (IsItem c) xs → filter (λ t. not (is_nil t)) (map strip xs) ≡ xs
unfolding filter
filter-items c [] h = refl
filter-items c (x ∷ xs) h = rw (h.0.stripped) (rw (h.0.full) (ap (◌∷◌ x) (filter-items c xs h.1)))

parts : (c : ℕ) (xs : List Text) → All (IsItem c) xs → All (IsPart c) xs
parts c [] h = tt
parts c (x ∷ xs) h = (h.0.part, parts c xs h.1)

joined-full :
    (c : ℕ) (x : Text) (xs : List Text) → is_nil x ≡ false → is_nil (joined c (x ∷ xs)) ≡ false
unfolding joined
joined-full c [] xs h = cc
joined-full c (d ∷ x) [] h = refl
joined-full c (d ∷ x) (y ∷ xs) h = refl

-- A variable that holds items with the separator between them is read as these items, if they do not
-- contain the separator, are not blank, and have no white space around them.
pub env_list-joined :
    (environ : Environ) (key : Text) (default : Option (List Text)) (c : ℕ) (x : Text)
    (xs : List Text)
    → environ key ≡ some (joined c (x ∷ xs))
    → All (IsItem c) (x ∷ xs)
    → env_list environ key default c ≡ x ∷ xs
unfolding env_list items
env_list-joined environ key default c x xs h all =
    rw (h, env_list)
      (rw (joined-full c x xs all.0.full) (
        ap (λ ps. filter (λ t. not (is_nil t)) (map strip ps))
          (split-joined c x xs (parts c (x ∷ xs) all))
        ∙ filter-items c (x ∷ xs) all))
