-- ===== src/Query/Distinct.antt =====
-- How many different values there are.
use ip_scout.Prelude.{
  Elem, sym, subst, ℕ, ◌≤◌, ◌<◌, ◌≡◌, true, List, [], ◌∷◌, ◌==◌, any, length, arith, Bool-cases,
  inl, inr,
}
use ip_scout.Query.{nat_eq, distinct}

pub length-distinct-le : (xs : List ℕ) → length (distinct xs) ≤ length xs
unfolding distinct
length-distinct-le [] = omega arith
length-distinct-le (x ∷ xs) = ground (arith, length-distinct-le xs)

pub distinct-pos : (x : ℕ) (xs : List ℕ) → 0 < length (distinct (x ∷ xs))
unfolding distinct any
distinct-pos x [] = ground arith
distinct-pos x (y ∷ xs) = ground (arith, distinct-pos y xs)

-- No key stands in the list twice.
abbrev pub NoRepeats : List ℕ → Type 0
NoRepeats [] = Unit {0}
NoRepeats (k ∷ ks) = (¬ (Elem k ks)) × NoRepeats ks

any-Elem_key : (k : ℕ) (ks : List ℕ) → any (λ j. k == j) ks ≡ true → Elem k ks
unfolding any
any-Elem_key k [] h = absurd (ground arith)
any-Elem_key k (j ∷ ks) h = elim (Bool-cases (k == j)) [
  | inl same ↦ inl (ground arith)
  | inr other ↦ inr (any-Elem_key k ks (ground arith))
]

Elem-any_key : (k : ℕ) (ks : List ℕ) → Elem k ks → any (λ j. k == j) ks ≡ true
unfolding any
Elem-any_key k [] i = absurd i
Elem-any_key k (j ∷ ks) (inl same) = ground arith
Elem-any_key k (j ∷ ks) (inr later) = let rest = Elem-any_key k ks later in ground arith

pub Elem-distinct : (ks : List ℕ) (k : ℕ) → Elem k (distinct ks) → Elem k ks
unfolding distinct
Elem-distinct [] k i = absurd i
Elem-distinct (j ∷ ks) k i = elim (Bool-cases (any (λ x. j == x) ks)) [
  | inl again ↦ inr (Elem-distinct ks k (rw again at i))
  | inr new ↦ elim (rw new at i) [
    | inl here ↦ inl here
    | inr later ↦ inr (Elem-distinct ks k later)
  ]
]

pub distinct-Elem : (ks : List ℕ) (k : ℕ) → Elem k ks → Elem k (distinct ks)
unfolding distinct
distinct-Elem [] k i = absurd i
distinct-Elem (j ∷ ks) k i = elim (Bool-cases (any (λ x. j == x) ks)) [
  | inl again ↦ rw again (elim i [
    | inl here ↦ distinct-Elem ks k (subst (λ x. Elem x ks) (sym here) (any-Elem_key j ks again))
    | inr later ↦ distinct-Elem ks k later
  ])
  | inr new ↦ rw new (elim i [ inl here ↦ inl here | inr later ↦ inr (distinct-Elem ks k later) ])
]

pub distinct-NoRepeats : (ks : List ℕ) → NoRepeats (distinct ks)
unfolding distinct
distinct-NoRepeats [] = tt
distinct-NoRepeats (j ∷ ks) = elim (Bool-cases (any (λ x. j == x) ks)) [
  | inl again ↦ rw again (distinct-NoRepeats ks)
  | inr new ↦ rw new (
    λ i. let there = Elem-any_key j ks (Elem-distinct ks j i) in absurd (ground arith),
    distinct-NoRepeats ks,
  )
]
