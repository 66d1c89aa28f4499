-- ===== src/Query/Counted.antt =====
-- Selections and numbers of different keys, said without the functions that compute them.
use ip_scout.Prelude.{
  ℕ, ◌≡◌, ◌↔◌, refl, sym, ap, ◌∙◌, Bool, true, false, List, [], ◌∷◌, filter, map, length, Elem,
  Bool-cases, inl, inr,
}
use ip_scout.Query.{nat_eq, distinct}
use ip_scout.Query.Distinct.{NoRepeats, distinct-NoRepeats, Elem-distinct, distinct-Elem}

-- The entries of a list for which a predicate holds, in their order.
pub data Selected {A : Type 0} (P : A → Type 0) : List A → List A → Type 0 where
  done : Selected P [] []
  kept : {x : A} {xs ys : List A} → P x → Selected P xs ys → Selected P (x ∷ xs) (x ∷ ys)
  left : {x : A} {xs ys : List A} → ¬ (P x) → Selected P xs ys → Selected P (x ∷ xs) ys

pub filter-Selected :
    {A : Type 0} (P : A → Type 0) (p : A → Bool)
    → ((a : A) → p a ≡ true → P a)
    → ((a : A) → p a ≡ false → ¬ (P a))
    → (xs : List A) → Selected P xs (filter p xs)
unfolding filter
filter-Selected P p sound complete [] = done
filter-Selected P p sound complete (x ∷ xs) = elim (Bool-cases (p x)) [
  | inl holds ↦ rw holds (kept (sound x holds) (filter-Selected P p sound complete xs))
  | inr fails ↦ rw fails (left (complete x fails) (filter-Selected P p sound complete xs))
]

-- How many entries of a list a predicate holds for.
abbrev pub Numbers : {A : Type 0} → (A → Type 0) → List A → ℕ → Type 0
Numbers {A} P xs n = (ys : List A) × Selected P xs ys × (length ys ≡ n)

-- The number of the keys of a kind: there is a list of them without repetitions.
pub record Counts (P : ℕ → Type 0) (n : ℕ) : Type 0 where
  pub keys : List ℕ
  pub size : length keys ≡ n
  pub once : NoRepeats keys
  pub all : (k : ℕ) → Elem k keys ↔ P k

module _ {A : Type 0} (key : A → ℕ) where
  Elem-keys : (xs : List A) (k : ℕ) → Elem k (map key xs) ↔ ((x : A) × Elem x xs × (key x ≡ k))
  Elem-keys [] k = (λ i. absurd i, λ p. absurd p.1)
  Elem-keys (x ∷ xs) k = (
    λ i. elim i [
      | inl here ↦ (x, inl refl, sym here)
      | inr there ↦ let (y, j, same) = (Elem-keys xs k).0 there in (y, inr j, same)
    ],
    λ p. elim p.1 [
      | inl here ↦ inl (sym p.2 ∙ ap key here)
      | inr there ↦ inr ((Elem-keys xs k).1 (p.0, there, p.2))
    ],
  )

  pub distinct-Counts :
      (xs : List A)
      → Counts (λ k. (x : A) × Elem x xs × (key x ≡ k)) (length (distinct (map key xs)))
  distinct-Counts xs =
      let keys = map key xs in
      record {
        keys = distinct keys;
        size = refl;
        once = distinct-NoRepeats keys;
        all = λ k. (
          λ i. (Elem-keys xs k).0 (Elem-distinct keys k i),
          λ p. distinct-Elem keys k ((Elem-keys xs k).1 p),
        );
      }
