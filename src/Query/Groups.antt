-- ===== src/Query/Groups.antt =====
-- What a count of groups says of the rows.
use ip_scout.Prelude.{
  ℕ, suc, ◌+◌, ◌<◌, ◌≡◌, refl, sym, ap, ◌∙◌, true, List, [], ◌∷◌, filter, length, if◌then◌else◌,
  arith, Elem, Bool-cases, inl, inr, subst,
}
use ip_scout.Query.{Eq, count_one, group_counts, count_of}

-- The sum of the counts.
abbrev pub total {ℓ} : {K : Type ℓ} → List (K × ℕ) → ℕ
total [] = 0
total ((_, n) ∷ groups) = n + total groups

module _ {K : Type 0} ⦃e : Eq K⦄ where
  -- The count of a group, 0 where there is none.
  unfoldable pub count_in : K → List (K × ℕ) → ℕ
  count_in k [] = 0
  count_in k ((j, n) ∷ groups) = let rest = count_in k groups in if e.beq k j then n else rest

  -- The groups have different keys, and none is empty.
  abbrev pub IsGrouped : List (K × ℕ) → Type 0
  IsGrouped [] = Unit
  IsGrouped ((k, n) ∷ groups) = (0 < n) × (count_in k groups ≡ 0) × IsGrouped groups

  beq_refl : (k : K) → e.beq k k ≡ true
  beq_refl k = (e.beq_iff k k).1 refl

  beq_sym : (j k : K) → e.beq j k ≡ e.beq k j
  beq_sym j k = ground (arith, e.beq_iff j k, e.beq_iff k j)

  total-count_one :
      (k : K) (groups : List (K × ℕ)) → total (count_one k groups) ≡ suc (total groups)
  unfolding count_one
  total-count_one k [] = refl
  total-count_one k ((j, n) ∷ groups) = ground (arith, total-count_one k groups)

  -- Every row is counted, once.
  pub total-group_counts : (ks : List K) → total (group_counts ks) ≡ length ks
  unfolding group_counts
  total-group_counts [] = refl
  total-group_counts (k ∷ ks) = total-count_one k (group_counts ks) ∙ ap suc (total-group_counts ks)

  count_in-count_one :
      (j k : K) (groups : List (K × ℕ))
      → count_in j (count_one k groups)
        ≡ (if e.beq j k then suc (count_in j groups) else count_in j groups)
  unfolding count_in count_one
  count_in-count_one j k [] = ground arith
  count_in-count_one j k ((i, n) ∷ groups) =
      ground (arith, e.beq_iff j k, e.beq_iff k i, e.beq_iff j i, count_in-count_one j k groups)

  -- The count of a group is the number of the rows with its key.
  pub count_in-group_counts : (k : K) (ks : List K) → count_in k (group_counts ks) ≡ count_of k ks
  unfolding group_counts count_of filter count_in
  count_in-group_counts k [] = refl
  count_in-group_counts k (j ∷ ks) =
      ground (arith, count_in-count_one k j (group_counts ks), count_in-group_counts k ks)

  count_one-IsGrouped :
      (k : K) (groups : List (K × ℕ)) → IsGrouped groups → IsGrouped (count_one k groups)
  unfolding count_one count_in
  count_one-IsGrouped k [] g = (omega arith, refl, tt)
  count_one-IsGrouped k ((j, n) ∷ groups) (p, u, g) = elim (Bool-cases (e.beq k j)) [
    | inl same ↦ rw same (omega arith, u, g)
    | inr other ↦ rw other (
      p,
      count_in-count_one j k groups ∙ rw (beq_sym j k ∙ other) u,
      count_one-IsGrouped k groups g,
    )
  ]

  pub group_counts-IsGrouped : (ks : List K) → IsGrouped (group_counts ks)
  unfolding group_counts
  group_counts-IsGrouped [] = tt
  group_counts-IsGrouped (k ∷ ks) =
      count_one-IsGrouped k (group_counts ks) (group_counts-IsGrouped ks)

  -- The count that stands in a group is the one that is found for its key.
  pub Elem-count_in :
      (groups : List (K × ℕ)) (k : K) (n : ℕ)
      → IsGrouped groups
      → Elem (k, n) groups
      → (count_in k groups ≡ n) × (0 < n)
  unfolding count_in
  Elem-count_in [] k n g i = absurd i
  Elem-count_in ((j, m) ∷ groups) k n (p, u, g) (inl same) =
      let key : k ≡ j = ap (λ (x : K × ℕ). x.0) same in
      let count : n ≡ m = ap (λ (x : K × ℕ). x.1) same in
      (rw ((e.beq_iff k j).1 key) (sym count), omega arith)
  Elem-count_in ((j, m) ∷ groups) k n (p, u, g) (inr i) =
      let (found, pos) = Elem-count_in groups k n g i in
      (ground (arith, e.beq_iff k j, at_key), pos)
    where
      at_key : k ≡ j → count_in k groups ≡ 0
      at_key same = subst (λ x. count_in x groups ≡ 0) (sym same) u
