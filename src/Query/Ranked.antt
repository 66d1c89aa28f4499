-- ===== src/Query/Ranked.antt =====
-- Groups behind an order_by and a slice.
use ip_scout.Prelude.{
  ℕ, ◌+◌, ◌≤◌, ◌<◌, ◌≡◌, refl, sym, ap, ◌∙◌, Bool, false, List, [], ◌∷◌, ltb, length, length-take,
  take, arith, Elem, Bool-cases, inl, inr,
}
use ip_scout.Query.{Eq, insert_by, order_by, group_counts, count_of}
use ip_scout.Query.Groups.{
  total, count_in, IsGrouped, Elem-count_in, group_counts-IsGrouped, count_in-group_counts,
}
use ip_scout.Query.Ordered.{
  IsOrdered, Elem-order_by, order_by-Elem, order_by-IsOrdered, IsOrdered-take, Elem-take,
  Elem-take_or,
}

module _ {K : Type 0} (before : K × ℕ → K × ℕ → Bool) where
  total-insert_by : (x : K × ℕ) (ys : List (K × ℕ)) → total (insert_by before x ys) ≡ x.1 + total ys
  unfolding insert_by
  total-insert_by x [] = refl
  total-insert_by x (y ∷ ys) = ground (arith, total-insert_by x ys)

  pub total-order_by : (xs : List (K × ℕ)) → total (order_by before xs) ≡ total xs
  unfolding order_by
  total-order_by [] = refl
  total-order_by (x ∷ xs) = omega (arith, total-insert_by x (order_by before xs), total-order_by xs)

module _ {K : Type 0} ⦃e : Eq K⦄ (before : K × ℕ → K × ℕ → Bool) where
  count_in-insert_by :
      (j k : K) (n : ℕ) (ys : List (K × ℕ))
      → e.beq j k ≡ false
      → count_in j ys ≡ 0
      → count_in j (insert_by before (k, n) ys) ≡ 0
  unfolding insert_by count_in
  count_in-insert_by j k n [] ne h = rw ne refl
  count_in-insert_by j k n ((i, m) ∷ ys) ne h =
      ground (arith, count_in-insert_by j k n ys ne, no_later)
    where
      no_later : e.beq j i ≡ false → count_in j ys ≡ 0
      no_later other = rw other at h

  insert_by-IsGrouped :
      (k : K) (n : ℕ) (ys : List (K × ℕ))
      → 0 < n
      → count_in k ys ≡ 0
      → IsGrouped ys
      → IsGrouped (insert_by before (k, n) ys)
  unfolding insert_by count_in
  insert_by-IsGrouped k n [] p u g = (p, refl, tt)
  insert_by-IsGrouped k n ((i, m) ∷ ys) p u (q, v, g) = elim (Bool-cases (before (i, m) (k, n))) [
    | inr behind ↦ rw behind (p, u, (q, v, g))
    | inl front ↦ elim (Bool-cases (e.beq k i)) [
      | inl same ↦ absurd (ground arith)
      | inr other ↦
          let other' : e.beq i k ≡ false = ground (arith, e.beq_iff k i, e.beq_iff i k) in
          let later : count_in k ys ≡ 0 = rw other at u in
          rw front (q, count_in-insert_by i k n ys other' v, insert_by-IsGrouped k n ys p later g)
    ]
  ]

  count_in-order_by :
      (j : K) (xs : List (K × ℕ))
      → IsGrouped xs
      → count_in j xs ≡ 0
      → count_in j (order_by before xs) ≡ 0
  unfolding order_by count_in
  count_in-order_by j [] g h = refl
  count_in-order_by j ((k, n) ∷ xs) (p, u, g) h = elim (Bool-cases (e.beq j k)) [
    | inl same ↦ absurd (ground arith)
    | inr other ↦
        count_in-insert_by j k n (order_by before xs) other
          (count_in-order_by j xs g (rw other at h))
  ]

  pub order_by-IsGrouped : (xs : List (K × ℕ)) → IsGrouped xs → IsGrouped (order_by before xs)
  unfolding order_by
  order_by-IsGrouped [] g = tt
  order_by-IsGrouped ((k, n) ∷ xs) (p, u, g) =
      insert_by-IsGrouped k n (order_by before xs) p (count_in-order_by k xs g u)
        (order_by-IsGrouped xs g)

-- The `n` most frequent values: in falling order of their counts, each with the number of its rows,
-- and no value that is left out has more rows than one that is kept.
pub record IsTop {K : Type 0} ⦃e : Eq K⦄ (n : ℕ) (values : List K) (top : List (K × ℕ))
    : Type 0 where
  pub short : length top ≤ n
  pub falling : IsOrdered (λ (x y : K × ℕ). ltb y.1 x.1) top
  pub counted : (k : K) (c : ℕ) → Elem (k, c) top → (c ≡ count_of k values) × (0 < c)
  pub left_out :
      (k : K) → ((c : ℕ) → ¬ (Elem (k, c) top)) → (x : K × ℕ) → Elem x top → count_of k values ≤ x.1

count_in-Elem :
    {K : Type 0} ⦃e : Eq K⦄ (k : K) (n : ℕ) (groups : List (K × ℕ))
    → count_in k groups ≡ n
    → 0 < n
    → Elem (k, n) groups
unfolding count_in
count_in-Elem k n [] h p = absurd (omega arith)
count_in-Elem {K} ⦃e⦄ k n ((j, m) ∷ groups) h p = elim (Bool-cases (e.beq k j)) [
  | inl same ↦
      let key : k ≡ j = (e.beq_iff k j).0 same in
      let count : m ≡ n = rw same at h in
      inl (ap (λ (x : K). (x, n)) key ∙ ap (λ (c : ℕ). (j, c)) (sym count))
  | inr other ↦ inr (count_in-Elem k n groups (rw other at h) p)
]

-- A slice of the groups in falling order of their counts.
pub take-IsTop :
    {K : Type 0} ⦃e : Eq K⦄ (n : ℕ) (values : List K)
    → IsTop n values (take n (order_by (λ (x y : K × ℕ). ltb y.1 x.1) (group_counts values)))
take-IsTop {K} n values =
    let larger = λ (x y : K × ℕ). ltb y.1 x.1 in
    let groups = group_counts values in
    let ordered =
      order_by-IsOrdered larger (λ a b h. ground arith) (λ a b c h k. ground arith) groups in
    record {
      short = omega (arith, length-take n (order_by larger groups));
      falling = IsOrdered-take larger n (order_by larger groups) ordered;
      counted = λ k c i.
          let j =
            Elem-order_by larger groups (k, c) (Elem-take n (order_by larger groups) (k, c) i) in
          let (found, pos) = Elem-count_in groups k c (group_counts-IsGrouped values) j in
          (sym found ∙ count_in-group_counts k values, pos);
      left_out = λ k out x i. elim (Bool-cases (ltb 0 (count_in k groups))) [
        | inr none_there ↦ ground (arith, count_in-group_counts k values)
        | inl there ↦
            let j =
              order_by-Elem larger groups (k, count_in k groups)
                (count_in-Elem k (count_in k groups) groups refl (ground arith)) in
            elim (Elem-take_or larger n (order_by larger groups) (k, count_in k groups) ordered j) [
              | inl kept ↦ absurd (out (count_in k groups) kept)
              | inr behind ↦ let b = behind x i in ground (arith, count_in-group_counts k values)
            ]
      ];
    }
