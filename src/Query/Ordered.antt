-- ===== src/Query/Ordered.antt =====
-- What an order_by does to the rows.
use ip_scout.Prelude.{
  filter, if◌then◌else◌, ltb, ℕ, zero, suc, ◌⊎◌, ◌≡◌, refl, ap, ◌∙◌, Bool, true, false, List, [],
  ◌∷◌, length, arith, Elem, Bool-cases, inl, inr, take,
}
use ip_scout.Query.{insert_by, order_by}

module _ {A : Type 0} (before : A → A → Bool) where
  -- No row stands behind one that it belongs before.
  abbrev pub IsOrdered : List A → Type 0
  IsOrdered [] = Unit
  IsOrdered (x ∷ xs) = ((y : A) → Elem y xs → before y x ≡ false) × IsOrdered xs

  Elem-insert_by : (x : A) (ys : List A) (a : A) → Elem a (insert_by before x ys) → Elem a (x ∷ ys)
  unfolding insert_by
  Elem-insert_by x [] a i = i
  Elem-insert_by x (y ∷ ys) a i = elim (Bool-cases (before y x)) [
    | inr behind ↦ rw behind at i
    | inl front ↦ elim (rw front at i) [
      | inl e ↦ inr (inl e)
      | inr j ↦ elim (Elem-insert_by x ys a j) [ inl e ↦ inl e | inr k ↦ inr (inr k) ]
    ]
  ]

  insert_by-Elem : (x : A) (ys : List A) (a : A) → Elem a (x ∷ ys) → Elem a (insert_by before x ys)
  unfolding insert_by
  insert_by-Elem x [] a i = i
  insert_by-Elem x (y ∷ ys) a i = elim (Bool-cases (before y x)) [
    | inr behind ↦ rw behind i
    | inl front ↦ rw front (elim i [
      | inl e ↦ inr (insert_by-Elem x ys a (inl e))
      | inr j ↦ elim j [ inl e ↦ inl e | inr k ↦ inr (insert_by-Elem x ys a (inr k)) ]
    ])
  ]

  -- The rows are the same.
  pub Elem-order_by : (xs : List A) (a : A) → Elem a (order_by before xs) → Elem a xs
  unfolding order_by
  Elem-order_by [] a i = i
  Elem-order_by (x ∷ xs) a i = elim (Elem-insert_by x (order_by before xs) a i) [
    | inl e ↦ inl e
    | inr j ↦ inr (Elem-order_by xs a j)
  ]

  pub order_by-Elem : (xs : List A) (a : A) → Elem a xs → Elem a (order_by before xs)
  unfolding order_by
  order_by-Elem [] a i = i
  order_by-Elem (x ∷ xs) a (inl e) = insert_by-Elem x (order_by before xs) a (inl e)
  order_by-Elem (x ∷ xs) a (inr i) =
      insert_by-Elem x (order_by before xs) a (inr (order_by-Elem xs a i))

  length-insert_by : (x : A) (ys : List A) → length (insert_by before x ys) ≡ suc (length ys)
  unfolding insert_by
  length-insert_by x [] = refl
  length-insert_by x (y ∷ ys) = ground (arith, length-insert_by x ys)

  pub length-order_by : (xs : List A) → length (order_by before xs) ≡ length xs
  unfolding order_by
  length-order_by [] = refl
  length-order_by (x ∷ xs) = length-insert_by x (order_by before xs) ∙ ap suc (length-order_by xs)

  length-filter-insert_by :
      (p : A → Bool) (x : A) (ys : List A)
      → length (filter p (insert_by before x ys)) ≡ length (filter p (x ∷ ys))
  unfolding insert_by filter
  length-filter-insert_by p x [] = refl
  length-filter-insert_by p x (y ∷ ys) = ground (arith, length-filter-insert_by p x ys)

  pub length-filter-order_by :
      (p : A → Bool) (xs : List A) → length (filter p (order_by before xs)) ≡ length (filter p xs)
  unfolding order_by filter
  length-filter-order_by p [] = refl
  length-filter-order_by p (x ∷ xs) =
      let one = length-filter-insert_by p x (order_by before xs) in
      ground (arith, one, length-filter-order_by p xs)

  -- A strict order in which two rows that belong behind a third belong behind one another's.
  module _ (asym : (a b : A) → before a b ≡ true → before b a ≡ false)
      (neg_trans : (a b c : A) → before a b ≡ false → before b c ≡ false → before a c ≡ false) where
    insert_by-IsOrdered : (x : A) (ys : List A) → IsOrdered ys → IsOrdered (insert_by before x ys)
    unfolding insert_by
    insert_by-IsOrdered x [] o = (λ y i. absurd i, tt)
    insert_by-IsOrdered x (y ∷ ys) (least, o) = elim (Bool-cases (before y x)) [
      | inl front ↦ rw front (
        λ a i. elim (Elem-insert_by x ys a i) [
          | inl e ↦ ap (λ z. before z y) e ∙ asym y x front
          | inr j ↦ least a j
        ],
        insert_by-IsOrdered x ys o,
      )
      | inr behind ↦ rw behind (
        λ a i. elim i [
          | inl e ↦ ap (λ z. before z x) e ∙ behind
          | inr j ↦ neg_trans a y x (least a j) behind
        ],
        (least, o),
      )
    ]

    pub order_by-IsOrdered : (xs : List A) → IsOrdered (order_by before xs)
    unfolding order_by
    order_by-IsOrdered [] = tt
    order_by-IsOrdered (x ∷ xs) = insert_by-IsOrdered x (order_by before xs) (order_by-IsOrdered xs)

-- The rows of a slice, and those that are left out.
pub Elem-take : {A : Type 0} (n : ℕ) (xs : List A) (a : A) → Elem a (take n xs) → Elem a xs
Elem-take (suc n) (x ∷ xs) a (inl e) = inl e
Elem-take (suc n) (x ∷ xs) a (inr i) = inr (Elem-take n xs a i)
Elem-take (suc n) [] a i = i
Elem-take zero xs a i = absurd i

module _ {A : Type 0} (before : A → A → Bool) where
  -- A row that a slice leaves out belongs before none that it keeps.
  pub Elem-take_or :
      (n : ℕ) (xs : List A) (a : A)
      → IsOrdered before xs
      → Elem a xs
      → Elem a (take n xs) ⊎ ((y : A) → Elem y (take n xs) → before a y ≡ false)
  Elem-take_or zero xs a o i = inr (λ y j. absurd j)
  Elem-take_or (suc n) [] a o i = elim i [ ]
  Elem-take_or (suc n) (x ∷ xs) a (least, o) (inl e) = inl (inl e)
  Elem-take_or (suc n) (x ∷ xs) a (least, o) (inr i) = elim (Elem-take_or n xs a o i) [
    | inl j ↦ inl (inr j)
    | inr out ↦ inr (λ y j. elim j [ inl e ↦ ap (before a) e ∙ least a i | inr k ↦ out y k ])
  ]

  pub IsOrdered-take : (n : ℕ) (xs : List A) → IsOrdered before xs → IsOrdered before (take n xs)
  IsOrdered-take zero xs o = tt
  IsOrdered-take (suc n) [] o = tt
  IsOrdered-take (suc n) (x ∷ xs) (least, o) =
      (λ y i. least y (Elem-take n xs y i), IsOrdered-take n xs o)

-- A strict order in which rows that neither precedes the other are alike.
abbrev pub IsStrict : {A : Type 0} → (A → A → Bool) → Type 0
IsStrict {A} before =
    ((a b : A) → before a b ≡ true → before b a ≡ false)
    × ((a b c : A) → before a b ≡ false → before b c ≡ false → before a c ≡ false)

pub IsStrict-if :
    {A : Type 0} (b : Bool) (f g : A → A → Bool)
    → IsStrict f
    → IsStrict g
    → IsStrict (λ x y. if b then f x y else g x y)
IsStrict-if true f g s t = s
IsStrict-if false f g s t = t

-- The order turned around, as DESC does it.
pub IsStrict-flip : {A : Type 0} (f : A → A → Bool) → IsStrict f → IsStrict (λ x y. f y x)
IsStrict-flip f (asym, neg_trans) = (λ a b. asym b a, λ a b c h k. neg_trans c b a k h)

-- The order of a column of numbers.
pub IsStrict-ltb : {A : Type 0} (f : A → ℕ) → IsStrict (λ x y. ltb (f x) (f y))
IsStrict-ltb f = (λ a b h. ground arith, λ a b c h k. ground arith)
