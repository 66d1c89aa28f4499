-- ===== src/Query.antt =====
-- The queries of Django that the pages use: values(…).annotate(Count(…)), distinct() and order_by(…).
-- Groups come in no order of their own, and rows that an order_by does not tell apart keep their order,
-- where PostgreSQL may choose one.
pub mod Distinct
pub mod Counted
pub mod Groups
pub mod Ordered
pub mod Ranked
use ip_scout.Prelude.{
  ℕ, suc, ◌≡◌, ◌↔◌, Bool, true, false, not, ◌&&◌, arith, List, [], ◌∷◌, Text, ◌==◌, ==_iff, text_eq,
  text_eq_iff, map, filter, length, any, if◌then◌else◌,
}

-- Equality as the database compares a column.
pub record Eq (K : Type 0) : Type 0 where
  pub beq : K → K → Bool
  pub beq_iff : (a b : K) → (beq a b ≡ true) ↔ (a ≡ b)

instance abbrev pub nat_eq : Eq ℕ
nat_eq = record { beq = ◌==◌; beq_iff = ==_iff }

instance abbrev pub text_column_eq : Eq Text
text_column_eq = record { beq = text_eq; beq_iff = text_eq_iff }

unfoldable pub pair_beq : {A B : Type 0} ⦃e : Eq A⦄ ⦃f : Eq B⦄ → A × B → A × B → Bool
pair_beq ⦃e⦄ ⦃f⦄ (a, b) (c, d) = e.beq a c && f.beq b d

pub pair_beq_iff :
    {A B : Type 0} ⦃e : Eq A⦄ ⦃f : Eq B⦄ (x y : A × B) → (pair_beq x y ≡ true) ↔ (x ≡ y)
unfolding pair_beq
pair_beq_iff ⦃e⦄ ⦃f⦄ (a, b) (c, d) = ground (arith, e.beq_iff a c, f.beq_iff b d)

instance abbrev pub pair_eq : {A B : Type 0} ⦃e : Eq A⦄ ⦃f : Eq B⦄ → Eq (A × B)
pair_eq = record { beq = pair_beq; beq_iff = pair_beq_iff }

module _ {K : Type 0} ⦃e : Eq K⦄ where
  -- values(…).annotate(count=Count("id")), from the value of each row
  unfoldable pub count_one : K → List (K × ℕ) → List (K × ℕ)
  count_one k [] = (k, 1) ∷ []
  count_one k ((j, n) ∷ groups) =
      let rest = count_one k groups in if e.beq k j then (j, suc n) ∷ groups else (j, n) ∷ rest

  unfoldable pub group_counts : List K → List (K × ℕ)
  unfolding count_one
  group_counts [] = []
  group_counts (k ∷ ks) = count_one k (group_counts ks)

  -- distinct()
  unfoldable pub distinct : List K → List K
  unfolding filter
  distinct [] = []
  distinct (k ∷ ks) = let rest = distinct ks in if any (e.beq k) ks then rest else k ∷ rest

  -- How many rows have the value.
  unfoldable pub count_of : K → List K → ℕ
  unfolding filter
  count_of k ks = length (filter (e.beq k) ks)

module _ {A : Type 0} (before : A → A → Bool) where
  unfoldable pub insert_by : A → List A → List A
  insert_by x [] = x ∷ []
  insert_by x (y ∷ ys) = let rest = insert_by x ys in if before y x then y ∷ rest else x ∷ y ∷ ys

  -- order_by, where `before a b` says that the row `a` stands strictly before the row `b`
  unfoldable pub order_by : List A → List A
  unfolding insert_by
  order_by [] = []
  order_by (x ∷ xs) = insert_by x (order_by xs)
