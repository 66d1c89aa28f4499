-- ===== src/Models/Tables/Laws.antt =====
-- Reading a row behind an update of it, or of another.
use ip_scout.Prelude.{
  Bool, filter, sym, subst, Elem-filter, Elem, ℕ, ◌≡◌, ◌≢◌, refl, some, List, [], ◌∷◌, ◌==◌, arith,
  Bool-cases, inl, inr, update_where, find?, find?-holds,
}
use ip_scout.Models.{IpAddress, Message, Db}
use ip_scout.Models.Tables.{get_ip, update_ip, delay}

-- No two rows have one primary key.
abbrev pub DistinctIds : List IpAddress → Type 0
DistinctIds [] = Unit
DistinctIds (r ∷ rows) = ((x : IpAddress) → Elem x rows → x.id ≢ r.id) × DistinctIds rows

pub DistinctIds-filter :
    (p : IpAddress → Bool) (rows : List IpAddress) → DistinctIds rows → DistinctIds (filter p rows)
unfolding filter
DistinctIds-filter p [] d = d
DistinctIds-filter p (r ∷ rows) (ne, d) = elim (Bool-cases (p r)) [
  | inl hit ↦ rw hit (λ x i. ne x (Elem-filter p rows x i).0, DistinctIds-filter p rows d)
  | inr miss ↦ rw miss (DistinctIds-filter p rows d)
]

-- The row that a key finds is the one that has it.
pub find-Elem :
    (rows : List IpAddress) (r : IpAddress)
    → DistinctIds rows
    → Elem r rows
    → find? (λ (x : IpAddress). x.id == r.id) rows ≡ some r
unfolding find?
find-Elem [] r d i = absurd i
find-Elem (x ∷ rows) r (ne, d) (inl same) =
    subst (λ (y : IpAddress). find? (λ (z : IpAddress). z.id == y.id) (x ∷ rows) ≡ some y)
      (sym same) (ground arith)
find-Elem (x ∷ rows) r (ne, d) (inr i) =
    let other = ne r i in let rest = find-Elem rows r d i in ground (arith, rest, other)

pub Elem-find :
    (k : ℕ) (rows : List IpAddress) (r : IpAddress)
    → find? (λ (x : IpAddress). x.id == k) rows ≡ some r
    → Elem r rows
unfolding find?
Elem-find k [] r h = cc
Elem-find k (x ∷ rows) r h = elim (Bool-cases (x.id == k)) [
  | inl here ↦ inl (ground arith)
  | inr there ↦ inr (Elem-find k rows r (ground arith))
]

pub get_ip-id : (pk : ℕ) (db : Db) (r : IpAddress) → get_ip pk db ≡ some r → r.id ≡ pk
unfolding get_ip
get_ip-id pk db r h = ground (arith, find?-holds (λ (x : IpAddress). x.id == pk) db.ips r h)

module _ (pk : ℕ) (f : IpAddress → IpAddress) (keeps_id : (r : IpAddress) → (f r).id ≡ r.id) where
  pub find-update_self :
      (rows : List IpAddress) (r : IpAddress)
      → find? (λ (x : IpAddress). x.id == pk) rows ≡ some r
      → find? (λ (x : IpAddress). x.id == pk) (update_where (λ (x : IpAddress). x.id == pk) f rows)
        ≡ some (f r)
  unfolding find? update_where
  find-update_self [] r h = cc
  find-update_self (x ∷ rows) r h = elim (Bool-cases (x.id == pk)) [
    | inl here ↦ ground (arith, keeps_id x)
    | inr there ↦ ground (arith, find-update_self rows r)
  ]

  pub find-update_ne :
      (j : ℕ) (rows : List IpAddress)
      → j ≢ pk
      → find? (λ (x : IpAddress). x.id == j) (update_where (λ (x : IpAddress). x.id == pk) f rows)
        ≡ find? (λ (x : IpAddress). x.id == j) rows
  unfolding find? update_where
  find-update_ne j [] ne = refl
  find-update_ne j (x ∷ rows) ne = ground (arith, find-update_ne j rows ne, keeps_id x)

module _ (pk : ℕ) (f : IpAddress → IpAddress) (keeps_id : (r : IpAddress) → (f r).id ≡ r.id) where
  pub get_ip-update_ip :
      (db : Db) (r : IpAddress) → get_ip pk db ≡ some r → get_ip pk (update_ip pk f db) ≡ some (f r)
  unfolding get_ip update_ip
  get_ip-update_ip db r h = find-update_self pk f keeps_id db.ips r h

pub get_ip-delay : (pk : ℕ) (m : Message) (db : Db) → get_ip pk (delay m db) ≡ get_ip pk db
unfolding get_ip delay
get_ip-delay pk m db = refl
