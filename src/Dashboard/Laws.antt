-- ===== src/Dashboard/Laws.antt =====
-- The three counts of a period.
use ip_scout.Prelude.{
  ◌+◌, ◌≡◌, refl, List, [], ◌∷◌, filter, length, is_some, arith, Bool-cases, inl, inr,
}
use ip_scout.Models.{Time, IpAddress, Db}
use ip_scout.Dashboard.{is_other, is_unknown, ips_in_period, iran_split}

split_rows :
    (rows : List IpAddress)
    → length (filter (λ (r : IpAddress). r.is_iran) rows)
        + length (filter is_other rows)
        + length (filter is_unknown rows)
      ≡ length rows
unfolding filter
split_rows [] = refl
split_rows (r ∷ rows) = elim (Bool-cases r.is_iran) [
  | inl iranian ↦ ground (arith, split_rows rows)
  | inr other ↦ elim (Bool-cases (is_some r.iran_checked_at)) [
    | inl checked ↦ ground (arith, split_rows rows)
    | inr unchecked ↦ ground (arith, split_rows rows)
  ]
]

-- The Iranian, the other and the unknown addresses of a period are all of its addresses, each counted
-- once.
pub iran_split-length :
    (start end : Time) (db : Db)
    → (iran_split start end db).iran
        + (iran_split start end db).other
        + (iran_split start end db).unknown
      ≡ length (ips_in_period start end db)
unfolding iran_split
iran_split-length start end db = split_rows (ips_in_period start end db)
