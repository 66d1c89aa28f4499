-- ===== src/Ips/Pages/Directories.antt =====
-- The directories of countries and of autonomous systems (apps/ips/views.py).
use ip_scout.Prelude.{
  ℕ, ◌+◌, ◌≤◌, ◌<◌, ◌≡◌, refl, sym, ap, ◌∙◌, List, [], ◌∷◌, ltb, map, filter, length, arith, Elem,
  inl, inr, subst,
}
use ip_scout.Query.{Eq, nat_eq, text_column_eq, pair_eq, group_counts, count_of, order_by}
use ip_scout.Query.Groups.{
  total, total-group_counts, Elem-count_in, group_counts-IsGrouped, count_in-group_counts,
}
use ip_scout.Query.Ordered.{IsOrdered, Elem-order_by, order_by-IsOrdered}
use ip_scout.Query.Ranked.{total-order_by}
use ip_scout.Models.{IpAddress, Db}
use ip_scout.Ips.Pages.{
  DirectoryRow, directory, country_of, has_country, flagged, country_list, asns_of, asn_list,
}

-- The sum of the totals of the rows.
abbrev pub total_of : {K : Type 0} → List (DirectoryRow K) → ℕ
total_of [] = 0
total_of (row ∷ rows) = row.total + total_of rows

-- A directory of the rows whose keys are `keys`, those of the Iranian ones being `iranian`.
pub record IsDirectory {K : Type 0} ⦃e : Eq K⦄ (keys iranian : List K)
    (rows : List (DirectoryRow K)) : Type 0 where
  pub falling : IsOrdered (λ (x y : DirectoryRow K). ltb y.total x.total) rows
  pub counted :
      (row : DirectoryRow K)
      → Elem row rows
      → (row.total ≡ count_of row.key keys)
        × (0 < row.total)
        × (row.iran_count ≡ count_of row.key iranian)
        × (row.iran_count ≤ row.total)
  pub whole : total_of rows ≡ length keys

module _ {K : Type 0} ⦃e : Eq K⦄ (iranian : List K) where
  abbrev row_of : K × ℕ → DirectoryRow K
  row_of g = record { key = g.0; total = g.1; iran_count = count_of g.0 iranian }

  Elem-row_of :
      (groups : List (K × ℕ)) (row : DirectoryRow K)
      → Elem row (map row_of groups)
      → Elem (row.key, row.total) groups × (row.iran_count ≡ count_of row.key iranian)
  Elem-row_of [] row i = absurd i
  Elem-row_of (g ∷ groups) row (inl same) =
      subst
        (λ (x : DirectoryRow K).
          Elem (x.key, x.total) (g ∷ groups) × (x.iran_count ≡ count_of x.key iranian))
        (sym same) (inl refl, refl)
  Elem-row_of (g ∷ groups) row (inr i) = let (j, c) = Elem-row_of groups row i in (inr j, c)

  IsOrdered-row_of :
      (groups : List (K × ℕ))
      → IsOrdered (λ (x y : K × ℕ). ltb y.1 x.1) groups
      → IsOrdered (λ (x y : DirectoryRow K). ltb y.total x.total) (map row_of groups)
  IsOrdered-row_of [] o = tt
  IsOrdered-row_of (g ∷ groups) (least, o) =
      (λ row i. least (row.key, row.total) (Elem-row_of groups row i).0, IsOrdered-row_of groups o)

  total_of-row_of : (groups : List (K × ℕ)) → total_of (map row_of groups) ≡ total groups
  total_of-row_of [] = refl
  total_of-row_of (g ∷ groups) = ap (λ n. g.1 + n) (total_of-row_of groups)

directory-IsDirectory :
    {K : Type 0} ⦃e : Eq K⦄ (keys iranian : List K)
    → ((k : K) → count_of k iranian ≤ count_of k keys)
    → IsDirectory keys iranian (directory keys iranian)
unfolding directory
directory-IsDirectory {K} keys iranian fewer =
    let larger = λ (x y : K × ℕ). ltb y.1 x.1 in
    let groups = group_counts keys in
    record {
      falling =
          IsOrdered-row_of iranian (order_by larger groups)
            (order_by-IsOrdered larger (λ a b h. ground arith) (λ a b c h k. ground arith) groups);
      counted = λ row i.
          let (j, c) = Elem-row_of iranian (order_by larger groups) row i in
          let (found, pos) =
            Elem-count_in groups row.key row.total (group_counts-IsGrouped keys)
              (Elem-order_by larger groups (row.key, row.total) j) in
          let n = count_in-group_counts row.key keys in
          (sym found ∙ n, pos, c, omega (arith, fewer row.key, found, n, c));
      whole =
          total_of-row_of iranian (order_by larger groups)
          ∙ total-order_by larger groups
          ∙ total-group_counts keys;
    }

fewer_flagged :
    {K : Type 0} ⦃e : Eq K⦄ (f : IpAddress → K) (k : K) (rows : List IpAddress)
    → count_of k (map f (filter flagged rows)) ≤ count_of k (map f rows)
unfolding count_of filter
fewer_flagged f k [] = omega arith
fewer_flagged f k (r ∷ rows) = ground (arith, fewer_flagged f k rows)

fewer_asns :
    (n : ℕ) (rows : List IpAddress)
    → count_of n (asns_of (filter flagged rows)) ≤ count_of n (asns_of rows)
unfolding count_of filter asns_of
fewer_asns n [] = omega arith
fewer_asns n (r ∷ rows) = ground (arith, fewer_asns n rows)

-- The directories of countries and of autonomous systems list each country of the located addresses and
-- each asn of the addresses that have one, in falling order of their totals; a row's total is the number
-- of those addresses with its key, its count of Iranian ones is the number of the flagged ones among
-- them, and the totals add up to the number of located addresses, of addresses with an asn.
pub directories-IsDirectory :
    (db : Db)
    → IsDirectory
        (map country_of (filter has_country db.ips))
        (map country_of (filter flagged (filter has_country db.ips)))
        (country_list db)
      × IsDirectory (asns_of db.ips) (asns_of (filter flagged db.ips)) (asn_list db)
unfolding country_list asn_list
directories-IsDirectory db = (
  directory-IsDirectory _ _ (λ k. fewer_flagged country_of k (filter has_country db.ips)),
  directory-IsDirectory _ _ (λ n. fewer_asns n db.ips),
)
