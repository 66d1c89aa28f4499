-- ===== src/Dashboard/Analytics/Rows.antt =====
-- The rows that the rankings of the dashboard count.
use ip_scout.Prelude.{
  ℕ, ◌≡◌, sym, ap, true, false, none, some, List, [], ◌∷◌, ◌==◌, Elem, Bool-cases, inl, inr, find?,
  find?-holds, if◌then◌else◌, subst, arith, Option-cases, ◌≢◌, Text,
}
use ip_scout.Query.{text_column_eq}
use ip_scout.Models.{IpAddress, RequestEvent, Db}
use ip_scout.Models.Tables.{get_ip}
use ip_scout.Dashboard.Analytics.{iranian_rows, matched_cidrs}

-- The rows of a list of events: for each event whose address is flagged, the row of that address.
pub data Flagged (rows : List IpAddress) : List RequestEvent → List IpAddress → Type 0 where
  done : Flagged rows [] []
  flagged :
      {e : RequestEvent} {events : List RequestEvent} {found : List IpAddress} (r : IpAddress)
      → Elem r rows
      → r.id ≡ e.ip_id
      → r.is_iran ≡ true
      → Flagged rows events found
      → Flagged rows (e ∷ events) (r ∷ found)
  unflagged :
      {e : RequestEvent} {events : List RequestEvent} {found : List IpAddress} (r : IpAddress)
      → Elem r rows
      → r.id ≡ e.ip_id
      → r.is_iran ≡ false
      → Flagged rows events found
      → Flagged rows (e ∷ events) found
  rowless :
      {e : RequestEvent} {events : List RequestEvent} {found : List IpAddress}
      → ((r : IpAddress) → Elem r rows → r.id ≢ e.ip_id)
      → Flagged rows events found
      → Flagged rows (e ∷ events) found

get_row-Elem :
    (k : ℕ) (rows : List IpAddress) (r : IpAddress)
    → find? (λ (x : IpAddress). x.id == k) rows ≡ some r
    → Elem r rows
unfolding find?
get_row-Elem k [] r h = absurd (ground arith)
get_row-Elem k (x ∷ rows) r h = elim (Bool-cases (x.id == k)) [
  | inl here ↦ inl (ground arith)
  | inr other ↦ inr (get_row-Elem k rows r (rw other at h))
]

get_row_none :
    (k : ℕ) (rows : List IpAddress)
    → find? (λ (x : IpAddress). x.id == k) rows ≡ none
    → (r : IpAddress) → Elem r rows
    → r.id ≢ k
unfolding find?
get_row_none k [] h r i same = absurd i
get_row_none k (x ∷ rows) h r (inl here) same =
    let id = ap (λ (y : IpAddress). y.id) here in absurd (ground (arith, id, same, h))
get_row_none k (x ∷ rows) h r (inr there) same = elim (Bool-cases (x.id == k)) [
  | inl here ↦ absurd (ground (arith, h, here))
  | inr other ↦ get_row_none k rows (rw other at h) r there same
]

module _ {rows : List IpAddress} {e : RequestEvent} {events : List RequestEvent} where
  either :
      (r : IpAddress)
      → Elem r rows
      → r.id ≡ e.ip_id
      → (found : List IpAddress) → Flagged rows events found
      → Flagged rows (e ∷ events) (if r.is_iran then r ∷ found else found)
  either r i same found rest = elim (Bool-cases r.is_iran) [
    | inl iran ↦
        subst (λ c. Flagged rows (e ∷ events) (if c then r ∷ found else found)) (sym iran)
          (flagged r i same iran rest)
    | inr other ↦
        subst (λ c. Flagged rows (e ∷ events) (if c then r ∷ found else found)) (sym other)
          (unflagged r i same other rest)
  ]

pub iranian_rows-Flagged :
    (db : Db) (events : List RequestEvent) → Flagged db.ips events (iranian_rows db events)
unfolding iranian_rows get_ip
iranian_rows-Flagged db [] = done
iranian_rows-Flagged db (e ∷ events) =
    let rest = iranian_rows-Flagged db events in
    elim (Option-cases (find? (λ (x : IpAddress). x.id == e.ip_id) db.ips)) [
      | inl missing ↦
          rw (iranian_rows, missing) (rowless (get_row_none e.ip_id db.ips missing) rest)
      | inr (r, found) ↦
          let i = get_row-Elem e.ip_id db.ips r found in
          let same = find?-holds (λ (x : IpAddress). x.id == e.ip_id) db.ips r found in
          rw (iranian_rows, found) (either r i (ground (arith, same)) (iranian_rows db events) rest)
    ]

-- The networks of the rows that have one.
pub data Networks : List IpAddress → List Text → Type 0 where
  done : Networks [] []
  matched :
      {r : IpAddress} {rows : List IpAddress} {cidrs : List Text} (cidr : Text)
      → r.iran_match_cidr ≡ some cidr
      → Networks rows cidrs
      → Networks (r ∷ rows) (cidr ∷ cidrs)
  unmatched :
      {r : IpAddress} {rows : List IpAddress} {cidrs : List Text}
      → r.iran_match_cidr ≡ none
      → Networks rows cidrs
      → Networks (r ∷ rows) cidrs

pub matched_cidrs-Networks : (rows : List IpAddress) → Networks rows (matched_cidrs rows)
unfolding matched_cidrs
matched_cidrs-Networks [] = done
matched_cidrs-Networks (r ∷ rows) = elim (Option-cases r.iran_match_cidr) [
  | inl missing ↦
      subst
        (λ o.
          Networks (r ∷ rows)
            (elim o [ none ↦ matched_cidrs rows | some cidr ↦ cidr ∷ matched_cidrs rows ]))
        (sym missing) (unmatched missing (matched_cidrs-Networks rows))
  | inr (cidr, found) ↦
      subst
        (λ o.
          Networks (r ∷ rows)
            (elim o [ none ↦ matched_cidrs rows | some c ↦ c ∷ matched_cidrs rows ]))
        (sym found) (matched cidr found (matched_cidrs-Networks rows))
]
