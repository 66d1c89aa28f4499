-- ===== src/Ips/Sightings/Known.antt =====
-- The rows that record_sightings_bulk returns are rows of the table it leaves.
use ip_scout.Prelude.{
  true, ℕ, ◌≡◌, refl, sym, ◌&&◌, List, [], ◌∷◌, arith, ◌==◌, ltb, any, any-Elem, Elem, Elem-filter,
  Option-cases, Bool-cases, inl, inr, subst,
}
use ip_scout.Errors.{ok, ok-injective, >>=-eq-ok}
use ip_scout.Models.{Time, IpAddress, Db}
use ip_scout.Ips.Sightings.{
  Sighting, row_at, existing_rows, latest_from, create_missing, keep_texts, touch, touch_all,
  record_latest, record_sightings_bulk,
}
use ip_scout.Ips.Sightings.Laws.{touch_db}
use ip_scout.Ips.Sightings.Consistent.{Elem-update_where}

-- The key is that of a row.
abbrev pub HasRow : List IpAddress → ℕ → Type 0
HasRow rows pk = any (λ (r : IpAddress). r.id == pk) rows ≡ true

-- Rows whose keys the table has.
abbrev pub KnownRows : List IpAddress → List IpAddress → Type 0
KnownRows table rows = (r : IpAddress) → Elem r rows → HasRow table r.id

HasRow-touch :
    (pk : ℕ) (t : Time) (k : ℕ) (rows : List IpAddress) → HasRow rows k → HasRow (touch pk t rows) k
unfolding touch any
HasRow-touch pk t k [] h = h
HasRow-touch pk t k (r ∷ rows) h = ground (arith, HasRow-touch pk t k rows)

KnownRows-touch :
    (pk : ℕ) (t : Time) (table rows : List IpAddress)
    → KnownRows table rows
    → KnownRows (touch pk t table) (touch pk t rows)
unfolding touch
KnownRows-touch pk t table rows known r i =
    let (s, j, e) =
      Elem-update_where (λ (x : IpAddress). x.id == pk && ltb x.last_seen_at t)
        (λ x. record x { last_seen_at = t }) (λ x. refl) rows r i in
    HasRow-touch pk t r.id table (subst (HasRow table) (sym e) (known s j))

touch_all-KnownRows :
    (existing : List IpAddress) (latest : List Sighting) (db db' : Db) (rows : List IpAddress)
    → KnownRows db.ips existing
    → touch_all existing latest db ≡ ok (db', rows)
    → KnownRows db'.ips rows
unfolding touch_all
touch_all-KnownRows existing [] db db' rows known h =
    subst (λ (x : Db × List IpAddress). KnownRows x.0.ips x.1)
      (ok-injective (db, existing) (db', rows) h) known
touch_all-KnownRows existing ((a, t) ∷ latest) db db' rows known h =
    elim (Option-cases (row_at a existing)) [
      | inl missing ↦ absurd (ground arith)
      | inr (r, found) ↦ elim (Bool-cases (ltb r.last_seen_at t)) [
        | inl late ↦
            touch_all-KnownRows (touch r.id t existing) latest (touch_db r.id t db) db' rows
              (KnownRows-touch r.id t db.ips existing known) (ground arith)
        | inr kept ↦ touch_all-KnownRows existing latest db db' rows known (ground arith)
      ]
    ]

all-KnownRows : (table : List IpAddress) → KnownRows table table
all-KnownRows table r i = any-Elem (λ (x : IpAddress). x.id == r.id) table r i (ground arith)

pub record_sightings_bulk-KnownRows :
    (sightings : List Sighting) (db db' : Db) (rows : List IpAddress)
    → record_sightings_bulk sightings db ≡ ok (db', rows)
    → KnownRows db'.ips rows
unfolding record_sightings_bulk record_latest existing_rows
record_sightings_bulk-KnownRows [] db db' rows h =
    let none_left : [] ≡ rows = ground arith in
    subst (KnownRows db'.ips) none_left (λ r i. absurd i)
record_sightings_bulk-KnownRows (s ∷ sightings) db db' rows h =
    let (latest, _, h1) = >>=-eq-ok (latest_from [] (s ∷ sightings)) _ h in
    let before = existing_rows latest db.ips in
    let (created, _, kept) = >>=-eq-ok (create_missing before latest db) _ h1 in
    let (_, _, h2) = >>=-eq-ok (keep_texts db.keeps latest) _ kept in
    let ((touched, rows'), g, h3) =
      >>=-eq-ok (touch_all (existing_rows latest created.ips) latest created) _ h2 in
    let known =
      touch_all-KnownRows (existing_rows latest created.ips) latest created touched rows'
        (λ r i. all-KnownRows created.ips r (Elem-filter _ created.ips r i).0) g in
    let same : touched.ips ≡ db'.ips = ground arith in
    let same_rows : rows' ≡ rows = ground arith in
    subst (KnownRows db'.ips) same_rows (subst (λ t. KnownRows t rows') same known)
