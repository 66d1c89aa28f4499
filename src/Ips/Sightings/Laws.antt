-- ===== src/Ips/Sightings/Laws.antt =====
-- What recording sightings keeps of the rows that are there: an address has one row, and a row only
-- ever gets a later last_seen_at.
use ip_scout.Prelude.{
  ℕ, ◌≤◌, ◌≡◌, refl, ap, ◌∙◌, ◌&&◌, Option, none, some, List, [], ◌∷◌, ◌++◌, Text, arith, ◌==◌, ltb,
  if◌then◌else◌, text_eq, Bool-cases, Option-cases, inl, inr, subst,
}
use ip_scout.Errors.{ok, Outcome-cases, >>=-eq-ok}
use ip_scout.Models.{Time, IpAddress, Db, Message}
use ip_scout.Ips.Identity.{version_of}
use ip_scout.Ips.Sightings.{
  Sighting, latest_from, row_at, exists_at, existing_rows, new_row, insert_row, create_missing,
  keep_texts, touch, touch_all, announce, record_latest, record_sightings_bulk,
}

-- The row got a later time, or stayed as it was.
pub record Grown (r r' : IpAddress) : Type 0 where
  pub same : r' ≡ record r { last_seen_at = r'.last_seen_at }
  pub later : r.last_seen_at ≤ r'.last_seen_at

Grown-refl : (r : IpAddress) → Grown r r
Grown-refl r = record { same = refl; later = omega arith }

Grown-trans : {r s t : IpAddress} → Grown r s → Grown s t → Grown r t
Grown-trans {r} {s} {t} g h = record {
  same = h.same ∙ ap (λ (x : IpAddress). record x { last_seen_at = t.last_seen_at }) g.same;
  later = omega (arith, g.later, h.later);
}

-- Each row is still there, at its address, grown.
abbrev pub Keeps : List IpAddress → List IpAddress → Type 0
Keeps rows rows' =
    (a : Text) (r : IpAddress)
    → row_at a rows ≡ some r
    → (r' : IpAddress) × (row_at a rows' ≡ some r') × Grown r r'

pub Keeps-refl : (rows : List IpAddress) → Keeps rows rows
Keeps-refl rows a r h = (r, h, Grown-refl r)

pub Keeps-trans : (xs ys zs : List IpAddress) → Keeps xs ys → Keeps ys zs → Keeps xs zs
Keeps-trans xs ys zs k l a r h =
    let (r', h', g) = k a r h in let (r'', h'', g') = l a r' h' in (r'', h'', Grown-trans g g')

pub row_at-append :
    (a : Text) (xs ys : List IpAddress) (r : IpAddress)
    → row_at a xs ≡ some r
    → row_at a (xs ++ ys) ≡ some r
unfolding row_at
row_at-append a [] ys r h = cc
row_at-append a (x ∷ xs) ys r h = ground (arith, row_at-append a xs ys r)

-- What an update does to one row.
abbrev pub bump : ℕ → Time → IpAddress → IpAddress
bump pk t r = if r.id == pk && ltb r.last_seen_at t then record r { last_seen_at = t } else r

abbrev pub map_option : (IpAddress → IpAddress) → Option IpAddress → Option IpAddress
map_option f none = none
map_option f (some r) = some (f r)

pub bump-address : (pk : ℕ) (t : Time) (r : IpAddress) → (bump pk t r).address ≡ r.address
bump-address pk t r = ground arith

bump-Grown : (pk : ℕ) (t : Time) (r : IpAddress) → Grown r (bump pk t r)
bump-Grown pk t r = elim (Bool-cases (r.id == pk && ltb r.last_seen_at t)) [
  | inl hit ↦ rw hit (record { same = refl; later = ground arith })
  | inr miss ↦ rw miss (Grown-refl r)
]

pub row_at-touch :
    (a : Text) (pk : ℕ) (t : Time) (rows : List IpAddress)
    → row_at a (touch pk t rows) ≡ map_option (bump pk t) (row_at a rows)
unfolding row_at touch
row_at-touch a pk t [] = refl
row_at-touch a pk t (r ∷ rows) = elim (Bool-cases (text_eq r.address a)) [
  | inl here ↦ rw (ap (λ s. text_eq s a) (bump-address pk t r), here)
  | inr there ↦ rw (ap (λ s. text_eq s a) (bump-address pk t r), there) (row_at-touch a pk t rows)
]

pub touch-Keeps : (pk : ℕ) (t : Time) (rows : List IpAddress) → Keeps rows (touch pk t rows)
touch-Keeps pk t rows a r h =
    (bump pk t r, row_at-touch a pk t rows ∙ ap (map_option (bump pk t)) h, bump-Grown pk t r)

pub insert_row-Keeps :
    (a : Text) (v : ℕ) (t : Time) (db : Db) → Keeps db.ips (insert_row a v t db).ips
unfolding insert_row
insert_row-Keeps a v t db b r h = elim (Bool-cases (exists_at a db.ips)) [
  | inl there ↦ rw there (r, h, Grown-refl r)
  | inr new ↦ rw new (r, row_at-append b db.ips (new_row db.next_ip a v t ∷ []) r h, Grown-refl r)
]

abbrev pub touch_db : ℕ → Time → Db → Db
touch_db pk t db = record db { ips = touch pk t db.ips }

-- A relation that insertions, updates and messages respect holds across the whole operation.
module _ (R : Db → Db → Type 0) (R-refl : (db : Db) → R db db)
    (R-trans : (x y z : Db) → R x y → R y z → R x z)
    (R-insert : (a : Text) (v : ℕ) (t : Time) (db : Db) → R db (insert_row a v t db))
    (R-touch : (pk : ℕ) (t : Time) (db : Db) → R db (touch_db pk t db))
    (R-queue : (ms : List Message) (db : Db) → R db (record db { queue = db.queue ++ ms })) where
  pub create_missing_induction :
      (existing : List IpAddress) (latest : List Sighting) (db db' : Db)
      → create_missing existing latest db ≡ ok db'
      → R db db'
  unfolding create_missing
  create_missing_induction existing [] db db' h =
      let e : db ≡ db' = cc in subst (R db) e (R-refl db)
  create_missing_induction existing ((a, t) ∷ latest) db db' h =
      elim (Bool-cases (exists_at a existing)) [
        | inl there ↦ create_missing_induction existing latest db db' (ground arith)
        | inr new ↦ elim (Outcome-cases (version_of a)) [
          | inl (e, p) ↦ absurd (ground arith)
          | inr (v, p) ↦
              R-trans db (insert_row a v t db) db' (R-insert a v t db)
                (create_missing_induction existing latest (insert_row a v t db) db' (ground arith))
        ]
      ]

  pub touch_all_induction :
      (existing : List IpAddress) (latest : List Sighting) (db db' : Db) (rows : List IpAddress)
      → touch_all existing latest db ≡ ok (db', rows)
      → R db db'
  unfolding touch_all
  touch_all_induction existing [] db db' rows h =
      let e : db ≡ db' = cc in subst (R db) e (R-refl db)
  touch_all_induction existing ((a, t) ∷ latest) db db' rows h =
      elim (Option-cases (row_at a existing)) [
        | inl missing ↦ absurd (ground arith)
        | inr (r, found) ↦ elim (Bool-cases (ltb r.last_seen_at t)) [
          | inl later ↦ R-trans db (touch_db r.id t db) db' (R-touch r.id t db) (
              touch_all_induction (touch r.id t existing) latest (touch_db r.id t db) db' rows
                (ground arith))
          | inr not_later ↦ touch_all_induction existing latest db db' rows (ground arith)
        ]
      ]

  record_latest_induction :
      (latest : List Sighting) (db db' : Db) (rows : List IpAddress)
      → record_latest latest db ≡ ok (db', rows)
      → R db db'
  unfolding record_latest
  record_latest_induction latest db db' rows h =
      let before = existing_rows latest db.ips in
      let (created, c, kept) = >>=-eq-ok (create_missing before latest db) _ h in
      let (_, _, h') = >>=-eq-ok (keep_texts db.keeps latest) _ kept in
      let ((touched, rows'), t, h'') =
        >>=-eq-ok (touch_all (existing_rows latest created.ips) latest created) _ h' in
      let ms = announce before rows' latest in
      let e : record touched { queue = touched.queue ++ ms } ≡ db' = cc in
      R-trans db created db' (create_missing_induction before latest db created c) (
        R-trans created touched db'
          (touch_all_induction (existing_rows latest created.ips) latest created touched rows' t)
          (subst (R touched) e (R-queue ms touched)))

  pub record_sightings_bulk_induction :
      (sightings : List Sighting) (db db' : Db) (rows : List IpAddress)
      → record_sightings_bulk sightings db ≡ ok (db', rows)
      → R db db'
  unfolding record_sightings_bulk
  record_sightings_bulk_induction [] db db' rows h =
      let e : db ≡ db' = cc in subst (R db) e (R-refl db)
  record_sightings_bulk_induction (s ∷ sightings) db db' rows h =
      let (latest, l, h') = >>=-eq-ok (latest_from [] (s ∷ sightings)) _ h in
      record_latest_induction latest db db' rows h'
