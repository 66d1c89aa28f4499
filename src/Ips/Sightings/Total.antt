-- ===== src/Ips/Sightings/Total.antt =====
-- The recording returns as soon as the addresses can be read, and has a row for each.
use ip_scout.Prelude.{
  ℕ, ◌≡◌, refl, sym, ap, ◌∙◌, Bool, true, ◌||◌, Option, none, some, is_some, List, [], ◌∷◌, ◌++◌,
  Text, arith, ltb, any, text_eq, text_eq_iff, text_eq_refl, if◌then◌else◌, All, Bool-cases,
  Option-cases, inl, inr, subst, Elem, ◌⊎◌, false,
}
use ip_scout.Errors.{ok, raise, key_error, ok-injective}
use ip_scout.Models.{Time, IpAddress, Db}
use ip_scout.Ips.Identity.{normalize_ip, version_of}
use ip_scout.Ips.Sightings.{
  Sighting, put_latest, latest_from, row_at, exists_at, existing_rows, insert_row, create_missing,
  keep_texts, touch, touch_all, announce, record_latest, record_sightings_bulk,
}
use ip_scout.Ips.Sightings.Laws.{touch_db, row_at-touch}
use ip_scout.Ips.Sightings.Covers.{listed, row_at-filter}
use ip_scout.Ips.Sightings.View.{view, seen_of}
use ip_scout.Ips.Sightings.View.Latest.{lookup}
use ip_scout.Ips.Sightings.View.Create.{or_else, exists_at-row_at, view-create_missing}

-- A text of an address, whose normal form is of a version.
abbrev pub Versioned : Text → Type 0
Versioned a = (v : ℕ) × (version_of a ≡ ok v)

abbrev pub Readable : Text → Type 0
Readable raw = (a : Text) × (normalize_ip raw ≡ ok a) × Versioned a

-- Whether a row is found at the address.
abbrev pub has_row : Text → List IpAddress → Bool
has_row a rows = is_some (row_at a rows)

listed-put_latest :
    (b a : Text) (t : Time) (latest : List Sighting)
    → listed b (put_latest a t latest) ≡ (text_eq b a || listed b latest)
unfolding put_latest any
listed-put_latest b a t [] = ground arith
listed-put_latest b a t ((c, u) ∷ latest) =
    ground
      (arith, text_eq_iff a c, text_eq_iff b a, text_eq_iff b c, listed-put_latest b a t latest)

-- The dict of sightings that can be read: its keys are versioned, and the sightings have theirs in it.
record Gathered (latest sightings out : List Sighting) : Type 0 where
  versioned : (a : Text) → listed a out ≡ true → Versioned a
  kept : (a : Text) → listed a latest ≡ true → listed a out ≡ true
  from :
      (a : Text)
      → listed a out ≡ true
      → (listed a latest ≡ true)
        ⊎ ((raw : Text) × (t : Time) × Elem (raw, t) sightings × (normalize_ip raw ≡ ok a))
  read : All (λ s. (a : Text) × (normalize_ip s.0 ≡ ok a) × (listed a out ≡ true)) sightings

latest_from_total :
    (latest sightings : List Sighting)
    → ((a : Text) → listed a latest ≡ true → Versioned a)
    → All (λ s. Readable s.0) sightings
    → (out : List Sighting) × (latest_from latest sightings ≡ ok out)
      × Gathered latest sightings out
unfolding latest_from
latest_from_total latest [] versioned all = (
  latest,
  refl,
  record { versioned = versioned; kept = λ a l. l; from = λ a l. inl l; read = tt },
)
latest_from_total latest ((raw, t) ∷ sightings) versioned ((a, n, (v, e)), all) =
    let put = put_latest a t latest in
    let here : listed a put ≡ true =
      ground (arith, listed-put_latest a a t latest, text_eq_refl a) in
    let still = λ (b : Text) (l : listed b put ≡ true).
      elim (Bool-cases (text_eq b a)) as (λ _. Versioned b) [
        | inl same ↦ subst Versioned (sym ((text_eq_iff b a).0 same)) (v, e)
        | inr other ↦ versioned b (ground (arith, listed-put_latest b a t latest))
      ] in
    let (out, f, g) = latest_from_total put sightings still all in
    (
      out,
      ground arith,
      record {
        versioned = g.versioned;
        kept = λ b l. g.kept b (ground (arith, listed-put_latest b a t latest));
        from = λ b l. elim (g.from b l) [
          | inr (r, u, i, k) ↦ inr (r, u, inr i, k)
          | inl old ↦ elim (Bool-cases (text_eq b a)) [
            | inl same ↦ inr (raw, t, inl refl, n ∙ ap ok (sym ((text_eq_iff b a).0 same)))
            | inr other ↦ inl (ground (arith, listed-put_latest b a t latest))
          ]
        ];
        read = ((a, n, g.kept a here), g.read);
      },
    )

create_missing_total :
    (existing : List IpAddress) (latest : List Sighting) (db : Db)
    → ((a : Text) → listed a latest ≡ true → Versioned a)
    → (db' : Db) × (create_missing existing latest db ≡ ok db')
unfolding create_missing any
create_missing_total existing [] db versioned = (db, refl)
create_missing_total existing ((a, t) ∷ latest) db versioned =
    let (v, e) = versioned a (ground (arith, text_eq_refl a)) in
    let later = λ (b : Text) (l : listed b latest ≡ true). versioned b (ground arith) in
    elim (Bool-cases (exists_at a existing)) [
      | inl there ↦
          let (db', f) = create_missing_total existing latest db later in (db', ground arith)
      | inr new ↦
          let (db', f) = create_missing_total existing latest (insert_row a v t db) later in
          (db', ground arith)
    ]

touch_all_total :
    (existing : List IpAddress) (latest : List Sighting) (db : Db)
    → ((a : Text) → listed a latest ≡ true → has_row a existing ≡ true)
    → (db' : Db) × (rows : List IpAddress) × (touch_all existing latest db ≡ ok (db', rows))
      × ((a : Text) → has_row a existing ≡ true → has_row a rows ≡ true)
unfolding touch_all any
touch_all_total existing [] db there = (db, existing, refl, λ a h. h)
touch_all_total existing ((a, t) ∷ latest) db there =
    let here = there a (ground (arith, text_eq_refl a)) in
    elim (Option-cases (row_at a existing)) [
      | inl missing ↦ absurd (ground arith)
      | inr (r, found) ↦ elim (Bool-cases (ltb r.last_seen_at t)) [
        | inl late ↦
            let (db', rows, f, k) =
              touch_all_total (touch r.id t existing) latest (touch_db r.id t db)
                (λ b l. still r.id b (there b (ground arith))) in
            (db', rows, ground arith, λ b h. k b (still r.id b h))
        | inr kept ↦
            let (db', rows, f, k) =
              touch_all_total existing latest db (λ b l. there b (ground arith)) in
            (db', rows, ground arith, k)
      ]
    ]
  where
    still : (pk : ℕ) (b : Text) → has_row b existing ≡ true → has_row b (touch pk t existing) ≡ true
    still pk b h = ground (arith, row_at-touch b pk t existing)

listed-lookup : (a : Text) (latest : List Sighting) → is_some (lookup a latest) ≡ listed a latest
unfolding lookup any
listed-lookup a [] = refl
listed-lookup a ((b, t) ∷ latest) =
    ground (arith, text_eq_iff a b, text_eq_iff b a, listed-lookup a latest)

-- After the creation of the missing rows, every address of the dict has one.
create_missing-has_row :
    (latest : List Sighting) (db created : Db)
    → create_missing (existing_rows latest db.ips) latest db ≡ ok created
    → (a : Text) → listed a latest ≡ true
    → has_row a (existing_rows latest created.ips) ≡ true
create_missing-has_row latest db created h a l =
    let before = existing_rows latest db.ips in
    ap is_some (row_at-filter a latest created.ips l)
    ∙ seen_row (row_at a created.ips) (
        ap is_some (view-create_missing a before latest db created h)
        ∙ known (view db.ips a) (lookup a latest) (row_at a db.ips) refl
            (listed-lookup a latest ∙ l)
            (exists_at-row_at a before ∙ ap is_some (row_at-filter a latest db.ips l)))
  where
    seen_row : (o : Option IpAddress) → is_some (seen_of o) ≡ true → is_some o ≡ true
    seen_row none h = h
    seen_row (some r) h = refl

    known :
        (seen found : Option Time) (row : Option IpAddress)
        → seen_of row ≡ seen
        → is_some found ≡ true
        → exists_at a (existing_rows latest db.ips) ≡ is_some row
        → is_some (or_else seen (if exists_at a (existing_rows latest db.ips) then none else found))
          ≡ true
    known seen found none e f g = rw (← e) (rw g f)
    known seen found (some r) e f g = rw (← e) refl

-- All addresses that are kept are found again; if one is not, that is a KeyError.
keep_texts_total :
    (keeps : Text → Bool) (latest : List Sighting)
    → ((a : Text) → listed a latest ≡ true → keeps a ≡ true)
    → keep_texts keeps latest ≡ ok tt
unfolding keep_texts any
keep_texts_total keeps [] kept = refl
keep_texts_total keeps ((a, t) ∷ latest) kept =
    let here = kept a (ground (arith, text_eq_refl a)) in
    rw (here, keep_texts) (keep_texts_total keeps latest (λ b l. kept b (ground arith)))

pub keep_texts_altered :
    (keeps : Text → Bool) (latest : List Sighting) (a : Text)
    → listed a latest ≡ true
    → keeps a ≡ false
    → keep_texts keeps latest ≡ raise key_error
unfolding keep_texts any
keep_texts_altered keeps [] a l lost = absurd (ground arith)
keep_texts_altered keeps ((b, t) ∷ latest) a l lost = elim (Bool-cases (keeps b)) [
  | inr altered ↦ rw (altered, keep_texts) refl
  | inl kept ↦ elim (Bool-cases (text_eq a b)) [
    | inl same ↦
        let e : keeps a ≡ keeps b = ap keeps ((text_eq_iff a b).0 same) in absurd (ground arith)
    | inr other ↦ rw (kept, keep_texts) (keep_texts_altered keeps latest a (ground arith) lost)
  ]
]

record_latest_total :
    (latest : List Sighting) (db : Db)
    → ((a : Text) → listed a latest ≡ true → Versioned a)
    → ((a : Text) → listed a latest ≡ true → db.keeps a ≡ true)
    → (db' : Db) × (rows : List IpAddress) × (record_latest latest db ≡ ok (db', rows))
      × ((a : Text) → listed a latest ≡ true → has_row a rows ≡ true)
unfolding record_latest
record_latest_total latest db versioned kept =
    let all_kept = keep_texts_total db.keeps latest kept in
    let before = existing_rows latest db.ips in
    let (created, f) = create_missing_total before latest db versioned in
    let there = create_missing-has_row latest db created f in
    let (touched, rows, g, k) =
      touch_all_total (existing_rows latest created.ips) latest created there in
    (
      record touched { queue = touched.queue ++ announce before rows latest },
      rows,
      ground arith,
      λ a l. k a (there a l),
    )

-- If an address is read that the column does not keep, the recording ends with a KeyError.
pub record_sightings_bulk_altered :
    (sightings : List Sighting) (db : Db) (raw : Text) (t : Time) (a : Text)
    → All (λ s. Readable s.0) sightings
    → Elem (raw, t) sightings
    → normalize_ip raw ≡ ok a
    → db.keeps a ≡ false
    → record_sightings_bulk sightings db ≡ raise key_error
unfolding record_sightings_bulk record_latest any
record_sightings_bulk_altered [] db raw t a all i n lost = absurd i
record_sightings_bulk_altered (s ∷ sightings) db raw t a all i n lost =
    let (latest, f, g) = latest_from_total [] (s ∷ sightings) (λ b l. absurd (ground arith)) all in
    let (created, c) = create_missing_total (existing_rows latest db.ips) latest db g.versioned in
    let stop = keep_texts_altered db.keeps latest a (found latest (s ∷ sightings) g.read i) lost in
    rw f (rw c (rw stop refl))
  where
    found :
        (latest xs : List Sighting)
        → All (λ x. (b : Text) × (normalize_ip x.0 ≡ ok b) × (listed b latest ≡ true)) xs
        → Elem (raw, t) xs
        → listed a latest ≡ true
    found latest [] q j = absurd j
    found latest (x ∷ xs) ((b, m, l), q) (inl same) =
        let e : ok a ≡ ok b = sym n ∙ ap (λ (y : Sighting). normalize_ip y.0) same ∙ m in
        ap (λ y. listed y latest) (ok-injective a b e) ∙ l
    found latest (x ∷ xs) (h, q) (inr later) = found latest xs q later

-- A recording of sightings whose addresses can be read and are kept returns, with a row for each.
pub record_sightings_bulk_total :
    (sightings : List Sighting) (db : Db)
    → All (λ s. Readable s.0) sightings
    → ((raw : Text) (t : Time) (a : Text)
        → Elem (raw, t) sightings
        → normalize_ip raw ≡ ok a
        → db.keeps a ≡ true)
    → (db' : Db) × (rows : List IpAddress) × (record_sightings_bulk sightings db ≡ ok (db', rows))
      × All (λ s. (a : Text) × (normalize_ip s.0 ≡ ok a) × (has_row a rows ≡ true)) sightings
unfolding record_sightings_bulk any
record_sightings_bulk_total [] db all kept = (db, [], refl, tt)
record_sightings_bulk_total (s ∷ sightings) db all kept =
    let (latest, f, g) = latest_from_total [] (s ∷ sightings) (λ a l. absurd (ground arith)) all in
    let (db', rows, h, k) = record_latest_total latest db g.versioned (λ a l. elim (g.from a l) [
      | inl nowhere ↦ absurd (ground arith)
      | inr (raw, t, i, n) ↦ kept raw t a i n
    ]) in
    (db', rows, ground arith, each latest rows (s ∷ sightings) g.read k)
  where
    each :
        (latest : List Sighting) (rows : List IpAddress) (xs : List Sighting)
        → All (λ x. (a : Text) × (normalize_ip x.0 ≡ ok a) × (listed a latest ≡ true)) xs
        → ((a : Text) → listed a latest ≡ true → has_row a rows ≡ true)
        → All (λ x. (a : Text) × (normalize_ip x.0 ≡ ok a) × (has_row a rows ≡ true)) xs
    each latest rows [] q k = tt
    each latest rows (x ∷ xs) ((a, n, l), q) k = ((a, n, k a l), each latest rows xs q k)
