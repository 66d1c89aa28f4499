-- ===== src/Ips/Sightings/Covers.antt =====
-- Every address that was sighted has a row afterwards, seen no earlier than the sighting.
use ip_scout.Prelude.{
  ◌≤◌, ◌≡◌, refl, sym, ap, ◌∙◌, Bool, true, false, Option, none, some, List, [], ◌∷◌, Text, arith,
  ltb, any, if◌then◌else◌, text_eq, text_eq_iff, text_eq_refl, Bool-cases, Option-cases, inl, inr,
  subst, All,
}
use ip_scout.Errors.{Outcome, ok, raise, Outcome-cases, >>=-eq-ok}
use ip_scout.Models.{Time, IpAddress, Db}
use ip_scout.Ips.Identity.{normalize_ip}
use ip_scout.Ips.Sightings.{
  Sighting, put_latest, latest_from, row_at, existing_rows, create_missing, keep_texts, touch,
  touch_all, record_latest, record_sightings_bulk,
}
use ip_scout.Ips.Sightings.Laws.{
  Keeps, Keeps-refl, Keeps-trans, insert_row-Keeps, touch-Keeps, touch_db, row_at-touch, map_option,
  bump, touch_all_induction,
}

-- The address has a row, seen at `t` or later.
abbrev pub SeenSince : List IpAddress → Text → Time → Type 0
SeenSince rows a t = (r : IpAddress) × (row_at a rows ≡ some r) × (t ≤ r.last_seen_at)

abbrev pub listed : Text → List Sighting → Bool
listed a latest = any (λ s. text_eq a s.0) latest

-- The rows that were read and the table agree on the addresses that are recorded.
Agree : List Sighting → List IpAddress → List IpAddress → Type 0
Agree latest existing ips = (a : Text) → listed a latest ≡ true → row_at a existing ≡ row_at a ips

pub row_at-filter :
    (a : Text) (latest : List Sighting) (ips : List IpAddress)
    → listed a latest ≡ true
    → row_at a (existing_rows latest ips) ≡ row_at a ips
unfolding row_at existing_rows
row_at-filter a latest [] h = refl
row_at-filter a latest (r ∷ ips) h = elim (Bool-cases (text_eq r.address a)) [
  | inl here ↦
      let e : listed r.address latest ≡ true =
        ap (λ s. listed s latest) ((text_eq_iff r.address a).0 here) ∙ h in
      rw e (rw here refl)
  | inr there ↦
      let ih = row_at-filter a latest ips h in
      elim (Bool-cases (listed r.address latest)) [
        | inl kept ↦ rw kept (rw there ih)
        | inr dropped ↦ rw dropped (rw there ih)
      ]
]

touch_all-Keeps :
    (existing : List IpAddress) (latest : List Sighting) (db db' : Db) (rows : List IpAddress)
    → touch_all existing latest db ≡ ok (db', rows)
    → Keeps db.ips db'.ips
touch_all-Keeps =
    touch_all_induction (λ x y. Keeps x.ips y.ips) (λ x. Keeps-refl x.ips)
      (λ x y z. Keeps-trans x.ips y.ips z.ips) insert_row-Keeps (λ pk t x. touch-Keeps pk t x.ips)
      (λ ms x. Keeps-refl x.ips)

SeenSince-Keeps :
    (rows rows' : List IpAddress) (a : Text) (t : Time)
    → Keeps rows rows'
    → SeenSince rows a t
    → SeenSince rows' a t
SeenSince-Keeps rows rows' a t k s =
    let (r', h, g) = k a s.0 s.1 in (r', h, omega (arith, s.2, g.later))

touch_all-SeenSince :
    (existing : List IpAddress) (latest : List Sighting) (db db' : Db) (rows : List IpAddress)
    → Agree latest existing db.ips
    → touch_all existing latest db ≡ ok (db', rows)
    → All (λ s. SeenSince db'.ips s.0 s.1) latest
unfolding touch_all Agree any
touch_all-SeenSince existing [] db db' rows g h = tt
touch_all-SeenSince existing ((a, t) ∷ latest) db db' rows g h =
    elim (Option-cases (row_at a existing)) [
      | inl missing ↦ absurd (ground arith)
      | inr (r, found) ↦
          let at : row_at a db.ips ≡ some r = sym (g a (ground (arith, text_eq_refl a))) ∙ found in
          elim (Bool-cases (ltb r.last_seen_at t)) [
            | inl later ↦
                let ips' = touch r.id t db.ips in
                let done : touch_all (touch r.id t existing) latest (touch_db r.id t db)
                    ≡ ok (db', rows) =
                  ground arith in
                (
                  SeenSince-Keeps ips' db'.ips a t
                      (touch_all-Keeps (touch r.id t existing) latest (touch_db r.id t db) db' rows
                        done)
                      (
                        bump r.id t r,
                        row_at-touch a r.id t db.ips ∙ ap (map_option (bump r.id t)) at,
                        ground arith,
                      ),
                  touch_all-SeenSince (touch r.id t existing) latest (touch_db r.id t db) db' rows
                      (λ b l.
                        row_at-touch b r.id t existing
                        ∙ ap (map_option (bump r.id t)) (g b (ground arith))
                        ∙ sym (row_at-touch b r.id t db.ips))
                      done,
                )
            | inr not_later ↦
                let done : touch_all existing latest db ≡ ok (db', rows) = ground arith in
                (
                  SeenSince-Keeps db.ips db'.ips a t
                      (touch_all-Keeps existing latest db db' rows done) (r, at, ground arith),
                  touch_all-SeenSince existing latest db db' rows (λ b l. g b (ground arith)) done,
                )
          ]
    ]

record_latest-SeenSince :
    (latest : List Sighting) (db db' : Db) (rows : List IpAddress)
    → record_latest latest db ≡ ok (db', rows)
    → All (λ s. SeenSince db'.ips s.0 s.1) latest
unfolding record_latest Agree
record_latest-SeenSince latest db db' rows h =
    let before = existing_rows latest db.ips in
    let (created, c, kept) = >>=-eq-ok (create_missing before latest db) _ h in
    let (_, _, h') = >>=-eq-ok (keep_texts db.keeps latest) _ kept in
    let ((touched, rows'), t, h'') =
      >>=-eq-ok (touch_all (existing_rows latest created.ips) latest created) _ h' in
    let e : touched.ips ≡ db'.ips = ap (λ (o : Outcome (Db × List IpAddress)). ips_of o) h'' in
    subst (λ ips. All (λ s. SeenSince ips s.0 s.1) latest) e
      (touch_all-SeenSince (existing_rows latest created.ips) latest created touched rows'
        (λ a l. row_at-filter a latest created.ips l) t)
  where
    ips_of : Outcome (Db × List IpAddress) → List IpAddress
    ips_of (ok (d, _)) = d.ips
    ips_of (raise _) = []

-- The latest time at an address, and what the dict holds of the sightings read so far.
time_at : Text → List Sighting → Option Time
time_at a [] = none
time_at a ((b, t) ∷ latest) = let rest = time_at a latest in if text_eq b a then some t else rest

Has : List Sighting → Text → Time → Type 0
Has latest a t = (u : Time) × (time_at a latest ≡ some u) × (t ≤ u)

put_latest-Has_self :
    (a : Text) (t : Time) (latest : List Sighting) → Has (put_latest a t latest) a t
unfolding Has put_latest time_at
put_latest-Has_self a t [] = (t, rw (text_eq_refl a), omega arith)
put_latest-Has_self a t ((b, u) ∷ latest) = elim (Bool-cases (text_eq a b)) [
  | inl here ↦
      let back : text_eq b a ≡ true = ground (arith, text_eq_iff a b, text_eq_iff b a) in
      rw here ((if ltb u t then t else u), rw back, ground arith)
  | inr there ↦
      let away : text_eq b a ≡ false = ground (arith, text_eq_iff a b, text_eq_iff b a) in
      rw there (rw away (put_latest-Has_self a t latest))
]

put_latest-Has :
    (a : Text) (t : Time) (latest : List Sighting) (b : Text) (u : Time)
    → Has latest b u
    → Has (put_latest a t latest) b u
unfolding Has put_latest time_at
put_latest-Has a t [] b u (v, e, l) = absurd (ground arith)
put_latest-Has a t ((c, w) ∷ latest) b u (v, e, l) = elim (Bool-cases (text_eq a c)) [
  | inl here ↦ elim (Bool-cases (text_eq c b)) [
    | inl this ↦ rw here ((if ltb w t then t else w), rw this, ground arith)
    | inr other ↦ rw here (v, ground arith, l)
  ]
  | inr there ↦ elim (Bool-cases (text_eq c b)) [
    | inl this ↦ rw there (w, rw this, ground arith)
    | inr other ↦
        let (v', e', l') = put_latest-Has a t latest b u (v, ground arith, l) in
        rw there (v', rw other e', l')
  ]
]

abbrev pub Recorded : List IpAddress → Sighting → Type 0
Recorded ips (raw, t) = (a : Text) × (normalize_ip raw ≡ ok a) × SeenSince ips a t

-- The dict holds what it held, and every sighting that was read.
latest_from-Has :
    (latest : List Sighting) (sightings : List Sighting) (out : List Sighting)
    → latest_from latest sightings ≡ ok out
    → (b : Text) (u : Time) → Has latest b u
    → Has out b u
unfolding latest_from
latest_from-Has latest [] out h b u k = let e : latest ≡ out = cc in subst (λ l. Has l b u) e k
latest_from-Has latest ((raw, t) ∷ sightings) out h b u k =
    elim (Outcome-cases (normalize_ip raw)) [
      | inl (e, p) ↦ absurd (ground arith)
      | inr (a, p) ↦
          latest_from-Has (put_latest a t latest) sightings out (ground arith) b u
            (put_latest-Has a t latest b u k)
    ]

latest_from-reads :
    (latest : List Sighting) (sightings : List Sighting) (out : List Sighting)
    → latest_from latest sightings ≡ ok out
    → All (λ s. (a : Text) × (normalize_ip s.0 ≡ ok a) × Has out a s.1) sightings
unfolding latest_from
latest_from-reads latest [] out h = tt
latest_from-reads latest ((raw, t) ∷ sightings) out h = elim (Outcome-cases (normalize_ip raw)) [
  | inl (e, p) ↦ absurd (ground arith)
  | inr (a, p) ↦
      let rest : latest_from (put_latest a t latest) sightings ≡ ok out = ground arith in
      (
        (
          a,
          p,
          latest_from-Has (put_latest a t latest) sightings out rest a t
              (put_latest-Has_self a t latest),
        ),
        latest_from-reads (put_latest a t latest) sightings out rest,
      )
]

Has-SeenSince :
    (latest : List Sighting) (ips : List IpAddress) (a : Text) (t : Time)
    → All (λ s. SeenSince ips s.0 s.1) latest
    → Has latest a t
    → SeenSince ips a t
unfolding Has time_at
Has-SeenSince [] ips a t all (u, e, l) = absurd (ground arith)
Has-SeenSince ((b, w) ∷ latest) ips a t all (u, e, l) = elim (Bool-cases (text_eq b a)) [
  | inl here ↦
      let (r, found, since) = all.0 in
      let same : row_at a ips ≡ some r =
        ap (λ s. row_at s ips) (sym ((text_eq_iff b a).0 here)) ∙ found in
      (r, same, ground arith)
  | inr there ↦ Has-SeenSince latest ips a t all.1 (u, ground arith, l)
]

reads-Recorded :
    (latest sightings : List Sighting) (ips : List IpAddress)
    → All (λ s. SeenSince ips s.0 s.1) latest
    → All (λ s. (a : Text) × (normalize_ip s.0 ≡ ok a) × Has latest a s.1) sightings
    → All (Recorded ips) sightings
reads-Recorded latest [] ips all h = tt
reads-Recorded latest ((raw, t) ∷ sightings) ips all ((a, p, k), h) =
    ((a, p, Has-SeenSince latest ips a t all k), reads-Recorded latest sightings ips all h)

-- If the operation returns, every sighting's address has a row, whose last_seen_at is the time of
-- the sighting or a later one.
record_sightings_bulk-Recorded :
    (sightings : List Sighting) (db db' : Db) (rows : List IpAddress)
    → record_sightings_bulk sightings db ≡ ok (db', rows)
    → All (Recorded db'.ips) sightings
unfolding record_sightings_bulk
record_sightings_bulk-Recorded [] db db' rows h = tt
record_sightings_bulk-Recorded (s ∷ sightings) db db' rows h =
    let (latest, l, h') = >>=-eq-ok (latest_from [] (s ∷ sightings)) _ h in
    reads-Recorded latest (s ∷ sightings) db'.ips (record_latest-SeenSince latest db db' rows h')
      (latest_from-reads [] (s ∷ sightings) latest l)
