-- ===== src/Logs/Reader/Storing.antt =====
-- apps/logs/services.py: how the storing of the events of parsed lines ends.
use ip_scout.Prelude.{
  ℕ, ap, ◌∙◌, Elem, Bool, false, ◌⊎◌, Bool-cases, ◌≡◌, refl, true, false, Option, none, some, List,
  [], ◌∷◌, ◌++◌, Text, arith, map, All, Option-cases, inl, inr, sym, subst,
}
use ip_scout.Errors.{Outcome, ok, raise, key_error, data_error}
use ip_scout.Models.{Time, LogSource, IpAddress, RequestEvent, Db}
use ip_scout.Ips.Identity.{normalize_ip}
use ip_scout.Ips.Sightings.{Sighting, row_at, record_sightings_bulk}
use ip_scout.Ips.Sightings.Total.{Readable, has_row}
use ip_scout.Ips.Sightings.Refused.{
  Recording, refused, altered, recorded, normalize_ip_refused, record_sightings_bulk-Recording,
}
use ip_scout.Logs.Parser.{ParsedLine}
use ip_scout.Logs.Reader.{
  latest_event, check_events, fits_columns, events_of, ip_id_of, event_of, store_events, missing,
}

-- How it ends: the column of addresses does not keep one of them, a column of events cannot hold a value,
-- or the events are stored.
pub data Storing (source : LogSource) (parsed : List ParsedLine) (keeps : Text → Bool)
    : Outcome (Db × Option Time) → Type 0 where
  unkept :
      (p : ParsedLine) (a : Text)
      → Elem p parsed
      → normalize_ip p.remote_addr ≡ ok a
      → keeps a ≡ false
      → Storing source parsed keeps (raise key_error)
  unstorable :
      (p : ParsedLine) (id : ℕ)
      → Elem p parsed
      → fits_columns (event_of source id p) ≡ false
      → Storing source parsed keeps (raise data_error)
  stored : (db : Db) (latest : Option Time) → Storing source parsed keeps (ok (db, latest))

events_of_total :
    (source : LogSource) (rows : List IpAddress) (parsed : List ParsedLine)
    → All
        (λ (p : ParsedLine).
          (a : Text) × (normalize_ip p.remote_addr ≡ ok a) × (has_row a rows ≡ true))
        parsed
    → (events : List RequestEvent) × (events_of source rows parsed ≡ ok events)
      × ((e : RequestEvent)
          → Elem e events
          → (p : ParsedLine) × (id : ℕ) × Elem p parsed × (e ≡ event_of source id p))
unfolding events_of ip_id_of
events_of_total source rows [] all = ([], refl, λ e i. absurd i)
events_of_total source rows (p ∷ parsed) ((a, n, there), all) =
    let (events, f, from) = events_of_total source rows parsed all in
    elim (Option-cases (row_at a rows)) [
      | inl missing ↦ absurd (ground arith)
      | inr (r, found) ↦
          let id : ip_id_of rows p ≡ ok r.id = ground arith in
          (
            event_of source r.id p ∷ events,
            ground arith,
            λ e i. elim i [
              | inl here ↦ (p, r.id, inl refl, here)
              | inr there' ↦ let (q, k, j, same) = from e there' in (q, k, inr j, same)
            ],
          )
    ]

abbrev sighting_of : ParsedLine → Sighting
sighting_of p = (p.remote_addr, p.timestamp)

Elem-sightings :
    (parsed : List ParsedLine) (s : Sighting)
    → Elem s (map sighting_of parsed)
    → (p : ParsedLine) × Elem p parsed × (s ≡ sighting_of p)
Elem-sightings [] s i = absurd i
Elem-sightings (p ∷ parsed) s (inl here) = (p, inl refl, here)
Elem-sightings (p ∷ parsed) s (inr there) =
    let (q, j, e) = Elem-sightings parsed s there in (q, inr j, e)

Elem-All :
    (P : ParsedLine → Type 0) (parsed : List ParsedLine) (p : ParsedLine)
    → All P parsed
    → Elem p parsed
    → P p
Elem-All P [] p all i = absurd i
Elem-All P (q ∷ parsed) p (h, all) (inl here) = subst P (sym here) h
Elem-All P (q ∷ parsed) p (h, all) (inr there) = Elem-All P parsed p all there

rows_of :
    (keeps : Text → Bool) (rows : List IpAddress) (parsed : List ParsedLine)
    → All
        (λ (s : Sighting).
          (a : Text) × (normalize_ip s.0 ≡ ok a) × (has_row a rows ≡ true) × (keeps a ≡ true))
        (map sighting_of parsed)
    → All
        (λ (p : ParsedLine).
          (a : Text) × (normalize_ip p.remote_addr ≡ ok a) × (has_row a rows ≡ true))
        parsed
rows_of keeps rows [] all = tt
rows_of keeps rows (p ∷ parsed) ((a, n, h, _), all) = ((a, n, h), rows_of keeps rows parsed all)

-- The events fit, or one of them does not.
check_events_or :
    (events : List RequestEvent)
    → (check_events events ≡ ok tt)
      ⊎ ((e : RequestEvent) × Elem e events
          × (fits_columns e ≡ false)
          × (check_events events ≡ raise data_error))
unfolding check_events
check_events_or [] = inl refl
check_events_or (e ∷ events) = elim (Bool-cases (fits_columns e)) [
  | inr bad ↦ inr (e, inl refl, bad, rw (bad, check_events) refl)
  | inl good ↦ elim (check_events_or events) [
    | inl fine ↦ inl (rw (good, check_events) fine)
    | inr (x, i, bad, stop) ↦ inr (x, inr i, bad, rw (good, check_events) stop)
  ]
]

module _ (source : LogSource) (p : ParsedLine) (parsed : List ParsedLine) (db : Db) where
  abbrev sightings : List Sighting
  sightings = map sighting_of (p ∷ parsed)

  abbrev End : Outcome (Db × Option Time) → Type 0
  End = Storing source (p ∷ parsed) db.keeps

  with_rows :
      (recorded_db : Db) (rows : List IpAddress)
      → record_sightings_bulk sightings db ≡ ok (recorded_db, rows)
      → All
          (λ (q : ParsedLine).
            (a : Text) × (normalize_ip q.remote_addr ≡ ok a) × (has_row a rows ≡ true))
          (p ∷ parsed)
      → End (store_events source (p ∷ parsed) db)
  unfolding store_events
  with_rows recorded_db rows r all =
      let (events, v, from) = events_of_total source rows (p ∷ parsed) all in
      elim (check_events_or events) [
        | inl fine ↦
            let result : Db × Option Time = (
              record recorded_db { events = recorded_db.events ++ events },
              some (latest_event p parsed),
            ) in
            let done : store_events source (p ∷ parsed) db ≡ ok result =
              rw r (rw v (rw fine refl)) in
            subst End (sym done) (stored result.0 result.1)
        | inr (e, i, bad, stop) ↦
            let (q, id, j, same) = from e i in
            let done : store_events source (p ∷ parsed) db ≡ raise data_error =
              rw r (rw v (rw stop refl)) in
            subst End (sym done) (unstorable q id j (ap fits_columns (sym same) ∙ bad))
      ]

  with-Recording :
      {o : Outcome (Db × List IpAddress)}
      → Recording sightings db.keeps o
      → record_sightings_bulk sightings db ≡ o
      → All (λ (q : ParsedLine). Readable q.remote_addr) (p ∷ parsed)
      → End (store_events source (p ∷ parsed) db)
  unfolding store_events
  with-Recording (refused raw t i wrong) r all =
      let (q, j, e) = Elem-sightings (p ∷ parsed) (raw, t) i in
      let (a, n, _) = Elem-All (λ (x : ParsedLine). Readable x.remote_addr) (p ∷ parsed) q all j in
      let same : raw ≡ q.remote_addr = ap (λ (s : Sighting). s.0) e in
      let bad = ap normalize_ip (sym same) ∙ normalize_ip_refused raw wrong in absurd (ground arith)
  with-Recording (altered raw t a i n lost) r all =
      let (q, j, e) = Elem-sightings (p ∷ parsed) (raw, t) i in
      let same : raw ≡ q.remote_addr = ap (λ (s : Sighting). s.0) e in
      let done : store_events source (p ∷ parsed) db ≡ raise key_error = rw r refl in
      subst End (sym done) (unkept q a j (ap normalize_ip (sym same) ∙ n) lost)
  with-Recording (recorded recorded_db rows each) r all =
      with_rows recorded_db rows r (rows_of db.keeps rows (p ∷ parsed) each)

-- The storing of lines whose addresses can be read ends in one of these three ways.
pub store_events-Storing :
    (source : LogSource) (parsed : List ParsedLine) (db : Db)
    → All (λ (p : ParsedLine). Readable p.remote_addr) parsed
    → Storing source parsed db.keeps (store_events source parsed db)
unfolding store_events
store_events-Storing source [] db all = stored db none
store_events-Storing source (p ∷ parsed) db all =
    with-Recording source p parsed db
      (record_sightings_bulk-Recording (map sighting_of (p ∷ parsed)) db) refl all
