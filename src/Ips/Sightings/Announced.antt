-- ===== src/Ips/Sightings/Announced.antt =====
-- Which messages `record_sightings_bulk` sends: those for addresses that had no row.
use ip_scout.Prelude.{
  ℕ, ◌≡◌, refl, sym, ap, ◌∙◌, true, false, some, List, [], ◌∷◌, ◌++◌, Text, arith, ltb, any,
  text_eq_refl, Bool-cases, Option-cases, is_some, inl, inr, subst, Elem, append-nil,
}
use ip_scout.Errors.{ok, Outcome-cases, >>=-eq-ok}
use ip_scout.Models.{Time, IpAddress, Db, Message, process_new_ip}
use ip_scout.Ips.Identity.{version_of}
use ip_scout.Ips.Sightings.{
  Sighting, latest_from, row_at, exists_at, existing_rows, insert_row, create_missing, keep_texts,
  touch, touch_all, announce, record_latest, record_sightings_bulk,
}
use ip_scout.Ips.Sightings.Laws.{touch_db}
use ip_scout.Ips.Sightings.Covers.{listed, row_at-filter}

insert_row-queue : (a : Text) (v : ℕ) (t : Time) (db : Db) → (insert_row a v t db).queue ≡ db.queue
unfolding insert_row
insert_row-queue a v t db = ground arith

create_missing-queue :
    (existing : List IpAddress) (latest : List Sighting) (db db' : Db)
    → create_missing existing latest db ≡ ok db'
    → db'.queue ≡ db.queue
unfolding create_missing
create_missing-queue existing [] db db' h =
    let e : db ≡ db' = cc in ap (λ (x : Db). x.queue) (sym e)
create_missing-queue existing ((a, t) ∷ latest) db db' h =
    elim (Bool-cases (exists_at a existing)) [
      | inl there ↦ create_missing-queue existing latest db db' (ground arith)
      | inr new ↦ elim (Outcome-cases (version_of a)) [
        | inl (e, p) ↦ absurd (ground arith)
        | inr (v, p) ↦
            create_missing-queue existing latest (insert_row a v t db) db' (ground arith)
            ∙ insert_row-queue a v t db
      ]
    ]

touch_all-queue :
    (existing : List IpAddress) (latest : List Sighting) (db db' : Db) (rows : List IpAddress)
    → touch_all existing latest db ≡ ok (db', rows)
    → db'.queue ≡ db.queue
unfolding touch_all
touch_all-queue existing [] db db' rows h =
    let e : db ≡ db' = cc in ap (λ (x : Db). x.queue) (sym e)
touch_all-queue existing ((a, t) ∷ latest) db db' rows h = elim (Option-cases (row_at a existing)) [
  | inl missing ↦ absurd (ground arith)
  | inr (r, found) ↦ elim (Bool-cases (ltb r.last_seen_at t)) [
    | inl later ↦
        touch_all-queue (touch r.id t existing) latest (touch_db r.id t db) db' rows (ground arith)
    | inr not_later ↦ touch_all-queue existing latest db db' rows (ground arith)
  ]
]

exists_at-row_at : (a : Text) (rows : List IpAddress) → exists_at a rows ≡ is_some (row_at a rows)
unfolding exists_at row_at
exists_at-row_at a [] = refl
exists_at-row_at a (r ∷ rows) = ground (arith, exists_at-row_at a rows)

-- The message is for a row whose address had none.
abbrev pub IsNew : List IpAddress → List IpAddress → Message → Type 0
IsNew before after m =
    (a : Text) × (r : IpAddress) × (exists_at a before ≡ false)
    × (row_at a after ≡ some r)
    × (m ≡ process_new_ip r.id)

announce-IsNew :
    (before ips after : List IpAddress) (latest : List Sighting) (m : Message)
    → ((a : Text) → listed a latest ≡ true → exists_at a before ≡ exists_at a ips)
    → Elem m (announce before after latest)
    → IsNew ips after m
unfolding announce any
announce-IsNew before ips after [] m agree i = absurd i
announce-IsNew before ips after ((a, t) ∷ latest) m agree i =
    let later = announce-IsNew before ips after latest m (λ b l. agree b (ground arith)) in
    elim (Bool-cases (exists_at a before)) [
      | inl known ↦ later (rw known at i)
      | inr new ↦ elim (Option-cases (row_at a after)) [
        | inl missing ↦ later (rw missing at (rw new at i))
        | inr (r, found) ↦ elim (rw found at (rw new at i)) [
          | inr j ↦ later j
          | inl e ↦ (a, r, sym (agree a (ground (arith, text_eq_refl a))) ∙ new, found, e)
        ]
      ]
    ]

existing_rows-exists_at :
    (latest : List Sighting) (ips : List IpAddress) (a : Text)
    → listed a latest ≡ true
    → exists_at a (existing_rows latest ips) ≡ exists_at a ips
existing_rows-exists_at latest ips a l =
    exists_at-row_at a (existing_rows latest ips)
    ∙ ap is_some (row_at-filter a latest ips l)
    ∙ sym (exists_at-row_at a ips)

-- The queue grew by messages for new addresses.
abbrev pub Announced : Db → Db → List IpAddress → Type 0
Announced db db' rows =
    (ms : List Message) × (db'.queue ≡ db.queue ++ ms)
    × ((m : Message) → Elem m ms → IsNew db.ips rows m)

record_latest-Announced :
    (latest : List Sighting) (db db' : Db) (rows : List IpAddress)
    → record_latest latest db ≡ ok (db', rows)
    → Announced db db' rows
unfolding record_latest
record_latest-Announced latest db db' rows h =
    let before = existing_rows latest db.ips in
    let (created, c, kept) = >>=-eq-ok (create_missing before latest db) _ h in
    let (_, _, h') = >>=-eq-ok (keep_texts db.keeps latest) _ kept in
    let ((touched, rows'), t, h'') =
      >>=-eq-ok (touch_all (existing_rows latest created.ips) latest created) _ h' in
    let ms = announce before rows' latest in
    let e : record touched { queue = touched.queue ++ ms } ≡ db' = cc in
    let e' : rows' ≡ rows = cc in
    let same : touched.queue ≡ db.queue =
      touch_all-queue (existing_rows latest created.ips) latest created touched rows' t
      ∙ create_missing-queue before latest db created c in
    subst (Announced db db') e' (
      ms,
      ap (λ (x : Db). x.queue) (sym e) ∙ ap (λ q. q ++ ms) same,
      λ m i.
          announce-IsNew before db.ips rows' latest m
            (λ a l. existing_rows-exists_at latest db.ips a l) i,
    )

-- A recording that returns adds messages to the end of the queue, and each is for a row whose address had
-- none before: sighting an address that is known sends nothing.
pub record_sightings_bulk-Announced :
    (sightings : List Sighting) (db db' : Db) (rows : List IpAddress)
    → record_sightings_bulk sightings db ≡ ok (db', rows)
    → Announced db db' rows
unfolding record_sightings_bulk
record_sightings_bulk-Announced [] db db' rows h =
    let e : db ≡ db' = cc in
    ([], ap (λ (x : Db). x.queue) (sym e) ∙ sym (append-nil db.queue), λ m i. absurd i)
record_sightings_bulk-Announced (s ∷ sightings) db db' rows h =
    let (latest, l, h') = >>=-eq-ok (latest_from [] (s ∷ sightings)) _ h in
    record_latest-Announced latest db db' rows h'
