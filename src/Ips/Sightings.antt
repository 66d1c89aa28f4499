-- ===== src/Ips/Sightings.antt =====
-- apps/ips/services.py: `record_sightings_bulk` and `record_sighting`.
--
-- A dict from addresses to rows is the list of the rows, which carry their address. The new
-- addresses are announced in the order of the sightings, where Python's set has an order of its own.
pub mod Laws
pub mod Consistent
pub mod Rows
pub mod Covers
pub mod Announced
pub mod View
pub mod Known
pub mod Total
pub mod Refused
use ip_scout.Prelude.{
  ℕ, suc, ◌+◌, ◌≡◌, refl, Bool, true, false, not, ◌&&◌, Option, none, some, List, [], ◌∷◌, ◌++◌,
  Text, ◌==◌, ltb, any, filter, find?, update_where, if◌then◌else◌, text_eq, map,
}
use ip_scout.Errors.{Outcome, ok, raise, key_error, ◌>>=◌, ◌>>◌}
use ip_scout.Models.{Time, IpAddress, Db, WhoisStatus, Message, process_new_ip}
use ip_scout.Ips.Identity.{normalize_ip, version_of}

abbrev pub Sighting : Type 0
Sighting = Text × Time

-- latest_seen_at[address] = seen_at, unless a later time is there.
unfoldable pub put_latest : Text → Time → List Sighting → List Sighting
unfolding text_eq
put_latest a t [] = (a, t) ∷ []
put_latest a t ((b, u) ∷ latest) =
    let rest = put_latest a t latest in
    if text_eq a b then (b, if ltb u t then t else u) ∷ latest else (b, u) ∷ rest

unfoldable pub latest_from : List Sighting → List Sighting → Outcome (List Sighting)
latest_from latest [] = ok latest
latest_from latest ((raw, seen_at) ∷ sightings) = elim (normalize_ip raw) [
  | ok a ↦ latest_from (put_latest a seen_at latest) sightings
  | raise e ↦ raise e
]

abbrev pub has_address : Text → IpAddress → Bool
has_address a r = text_eq r.address a

unfoldable pub row_at : Text → List IpAddress → Option IpAddress
unfolding find?
row_at a rows = find? (has_address a) rows

unfoldable pub exists_at : Text → List IpAddress → Bool
unfolding any
exists_at a rows = any (has_address a) rows

-- {ip.address: ip for ip in IPAddress.objects.filter(address__in=addresses)}
unfoldable pub existing_rows : List Sighting → List IpAddress → List IpAddress
unfolding any filter
existing_rows latest rows = filter (λ (r : IpAddress). any (λ s. text_eq r.address s.0) latest) rows

-- IPAddress(address=…, version=…, first_seen_at=…, last_seen_at=…) with its primary key
abbrev pub new_row : ℕ → Text → ℕ → Time → IpAddress
new_row id address version seen_at = record {
  id = id;
  address = address;
  version = version;
  country_code = [];
  country_name = [];
  continent = [];
  latitude = none;
  longitude = none;
  asn = none;
  organization = [];
  network = [];
  cidr = none;
  whois_status = WhoisStatus.never_checked;
  whois_checked_at = none;
  whois_next_check_at = none;
  whois_country = [];
  whois_error = [];
  is_iran = false;
  iran_checked_at = none;
  iran_match_cidr = none;
  first_seen_at = seen_at;
  last_seen_at = seen_at;
}

-- One row of bulk_create(…, ignore_conflicts=True): the unique address makes a second one be skipped.
unfoldable pub insert_row : Text → ℕ → Time → Db → Db
unfolding exists_at
insert_row a version t db =
    if exists_at a db.ips
    then db
    else record db { ips = db.ips ++ new_row db.next_ip a version t ∷ []; next_ip = suc db.next_ip }

-- The rows that `to_create` holds, those of the addresses that are not in `existing`.
unfoldable pub create_missing : List IpAddress → List Sighting → Db → Outcome Db
create_missing existing [] db = ok db
create_missing existing ((a, t) ∷ latest) db = elim (exists_at a existing) [
  | true ↦ create_missing existing latest db
  | false ↦ elim (version_of a) [
    | raise e ↦ raise e
    | ok v ↦ create_missing existing latest (insert_row a v t db)
  ]
]

-- filter(pk=…, last_seen_at__lt=seen_at).update(last_seen_at=seen_at)
unfoldable pub touch : ℕ → Time → List IpAddress → List IpAddress
unfolding update_where
touch pk t =
    update_where (λ (r : IpAddress). r.id == pk && ltb r.last_seen_at t)
      (λ r. record r { last_seen_at = t })

-- The loop that bumps last_seen_at. `existing` are the rows as they were read; a missing one is a
-- KeyError. The rows of the result carry the new times.
unfoldable pub touch_all : List IpAddress → List Sighting → Db → Outcome (Db × List IpAddress)
touch_all existing [] db = ok (db, existing)
touch_all existing ((a, t) ∷ latest) db = elim (row_at a existing) [
  | none ↦ raise key_error
  | some r ↦ elim (ltb r.last_seen_at t) [
    | true ↦ touch_all (touch r.id t existing) latest (record db { ips = touch r.id t db.ips })
    | false ↦ touch_all existing latest db
  ]
]

-- The messages for the addresses that had no row.
unfoldable pub announce : List IpAddress → List IpAddress → List Sighting → List Message
announce before after [] = []
announce before after ((a, _) ∷ latest) =
    let rest = announce before after latest in
    if exists_at a before
    then rest
    else elim (row_at a after) [ none ↦ rest | some r ↦ process_new_ip r.id ∷ rest ]

-- existing[address] for all addresses: the keys are the texts that the column gives back, so that an
-- address that it does not keep is a KeyError.
unfoldable pub keep_texts : (Text → Bool) → List Sighting → Outcome (Unit {0})
keep_texts keeps [] = ok tt
keep_texts keeps ((a, _) ∷ latest) =
    let rest = keep_texts keeps latest in if keeps a then rest else raise key_error

-- record_sightings_bulk from the dict of latest sightings on
unfoldable pub record_latest : List Sighting → Db → Outcome (Db × List IpAddress)
unfolding existing_rows announce keep_texts
record_latest latest db = do
  let before = existing_rows latest db.ips
  created ← create_missing before latest db
  keep_texts db.keeps latest
  (touched, rows) ← touch_all (existing_rows latest created.ips) latest created
  ok (record touched { queue = touched.queue ++ announce before rows latest }, rows)

unfoldable pub record_sightings_bulk : List Sighting → Db → Outcome (Db × List IpAddress)
unfolding latest_from record_latest
record_sightings_bulk [] db = ok (db, [])
record_sightings_bulk (s ∷ sightings) db = do
  latest ← latest_from [] (s ∷ sightings)
  record_latest latest db

unfoldable pub record_sighting : Text → Time → Db → Outcome (Db × IpAddress)
unfolding record_sightings_bulk normalize_ip
record_sighting raw seen_at db = do
  (db', rows) ← record_sightings_bulk ((raw, seen_at) ∷ []) db
  a ← normalize_ip raw
  elim (row_at a rows) [ none ↦ raise key_error | some r ↦ ok (db', r) ]
