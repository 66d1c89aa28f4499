-- ===== src/Tests/Ips.antt =====
-- Addresses, sightings and retention at concrete inputs.
use ip_scout.Iran.Classify.Laws.{Agrees, unflagged}
use ip_scout.Models.Tables.{get_ip}
use ip_scout.Ips.Sightings.Consistent.{Consistent}
use ip_scout.Ips.Sightings.Announced.{Announced, record_sightings_bulk-Announced}
use ip_scout.Prelude.{
  ℕ, ◌<◌, filter, arith, Elem, inl, inr, sym, subst, ◌≡◌, refl, none, some, List, [], ◌∷◌, Text,
  codes, any,
}
use ip_scout.Errors.{ok}
use ip_scout.Python.Strip.{strip}
use ip_scout.Python.Ipaddress.V4
use ip_scout.Models.{IpAddress, IpCountryHistory, WhoisRecord, process_new_ip, one, Db, empty_db}
use ip_scout.Ips.Identity.{normalize_ip, version_of}
use ip_scout.Ips.Identity.Laws.{normalize_ip-v4}
use ip_scout.Ips.Sightings.{
  Sighting, new_row, record_sightings_bulk, create_missing, put_latest, exists_at, touch_all,
  row_at, insert_row, touch,
}
use ip_scout.Ips.Sightings.Laws.{Keeps}
use ip_scout.Ips.Sightings.Rows.{Unique, SameOthers, record_sightings_bulk-Extends}
use ip_scout.Ips.Sightings.View.{later, view, seen_in}
use ip_scout.Ips.Sightings.View.Refines.{record_sightings_bulk_refines}
use ip_scout.Whois.Lookup.{days}
use ip_scout.Ips.Retention.{
  Retention, is_eligible, purge_old_data, purge_old_request_events, cutoff_of,
  purge_old_whois_records, purge_stale_ips, delete_ips,
}
use ip_scout.Ips.Retention.Laws.{Purged, purge_old_data-Purged}

normalize_ip-v4_example :
    (a : Text) × (normalize_ip (codes " 5.1.2.3\n") ≡ ok a)
    × (V4.parse a ≡ some 83952131)
    × (normalize_ip a ≡ ok a)
    × (version_of a ≡ ok 4)
unfolding V4.parse strip
normalize_ip-v4_example = normalize_ip-v4 (codes " 5.1.2.3\n") 83952131 refl

-- One address that has a row and one that has none, the second one sighted twice.
abbrev known : IpAddress
known = new_row 1 (codes "5.1.2.3") 4 100

abbrev before : Db
before = record empty_db { ips = known ∷ []; next_ip = 2 }

abbrev sightings : List Sighting
sightings = (codes "2.57.3.9", 300) ∷ (codes " 5.1.2.3", 200) ∷ (codes "2.57.3.9", 250) ∷ []

abbrev rows : List IpAddress
rows = record known { last_seen_at = 200 } ∷ new_row 2 (codes "2.57.3.9") 4 300 ∷ []

abbrev after : Db
after = record empty_db { ips = rows; next_ip = 3; queue = process_new_ip 2 ∷ [] }

recorded : record_sightings_bulk sightings before ≡ ok (after, rows)
unfolding record_sightings_bulk normalize_ip create_missing put_latest exists_at version_of
    touch_all row_at insert_row touch
recorded = refl

before-Unique : Unique before.ips
unfolding exists_at
before-Unique = (refl, tt)

record_sightings_bulk-Extends_example :
    Unique after.ips × Keeps before.ips after.ips × SameOthers before after
record_sightings_bulk-Extends_example =
    record_sightings_bulk-Extends sightings before after rows recorded before-Unique

-- Two addresses, and a text that is no address.
abbrev wrong_sightings : List Sighting
wrong_sightings = (codes "2.57.3.9", 300) ∷ (codes "2001:db8::1%", 200) ∷ (codes "::1", 250) ∷ []

record_sightings_bulk-Announced_example : Announced before after rows
record_sightings_bulk-Announced_example =
    record_sightings_bulk-Announced sightings before after rows recorded

-- A purge at day 400 of an address that is too old, one with history, and one that is young.
abbrev retention : Retention
retention = record { request_days = 30; whois_days = 180; ip_days = 365 }

abbrev period : IpCountryHistory
period = record {
  ip_id = 2;
  country_code = codes "IR";
  source = codes "manual";
  cidr = none;
  valid_from = 0;
  valid_until = some 1;
  confidence = one;
}

abbrev old_db : Db
old_db = record empty_db {
  ips = known ∷ new_row 2 (codes "2.57.3.9") 4 300 ∷ new_row 3 (codes "2.57.3.7") 4 (days 399) ∷ [];
  history = period ∷ [];
}

abbrev purged_db : Db
purged_db = record old_db {
  ips = new_row 2 (codes "2.57.3.9") 4 300 ∷ new_row 3 (codes "2.57.3.7") 4 (days 399) ∷ [];
}

purge_old_data-Purged_example : Purged retention (days 400) old_db purged_db
unfolding purge_old_data purge_old_request_events cutoff_of purge_old_whois_records purge_stale_ips
    is_eligible any delete_ips
purge_old_data-Purged_example =
    purge_old_data-Purged retention (days 400) old_db purged_db
      (record { request_events = 0; whois_records = 0; ips = 1 }) refl

-- A lookup of the address that is too old; it goes with the address.
abbrev lookup : WhoisRecord
lookup = record {
  ip_id = 1;
  queried_at = days 390;
  whois_server = [];
  raw_response = [];
  parsed_data = [];
  response_hash = [];
}

only : {A : Type 0} (P : A → Type 0) (a : A) → P a → (x : A) → Elem x (a ∷ []) → P x
only P a h x (inl e) = subst P (sym e) h
only P a h x (inr never) = absurd never

known_of : (pk : ℕ) (r : IpAddress) → get_ip pk before ≡ some r → known ≡ r
unfolding get_ip
known_of pk r h = ground arith

before-Consistent : Consistent before
unfolding filter
before-Consistent = record {
  distinct = (λ x i. absurd i, tt);
  below = only (λ (r : IpAddress). r.id < 2) known (omega arith);
  history_below = λ h i. absurd i;
  agree = λ pk r h. subst (Agrees []) (known_of pk r h) (unflagged refl refl refl);
}

-- The address that had no row.
record_sightings_bulk_refines_example :
    view after.ips (codes "2.57.3.9")
    ≡ later (view before.ips (codes "2.57.3.9")) (seen_in (codes "2.57.3.9") sightings)
record_sightings_bulk_refines_example =
    record_sightings_bulk_refines sightings before after rows (codes "2.57.3.9") before-Consistent
      recorded
