-- ===== src/Tests/Iran.antt =====
-- Networks, classification and validation at concrete inputs.
use ip_scout.Prelude.{
  ◌⊎◌, ℕ, ◌+◌, ◌-◌, ◌^◌, ◌≡◌, refl, Bool, true, false, ◌&&◌, Option, none, some, List, [], ◌∷◌,
  Text, codes, arith, ◌==◌, leb, ltb, subst, filter, text_eq,
}
use ip_scout.Errors.{ok}
use ip_scout.Python.Number.{int}
use ip_scout.Python.Ipaddress.Network.{Network, ip_network}
use ip_scout.Python.Ipaddress.Network.Summary.{Tiles}
use ip_scout.Common.Fields.{get_prep_value}
use ip_scout.Models.{process_new_ip, IpAddress, IpCountryHistory, CountryNetwork, one, Db, empty_db}
use ip_scout.Models.Tables.{get_ip, update_ip}
use ip_scout.Ips.Sightings.{
  new_row, record_sightings_bulk, create_missing, put_latest, exists_at, touch_all, row_at,
  insert_row, touch,
}
use ip_scout.Iran.Match.{Contains, find_matching_cidr}
use ip_scout.Iran.Match.Laws.{IsMatch, find_matching_cidr-IsMatch}
use ip_scout.Iran.Classify.{classify, apply_verdict, verdict, history_after, changed}
use ip_scout.Iran.Classify.Laws.{Agrees, flagged, unflagged, AllAgree, classify-AllAgree}
use ip_scout.Iran.Providers.{CidrEntry, ripencc, fetch, ipv4_blocks, prefix_length_of}
use ip_scout.Iran.Providers.Laws.{IsIpv4Record, ipv4_blocks_total}
use ip_scout.Iran.Validation.{
  Upserted, sync, upsert_all, prepared, upsert, insert_network, disable_removed, is_removed, run,
  run_entries, reevaluate,
}
use ip_scout.System
use ip_scout.System.Laws.{Reachable-Consistent}
use ip_scout.Ips.Sightings.Consistent.{Consistent}
use ip_scout.Ips.Identity.{normalize_ip, version_of}
use ip_scout.Iran.Validation.Runs.{run-AllAgree}
use ip_scout.Iran.Validation.Sync.{Synced, sync-Synced}

within : Option Network → Option Network → Bool
within (some c) (some a) =
    (c.bits == a.bits) && leb c.first a.first && ltb a.first (c.first + 2 ^ (c.bits - c.prefix))
within _ _ = false

-- The containment of the database, for networks that `ipaddress` reads.
contains : Contains
unfolding ip_network within
contains cidr address = within (ip_network cidr) (ip_network address)

abbrev network_row : ℕ → Text → ℕ → CountryNetwork
network_row id cidr prefix = record {
  id = id;
  country_code = codes "IR";
  cidr = cidr;
  network = [];
  prefix_length = prefix;
  source = codes "manual";
  last_verified_at = none;
  enabled = true;
}

abbrev wide : CountryNetwork
wide = network_row 1 (codes "2.56.0.0/14") 14

abbrev narrow : CountryNetwork
narrow = network_row 2 (codes "2.57.3.0/24") 24

abbrev row : IpAddress
row = new_row 1 (codes "2.57.3.9") 4 100

abbrev db : Db
db = record empty_db { networks = wide ∷ narrow ∷ []; ips = row ∷ [] }

find_matching_cidr-IsMatch_example : IsMatch contains (codes "2.57.3.9/32") db (some narrow)
unfolding find_matching_cidr contains get_prep_value int
find_matching_cidr-IsMatch_example =
    find_matching_cidr-IsMatch contains (codes "2.57.3.9") db (codes "2.57.3.9/32") (some narrow)
      refl refl

abbrev flagged_row : IpAddress
flagged_row = record row {
  is_iran = true;
  iran_match_cidr = some (codes "2.57.3.0/24");
  iran_checked_at = some 7;
}

abbrev classified_db : Db
classified_db = record db {
  ips = flagged_row ∷ [];
  history =
      record {
        ip_id = 1;
        country_code = codes "IR";
        source = codes "manual";
        cidr = some (codes "2.57.3.0/24");
        valid_from = 7;
        valid_until = none;
        confidence = one;
      }
      ∷ [];
}

row_of : (pk : ℕ) (r : IpAddress) → get_ip pk db ≡ some r → row ≡ r
unfolding get_ip
row_of pk r h = ground arith

fresh_AllAgree : AllAgree db
unfolding filter
fresh_AllAgree pk r h = subst (Agrees []) (row_of pk r h) (unflagged refl refl refl)

classify-AllAgree_example : AllAgree classified_db × (get_ip 1 classified_db ≡ some flagged_row)
unfolding classify get_ip contains find_matching_cidr apply_verdict update_ip verdict int
    history_after changed
classify-AllAgree_example =
    classify-AllAgree contains 7 row db classified_db flagged_row refl fresh_AllAgree refl

ipv4_blocks_total_example :
    ((first : ℕ) × (count : ℕ) × (ns : List Network) × IsIpv4Record
        (codes "2.57.3.0")
        (codes "768")
        first
        count
      × (ipv4_blocks (codes "2.57.3.0") (codes "768") ≡ some ns)
      × Tiles 32 first ns (first + count))
    ⊎ ((ipv4_blocks (codes "2.57.3.0") (codes "768") ≡ none)
        × ((first count : ℕ) → ¬ (IsIpv4Record (codes "2.57.3.0") (codes "768") first count)))
ipv4_blocks_total_example = ipv4_blocks_total (codes "2.57.3.0") (codes "768")

-- A list without the wide network, and with one that is new.
abbrev entry : Text → CidrEntry
entry cidr = record { cidr = cidr; country_code = codes "IR"; network = [] }

abbrev entries : List CidrEntry
entries = entry (codes "2.57.3.0/24") ∷ entry (codes "5.1.0.0/16") ∷ []

abbrev synced : Db
synced = record db {
  networks =
      record wide { enabled = false; last_verified_at = some 9 }
      ∷ record narrow { last_verified_at = some 9 }
      ∷ record (network_row 1 (codes "5.1.0.0/16") 16) { last_verified_at = some 9 }
      ∷ [];
  next_network = 2;
}

abbrev upserted : Upserted
upserted = record {
  db = synced;
  created = 1;
  fetched_cidrs = codes "5.1.0.0/16" ∷ codes "2.57.3.0/24" ∷ [];
}

sync-Synced_example : Synced (codes "manual") entries synced
unfolding sync upsert_all prepared get_prep_value int upsert text_eq insert_network prefix_length_of
    disable_removed is_removed
sync-Synced_example = sync-Synced 9 (codes "manual") entries db upserted 1 refl

-- The list no longer has the network of a flagged address.
abbrev listed : CountryNetwork
listed = record narrow { source = codes "ripencc" }

abbrev open_period : IpCountryHistory
open_period = record {
  ip_id = 1;
  country_code = codes "IR";
  source = codes "ripencc";
  cidr = some (codes "2.57.3.0/24");
  valid_from = 7;
  valid_until = none;
  confidence = one;
}

abbrev flagged_db : Db
flagged_db = record empty_db {
  networks = listed ∷ [];
  ips = flagged_row ∷ [];
  history = open_period ∷ [];
}

abbrev revoked_db : Db
revoked_db = record flagged_db {
  networks = record listed { enabled = false; last_verified_at = some 9 } ∷ [];
  ips =
      record flagged_row { is_iran = false; iran_match_cidr = none; iran_checked_at = some 9 } ∷ [];
  history = record open_period { valid_until = some 9 } ∷ [];
}

flagged_row_of : (pk : ℕ) (r : IpAddress) → get_ip pk flagged_db ≡ some r → flagged_row ≡ r
unfolding get_ip
flagged_row_of pk r h = ground arith

flagged_AllAgree : AllAgree flagged_db
unfolding filter
flagged_AllAgree pk r h =
    subst (Agrees (open_period ∷ [])) (flagged_row_of pk r h) (flagged open_period refl refl refl)

run-AllAgree_example : AllAgree revoked_db
unfolding run run_entries sync upsert_all fetch reevaluate is_removed disable_removed classify
    find_matching_cidr apply_verdict update_ip verdict history_after changed
run-AllAgree_example =
    run-AllAgree contains 9 ripencc [] flagged_db revoked_db
      (record { fetched = 0; created = 0; disabled = 1; reevaluated = 1 }) ((λ x i. absurd i), tt)
      flagged_AllAgree refl

-- A network, a first sighting of an address in it, and the classification that follows.
abbrev network_db : Db
network_db = record empty_db { networks = listed ∷ [] }

abbrev sighted_db : Db
sighted_db = record network_db { ips = row ∷ []; next_ip = 2; queue = process_new_ip 1 ∷ [] }

abbrev followed_db : Db
followed_db = record sighted_db { ips = flagged_row ∷ []; history = open_period ∷ [] }

sighted :
    record_sightings_bulk ((codes "2.57.3.9", 100) ∷ []) network_db ≡ ok (sighted_db, row ∷ [])
unfolding record_sightings_bulk normalize_ip create_missing put_latest exists_at version_of
    touch_all row_at insert_row touch
sighted = refl

followed : classify contains 7 row sighted_db ≡ ok (followed_db, flagged_row)
unfolding classify get_ip contains find_matching_cidr apply_verdict update_ip verdict int
    history_after changed
followed = refl

current : get_ip 1 sighted_db ≡ some row
unfolding get_ip
current = refl

Reachable-Consistent_example : Consistent followed_db
Reachable-Consistent_example = Reachable-Consistent contains followed_db (
    System.next sighted_db followed_db
      (System.next network_db sighted_db
        (System.next empty_db network_db (System.start (λ a. true)) (
          System.elsewhere empty_db network_db
            (record { ips = refl; history = refl; next_ip = refl })))
        (System.recorded ((codes "2.57.3.9", 100) ∷ []) network_db sighted_db (row ∷ []) sighted))
      (System.reclassified 7 row flagged_row sighted_db followed_db current followed))
