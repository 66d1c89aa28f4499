-- ===== src/Tests/Whois.antt =====
-- Lookups at concrete inputs.
use ip_scout.Prelude.{◌*◌, ◌^◌, ◌≡◌, ◌<◌, refl, true, false, some, [], ◌∷◌, Text, codes, arith}
use ip_scout.Python.Split.{splitlines}
use ip_scout.Models.{IpAddress, whois, empty_db}
use ip_scout.Models.Tables.{get_ip}
use ip_scout.Common.Locks.{World, held, add}
use ip_scout.Ips.Identity.{needs_whois_check}
use ip_scout.Ips.Sightings.{new_row}
use ip_scout.Whois.Parser.{values_of, parse_generic}
use ip_scout.Whois.Parser.Laws.{Collected, parse_generic-Collected}
use ip_scout.Whois.Lookup.{
  Binary, Settings, timed_out, gave_up, perform_whois_lookup, locked_lookup, run_lookup,
}
use ip_scout.Whois.Lookup.Laws.{perform_whois_lookup-done, perform_whois_lookup-retry}

abbrev response : Text
response = codes "% note\n# x: y\nCountry: IR\ndescr: a\n\ndescr: b\n"

parse_generic-Collected_example :
    Collected
      (codes "descr")
      (splitlines response)
      (values_of (codes "descr") (parse_generic response))
parse_generic-Collected_example = parse_generic-Collected response (codes "descr")

-- A binary that does not answer in time.
abbrev slow : Binary
slow = record {
  exists = true;
  run = λ a. timed_out;
  invalid_error = λ a. codes "invalid";
  missing_error = codes "missing";
  timeout_error = codes "timed out";
  empty_error = λ c. codes "empty";
  sha256 = λ t. t;
}

abbrev settings : Settings
settings = record { whois_timeout = 10; whois_cache_days = 7 }

abbrev row : IpAddress
row = new_row 1 (codes "2.57.3.9") 4 100

abbrev world : World
world = record { db = record empty_db { ips = row ∷ [] }; cache = [] }

abbrev after : World
after = record {
  db = record empty_db { ips = gave_up settings 1000 (codes "timed out") row ∷ [] };
  cache = [];
}

perform_whois_lookup-done_example :
    (r : IpAddress) × (get_ip 1 after.db ≡ some r) × (needs_whois_check 1000 r ≡ false)
unfolding perform_whois_lookup held needs_whois_check locked_lookup add run_lookup
perform_whois_lookup-done_example =
    perform_whois_lookup-done settings 1000 slow 3 row world after (omega arith) refl refl refl

perform_whois_lookup-retry_example :
    (2 < 3)
    × (120 ≡ 30 * 2 ^ 2)
    × (world.db ≡ world.db)
    × (held 1000 (whois row.address) world.cache ≡ false)
unfolding perform_whois_lookup held locked_lookup add run_lookup
perform_whois_lookup-retry_example =
    perform_whois_lookup-retry settings 1000 slow 2 120 true row world world refl refl refl
