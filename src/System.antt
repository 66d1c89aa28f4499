-- ===== src/System.antt =====
-- The changes that the tasks and pages of all apps make to the addresses, as one relation.
pub mod Keys
pub mod Purge
pub mod Laws
use ip_scout.Prelude.{Bool, Text, ℕ, ◌≡◌, some, List}
use ip_scout.Errors.{ok}
use ip_scout.Models.{Time, IpAddress, Db, empty_db}
use ip_scout.Models.Tables.{get_ip}
use ip_scout.Ips.Sightings.{Sighting, record_sightings_bulk}
use ip_scout.Ips.Retention.{Retention, PurgeResult, purge_old_data}
use ip_scout.Iran.Match.{Contains}
use ip_scout.Iran.Classify.{classify}
use ip_scout.Iran.Providers.{Provider}
use ip_scout.Iran.Validation.{ValidationSummary, run}
use ip_scout.Iran.Validation.Runs.{SameIps}
use ip_scout.Whois.Lookup.{Binary, Settings, run_lookup}
use ip_scout.Geo.{City, GeoProvider, enrich}

module _ (contains : Contains) where
  -- One change: sightings are recorded, the current row of an address is classified, an address is
  -- looked up or located, the networks are validated, old rows are purged, or something else than the
  -- addresses and the history is changed.
  pub data Change : Db → Db → Type 0 where
    recorded :
        (sightings : List Sighting) (db db' : Db) (rows : List IpAddress)
        → record_sightings_bulk sightings db ≡ ok (db', rows)
        → Change db db'
    reclassified :
        (now : Time) (ip ip' : IpAddress) (db db' : Db)
        → get_ip ip.id db ≡ some ip
        → classify contains now ip db ≡ ok (db', ip')
        → Change db db'
    validated :
        (now : Time) (provider : Provider) (body : Text) (db db' : Db) (summary : ValidationSummary)
        → run contains now provider body db ≡ ok (db', summary)
        → Change db db'
    looked_up :
        (settings : Settings) (now : Time) (binary : Binary) (retries : ℕ) (ip : IpAddress)
        (db db' : Db)
        → run_lookup settings now binary retries ip db ≡ ok (some db')
        → Change db db'
    enriched :
        (city : City) (provider : GeoProvider) (ip : IpAddress) (db : Db)
        → Change db (enrich city provider ip db)
    purged :
        (retention : Retention) (now : Time) (db db' : Db) (result : PurgeResult)
        → purge_old_data retention now db ≡ ok (db', result)
        → Change db db'
    elsewhere : (db db' : Db) → SameIps db db' → Change db db'

  -- The states that changes lead to from an empty database.
  pub data Reachable : Db → Type 0 where
    start : (keeps : Text → Bool) → Reachable (record empty_db { keeps = keeps })
    next : (db db' : Db) → Reachable db → Change db db' → Reachable db'
