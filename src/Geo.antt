-- ===== src/Geo.antt =====
-- apps/geo: the providers, `GeoIPService.enrich` and the task `enrich_ip`. The database that
-- `geoip2` reads is a parameter.
use ip_scout.Prelude.{ℕ, Option, none, some, [], Text, codes, text_eq, if◌then◌else◌}
use ip_scout.Errors.{Outcome, ok, raise, improperly_configured, ◌>>=◌}
use ip_scout.Python.Strip.{is_nil}
use ip_scout.Models.{Time, Float, IpAddress, geo, Db}
use ip_scout.Models.Tables.{get_ip, update_ip}
use ip_scout.Common.Locks.{World, locked}
use ip_scout.Whois.Lookup.{seconds}

pub record GeoResult : Type 0 where
  pub country_code : Text
  pub country_name : Text
  pub continent : Text
  pub latitude : Option Float
  pub longitude : Option Float

-- What `reader.city` answers at a path; a missing text is `none`, an unknown address too.
pub record CityResponse : Type 0 where
  pub iso_code : Option Text
  pub name : Option Text
  pub code : Option Text
  pub latitude : Option Float
  pub longitude : Option Float

abbrev pub City : Type 0
City = Text → Text → Option CityResponse

pub data GeoProvider : Type 0 where
  null : GeoProvider
  maxmind : Text → GeoProvider

-- MaxMindGeoIPProvider(): the configured path must be there.
unfoldable pub maxmind_provider : Text → Outcome GeoProvider
maxmind_provider path =
    if is_nil path
    then raise (improperly_configured (codes "GEOIP_DATABASE_PATH"))
    else ok (maxmind path)

-- get_provider() with settings.GEOIP_PROVIDER and settings.GEOIP_DATABASE_PATH
unfoldable pub get_provider : Option Text → Text → Text → Outcome GeoProvider
unfolding text_eq maxmind_provider
get_provider name configured path =
    let key : Text = elim name [
      | none ↦ configured
      | some n ↦ if is_nil n then configured else n
    ] in
    if text_eq key (codes "null")
    then ok null
    else if text_eq key (codes "maxmind")
    then maxmind_provider path
    else raise (improperly_configured (codes "Unknown GEOIP_PROVIDER"))

abbrev or_empty : Option Text → Text
or_empty none = []
or_empty (some t) = t

-- provider.lookup(address)
unfoldable pub geo_lookup : City → GeoProvider → Text → Option GeoResult
geo_lookup city null address = none
geo_lookup city (maxmind path) address = elim (city path address) [
  | none ↦ none
  | some r ↦ some (record {
    country_code = or_empty r.iso_code;
    country_name = or_empty r.name;
    continent = or_empty r.code;
    latitude = r.latitude;
    longitude = r.longitude;
  })
]

abbrev pub located : GeoResult → IpAddress → IpAddress
located g r = record r {
  country_code = g.country_code;
  country_name = g.country_name;
  continent = g.continent;
  latitude = g.latitude;
  longitude = g.longitude;
}

-- GeoIPService.enrich
unfoldable pub enrich : City → GeoProvider → IpAddress → Db → Db
unfolding geo_lookup update_ip
enrich city provider ip db = elim (geo_lookup city provider ip.address) [
  | none ↦ db
  | some g ↦ update_ip ip.id (located g) db
]

unfoldable pub enrich_ip : City → Text → Text → Time → ℕ → World → Outcome World
unfolding get_ip get_provider
enrich_ip city configured path now ip_id w = elim (get_ip ip_id w.db) [
  | none ↦ ok w
  | some ip ↦
      locked now (geo ip.address) (seconds 60)
        (λ db. get_provider none configured path >>= λ p. ok (enrich city p ip db)) w
]
