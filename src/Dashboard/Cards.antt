-- ===== src/Dashboard/Cards.antt =====
-- The numbers of apps/dashboard/views.py and the pages of settings of settings_views.py.
use ip_scout.Prelude.{
  ℕ, Option, none, some, Bool, ◌&&◌, List, [], ◌∷◌, Text, codes, filter, length, is_some, text_eq,
  if◌then◌else◌,
}
use ip_scout.Errors.{Outcome, ok, raise, improperly_configured, ◌>>=◌}
use ip_scout.Python.Strip.{is_nil}
use ip_scout.Models.{Time, Server, LogSource, IpAddress, CountryNetwork, Db}
use ip_scout.Ips.Identity.{whois_pending_queryset}
use ip_scout.Geo.{GeoProvider, get_provider}

-- The cards of index, each with its label
unfoldable pub stat_cards : Time → Db → List (Text × ℕ)
unfolding filter whois_pending_queryset
stat_cards now db =
    (codes "503 Requests", length db.events)
    ∷ (codes "Unique IPs", length db.ips)
    ∷ (codes "Iranian IPs", length (filter (λ (r : IpAddress). r.is_iran) db.ips))
    ∷ (codes "Active Servers", length (filter (λ (s : Server). s.enabled) db.servers))
    ∷ (codes "Monitored Logs", length (filter (λ (s : LogSource). s.enabled) db.log_sources))
    ∷ (codes "WHOIS Queue", length (whois_pending_queryset now db))
    ∷ []

-- WhoisService._resolve_binary: `exists` is what the file system has, and `which` what the PATH finds.
unfoldable pub resolve_binary : (Text → Bool) → Option Text → Text → Text
resolve_binary exists which configured =
    if exists configured
    then configured
    else elim which [ none ↦ configured | some found ↦ if is_nil found then configured else found ]

pub record WhoisPage : Type 0 where
  pub whois_binary : Text
  pub resolved_binary : Text
  pub binary_found : Bool
  pub whois_pending_count : ℕ

-- settings_whois, but for the settings that it shows as they are
unfoldable pub settings_whois : (Text → Bool) → Option Text → Text → Time → Db → WhoisPage
unfolding resolve_binary whois_pending_queryset
settings_whois exists which configured now db =
    let resolved = resolve_binary exists which configured in
    record {
      whois_binary = configured;
      resolved_binary = resolved;
      binary_found = exists resolved;
      whois_pending_count = length (whois_pending_queryset now db);
    }

pub record GeoipPage : Type 0 where
  pub geoip_provider : Text
  pub geoip_database_path : Text
  pub provider_error : Text
  pub ips_with_coordinates : ℕ

-- str(exc) of an ImproperlyConfigured; any other exception leaves the page.
abbrev provider_error_of : Outcome GeoProvider → Outcome Text
provider_error_of (ok _) = ok []
provider_error_of (raise (improperly_configured text)) = ok text
provider_error_of (raise e) = raise e

-- settings_geoip
unfoldable pub settings_geoip : Text → Text → Db → Outcome GeoipPage
unfolding get_provider filter
settings_geoip provider path db = do
  error ← provider_error_of (get_provider none provider path)
  ok (record {
    geoip_provider = provider;
    geoip_database_path = path;
    provider_error = error;
    ips_with_coordinates = length (filter (λ (r : IpAddress). is_some r.latitude) db.ips);
  })

-- settings_iran_sources: the networks of Iran, and those that are enabled
unfoldable pub iran_counts : Db → ℕ × ℕ
unfolding filter text_eq
iran_counts db =
    let of_iran = λ (n : CountryNetwork). text_eq n.country_code (codes "IR") in
    (
      length (filter of_iran db.networks),
      length (filter (λ (n : CountryNetwork). of_iran n && n.enabled) db.networks),
    )
