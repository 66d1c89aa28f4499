-- ===== src/Dashboard/Analytics/Top.antt =====
-- The periods and the rankings of the dashboard.
use ip_scout.Prelude.{
  ◌≤◌, ◌≡◌, refl, ap, true, List, [], ◌∷◌, ◌==◌, map, not, ◌&&◌, filter, any, any_found, any-Elem,
  Elem, arith, ◌≢◌, Text,
}
use ip_scout.Query.{text_column_eq}
use ip_scout.Query.Counted.{Selected, filter-Selected}
use ip_scout.Query.Ranked.{IsTop, take-IsTop}
use ip_scout.Python.Strip.{is_nil}
use ip_scout.Models.{Time, IpAddress, RequestEvent, Db}
use ip_scout.Dashboard.Analytics.Rows.{
  Flagged, iranian_rows-Flagged, Networks, matched_cidrs-Networks,
}
use ip_scout.Dashboard.{in_period, ips_in_period}
use ip_scout.Dashboard.Analytics.{
  top_n, period_events, iranian_rows, matched_cidrs, ranking, countries, top_iranian_ips,
  top_iranian_cidrs, DashboardSeries, build,
}

-- The event lies in the period, whose ends belong to it.
abbrev pub InPeriod : Time → Time → RequestEvent → Type 0
InPeriod start end e = (start ≤ e.timestamp) × (e.timestamp ≤ end)

-- The address has an event in the period.
abbrev pub HasEvent : Time → Time → Db → IpAddress → Type 0
HasEvent start end db r =
    (e : RequestEvent) × Elem e db.events × InPeriod start end e × (e.ip_id ≡ r.id)

pub period_events-Selected :
    (start end : Time) (db : Db)
    → Selected (InPeriod start end) db.events (period_events start end db)
unfolding period_events in_period
period_events-Selected start end db =
    filter-Selected (InPeriod start end) (in_period start end) (λ e h. (ground arith, ground arith))
      (λ e h p. let (a, b) = p in absurd (ground (arith, a, b))) db.events

pub ips_in_period-Selected :
    (start end : Time) (db : Db)
    → Selected (HasEvent start end db) db.ips (ips_in_period start end db)
unfolding ips_in_period in_period
ips_in_period-Selected start end db =
    filter-Selected (HasEvent start end db)
      (λ (r : IpAddress).
        any (λ (e : RequestEvent). in_period start end e && (e.ip_id == r.id)) db.events)
      (λ r h.
        let (e, i, k) =
          any_found (λ (x : RequestEvent). in_period start end x && (x.ip_id == r.id)) db.events
            h in
        (e, i, (ground (arith, k), ground (arith, k)), ground (arith, k)))
      (λ r h p.
        let (e, i, (a, b), same) = p in
        let yes =
          any-Elem (λ (x : RequestEvent). in_period start end x && (x.ip_id == r.id)) db.events e i
            (ground (arith, a, b, same)) in
        absurd (ground (arith, yes, h)))
      db.ips

nil_of : (t : Text) → is_nil t ≡ true → t ≡ []
nil_of [] h = refl
nil_of (c ∷ t) h = absurd (ground (arith, h))

-- What the three short rankings say: of the addresses and of the networks by the events of the period,
-- and of the countries by the addresses of the period.
pub record Ranks (db : Db) (events : List RequestEvent) (ips : List IpAddress)
    (series : DashboardSeries) : Type 0 where
  pub rows : List IpAddress
  pub rows_are : Flagged db.ips events rows
  pub addresses : IsTop top_n (map (λ (r : IpAddress). r.address) rows) series.top_iranian_ips
  pub networks : List Text
  pub networks_are : Networks rows networks
  pub cidrs : IsTop top_n networks series.top_iranian_cidrs
  pub located : List IpAddress
  pub located_are : Selected (λ (r : IpAddress). r.country_code ≢ []) ips located
  pub countries : IsTop top_n (map (λ (r : IpAddress). r.country_code) located) series.top_countries

pub build-Ranks :
    (start end : Time) (db : Db)
    → Ranks db (period_events start end db) (ips_in_period start end db) (build start end db)
unfolding build top_iranian_ips top_iranian_cidrs countries ranking
build-Ranks start end db = record {
  rows = iranian_rows db (period_events start end db);
  rows_are = iranian_rows-Flagged db (period_events start end db);
  addresses = take-IsTop top_n _;
  networks = matched_cidrs (iranian_rows db (period_events start end db));
  networks_are = matched_cidrs-Networks (iranian_rows db (period_events start end db));
  cidrs = take-IsTop top_n _;
  located = filter (λ (r : IpAddress). not (is_nil r.country_code)) (ips_in_period start end db);
  located_are = located_lem (ips_in_period start end db);
  countries = take-IsTop top_n _;
}
  where
    located_lem :
        (ips : List IpAddress)
        → Selected
            (λ (r : IpAddress). r.country_code ≢ [])
            ips
            (filter (λ (r : IpAddress). not (is_nil r.country_code)) ips)
    located_lem ips =
        filter-Selected (λ (r : IpAddress). r.country_code ≢ [])
          (λ (r : IpAddress). not (is_nil r.country_code))
          (λ r h e. let k = ap is_nil e in absurd (ground (arith, h, k)))
          (λ r h n. n (nil_of r.country_code (ground (arith, h)))) ips
