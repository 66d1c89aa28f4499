-- ===== src/Dashboard/Analytics/Series.antt =====
-- All that the dashboard shows of a period.
use ip_scout.Prelude.{◌+◌, ◌-◌, ◌≤◌, ◌<◌, ℕ, ◌≡◌, refl, true, false, List, length, is_some, arith}
use ip_scout.Query.Counted.{Selected, Numbers, filter-Selected}
use ip_scout.Models.{Time, IpAddress, RequestEvent, Db}
use ip_scout.Dashboard.{bucket_trunc, ips_in_period, IranSplit, iran_split, is_other, is_unknown}
use ip_scout.Dashboard.Laws.{iran_split-length}
use ip_scout.Dashboard.Analytics.{bucket_length, period_events, DashboardSeries, build}
use ip_scout.Dashboard.Analytics.Laws.{
  IsHistogram, CountsIps, requests_over_time-IsHistogram, unique-CountsIps,
}
use ip_scout.Dashboard.Analytics.Top.{
  InPeriod, HasEvent, period_events-Selected, ips_in_period-Selected, Ranks, build-Ranks,
}

-- The length of the buckets, in microseconds: a minute up to two hours, an hour up to two days, a day
-- above.
abbrev pub IsStep : ℕ → ℕ → Type 0
IsStep duration step =
    (duration ≤ 7200000000 → step ≡ 60000000)
    × (7200000000 < duration → duration ≤ 172800000000 → step ≡ 3600000000)
    × (172800000000 < duration → step ≡ 86400000000)

-- The flagged, the checked and the unchecked ones of some addresses, which are all of them.
pub record Splits (ips : List IpAddress) (split : IranSplit) : Type 0 where
  pub iran : Numbers (λ (r : IpAddress). r.is_iran ≡ true) ips split.iran
  pub other :
      Numbers
        (λ (r : IpAddress). (r.is_iran ≡ false) × (is_some r.iran_checked_at ≡ true))
        ips
        split.other
  pub unknown :
      Numbers
        (λ (r : IpAddress). (r.is_iran ≡ false) × (is_some r.iran_checked_at ≡ false))
        ips
        split.unknown
  pub all : split.iran + split.other + split.unknown ≡ length ips

-- What the series say of the events and the addresses of a period.
pub record IsSeries (start end : Time) (db : Db) (series : DashboardSeries) : Type 0 where
  pub events : List RequestEvent
  pub events_are : Selected (InPeriod start end) db.events events
  pub ips : List IpAddress
  pub ips_are : Selected (HasEvent start end db) db.ips ips
  pub step : ℕ
  pub step_is : IsStep (end - start) step
  pub requests : IsHistogram step events series.requests_over_time
  pub unique_ips : CountsIps step events series.requests_over_time series.unique_ips_over_time
  pub ranks : Ranks db events ips series
  pub split : Splits ips series.iran_split

bucket_trunc-IsStep :
    (start end : Time) → IsStep (end - start) (bucket_length (bucket_trunc start end))
unfolding bucket_trunc
bucket_trunc-IsStep start end =
    (λ a. ground (arith, a), λ a b. ground (arith, a, b), λ a. ground (arith, a))

iran_split-Splits :
    (start end : Time) (db : Db) → Splits (ips_in_period start end db) (iran_split start end db)
unfolding iran_split
iran_split-Splits start end db =
    let ips = ips_in_period start end db in
    record {
      iran = (
        _,
        filter-Selected (λ (r : IpAddress). r.is_iran ≡ true) (λ (r : IpAddress). r.is_iran)
            (λ r h. h) (λ r h p. absurd (ground (arith, h, p))) ips,
        refl,
      );
      other = (
        _,
        filter-Selected
            (λ (r : IpAddress). (r.is_iran ≡ false) × (is_some r.iran_checked_at ≡ true)) is_other
            (λ r h. (ground (arith, h), ground (arith, h)))
            (λ r h p. let (a, b) = p in absurd (ground (arith, h, a, b))) ips,
        refl,
      );
      unknown = (
        _,
        filter-Selected
            (λ (r : IpAddress). (r.is_iran ≡ false) × (is_some r.iran_checked_at ≡ false))
            is_unknown (λ r h. (ground (arith, h), ground (arith, h)))
            (λ r h p. let (a, b) = p in absurd (ground (arith, h, a, b))) ips,
        refl,
      );
      all = iran_split-length start end db;
    }

-- The dashboard of a period, whose ends belong to it. Its buckets are of a minute for a period of up
-- to two hours, of an hour for up to two days, and of a day above. Its first series is the histogram
-- of the period's events: the buckets ascend, each has the number of its events, and together they
-- have all of them. The second has the same buckets, each with the number of the different addresses
-- that have an event in it. Each short ranking holds at most ten groups in falling order, each with
-- the number of its rows, and no group that is left out has more rows than one that is shown. The
-- rows are, for the addresses and the networks, the flagged rows of the addresses of the period's
-- events, one for each event, and, for the countries, those of the addresses with an event in the
-- period that have a country. The split counts the Iranian, the other checked and the unchecked ones
-- of the addresses with an event in the period, which are all of them.
pub build-IsSeries : (start end : Time) (db : Db) → IsSeries start end db (build start end db)
unfolding build
build-IsSeries start end db =
    let b = bucket_trunc start end in
    let events = period_events start end db in
    record {
      events = events;
      events_are = period_events-Selected start end db;
      ips = ips_in_period start end db;
      ips_are = ips_in_period-Selected start end db;
      step = bucket_length b;
      step_is = bucket_trunc-IsStep start end;
      requests = requests_over_time-IsHistogram b events;
      unique_ips = unique-CountsIps b events;
      ranks = build-Ranks start end db;
      split = iran_split-Splits start end db;
    }
