-- ===== src/Dashboard/Analytics.antt =====
-- apps/dashboard/analytics.py: `DashboardAnalyticsService.build`. The time zone of the settings is UTC,
-- their default, so that the start of a minute, an hour or a day is a multiple of its length.
pub mod Laws
pub mod Rows
pub mod Series
pub mod Top
use ip_scout.Prelude.{
  ℕ, ◌-◌, ◌*◌, ◌%◌, Option, none, some, Bool, not, ◌&&◌, List, [], ◌∷◌, Text, ◌==◌, ltb, filter,
  map, take, length, is_some, if◌then◌else◌,
}
use ip_scout.Query.{Eq, nat_eq, text_column_eq, group_counts, distinct, order_by}
use ip_scout.Python.Strip.{is_nil}
use ip_scout.Models.{Time, IpAddress, RequestEvent, Db}
use ip_scout.Models.Tables.{get_ip}
use ip_scout.Dashboard.{
  Bucket, minute, hour, day, bucket_trunc, in_period, ips_in_period, IranSplit, iran_split,
}

abbrev pub bucket_length : Bucket → ℕ
bucket_length minute = 60000000
bucket_length hour = 3600000000
bucket_length day = 86400000000

-- TruncMinute, TruncHour and TruncDay
unfoldable pub truncated : Bucket → Time → Time
truncated b t = t - t % bucket_length b

unfoldable pub period_events : Time → Time → Db → List RequestEvent
unfolding filter in_period
period_events start end db = filter (in_period start end) db.events

abbrev pub bucket_of : Bucket → RequestEvent → Time
bucket_of b e = truncated b e.timestamp

abbrev pub earlier : Time × ℕ → Time × ℕ → Bool
earlier x y = ltb x.0 y.0

-- events.annotate(bucket=…).values("bucket").annotate(count=Count("id")).order_by("bucket")
unfoldable pub requests_over_time : Bucket → List RequestEvent → List (Time × ℕ)
unfolding group_counts order_by
requests_over_time b events = order_by earlier (group_counts (map (bucket_of b) events))

-- Count("ip_id", distinct=True) of a bucket
unfoldable pub unique_ips_of : Bucket → List RequestEvent → Time → ℕ
unfolding filter distinct
unique_ips_of b events t =
    length
      (distinct (map (λ (e : RequestEvent). e.ip_id) (filter (λ e. bucket_of b e == t) events)))

-- The same buckets, with the number of different addresses in each
unfoldable pub unique_ips_over_time : Bucket → List RequestEvent → List (Time × ℕ)
unfolding requests_over_time unique_ips_of
unique_ips_over_time b events =
    map (λ (x : Time × ℕ). (x.0, unique_ips_of b events x.0)) (requests_over_time b events)

-- order_by("-count")
abbrev pub larger : Text × ℕ → Text × ℕ → Bool
larger x y = ltb y.1 x.1

-- values(…).annotate(count=Count("id")).order_by("-count")
unfoldable pub ranking : List Text → List (Text × ℕ)
unfolding group_counts order_by
ranking values = order_by larger (group_counts values)

-- ips_in_period.exclude(country_code="")…
unfoldable pub countries : List IpAddress → List (Text × ℕ)
unfolding ranking filter
countries rows = ranking (
    map (λ (r : IpAddress). r.country_code)
      (filter (λ (r : IpAddress). not (is_nil r.country_code)) rows))

abbrev pub top_n : ℕ
top_n = 10

-- The rows of Iranian addresses, one for each event of theirs
unfoldable pub iranian_rows : Db → List RequestEvent → List IpAddress
unfolding get_ip
iranian_rows db [] = []
iranian_rows db (e ∷ events) =
    let rest = iranian_rows db events in
    elim (get_ip e.ip_id db) [ none ↦ rest | some r ↦ if r.is_iran then r ∷ rest else rest ]

unfoldable pub top_iranian_ips : Db → List RequestEvent → List (Text × ℕ)
unfolding ranking iranian_rows
top_iranian_ips db events =
    take top_n (ranking (map (λ (r : IpAddress). r.address) (iranian_rows db events)))

-- The networks of the rows that have one
unfoldable pub matched_cidrs : List IpAddress → List Text
matched_cidrs [] = []
matched_cidrs (r ∷ rows) =
    let rest = matched_cidrs rows in
    elim r.iran_match_cidr [ none ↦ rest | some cidr ↦ cidr ∷ rest ]

unfoldable pub top_iranian_cidrs : Db → List RequestEvent → List (Text × ℕ)
unfolding ranking iranian_rows matched_cidrs
top_iranian_cidrs db events = take top_n (ranking (matched_cidrs (iranian_rows db events)))

pub record DashboardSeries : Type 0 where
  pub requests_over_time : List (Time × ℕ)
  pub unique_ips_over_time : List (Time × ℕ)
  pub countries : List (Text × ℕ)
  pub iran_split : IranSplit
  pub top_iranian_ips : List (Text × ℕ)
  pub top_iranian_cidrs : List (Text × ℕ)
  pub top_countries : List (Text × ℕ)

unfoldable pub build : Time → Time → Db → DashboardSeries
unfolding bucket_trunc period_events ips_in_period requests_over_time unique_ips_over_time countries
    iran_split top_iranian_ips top_iranian_cidrs
build start end db =
    let events = period_events start end db in
    let bucket = bucket_trunc start end in
    let ranked = countries (ips_in_period start end db) in
    record {
      requests_over_time = requests_over_time bucket events;
      unique_ips_over_time = unique_ips_over_time bucket events;
      countries = ranked;
      iran_split = iran_split start end db;
      top_iranian_ips = top_iranian_ips db events;
      top_iranian_cidrs = top_iranian_cidrs db events;
      top_countries = take top_n ranked;
    }
