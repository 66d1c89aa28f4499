-- ===== src/Api.antt =====
-- The queries of apps/api/viewsets.py, up to pagination.
pub mod Laws
pub mod Endpoints
use ip_scout.Prelude.{
  ℕ, ◌-◌, ◌+◌, ◌*◌, ◌<◌, Option, none, some, Bool, true, false, not, ◌&&◌, ◌||◌, List, [], ◌∷◌,
  ◌++◌, Text, ◌==◌, ltb, leb, codes, any, filter, text_eq, length, if◌then◌else◌,
}
use ip_scout.Prelude.Int.{ℤ, pos, negsuc}
use ip_scout.Errors.{Outcome, ok, raise, overflow_error, ◌>>=◌}
use ip_scout.Python.Strip.{is_nil}
use ip_scout.Python.Number.{int}
use ip_scout.Query.{order_by}
use ip_scout.Models.{Time, IpAddress, RequestEvent, WhoisRecord, Db}
use ip_scout.Models.Tables.{get_ip}

abbrev pub get : Option Text → Text
get none = []
get (some t) = t

-- The last time of a datetime, the end of the year 9999.
abbrev pub max_time : ℕ
max_time = 315537897599999999

abbrev pub day : ℕ
day = 86400000000

-- timezone.now() - timedelta(days=n), which is an OverflowError outside of the years 1 to 9999.
unfoldable pub days_before : Time → ℤ → Outcome Time
days_before now (pos n) = if ltb now (n * day) then raise overflow_error else ok (now - n * day)
days_before now (negsuc n) =
    if ltb max_time (now + n * day + day) then raise overflow_error else ok (now + n * day + day)

abbrev pub is_of_iranian : Db → RequestEvent → Bool
is_of_iranian db e = any (λ (r : IpAddress). (r.id == e.ip_id) && r.is_iran) db.ips

-- The start that ?days= asks for: none without the parameter, or where int refuses it.
unfoldable pub since_of : Time → Option Text → Outcome (Option Time)
unfolding int days_before
since_of now days =
    let value = get days in
    if is_nil value then ok none else elim (int value) [
      | none ↦ ok none
      | some n ↦ elim (days_before now n) [ raise e ↦ raise e | ok t ↦ ok (some t) ]
    ]

abbrev pub not_before : Option Time → RequestEvent → Bool
not_before none e = true
not_before (some since) e = leb since e.timestamp

-- RequestEventViewSet.get_queryset
unfoldable pub request_events : Time → Option Text → Option Text → Db → Outcome (List RequestEvent)
unfolding since_of filter any text_eq
request_events now days is_iran db = do
  since ← since_of now days
  let recent = filter (not_before since) db.events
  ok (if text_eq (get is_iran) (codes "true") then filter (is_of_iranian db) recent else recent)

-- IPAddressViewSet.get_queryset; `same_name` is the comparison of the database without regard to case.
unfoldable pub ip_addresses : (Text → Text → Bool) → Option Text → Db → List IpAddress
unfolding filter
ip_addresses same_name country db =
    let value = get country in
    if is_nil value
    then db.ips
    else filter (λ (r : IpAddress). same_name r.country_code value) db.ips

-- IranIPViewSet.queryset
unfoldable pub iranian_ips : Db → List IpAddress
unfolding filter
iranian_ips db = filter (λ (r : IpAddress). r.is_iran) db.ips

-- IPAddressViewSet.events; `none` is a 404.
unfoldable pub ip_events : ℕ → Db → Option (List RequestEvent)
unfolding get_ip filter order_by
ip_events pk db = elim (get_ip pk db) [
  | none ↦ none
  | some ip ↦ some (
      order_by (λ (a b : RequestEvent). ltb b.timestamp a.timestamp)
        (filter (λ (e : RequestEvent). e.ip_id == pk) db.events))
]

-- IPAddressViewSet.whois
unfoldable pub ip_whois : ℕ → Db → Option (List WhoisRecord)
unfolding get_ip filter order_by
ip_whois pk db = elim (get_ip pk db) [
  | none ↦ none
  | some ip ↦ some (
      order_by (λ (a b : WhoisRecord). ltb b.queried_at a.queried_at)
        (filter (λ (x : WhoisRecord). x.ip_id == pk) db.whois_records))
]
