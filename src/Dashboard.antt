-- ===== src/Dashboard.antt =====
-- apps/dashboard: the periods and counts of analytics.py, the filter of map.py, and search.py.
pub mod Laws
pub mod Period
pub mod Analytics
pub mod Map
pub mod Workers
pub mod Cards
use ip_scout.Errors.{Outcome, ok, raise, ◌>>=◌}
use ip_scout.Prelude.{
  ℕ, ◌-◌, ◌*◌, ◌+◌, Option, none, some, Bool, true, false, not, ◌&&◌, ◌||◌, List, [], ◌∷◌, ◌++◌,
  Text, ◌==◌, ltb, leb, codes, any, filter, find?, text_eq, is_some, if◌then◌else◌, length, take,
  drop, map, between,
}
use ip_scout.Python.Strip.{is_nil, strip, ascii_lower}
use ip_scout.Python.Number.{isdigit}
use ip_scout.Python.Ipaddress.Network.{ip_address, ip_network}
use ip_scout.Models.{Time, IpAddress, RequestEvent, Server, Db}

abbrev hours : ℕ → ℕ
hours n = n * 3600000000

-- PERIOD_DELTAS.get(period, PERIOD_DELTAS[DEFAULT_PERIOD])
unfoldable pub period_delta : Text → ℕ
unfolding text_eq
period_delta period =
    if text_eq period (codes "1h")
    then hours 1
    else if text_eq period (codes "6h")
    then hours 6
    else if text_eq period (codes "7d")
    then hours 168
    else if text_eq period (codes "30d")
    then hours 720
    else hours 24

abbrev non_empty : Option Text → Bool
non_empty none = false
non_empty (some t) = not (is_nil t)

abbrev or_empty : Option Text → Text
or_empty none = []
or_empty (some t) = t

-- What parse_datetime and make_aware give for one end of a custom period. A text in the form of a date
-- that is no date is a ValueError.
abbrev pub ParseDatetime : Type 0
ParseDatetime = Text → Outcome (Option Time)

-- The ends of a custom period, which is the default one if either is none.
custom_period : ParseDatetime → Time × Time → Text → Text → Outcome (Time × Time)
custom_period parse default custom_start custom_end = do
  start ← parse custom_start
  end ← parse custom_end
  ok (elim start [ none ↦ default | some s ↦ elim end [ none ↦ default | some e ↦ (s, e) ] ])

-- resolve_period
unfoldable pub resolve_period :
    ParseDatetime → Time → Text → Option Text → Option Text → Outcome (Time × Time)
unfolding text_eq period_delta custom_period
resolve_period parse now period custom_start custom_end =
    let default : Time × Time = (now - period_delta period, now) in
    if text_eq period (codes "custom") && non_empty custom_start && non_empty custom_end
    then custom_period parse default (or_empty custom_start) (or_empty custom_end)
    else ok default

pub data Bucket : Type 0 where
  minute hour day : Bucket

-- _bucket_trunc
unfoldable pub bucket_trunc : Time → Time → Bucket
bucket_trunc start end =
    if leb (end - start) (hours 2)
    then minute
    else if leb (end - start) (hours 48)
    then hour
    else day

-- The events and the addresses of a period
unfoldable pub in_period : Time → Time → RequestEvent → Bool
in_period start end e = between start end e.timestamp

unfoldable pub ips_in_period : Time → Time → Db → List IpAddress
unfolding filter any
ips_in_period start end db =
    filter
      (λ (r : IpAddress).
        any (λ (e : RequestEvent). in_period start end e && (e.ip_id == r.id)) db.events)
      db.ips

pub record IranSplit : Type 0 where
  pub iran : ℕ
  pub other : ℕ
  pub unknown : ℕ

abbrev pub is_other : IpAddress → Bool
is_other r = not r.is_iran && is_some r.iran_checked_at

abbrev pub is_unknown : IpAddress → Bool
is_unknown r = not r.is_iran && not (is_some r.iran_checked_at)

unfoldable pub iran_split : Time → Time → Db → IranSplit
unfolding filter
iran_split start end db =
    let rows = ips_in_period start end db in
    record {
      iran = length (filter (λ (r : IpAddress). r.is_iran) rows);
      other = length (filter is_other rows);
      unknown = length (filter is_unknown rows);
    }

abbrev has_coordinates : IpAddress → Bool
has_coordinates r = is_some r.latitude && is_some r.longitude

-- filtered_queryset
unfoldable pub filtered_queryset : Text → Time → Time → Db → List IpAddress
unfolding filter text_eq any
filtered_queryset status start end db =
    let rows = filter has_coordinates db.ips in
    if text_eq status (codes "503")
    then filter
        (λ (r : IpAddress).
          any (λ (e : RequestEvent). in_period start end e && (e.ip_id == r.id)) db.events)
        rows
    else if text_eq status (codes "iran")
    then filter (λ (r : IpAddress). r.is_iran) rows
    else if text_eq status (codes "non_iran")
    then filter is_other rows
    else if text_eq status (codes "unknown")
    then filter (λ (r : IpAddress). not (is_some r.iran_checked_at)) rows
    else rows

-- The page that a search leads to.
pub data Target : Type 0 where
  index : Target
  ip_detail : ℕ → Target
  server_detail : ℕ → Target
  by_text : Text → Target
  by_cidr : Text → Target
  by_asn : Text → Target

-- query[2:] if query[:2].upper() == "AS" else query, where "ſ" is "S" in upper case
asn_candidate : Text → Text
asn_candidate (a ∷ s ∷ rest) =
    if ((a == b'A') || (a == b'a')) && ((s == b'S') || (s == b's') || (s == 0x17f))
    then rest
    else a ∷ s ∷ rest
asn_candidate t = t

-- resolve_search; `same_address` is the equality of the database on addresses, `same_name` its
-- comparison without regard to case.
unfoldable pub resolve_search : (Text → Text → Bool) → (Text → Text → Bool) → Text → Db → Target
unfolding ip_address ip_network isdigit strip asn_candidate find? any
resolve_search same_address same_name raw db =
    let query = strip raw in
    let candidate = asn_candidate query in
    if is_nil query then index else elim (ip_address query) [
      | some _ ↦ elim (find? (λ (r : IpAddress). same_address r.address query) db.ips) [
        | some r ↦ ip_detail r.id
        | none ↦ by_text query
      ]
      | none ↦
          if any (λ c. c == b'/') query && is_some (ip_network query)
          then by_cidr query
          else if isdigit candidate
          then by_asn candidate
          else elim (find? (λ (s : Server). same_name s.name query || same_name s.hostname query)
              db.servers) [ some s ↦ server_detail s.id | none ↦ by_text query ]
    ]
