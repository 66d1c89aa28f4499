-- ===== src/Ips/Pages.antt =====
-- The pages of apps/ips/views.py that read, up to pagination. Of the database: its comparisons without
-- regard to case, the order of its collation, and its containment of addresses in networks.
pub mod Directories
pub mod Detail
pub mod Laws
use ip_scout.Prelude.{
  ℕ, Option, none, some, Bool, true, false, not, ◌&&◌, ◌||◌, List, [], ◌∷◌, Text, ◌==◌, ltb, codes,
  any, filter, find?, map, length, take, is_some, text_eq, if◌then◌else◌,
}
use ip_scout.Prelude.Int.{ℤ, pos, negsuc}
use ip_scout.Errors.{Outcome, ok, raise, value_error, data_error, ◌>>=◌}
use ip_scout.Python.Strip.{is_nil, strip}
use ip_scout.Python.Number.{isdigit, int}
use ip_scout.Query.{Eq, nat_eq, text_column_eq, pair_eq, group_counts, distinct, count_of, order_by}
use ip_scout.Models.{Time, IpAddress, RequestEvent, IpCountryHistory, WhoisRecord, Server, Db}
use ip_scout.Models.Tables.{get_ip, latest_first}
use ip_scout.Iran.Export.{Within}

abbrev pub get : Option Text → Text
get none = []
get (some t) = t

-- The parameters of the list
pub record ListParams : Type 0 where
  pub q : Option Text
  pub cidr : Option Text
  pub asn : Option Text
  pub is_iran : Option Text

module _ (icontains iexact : Text → Text → Bool) where
  unfoldable pub matches_query : Text → IpAddress → Bool
  matches_query query r =
      is_nil query
      || icontains r.address query
      || icontains r.organization query
      || icontains r.network query
      || iexact r.country_code query

-- The test that ?cidr= asks for; a text that is no network is an error of the database.
unfoldable pub cidr_test : Within → Text → Outcome (IpAddress → Bool)
cidr_test within cidr = if is_nil cidr then ok (λ r. true) else elim (within cidr) [
  | none ↦ raise value_error
  | some inside ↦ ok (λ (r : IpAddress). inside r.address)
]

-- A text with a NUL is an error of the driver, as it hands the query to the database.
abbrev pub query_text : Text → Outcome Text
query_text query = if any (λ c. c == 0) query then raise data_error else ok query

abbrev pub same_asn : ℤ → Option ℕ → Bool
same_asn (pos n) (some k) = n == k
same_asn _ _ = false

-- The test that ?asn= asks for, if it is digits.
unfoldable pub asn_test : Text → Outcome (IpAddress → Bool)
unfolding isdigit int
asn_test asn =
    if isdigit asn
    then elim (int asn) [ none ↦ raise value_error | some z ↦ ok (λ r. same_asn z r.asn) ]
    else ok (λ r. true)

abbrev pub iran_test : Option Text → IpAddress → Bool
iran_test is_iran r = not (text_eq (get is_iran) (codes "true")) || r.is_iran

-- ip_list; the query of the database runs last.
unfoldable pub ip_list :
    (Text → Text → Bool)
    → (Text → Text → Bool)
    → Within
    → ListParams
    → Db
    → Outcome (List IpAddress)
unfolding filter strip asn_test cidr_test matches_query text_eq order_by
ip_list icontains iexact within params db = do
  numbered ← asn_test (strip (get params.asn))
  inside ← cidr_test within (strip (get params.cidr))
  query ← query_text (strip (get params.q))
  ok (
      filter
        (λ (r : IpAddress).
          matches_query icontains iexact query r
          && inside r
          && numbered r
          && iran_test params.is_iran r)
        db.ips)

-- A filter on a column of keys by a text of the query; an empty one is no filter.
unfoldable pub key_test : Text → Outcome (ℕ → Bool)
unfolding int
key_test t = if is_nil t then ok (λ n. true) else elim (int t) [
  | none ↦ raise value_error
  | some (pos k) ↦ ok (λ n. n == k)
  | some (negsuc _) ↦ ok (λ n. false)
]

-- filter(server_id=…) and filter(host=…), each only if the page was asked for it
unfoldable pub selected_events : Text → Text → List RequestEvent → Outcome (List RequestEvent)
unfolding key_test filter text_eq
selected_events server host events = do
  test ← key_test server
  ok (
      filter (λ (e : RequestEvent). test e.server_id && (is_nil host || text_eq e.host host))
        events)

abbrev pub newest_first : RequestEvent → RequestEvent → Bool
newest_first a b = ltb b.timestamp a.timestamp

pub record EventStats : Type 0 where
  pub count : ℕ
  pub first : Option Time
  pub last : Option Time

abbrev earliest : Time → Option Time → Option Time
earliest t none = some t
earliest t (some u) = some (if ltb u t then u else t)

abbrev latest : Time → Option Time → Option Time
latest t none = some t
latest t (some u) = some (if ltb t u then u else t)

-- aggregate(count=Count("id"), first=Min("timestamp"), last=Max("timestamp"))
unfoldable pub stats_of : List RequestEvent → EventStats
stats_of [] = record { count = 0; first = none; last = none }
stats_of (e ∷ events) =
    let rest = stats_of events in
    record {
      count = length (e ∷ events);
      first = earliest e.timestamp rest.first;
      last = latest e.timestamp rest.last;
    }

unfoldable pub events_of_ip : ℕ → Db → List RequestEvent
unfolding filter
events_of_ip pk db = filter (λ (e : RequestEvent). e.ip_id == pk) db.events

pub record IpDetail : Type 0 where
  pub ip : IpAddress
  pub events : List RequestEvent
  pub stats : EventStats
  pub servers : List Server
  pub hosts : List Text
  pub whois_records : List WhoisRecord
  pub history : List IpCountryHistory

-- The hosts that the events name
abbrev named_hosts : List RequestEvent → List Text
named_hosts events =
    map (λ (e : RequestEvent). e.host) (filter (λ (e : RequestEvent). not (is_nil e.host)) events)

-- The context of the page of `ip`, whose selected events are `events`
unfoldable pub page_of : (Text → Text → Bool) → ℕ → IpAddress → List RequestEvent → Db → IpDetail
unfolding events_of_ip stats_of order_by filter any distinct
page_of name_before pk ip events db =
    let all = events_of_ip pk db in
    record {
      ip = ip;
      events = order_by newest_first events;
      stats = stats_of all;
      servers =
          order_by (λ (a b : Server). name_before a.name b.name)
            (filter (λ (s : Server). any (λ (e : RequestEvent). e.server_id == s.id) all)
              db.servers);
      hosts = distinct (named_hosts all);
      whois_records = take 5 (
          order_by (λ (a b : WhoisRecord). ltb b.queried_at a.queried_at)
            (filter (λ (x : WhoisRecord). x.ip_id == pk) db.whois_records));
      history = take 10 (
          order_by (λ (a b : IpCountryHistory). ltb b.valid_from a.valid_from)
            (filter (λ (h : IpCountryHistory). h.ip_id == pk) db.history));
    }

-- ip_detail; `name_before` is the order of the collation, and `none` is a 404.
unfoldable pub ip_detail : (Text → Text → Bool) → ℕ → Text → Text → Db → Outcome (Option IpDetail)
unfolding get_ip events_of_ip selected_events page_of
ip_detail name_before pk server host db = elim (get_ip pk db) [
  | none ↦ ok none
  | some ip ↦ do
    events ← selected_events server host (events_of_ip pk db)
    ok (some (page_of name_before pk ip events db))
]

-- A row of the directories of countries and of autonomous systems
pub record DirectoryRow (K : Type 0) : Type 0 where
  pub key : K
  pub total : ℕ
  pub iran_count : ℕ

-- values(…).annotate(total=Count("id"), iran_count=Count("id", filter=Q(is_iran=True))), from the keys of
-- all rows and those of the Iranian ones, with order_by("-total")
unfoldable pub directory : {K : Type 0} ⦃e : Eq K⦄ → List K → List K → List (DirectoryRow K)
unfolding group_counts count_of order_by
directory {K} keys iranian =
    map (λ (g : K × ℕ). record { key = g.0; total = g.1; iran_count = count_of g.0 iranian })
      (order_by (λ (x y : K × ℕ). ltb y.1 x.1) (group_counts keys))

abbrev pub country_of : IpAddress → Text × Text
country_of r = (r.country_code, r.country_name)

abbrev pub has_country : IpAddress → Bool
has_country r = not (is_nil r.country_code)

abbrev pub flagged : IpAddress → Bool
flagged r = r.is_iran

-- country_list
unfoldable pub country_list : Db → List (DirectoryRow (Text × Text))
unfolding filter directory
country_list db =
    let rows = filter has_country db.ips in
    directory (map country_of rows) (map country_of (filter flagged rows))

unfoldable pub asns_of : List IpAddress → List ℕ
asns_of [] = []
asns_of (r ∷ rows) = let rest = asns_of rows in elim r.asn [ none ↦ rest | some n ↦ n ∷ rest ]

-- asn_list, without the organization of a row
unfoldable pub asn_list : Db → List (DirectoryRow ℕ)
unfolding filter directory asns_of
asn_list db = directory (asns_of db.ips) (asns_of (filter flagged db.ips))
