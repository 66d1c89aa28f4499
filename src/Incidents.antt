-- ===== src/Incidents.antt =====
-- apps/incidents/views.py, up to pagination. Of the database: the order of its addresses and of its
-- collation. A quotient is rounded with floats, which is a parameter.
pub mod Laws
use ip_scout.Prelude.{
  ℕ, Option, none, some, Bool, true, false, List, [], ◌∷◌, Text, ◌==◌, ltb, codes, any, filter, map,
  text_eq, length, take, if◌then◌else◌,
}
use ip_scout.Errors.{Outcome, ok, raise, ◌>>=◌}
use ip_scout.Query.{nat_eq, distinct, order_by}
use ip_scout.Models.{Float, Server, IpAddress, RequestEvent, Db}
use ip_scout.Api.{get, is_of_iranian}
use ip_scout.Ips.Pages.{newest_first, selected_events}

-- Count("request_events") of a row
unfoldable pub event_count : Db → IpAddress → ℕ
unfolding filter
event_count db r = length (filter (λ (e : RequestEvent). e.ip_id == r.id) db.events)

unfoldable pub is_allowed_sort : Text → Bool
unfolding any text_eq
is_allowed_sort sort = any (text_eq sort) (
    codes "address"
    ∷ codes "-address"
    ∷ codes "event_count"
    ∷ codes "-event_count"
    ∷ codes "last_seen_at"
    ∷ codes "-last_seen_at"
    ∷ codes "first_seen_at"
    ∷ codes "-first_seen_at"
    ∷ codes "asn"
    ∷ codes "-asn"
    ∷ [])

-- The order that a request asks for, from a fixed list
unfoldable pub sort_of : Option Text → Text
unfolding is_allowed_sort
sort_of none = codes "-event_count"
sort_of (some sort) = if is_allowed_sort sort then sort else codes "-event_count"

-- The rows of _ips_with_503, before they are ordered
unfoldable pub ips_with_503 : Option Text → Db → List IpAddress
unfolding filter text_eq event_count
ips_with_503 is_iran db =
    let rows = filter (λ r. ltb 0 (event_count db r)) db.ips in
    if text_eq (get is_iran) (codes "true")
    then filter (λ (r : IpAddress). r.is_iran) rows
    else rows

-- The order of a column, ascending; a missing asn comes last.
abbrev asn_before : Option ℕ → Option ℕ → Bool
asn_before (some m) (some n) = ltb m n
asn_before (some m) none = true
asn_before none _ = false

module _ (address_before : Text → Text → Bool) (db : Db) where
  unfoldable pub ascending : Text → IpAddress → IpAddress → Bool
  unfolding text_eq event_count
  ascending column a b =
      if text_eq column (codes "address")
      then address_before a.address b.address
      else if text_eq column (codes "event_count")
      then ltb (event_count db a) (event_count db b)
      else if text_eq column (codes "last_seen_at")
      then ltb a.last_seen_at b.last_seen_at
      else if text_eq column (codes "first_seen_at")
      then ltb a.first_seen_at b.first_seen_at
      else asn_before a.asn b.asn

  -- order_by(sort), where a dash turns the order around
  unfoldable pub sort_before : Text → IpAddress → IpAddress → Bool
  unfolding ascending
  sort_before [] a b = ascending [] a b
  sort_before (c ∷ column) a b =
      if c == b'-' then ascending column b a else ascending (c ∷ column) a b

  -- ip_table
  unfoldable pub ip_table : Option Text → Option Text → List IpAddress
  unfolding ips_with_503 sort_of sort_before order_by
  ip_table is_iran sort = order_by (sort_before (sort_of sort)) (ips_with_503 is_iran db)

pub record Overview : Type 0 where
  pub total_503 : ℕ
  pub unique_ips : ℕ
  pub iranian_ips : ℕ
  pub iranian_pct : Option Float
  pub top_ips : List IpAddress

abbrev pub more_events : Db → IpAddress → IpAddress → Bool
more_events db a b = ltb (event_count db b) (event_count db a)

-- values("ip_id").distinct().count()
unfoldable pub unique_ips_of_events : List RequestEvent → ℕ
unfolding distinct
unique_ips_of_events events = length (distinct (map (λ (e : RequestEvent). e.ip_id) events))

-- overview; `percentage a b` is round(a / b * 100, 1), and without an address the number is 0.
unfoldable pub overview : (ℕ → ℕ → Float) → Db → Overview
unfolding unique_ips_of_events filter any event_count order_by
overview percentage db =
    let unique = unique_ips_of_events db.events in
    let iranian = unique_ips_of_events (filter (is_of_iranian db) db.events) in
    record {
      total_503 = length db.events;
      unique_ips = unique;
      iranian_ips = iranian;
      iranian_pct = if unique == 0 then none else some (percentage iranian unique);
      top_ips = take 10 (order_by (more_events db) (filter (λ r. ltb 0 (event_count db r)) db.ips));
    }

pub record Timeline : Type 0 where
  pub events : List RequestEvent
  pub servers : List Server

-- timeline; `name_before` is the order of the collation.
unfoldable pub timeline : (Text → Text → Bool) → Text → Text → Db → Outcome Timeline
unfolding selected_events filter order_by
timeline name_before server host db = do
  events ← selected_events server host db.events
  ok (record {
    events = order_by newest_first events;
    servers =
        order_by (λ (a b : Server). name_before a.name b.name)
          (filter (λ (s : Server). s.enabled) db.servers);
  })
