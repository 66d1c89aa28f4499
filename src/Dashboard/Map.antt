-- ===== src/Dashboard/Map.antt =====
-- apps/dashboard/map.py: `MapAggregationService`. A size of the grid is counted in sixteenths of a degree,
-- of which all sizes are whole numbers. `snap` is the centre of a cell on one axis, which the program
-- computes with floats: round(x / size) * size, which is never a negative zero.
pub mod Cells
pub mod Laws
use ip_scout.Prelude.{
  ℕ, suc, ◌+◌, ◌*◌, ◌/◌, ◌^◌, Option, none, some, Bool, true, false, ◌&&◌, List, [], ◌∷◌, Text,
  ◌==◌, ltb, leb, filter, length, map, take, max, if◌then◌else◌,
}
use ip_scout.Prelude.Int.{ℤ, pos, negsuc}
use ip_scout.Errors.{Outcome, ok, raise, type_error, ◌>>=◌}
use ip_scout.Models.{Time, Float, IpAddress, RequestEvent, Db}
use ip_scout.Models.Tables.{latest_first}
use ip_scout.Query.{order_by}
use ip_scout.Dashboard.{in_period}

abbrev pub high_zoom_threshold : ℕ
high_zoom_threshold = 8

abbrev pub max_individual_points : ℕ
max_individual_points = 2000

-- The marker of one address, whose count is 1
pub record MapPoint : Type 0 where
  pub lat : Option Float
  pub lon : Option Float
  pub status : Text
  pub ip_id : ℕ
  pub address : Text
  pub country_code : Text
  pub asn : Option ℕ
  pub organization : Text
  pub is_iran : Bool
  pub event_count : ℕ
  pub last_seen_at : Time

pub record MapCluster : Type 0 where
  pub lat : Float
  pub lon : Float
  pub count : ℕ
  pub iran_count : ℕ
  pub status : Text

-- Count("request_events", filter=…)
unfoldable pub events_in_period : Time → Time → Db → ℕ → ℕ
unfolding filter in_period
events_in_period start end db pk =
    length (filter (λ (e : RequestEvent). (e.ip_id == pk) && in_period start end e) db.events)

abbrev pub point_of : Time → Time → Db → Text → IpAddress → MapPoint
point_of start end db status r = record {
  lat = r.latitude;
  lon = r.longitude;
  status = status;
  ip_id = r.id;
  address = r.address;
  country_code = r.country_code;
  asn = r.asn;
  organization = r.organization;
  is_iran = r.is_iran;
  event_count = events_in_period start end db r.id;
  last_seen_at = r.last_seen_at;
}

-- _individual_points
unfoldable pub individual_points : Time → Time → Db → Text → List IpAddress → List MapPoint
unfolding events_in_period
individual_points start end db status rows =
    map (point_of start end db status) (take max_individual_points rows)

-- grid_size_for_zoom, in sixteenths of a degree: max(0.5, 40 / 2 ** max(zoom, 0))
unfoldable pub grid_size_for_zoom : ℤ → ℕ
grid_size_for_zoom (pos zoom) = max 8 (640 / 2 ^ zoom)
grid_size_for_zoom (negsuc _) = 640

abbrev pub same_cell : Float → Float → MapCluster → Bool
same_cell lat lon c = (c.lat.bits == lat.bits) && (c.lon.bits == lon.bits)

-- bucket["count"] += 1, and the same for the Iranian ones
abbrev pub counted : Bool → MapCluster → MapCluster
counted is_iran c = record c {
  count = suc c.count;
  iran_count = if is_iran then suc c.iran_count else c.iran_count;
}

-- buckets.setdefault(…), with the counts of one address
unfoldable pub add_point : Text → Float → Float → Bool → List MapCluster → List MapCluster
add_point status lat lon is_iran [] =
    counted is_iran (record { lat = lat; lon = lon; count = 0; iran_count = 0; status = status })
    ∷ []
add_point status lat lon is_iran (c ∷ clusters) =
    let rest = add_point status lat lon is_iran clusters in
    if same_cell lat lon c then counted is_iran c ∷ clusters else c ∷ rest

module _ (snap : ℕ → Float → Float) where
  -- The loop of _clustered_points; a row without coordinates is a TypeError.
  unfoldable pub add_points :
      Text → ℕ → List IpAddress → List MapCluster → Outcome (List MapCluster)
  unfolding add_point
  add_points status size [] clusters = ok clusters
  add_points status size (r ∷ rows) clusters = elim r.latitude [
    | none ↦ raise type_error
    | some lat ↦ elim r.longitude [
      | none ↦ raise type_error
      | some lon ↦
          add_points status size rows
            (add_point status (snap size lat) (snap size lon) r.is_iran clusters)
    ]
  ]

  -- _clustered_points
  unfoldable pub clustered_points : List IpAddress → ℤ → Text → Outcome (List MapCluster)
  unfolding grid_size_for_zoom add_points order_by
  clustered_points rows zoom status =
      add_points status (grid_size_for_zoom zoom) (order_by latest_first rows) []

abbrev pub is_high : ℤ → Bool
is_high (pos zoom) = leb high_zoom_threshold zoom
is_high (negsuc _) = false

-- What the endpoint answers with
pub data MapPoints : Type 0 where
  individual : List MapPoint → MapPoints
  clusters : List MapCluster → MapPoints

unfoldable pub build_points :
    (ℕ → Float → Float) → List IpAddress → ℤ → Text → Time → Time → Db → Outcome MapPoints
unfolding individual_points clustered_points
build_points snap rows zoom status start end db = elim (is_high zoom) [
  | true ↦ ok (individual (individual_points start end db status rows))
  | false ↦ elim (clustered_points snap rows zoom status) [
    | raise e ↦ raise e
    | ok cs ↦ ok (clusters cs)
  ]
]
