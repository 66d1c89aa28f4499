-- ===== src/Api/Endpoints.antt =====
-- apps/api/views.py: the endpoints of the dashboard, the map and the export. A parameter of the query
-- that is missing is `none`.
pub mod Laws
use ip_scout.Prelude.{
  ℕ, Option, none, some, Bool, List, [], ◌∷◌, Text, codes, any, text_eq, if◌then◌else◌,
}
use ip_scout.Prelude.Int.{ℤ, pos}
use ip_scout.Errors.{Outcome, ok, raise, ◌>>=◌}
use ip_scout.Python.Number.{int}
use ip_scout.Models.{Time, Float, IpAddress, success, Db}
use ip_scout.Users.{ContextVar, record_audit_log}
use ip_scout.Iran.Export.{Within, Params, from_querydict, build_queryset}
use ip_scout.Iran.Export.Download.{Body, format_of, export_body}
use ip_scout.Dashboard.{ParseDatetime, resolve_period, filtered_queryset}
use ip_scout.Dashboard.Analytics.{DashboardSeries, build}
use ip_scout.Dashboard.Map.{MapPoints, build_points}

abbrev get_or : Text → Option Text → Text
get_or default none = default
get_or default (some t) = t

pub record DashboardData : Type 0 where
  pub period : Text
  pub start : Time
  pub end : Time
  pub series : DashboardSeries

-- DashboardDataView.get
unfoldable pub dashboard_data :
    ParseDatetime → Time → Option Text → Option Text → Option Text → Db → Outcome DashboardData
unfolding resolve_period build
dashboard_data parse now period custom_start custom_end db = do
  let name = get_or (codes "24h") period
  (start, end) ← resolve_period parse now name custom_start custom_end
  ok (record { period = name; start = start; end = end; series = build start end db })

-- VALID_MAP_STATUSES
unfoldable pub is_map_status : Text → Bool
unfolding any text_eq
is_map_status status =
    any (text_eq status)
      (codes "all" ∷ codes "503" ∷ codes "iran" ∷ codes "non_iran" ∷ codes "unknown" ∷ [])

unfoldable pub map_status : Option Text → Text
unfolding is_map_status
map_status none = codes "503"
map_status (some status) = if is_map_status status then status else codes "503"

-- int(…) with 2 where there is none, or where it is a ValueError
unfoldable pub zoom_of : Option Text → ℤ
unfolding int
zoom_of none = pos 2
zoom_of (some t) = elim (int t) [ none ↦ pos 2 | some z ↦ z ]

pub record MapData : Type 0 where
  pub status : Text
  pub zoom : ℤ
  pub points : MapPoints

-- MapDataView.get
unfoldable pub map_data :
    (ℕ → Float → Float)
    → ParseDatetime
    → Time
    → Option Text
    → Option Text
    → Option Text
    → Option Text
    → Option Text
    → Db
    → Outcome MapData
unfolding map_status zoom_of resolve_period filtered_queryset build_points
map_data snap parse now status_param period custom_start custom_end zoom_param db = do
  let status = map_status status_param
  (start, end) ← resolve_period parse now (get_or (codes "24h") period) custom_start custom_end
  let zoom = zoom_of zoom_param
  points ← build_points snap (filtered_queryset status start end db) zoom status start end db
  ok (record { status = status; zoom = zoom; points = points })

-- IranExportAPIView.get; the user is the one of the token.
unfoldable pub iran_export :
    Within
    → (Text → Text → Bool)
    → Time
    → ContextVar
    → ℕ
    → Option Text
    → Params
    → Db
    → Outcome (Db × Body)
unfolding from_querydict build_queryset record_audit_log export_body
iran_export within address_before now var user_id fmt params db = do
  filters ← from_querydict params
  rows ← build_queryset within now filters db
  logged ← record_audit_log var (codes "iran.export") none success (some user_id) none db
  ok (logged, export_body address_before (format_of fmt) rows)
