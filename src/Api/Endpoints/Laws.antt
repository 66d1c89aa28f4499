-- ===== src/Api/Endpoints/Laws.antt =====
-- When the endpoints answer, and what the two exports have in common.
use ip_scout.Prelude.{
  ℕ, ◌≡◌, ◌⊎◌, refl, true, Option, none, some, Text, codes, text_eq, any, arith, Bool-cases, inl,
  inr,
}
use ip_scout.Errors.{Error, ok, raise, Outcome-cases}
use ip_scout.Models.{Time, Float, Db}
use ip_scout.Dashboard.{ParseDatetime, resolve_period, filtered_queryset}
use ip_scout.Dashboard.Period.{Unparsed, resolve_period-Unparsed}
use ip_scout.Dashboard.Map.Laws.{Answers, build_points_total}
use ip_scout.Api.Endpoints.{is_map_status, map_status, zoom_of, MapData, map_data}

default_valid : is_map_status (codes "503") ≡ true
unfolding is_map_status any text_eq
default_valid = refl

map_status_valid : (status : Option Text) → is_map_status (map_status status) ≡ true
unfolding map_status
map_status_valid none = default_valid
map_status_valid (some s) = elim (Bool-cases (is_map_status s)) [
  | inl valid ↦ rw valid valid
  | inr invalid ↦ rw invalid default_valid
]

abbrev pub period_name : Option Text → Text
period_name none = codes "24h"
period_name (some t) = t

-- The answer of the map for a start and an end of the period.
pub record Shown (snap : ℕ → Float → Float) (status_param zoom_param : Option Text)
    (start end : Time) (db : Db) (answer : MapData) : Type 0 where
  pub status : answer.status ≡ map_status status_param
  pub valid : is_map_status answer.status ≡ true
  pub zoom : answer.zoom ≡ zoom_of zoom_param
  pub points : Answers snap answer.zoom (filtered_queryset answer.status start end db) answer.points

module _ (snap : ℕ → Float → Float) (parse : ParseDatetime) (now : Time)
    (status_param period custom_start custom_end zoom_param : Option Text) (db : Db) where
  -- The map endpoint answers whatever its parameters are, with what the map shows of the addresses that one of
  -- the five statuses selects, at the zoom that was asked for, unless the period is a custom one and the
  -- parser raises at one of its two ends; then that exception leaves the endpoint.
  pub map_data_total :
      ((e : Error) × (map_data snap parse now status_param period custom_start custom_end zoom_param
            db
          ≡ raise e)
        × Unparsed parse e (period_name period) custom_start custom_end)
      ⊎ ((start : Time) × (end : Time) × (answer : MapData) × (map_data snap parse now status_param
              period custom_start custom_end zoom_param db
            ≡ ok answer)
          × (resolve_period parse now (period_name period) custom_start custom_end
              ≡ ok (start, end))
          × Shown snap status_param zoom_param start end db answer)
  unfolding map_data
  map_data_total =
      elim (Outcome-cases (resolve_period parse now (period_name period) custom_start custom_end)) [
        | inl (e, f) ↦ inl (
          e,
          ground arith,
          resolve_period-Unparsed parse now (period_name period) e custom_start custom_end f,
        )
        | inr ((start, end), f) ↦
            let status = map_status status_param in
            let zoom = zoom_of zoom_param in
            let (points, g, shown) = build_points_total snap zoom status start end db in
            inr (
              start,
              end,
              record { status = status; zoom = zoom; points = points },
              ground arith,
              f,
              record {
                status = refl;
                valid = map_status_valid status_param;
                zoom = refl;
                points = shown;
              },
            )
      ]
