-- ===== src/Tests/Dashboard.antt =====
-- The dashboard, the endpoints and the pages of addresses at concrete inputs.
use ip_scout.Prelude.{
  ltb, length, arith, ℕ, ◌-◌, ◌*◌, ◌≡◌, ◌↔◌, ◌⊎◌, refl, true, false, none, some, List, [], ◌∷◌,
  Text, codes, map, filter, find?, Bool,
}
use ip_scout.Prelude.Int.{pos}
use ip_scout.Errors.{Error, ok, raise, value_error}
use ip_scout.Models.{Time, Float, IpAddress, RequestEvent, Db, empty_db}
use ip_scout.Ips.Sightings.{new_row}
use ip_scout.Iran.Export.{Within, Params}
use ip_scout.Dashboard.{ParseDatetime, filtered_queryset, resolve_period}
use ip_scout.Dashboard.Analytics.{build}
use ip_scout.Dashboard.Analytics.Series.{IsSeries, build-IsSeries}
use ip_scout.Dashboard.Period.{Unparsed}
use ip_scout.Dashboard.Map.{MapPoints, build_points}
use ip_scout.Dashboard.Map.Laws.{Answers, build_points_total}
use ip_scout.Dashboard.Workers.{
  Llen, length_of, TaskResult, QueueStatus, build_statuses, status_of, all_groups, with_status,
  recent,
}
use ip_scout.Dashboard.Workers.Laws.{sum_of, results_where, build_statuses-counts}
use ip_scout.Incidents.{overview, ip_table}
use ip_scout.Incidents.Laws.{IsOverview, IsTable, overview-IsOverview, ip_table-IsTable}
use ip_scout.Api.Endpoints.{MapData, map_data}
use ip_scout.Api.Endpoints.Laws.{Shown, period_name, map_data_total}
use ip_scout.Python.Strip.{strip}
use ip_scout.Python.Number.{int}
use ip_scout.Models.Tables.{get_ip}
use ip_scout.Ips.Pages.{
  get, ListParams, IpDetail, ip_list, ip_detail, page_of, selected_events, events_of_ip, key_test,
  country_of, has_country, flagged, country_list, asns_of, asn_list,
}
use ip_scout.Ips.Pages.Laws.{NotANumber, HasNul, NotANetwork, ip_list-raise}
use ip_scout.Ips.Pages.Detail.{Details, ip_detail-Details}
use ip_scout.Query.{nat_eq, text_column_eq, pair_eq}
use ip_scout.Ips.Pages.Directories.{IsDirectory, directories-IsDirectory}

abbrev iranian : IpAddress
iranian = record (new_row 1 (codes "2.57.3.9") 4 100) {
  is_iran = true;
  iran_checked_at = some 5;
  country_code = codes "IR";
  latitude = some (record { bits = 3 });
  longitude = some (record { bits = 4 });
  iran_match_cidr = some (codes "2.57.3.0/24");
  asn = some 64500;
}

abbrev foreign : IpAddress
foreign = record (new_row 2 (codes "9.9.9.9") 4 100) { country_code = codes "DE" }

abbrev event : ℕ → Time → RequestEvent
event ip_id t = record {
  server_id = 1;
  log_source_id = 3;
  ip_id = ip_id;
  timestamp = t;
  host = codes "a.example";
  method = codes "GET";
  uri = codes "/";
  status = pos 503;
  bytes = pos 0;
  request_time = none;
  user_agent = [];
  referer = [];
  raw_line = [];
}

abbrev db : Db
db = record empty_db {
  ips = iranian ∷ foreign ∷ [];
  events = event 1 500 ∷ event 2 600 ∷ event 1 70000000 ∷ [];
}

build-IsSeries_example : IsSeries 0 90000000 db (build 0 90000000 db)
build-IsSeries_example = build-IsSeries 0 90000000 db

-- Every coordinate is its own centre.
abbrev snap : ℕ → Float → Float
snap size x = x

build_points_total_example :
    (points : MapPoints) × (build_points snap
        (filtered_queryset (codes "iran") 0 900 db)
        (pos 3)
        (codes "iran")
        0
        900
        db
      ≡ ok points)
    × Answers snap (pos 3) (filtered_queryset (codes "iran") 0 900 db) points
build_points_total_example = build_points_total snap (pos 3) (codes "iran") 0 900 db

-- A result of a task in each state, and one of a task that is not the program's.
abbrev results : List TaskResult
results =
    record {
      task_name = codes "apps.iran.tasks.classify_ip";
      status = codes "STARTED";
      date_done = 0;
    }
    ∷ record {
      task_name = codes "apps.geo.tasks.enrich_ip";
      status = codes "FAILURE";
      date_done = 7;
    }
    ∷ record { task_name = codes "other"; status = codes "FAILURE"; date_done = 7 }
    ∷ []

abbrev llen : Text → Llen
llen queue = length_of 2

abbrev statuses : List QueueStatus
statuses = map (status_of llen 0 results) all_groups

build_statuses-counts_example :
    (sum_of (λ s. s.running) statuses ≡ results_where (with_status (codes "STARTED")) results)
    × (sum_of (λ s. s.failed_recent) statuses
        ≡ results_where (recent (3600000000 - 1 * 3600000000) (codes "FAILURE")) results)
    × (sum_of (λ s. s.completed_recent) statuses
        ≡ results_where (recent (3600000000 - 1 * 3600000000) (codes "SUCCESS")) results)
unfolding build_statuses
build_statuses-counts_example = build_statuses-counts llen 3600000000 1 results statuses refl

-- A parser that raises at every date.
abbrev parse : ParseDatetime
parse t = raise value_error

map_data_total_example :
    ((e : Error) × (map_data snap parse 900 none
          (some (codes "custom"))
          (some (codes "x"))
          (some (codes "y"))
          none
          db
        ≡ raise e)
      × Unparsed parse e
          (period_name (some (codes "custom")))
          (some (codes "x"))
          (some (codes "y")))
    ⊎ ((start : Time) × (end : Time) × (answer : MapData) × (map_data snap parse 900 none
            (some (codes "custom"))
            (some (codes "x"))
            (some (codes "y"))
            none
            db
          ≡ ok answer)
        × (resolve_period parse 900
              (period_name (some (codes "custom")))
              (some (codes "x"))
              (some (codes "y"))
            ≡ ok (start, end))
        × Shown snap none none start end db answer)
map_data_total_example =
    map_data_total snap parse 900 none (some (codes "custom")) (some (codes "x")) (some (codes "y"))
      none db

abbrev within : Within
within cidr = none

abbrev params : Params
params = record {
  server = none;
  period = none;
  cidr = none;
  status_503_only = none;
  iran_status = none;
}

-- An asn of one digit that is no number.
abbrev list_params : ListParams
list_params = record { q = none; cidr = none; asn = some (0xb2 ∷ []); is_iran = none }

abbrev icontains : Text → Text → Bool
icontains text query = false

ip_list-raise_example :
    ((e : Error) × (ip_list icontains icontains within list_params db ≡ raise e)) ↔ (
      NotANumber (strip (get list_params.asn))
      ⊎ (NotANetwork within (strip (get list_params.cidr)) ⊎ HasNul (strip (get list_params.q))))
ip_list-raise_example = ip_list-raise icontains icontains within list_params db

abbrev name_before : Text → Text → Bool
name_before a b = false

abbrev page : IpDetail
page = page_of name_before 1 iranian (event 1 500 ∷ event 1 70000000 ∷ []) db

ip_detail-Details_example : Details 1 (codes "1") [] db page
unfolding ip_detail get_ip selected_events events_of_ip key_test int filter find?
ip_detail-Details_example = ip_detail-Details name_before 1 (codes "1") [] db page refl

directories-IsDirectory_example :
    IsDirectory
      (map country_of (filter has_country db.ips))
      (map country_of (filter flagged (filter has_country db.ips)))
      (country_list db)
    × IsDirectory (asns_of db.ips) (asns_of (filter flagged db.ips)) (asn_list db)
directories-IsDirectory_example = directories-IsDirectory db

abbrev percentage : ℕ → ℕ → Float
percentage a b = record { bits = a }

overview-IsOverview_example : IsOverview percentage db (overview percentage db)
overview-IsOverview_example = overview-IsOverview percentage db

-- An order of addresses by the lengths of their texts.
abbrev address_before : Text → Text → Bool
address_before a b = ltb (length a) (length b)

ip_table-IsTable_example :
    IsTable address_before
      (some (codes "true"))
      (some (codes "-asn"))
      db
      (ip_table address_before db (some (codes "true")) (some (codes "-asn")))
ip_table-IsTable_example =
    ip_table-IsTable address_before (some (codes "true")) (some (codes "-asn")) db
      (λ a b h. ground arith, λ a b c h k. ground arith)
