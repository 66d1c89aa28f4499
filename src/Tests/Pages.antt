-- ===== src/Tests/Pages.antt =====
-- Exports, counts, requests and discoveries at concrete inputs.
use ip_scout.Python.Strip.{strip}
use ip_scout.Config.{Environ, env_list}
use ip_scout.Config.Laws.{IsItem, joined, env_list-joined}
use ip_scout.Prelude.{
  filter, not, text_eq, map, ℕ, ◌≡◌, ◌↔◌, refl, true, none, some, List, [], ◌∷◌, ◌++◌, codes, Elem,
  All, any,
}
use ip_scout.Prelude.Int.{pos}
use ip_scout.Errors.{Outcome, raise, value_error}
use ip_scout.Models.{IpAddress, RequestEvent, LogSource, success, Db, empty_db}
use ip_scout.Ips.Sightings.{new_row}
use ip_scout.Iran.Export.{
  Within, ExportFilters, build_queryset, wants_event, has_selected, matches_status,
}
use ip_scout.Iran.Export.Spec.{IsExported}
use ip_scout.Iran.Export.Laws.{build_queryset-Elem}
use ip_scout.Users.{ContextVar, HttpRequest}
use ip_scout.Users.Laws.{answer_of, is_loggable, Action, serve_all, entry_of, serve_all-entry_of}
use ip_scout.Servers.Ssh.{DiscoveredLogFile}
use ip_scout.Servers.Tasks.{new_source, register}
use ip_scout.Servers.Tasks.Laws.{Registered, register-Registered}

abbrev iranian : IpAddress
iranian = record (new_row 1 (codes "2.57.3.9") 4 100) { is_iran = true; iran_checked_at = some 5 }

abbrev foreign : IpAddress
foreign = new_row 2 (codes "9.9.9.9") 4 100

abbrev event : ℕ → RequestEvent
event ip_id = record {
  server_id = 1;
  log_source_id = 3;
  ip_id = ip_id;
  timestamp = 500;
  host = [];
  method = codes "GET";
  uri = codes "/";
  status = pos 200;
  bytes = pos 0;
  request_time = none;
  user_agent = [];
  referer = [];
  raw_line = [];
}

abbrev db : Db
db = record empty_db { ips = iranian ∷ foreign ∷ []; events = event 1 ∷ event 2 ∷ [] }

abbrev within : Within
within cidr = none

abbrev filters : ExportFilters
filters = record {
  period = codes "all";
  server_id = some 1;
  cidr = [];
  status_503_only = true;
  iran_status = codes "current";
}

build_queryset-Elem_example :
    Elem iranian (iranian ∷ []) ↔ (Elem iranian db.ips × IsExported within 900 filters db iranian)
unfolding build_queryset wants_event has_selected matches_status
build_queryset-Elem_example = build_queryset-Elem within 900 filters db (iranian ∷ []) refl iranian

-- A request of user 7 behind the proxy, on a thread where an earlier request left a context.
abbrev request : HttpRequest
request = record {
  user_id = some 7;
  forwarded_for = some (codes " 10.0.0.9, 10.0.0.1");
  remote_addr = some (codes "127.0.0.1");
}

abbrev left_over : ContextVar
left_over = some (record { user_id = some 3; ip_address = none })

abbrev failed : Outcome ℕ
failed = raise value_error

abbrev actions : List Action
actions =
    record { request = request; action = codes "server.deleted"; obj = none; result = success }
    ∷ record {
      request = record {
        user_id = none;
        forwarded_for = some (codes "unknown");
        remote_addr = none;
      };
      action = codes "iran.export";
      obj = none;
      result = success;
    }
    ∷ []

-- A database that takes no "unknown" for an address.
abbrev picky_db : Db
picky_db = record db { takes = λ t. not (text_eq t (codes "unknown")) }

serve_all-entry_of_example :
    ((serve_all failed actions left_over picky_db).0
      ≡ map (answer_of picky_db.takes failed) actions)
    × ((serve_all failed actions left_over picky_db).1 ≡ left_over)
    × ((serve_all failed actions left_over picky_db).2.audit_log
        ≡ picky_db.audit_log ++ map entry_of (filter (is_loggable picky_db.takes) actions))
serve_all-entry_of_example = serve_all-entry_of failed actions left_over picky_db

abbrev files : List DiscoveredLogFile
files =
    record { path = codes "/var/log/nginx/a.log"; size = 1; mtime = 1 }
    ∷ record { path = codes "/var/log/nginx/b.log"; size = 1; mtime = 1 }
    ∷ []

abbrev old_source : LogSource
old_source = record (new_source 1 1 (codes "/var/log/nginx/a.log")) {
  byte_offset = 40;
  inode = some 7;
}

abbrev before : Db
before = record empty_db { log_sources = old_source ∷ []; next_source = 2 }

register-Registered_example : Registered 1 files before (register 1 files before)
register-Registered_example = register-Registered 1 files before

-- A variable with two hosts.
environ : Environ
environ key = some (codes "a.example,b.example")

joined_hosts :
    environ (codes "ALLOWED_HOSTS")
    ≡ some (joined b',' (codes "a.example" ∷ codes "b.example" ∷ []))
unfolding environ joined
joined_hosts = refl

both_items : All (IsItem b',') (codes "a.example" ∷ codes "b.example" ∷ [])
unfolding strip any
both_items = (
  record { part = refl; full = refl; stripped = refl },
  (record { part = refl; full = refl; stripped = refl }, tt),
)

env_list-joined_example :
    env_list environ (codes "ALLOWED_HOSTS") none b',' ≡ codes "a.example" ∷ codes "b.example" ∷ []
unfolding environ
env_list-joined_example =
    env_list-joined environ (codes "ALLOWED_HOSTS") none b',' (codes "a.example")
      (codes "b.example" ∷ []) joined_hosts both_items
