-- ===== src/Servers/Views.antt =====
-- The pages that change state: apps/servers/views.py, apps/logs/views.py, apps/iran/views.py,
-- apps/ips/views.py and apps/dashboard/settings_views.py. `none` is a 404. The audit log
-- may refuse an entry.
use ip_scout.Prelude.{
  ℕ, ◌&&◌, Option, none, some, Bool, true, not, Text, ◌==◌, codes, any, find?, filter, update_where,
  if◌then◌else◌,
}
use ip_scout.Errors.{Outcome, ok, ◌>>=◌}
use ip_scout.Models.{
  Server, LogSource, CountryNetwork, RequestEvent, success, perform_whois_lookup, classify_ip,
  poll_log_source, purge_old_data, test_server_connection, discover_server_logs, Db,
}
use ip_scout.Models.Tables.{get_server, update_server, get_source, update_source, get_ip, delay}
use ip_scout.Users.{ContextVar, record_audit_log}

abbrev pub audit : ContextVar → Text → Text → ℕ → Db → Outcome Db
audit var action object_type pk =
    record_audit_log var action (some (record { object_type = object_type; pk = pk })) success none
      none

abbrev toggled : Bool → Text → Text → Text
toggled enabled on off = if enabled then on else off

unfoldable pub server_toggle_enabled : ContextVar → ℕ → Db → Option (Outcome Db)
unfolding get_server update_server record_audit_log
server_toggle_enabled var pk db = elim (get_server pk db) [
  | none ↦ none
  | some server ↦
      let enabled = not server.enabled in
      some (
        audit var (toggled enabled (codes "server.enabled") (codes "server.disabled"))
          (codes "Server") pk (update_server pk (λ s. record s { enabled = enabled }) db))
]

-- server.delete() with what cascades from it
unfoldable pub delete_server : ℕ → Db → Db
unfolding filter any
delete_server pk db =
    let gone = filter (λ (s : LogSource). s.server_id == pk) db.log_sources in
    let stays = λ (e : RequestEvent).
      not (e.server_id == pk) && not (any (λ (s : LogSource). s.id == e.log_source_id) gone) in
    record db {
      servers = filter (λ (s : Server). not (s.id == pk)) db.servers;
      log_sources = filter (λ (s : LogSource). not (s.server_id == pk)) db.log_sources;
      events = filter stays db.events;
    }

unfoldable pub server_delete : ContextVar → ℕ → Db → Option (Outcome Db)
unfolding get_server record_audit_log delete_server
server_delete var pk db = elim (get_server pk db) [
  | none ↦ none
  | some server ↦ some (
      audit var (codes "server.deleted") (codes "Server") pk db >>= λ logged.
      ok (delete_server pk logged))
]

unfoldable pub log_source_toggle_enabled : ContextVar → ℕ → Db → Option (Outcome Db)
unfolding get_source update_source record_audit_log
log_source_toggle_enabled var pk db = elim (get_source pk db) [
  | none ↦ none
  | some source ↦
      let enabled = not source.enabled in
      some (
        audit var (toggled enabled (codes "logsource.enabled") (codes "logsource.disabled"))
          (codes "LogSource") pk (update_source pk (λ s. record s { enabled = enabled }) db))
]

unfoldable pub log_source_poll_now : ContextVar → ℕ → Db → Option (Outcome Db)
unfolding get_source delay record_audit_log
log_source_poll_now var pk db = elim (get_source pk db) [
  | none ↦ none
  | some source ↦ some (
      audit var (codes "logsource.poll_forced") (codes "LogSource") pk
        (delay (poll_log_source pk) db))
]

unfoldable pub cidr_toggle_enabled : ContextVar → ℕ → Db → Option (Outcome Db)
unfolding find? update_where record_audit_log
cidr_toggle_enabled var pk db = elim (find? (λ (n : CountryNetwork). n.id == pk) db.networks) [
  | none ↦ none
  | some network ↦
      let enabled = not network.enabled in
      some (
        audit var (toggled enabled (codes "iran_cidr.enabled") (codes "iran_cidr.disabled"))
          (codes "CountryNetwork") pk
          (record db {
            networks =
                update_where (λ (n : CountryNetwork). n.id == pk)
                  (λ n. record n { enabled = enabled }) db.networks;
          }))
]

unfoldable pub force_whois : ContextVar → ℕ → Db → Option (Outcome Db)
unfolding get_ip delay record_audit_log
force_whois var pk db = elim (get_ip pk db) [
  | none ↦ none
  | some ip ↦ some (
      audit var (codes "ip.whois_forced") (codes "IPAddress") pk
        (delay (perform_whois_lookup pk true) db))
]

unfoldable pub recalculate_iran : ContextVar → ℕ → Db → Option (Outcome Db)
unfolding get_ip delay record_audit_log
recalculate_iran var pk db = elim (get_ip pk db) [
  | none ↦ none
  | some ip ↦
      some (
        audit var (codes "ip.iran_recalculated") (codes "IPAddress") pk (delay (classify_ip pk) db))
]

-- The user of a request without one is no id.
unfoldable pub server_test_connection : Option ℕ → ℕ → Db → Option Db
unfolding get_server delay
server_test_connection user_id pk db = elim (get_server pk db) [
  | none ↦ none
  | some server ↦ some (delay (test_server_connection pk user_id) db)
]

unfoldable pub server_discover_logs : Option ℕ → ℕ → Db → Option Db
unfolding get_server delay
server_discover_logs user_id pk db = elim (get_server pk db) [
  | none ↦ none
  | some server ↦ some (delay (discover_server_logs pk user_id) db)
]

-- run_purge_now
unfoldable pub run_purge_now : ContextVar → Db → Outcome Db
unfolding delay record_audit_log
run_purge_now var db =
    record_audit_log var (codes "retention.purge_forced") none success none none
      (delay purge_old_data db)
