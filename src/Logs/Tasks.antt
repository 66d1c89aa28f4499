-- ===== src/Logs/Tasks.antt =====
-- apps/logs/tasks.py: `poll_log_source` and `poll_all_log_sources`.
use ip_scout.Prelude.{ℕ, Option, none, some, Bool, true, false, not, ◌&&◌, ◌||◌, ◌++◌, map, filter}
use ip_scout.Errors.{Outcome, ok}
use ip_scout.Models.{Time, LogSource, poll_log_source, logreader, Db}
use ip_scout.Models.Tables.{get_source, get_server}
use ip_scout.Common.Locks.{World, with_lock}
use ip_scout.Whois.Lookup.{seconds}
use ip_scout.Servers.Ssh.{Host}
use ip_scout.Logs.Parser.{Conversions}
use ip_scout.Logs.Reader.{PollSummary, poll}

module _ (host : ℕ → Host) (lib : Conversions) where
  -- The task `poll_log_source`; the summary is what it logs. Its server is read with it.
  unfoldable pub poll_source : Time → ℕ → World → Outcome (World × Option PollSummary)
  unfolding get_source get_server
  poll_source now log_source_id w = elim (get_source log_source_id w.db) [
    | none ↦ ok (w, none)
    | some source ↦ elim (get_server source.server_id w.db) [
      | none ↦ ok (w, none)
      | some server ↦ elim (not source.enabled || not server.enabled) [
        | true ↦ ok (w, none)
        | false ↦
            with_lock now (logreader source.server_id log_source_id) (seconds 120)
              (poll lib (host server.id) server now source) w
      ]
    ]
  ]

-- filter(enabled=True, server__enabled=True)
unfoldable pub is_polled : Db → LogSource → Bool
unfolding get_server
is_polled db source = elim (get_server source.server_id db) [
  | none ↦ false
  | some server ↦ source.enabled && server.enabled
]

unfoldable pub poll_all_log_sources : Db → Db
unfolding is_polled filter
poll_all_log_sources db = record db {
  queue =
      db.queue
      ++ map (λ (s : LogSource). poll_log_source s.id) (filter (is_polled db) db.log_sources);
}
