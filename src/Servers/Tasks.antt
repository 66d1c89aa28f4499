-- ===== src/Servers/Tasks.antt =====
-- apps/servers/tasks.py, and the state that models.py and apps/logs/models.py show of a row.
pub mod Laws
use ip_scout.Prelude.{
  ℕ, suc, ◌+◌, Option, none, some, Bool, true, false, not, ◌&&◌, ◌||◌, List, [], ◌∷◌, ◌++◌, Text,
  ◌==◌, codes, any, text_eq, is_some, if◌then◌else◌,
}
use ip_scout.Errors.{Outcome, raise, ssh_error, ◌>>=◌}
use ip_scout.Python.Strip.{is_nil}
use ip_scout.Python.Split.{split, pop}
use ip_scout.Models.{
  Time, Server, LogSource, AuditResult, success, failure, ssh_test, ssh_discover, Db,
}
use ip_scout.Models.Tables.{get_server, update_server}
use ip_scout.Common.Locks.{World, with_lock}
use ip_scout.Users.{Subject, record_audit_log}
use ip_scout.Whois.Lookup.{seconds}
use ip_scout.Servers.Ssh.{
  Host, ConnectionTestResult, DiscoveredLogFile, test_connection, discover_logs,
}

pub data Status : Type 0 where
  disabled error ok unknown running pending : Status

-- Server.connection_status
unfoldable pub connection_status : Server → Status
connection_status s =
    if not s.enabled
    then Status.disabled
    else if not (is_nil s.last_error)
    then Status.error
    else if is_some s.last_connected_at
    then Status.ok
    else Status.unknown

-- LogSource.reader_status
unfoldable pub reader_status : LogSource → Status
reader_status s =
    if not s.enabled
    then Status.disabled
    else if not (is_nil s.last_error)
    then Status.error
    else if is_some s.last_read_at
    then Status.running
    else Status.pending

-- _resolve_user: the id, if it is not 0 and a user has it.
unfoldable pub resolve_user : (ℕ → Bool) → Option ℕ → Option ℕ
resolve_user exists none = none
resolve_user exists (some n) = if not (n == 0) && exists n then some n else none

abbrev pub subject : Server → Subject
subject s = record { object_type = codes "Server"; pk = s.id }

-- server.last_error = result.error or "Unknown SSH error"
abbrev error_text : Option Text → Text
error_text none = codes "Unknown SSH error"
error_text (some []) = codes "Unknown SSH error"
error_text (some (c ∷ s)) = c ∷ s

-- The columns that a connection test saves.
abbrev pub tested : Time → ConnectionTestResult → Server → Server
tested now result s =
    if result.success
    then record s { last_connected_at = some now; last_error = [] }
    else record s { last_error = error_text result.error }

abbrev pub connected : Time → Server → Server
connected now s = record s { last_connected_at = some now; last_error = [] }

-- The part of the task behind the lock.
unfoldable pub save_test : Time → Option ℕ → Server → ConnectionTestResult → Db → Outcome Db
unfolding update_server
save_test now user server result db =
    record_audit_log none (codes "server.test_connection") (some (subject server))
      (if result.success then success else failure) user none
      (update_server server.id (tested now result) db)

-- settings.SSH_CONNECT_TIMEOUT and the users that there are
pub record Environment : Type 0 where
  pub ssh_connect_timeout : ℕ
  pub user_exists : ℕ → Bool

module _ (env : Environment) (host : ℕ → Host) where
  unfoldable pub test_server_connection : Time → ℕ → Option ℕ → World → Outcome World
  unfolding get_server resolve_user
  test_server_connection now server_id user_id w = elim (get_server server_id w.db) [
    | none ↦ Outcome.ok w
    | some server ↦
        let user = resolve_user env.user_exists user_id in
        do
          (w', result) ←
              with_lock now (ssh_test server_id) (seconds (env.ssh_connect_timeout + 30))
                (λ db. Outcome.ok (db, test_connection (host server.id) server)) w
          elim result [
            | none ↦ Outcome.ok w'
            | some r ↦ do
              saved ← save_test now user server r w'.db
              Outcome.ok (record w' { db = saved })
          ]
  ]

-- path.rsplit("/", 1)[-1]
unfoldable pub basename : Text → Text
unfolding split pop
basename path = (pop (split b'/' path)).1

abbrev pub is_at : ℕ → Text → LogSource → Bool
is_at server_id path s = (s.server_id == server_id) && text_eq s.path path

-- LogSource(server=…, path=…, name=…) with its primary key and defaults
abbrev pub new_source : ℕ → ℕ → Text → LogSource
new_source id server_id path = record {
  id = id;
  server_id = server_id;
  name = basename path;
  path = path;
  format = codes "combined";
  enabled = false;
  inode = none;
  byte_offset = 0;
  last_read_at = none;
  last_event_at = none;
  last_error = [];
}

abbrev pub with_source : ℕ → Text → Db → Db
with_source server_id path db = record db {
  log_sources = db.log_sources ++ new_source db.next_source server_id path ∷ [];
  next_source = suc db.next_source;
}

-- LogSource.objects.get_or_create(…) for each file
unfoldable pub register : ℕ → List DiscoveredLogFile → Db → Db
unfolding any
register server_id [] db = db
register server_id (f ∷ files) db = elim (any (is_at server_id f.path) db.log_sources) [
  | true ↦ register server_id files db
  | false ↦ register server_id files (with_source server_id f.path db)
]

-- What the task does with what the discovery gave or raised.
unfoldable pub save_discovery :
    Time → Option ℕ → Server → Outcome (List DiscoveredLogFile) → Db → Outcome Db
unfolding update_server
save_discovery now user server (Outcome.ok files) db =
    record_audit_log none (codes "server.discover_logs") (some (subject server)) success user none
      (update_server server.id (connected now) (register server.id files db))
save_discovery now user server (raise (ssh_error e)) db =
    record_audit_log none (codes "server.discover_logs") (some (subject server)) failure user none
      (update_server server.id (λ s. record s { last_error = e }) db)
save_discovery now user server (raise e) db = raise e

module _ (env : Environment) (host : ℕ → Host) where
  -- The failure is saved inside of the lock, the files behind it, where the lock is free again.
  unfoldable pub discover_server_logs : Time → ℕ → Option ℕ → World → Outcome World
  unfolding get_server resolve_user
  discover_server_logs now server_id user_id w = elim (get_server server_id w.db) [
    | none ↦ Outcome.ok w
    | some server ↦
        let user = resolve_user env.user_exists user_id in
        do
          (w', result) ←
              with_lock now (ssh_discover server_id) (seconds (env.ssh_connect_timeout + 60))
                (λ db.
                  Outcome.ok (db, discover_logs (host server.id) server server.log_search_paths))
                w
          elim result [
            | none ↦ Outcome.ok w'
            | some r ↦
                save_discovery now user server r w'.db >>= λ db. Outcome.ok (record w' { db = db })
          ]
  ]
