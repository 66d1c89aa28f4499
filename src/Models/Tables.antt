-- ===== src/Models/Tables.antt =====
-- Reads and writes of the tables by primary key, as Django's managers do them.
pub mod Laws
use ip_scout.Prelude.{
  ltb, ℕ, ◌≡◌, refl, Bool, true, false, Option, none, some, List, [], ◌∷◌, ◌++◌, Text, ◌==◌, find?,
  filter, update_where, if◌then◌else◌, text_eq,
}
use ip_scout.Models.{Db, Server, LogSource, IpAddress, CountryNetwork, Message}

-- IPAddress.objects.get(pk=pk); `none` is DoesNotExist.
unfoldable pub get_ip : ℕ → Db → Option IpAddress
unfolding find?
get_ip pk db = find? (λ (r : IpAddress). r.id == pk) db.ips

-- Meta.ordering of IPAddress, for order_by
abbrev pub latest_first : IpAddress → IpAddress → Bool
latest_first a b = ltb b.last_seen_at a.last_seen_at

-- An UPDATE of the row with the primary key.
unfoldable pub update_ip : ℕ → (IpAddress → IpAddress) → Db → Db
unfolding update_where
update_ip pk f db = record db { ips = update_where (λ (r : IpAddress). r.id == pk) f db.ips }

unfoldable pub get_source : ℕ → Db → Option LogSource
unfolding find?
get_source pk db = find? (λ (r : LogSource). r.id == pk) db.log_sources

unfoldable pub update_source : ℕ → (LogSource → LogSource) → Db → Db
unfolding update_where
update_source pk f db = record db {
  log_sources = update_where (λ (r : LogSource). r.id == pk) f db.log_sources;
}

unfoldable pub get_server : ℕ → Db → Option Server
unfolding find?
get_server pk db = find? (λ (r : Server). r.id == pk) db.servers

unfoldable pub update_server : ℕ → (Server → Server) → Db → Db
unfolding update_where
update_server pk f db = record db {
  servers = update_where (λ (r : Server). r.id == pk) f db.servers;
}

-- task.delay(...)
unfoldable pub delay : Message → Db → Db
delay m db = record db { queue = db.queue ++ m ∷ [] }
