-- ===== src/Servers/Pages.antt =====
-- The pages of apps/servers/views.py and apps/logs/views.py that read. The order of texts is the database's.
use ip_scout.Prelude.{
  ℕ, Option, none, some, Bool, List, [], Text, ◌==◌, filter, map, length, text_eq, if◌then◌else◌,
}
use ip_scout.Query.{order_by}
use ip_scout.Models.{Server, LogSource, RequestEvent, Db}
use ip_scout.Models.Tables.{get_server}

-- Count("request_events") of a source
unfoldable pub with_count : Db → LogSource → LogSource × ℕ
unfolding filter
with_count db s = (s, length (filter (λ (e : RequestEvent). e.log_source_id == s.id) db.events))

unfoldable pub sources_of : ℕ → Db → List LogSource
unfolding filter
sources_of pk db = filter (λ (s : LogSource). s.server_id == pk) db.log_sources

-- server_detail; `none` is a 404.
unfoldable pub server_detail : ℕ → Db → Option (Server × List (LogSource × ℕ))
unfolding get_server sources_of with_count
server_detail pk db = elim (get_server pk db) [
  | none ↦ none
  | some server ↦ some (server, map (with_count db) (sources_of pk db))
]

-- log_source_list
unfoldable pub log_source_list : Db → List (LogSource × ℕ)
unfolding with_count
log_source_list db = map (with_count db) db.log_sources

abbrev name_of : Option Server → Text
name_of none = []
name_of (some server) = server.name

module _ (text_before : Text → Text → Bool) where
  -- server_list
  unfoldable pub server_list : Db → List Server
  unfolding order_by
  server_list db = order_by (λ (a b : Server). text_before a.name b.name) db.servers

  -- Meta.ordering of LogSource: by the name of the server, then by the path
  unfoldable pub source_before : Db → LogSource → LogSource → Bool
  unfolding get_server text_eq
  source_before db a b =
      let name = name_of (get_server a.server_id db) in
      let name' = name_of (get_server b.server_id db) in
      if text_eq name name' then text_before a.path b.path else text_before name name'

  -- reader_list
  unfoldable pub reader_list : Db → List LogSource
  unfolding source_before order_by
  reader_list db = order_by (source_before db) db.log_sources

  -- ServerViewSet.logs; `none` is a 404.
  unfoldable pub server_logs : ℕ → Db → Option (List LogSource)
  unfolding get_server sources_of source_before order_by
  server_logs pk db = elim (get_server pk db) [
    | none ↦ none
    | some server ↦ some (order_by (source_before db) (sources_of pk db))
  ]
