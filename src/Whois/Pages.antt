-- ===== src/Whois/Pages.antt =====
-- The list of lookups of apps/whois/views.py, up to pagination.
use ip_scout.Prelude.{Option, Bool, ◌&&◌, List, Text, ◌==◌, ltb, any, filter, if◌then◌else◌}
use ip_scout.Python.Strip.{is_nil, strip}
use ip_scout.Query.{order_by}
use ip_scout.Models.{IpAddress, WhoisRecord, Db}
use ip_scout.Api.{get}

abbrev pub latest_query : WhoisRecord → WhoisRecord → Bool
latest_query a b = ltb b.queried_at a.queried_at

-- whois_list; `icontains` is the comparison of the database without regard to case.
unfoldable pub whois_list : (Text → Text → Bool) → Option Text → Db → List WhoisRecord
unfolding strip filter any order_by
whois_list icontains ip db =
    let query = strip (get ip) in
    let matches = λ (x : WhoisRecord).
      any (λ (r : IpAddress). (r.id == x.ip_id) && icontains r.address query) db.ips in
    order_by latest_query
      (if is_nil query then db.whois_records else filter matches db.whois_records)
