-- ===== src/Ips/Tasks.antt =====
-- apps/ips/tasks.py: `process_new_ip`.
use ip_scout.Prelude.{none, some, false, if◌then◌else◌, ℕ}
use ip_scout.Errors.{Outcome, ok}
use ip_scout.Models.{Time, IpAddress, ip_process, perform_whois_lookup, classify_ip, enrich_ip, Db}
use ip_scout.Models.Tables.{get_ip, delay}
use ip_scout.Common.Locks.{World, locked}
use ip_scout.Ips.Identity.{needs_whois_check}
use ip_scout.Whois.Lookup.{seconds}

-- The messages that the task sends for an address.
unfoldable pub dispatch : Time → IpAddress → Db → Db
unfolding needs_whois_check delay
dispatch now ip db =
    let looked_up =
      if needs_whois_check now ip then delay (perform_whois_lookup ip.id false) db else db in
    delay (enrich_ip ip.id) (delay (classify_ip ip.id) looked_up)

unfoldable pub process_new_ip : Time → ℕ → World → Outcome World
unfolding get_ip
process_new_ip now ip_id w = elim (get_ip ip_id w.db) [
  | none ↦ ok w
  | some ip ↦ locked now (ip_process ip.address) (seconds 300) (λ db. ok (dispatch now ip db)) w
]
