-- ===== src/Ips/Retention.antt =====
-- The purges of apps/ips/tasks.py, apps/incidents/tasks.py and apps/whois/tasks.py. Deleting an
-- address deletes the rows that refer to it, as its foreign keys cascade.
pub mod Laws
use ip_scout.Prelude.{
  ℕ, ◌-◌, ◌≡◌, refl, Bool, true, false, not, ◌&&◌, ◌||◌, List, [], ◌∷◌, ◌==◌, ltb, any, filter,
  length, if◌then◌else◌,
}
use ip_scout.Errors.{Outcome, ok, raise, overflow_error, ◌>>=◌}
use ip_scout.Models.{Time, IpAddress, RequestEvent, IpCountryHistory, WhoisRecord, Db}
use ip_scout.Whois.Lookup.{days}

-- settings.REQUEST_RETENTION_DAYS, WHOIS_RETENTION_DAYS and IP_RETENTION_DAYS
pub record Retention : Type 0 where
  pub request_days : ℕ
  pub whois_days : ℕ
  pub ip_days : ℕ

-- timezone.now() - timedelta(days=…); a date before the year 1 is an OverflowError.
unfoldable pub cutoff_of : Time → ℕ → Outcome Time
cutoff_of now n = if ltb now (days n) then raise overflow_error else ok (now - days n)

abbrev pub has_event : Db → ℕ → Bool
has_event db pk = any (λ (e : RequestEvent). e.ip_id == pk) db.events

abbrev pub has_history : Db → ℕ → Bool
has_history db pk = any (λ (h : IpCountryHistory). h.ip_id == pk) db.history

-- The filter of _purge_eligible_ips
unfoldable pub is_eligible : Time → Db → IpAddress → Bool
is_eligible cutoff db r =
    ltb r.last_seen_at cutoff
    && not r.is_iran
    && not (has_event db r.id)
    && not (has_history db r.id)

abbrev pub purge_eligible_ips : Time → Db → List IpAddress
purge_eligible_ips cutoff db = filter (is_eligible cutoff db) db.ips

-- queryset.delete() with what cascades from it
unfoldable pub delete_ips : (IpAddress → Bool) → Db → Db
unfolding filter any
delete_ips doomed db =
    let gone = filter doomed db.ips in
    let stays = λ (pk : ℕ). not (any (λ (r : IpAddress). r.id == pk) gone) in
    record db {
      ips = filter (λ r. not (doomed r)) db.ips;
      events = filter (λ (e : RequestEvent). stays e.ip_id) db.events;
      history = filter (λ (h : IpCountryHistory). stays h.ip_id) db.history;
      whois_records = filter (λ (x : WhoisRecord). stays x.ip_id) db.whois_records;
    }

-- if count: queryset.delete()
abbrev pub delete_eligible : Time → Db → Db
delete_eligible cutoff db =
    if length (purge_eligible_ips cutoff db) == 0 then db else delete_ips (is_eligible cutoff db) db

unfoldable pub purge_stale_ips : Retention → Time → Db → Outcome (Db × ℕ)
purge_stale_ips retention now db = do
  cutoff ← cutoff_of now retention.ip_days
  ok (delete_eligible cutoff db, length (purge_eligible_ips cutoff db))

unfoldable pub purge_old_request_events : Retention → Time → Db → Outcome (Db × ℕ)
unfolding filter
purge_old_request_events retention now db = do
  cutoff ← cutoff_of now retention.request_days
  let old = λ (e : RequestEvent). ltb e.timestamp cutoff
  ok (record db { events = filter (λ e. not (old e)) db.events }, length (filter old db.events))

unfoldable pub purge_old_whois_records : Retention → Time → Db → Outcome (Db × ℕ)
unfolding filter
purge_old_whois_records retention now db = do
  cutoff ← cutoff_of now retention.whois_days
  let old = λ (x : WhoisRecord). ltb x.queried_at cutoff
  ok (
    record db { whois_records = filter (λ x. not (old x)) db.whois_records },
    length (filter old db.whois_records),
  )

pub record PurgeResult : Type 0 where
  pub request_events : ℕ
  pub whois_records : ℕ
  pub ips : ℕ

unfoldable pub purge_old_data : Retention → Time → Db → Outcome (Db × PurgeResult)
purge_old_data retention now db = do
  (db1, events) ← purge_old_request_events retention now db
  (db2, records) ← purge_old_whois_records retention now db1
  (db3, ips) ← purge_stale_ips retention now db2
  ok (db3, record { request_events = events; whois_records = records; ips = ips })
