-- ===== src/Ips/Retention/Laws.antt =====
-- What a purge keeps, and what it leaves.
use ip_scout.Prelude.{
  ℕ, ◌-◌, ◌≡◌, refl, sym, ap, ◌∙◌, Bool, false, not, List, [], ◌∷◌, ◌==◌, ltb, any, filter, length,
  arith, Elem, Elem-filter, any-Elem, any-none, filter_all, Bool-cases, inl, inr, subst,
}
use ip_scout.Errors.{ok, >>=-eq-ok}
use ip_scout.Models.{Time, IpAddress, RequestEvent, IpCountryHistory, WhoisRecord, Db}
use ip_scout.Whois.Lookup.{days}
use ip_scout.Ips.Retention.{
  Retention, cutoff_of, is_eligible, delete_ips, delete_eligible, purge_stale_ips,
  purge_old_request_events, purge_old_whois_records, PurgeResult, purge_old_data,
  purge_eligible_ips,
}

module _ (cutoff : Time) (db : Db) where
  -- No row of an address that is deleted refers to it.
  history_stays :
      (h : IpCountryHistory)
      → Elem h db.history
      → any (λ (r : IpAddress). r.id == h.ip_id) (filter (is_eligible cutoff db) db.ips) ≡ false
  unfolding is_eligible
  history_stays h i =
      any-none (λ (r : IpAddress). r.id == h.ip_id) (filter (is_eligible cutoff db) db.ips)
        (λ r j.
          let (_, eligible) = Elem-filter (is_eligible cutoff db) db.ips r j in
          elim (Bool-cases (r.id == h.ip_id)) [
            | inr other ↦ other
            | inl same ↦ absurd (
                ground (
                  arith,
                  any-Elem (λ (x : IpCountryHistory). x.ip_id == r.id) db.history h i
                      (ground arith),
                ))
          ])

  events_stay :
      (e : RequestEvent)
      → Elem e db.events
      → any (λ (r : IpAddress). r.id == e.ip_id) (filter (is_eligible cutoff db) db.ips) ≡ false
  unfolding is_eligible
  events_stay e i =
      any-none (λ (r : IpAddress). r.id == e.ip_id) (filter (is_eligible cutoff db) db.ips)
        (λ r j.
          let (_, eligible) = Elem-filter (is_eligible cutoff db) db.ips r j in
          elim (Bool-cases (r.id == e.ip_id)) [
            | inr other ↦ other
            | inl same ↦ absurd (
                ground (
                  arith,
                  any-Elem (λ (x : RequestEvent). x.ip_id == r.id) db.events e i (ground arith),
                ))
          ])

  delete_ips-history : (delete_ips (is_eligible cutoff db) db).history ≡ db.history
  unfolding delete_ips
  delete_ips-history = filter_all _ db.history (λ h i. ap not (history_stays h i))

  delete_ips-events : (delete_ips (is_eligible cutoff db) db).events ≡ db.events
  unfolding delete_ips
  delete_ips-events = filter_all _ db.events (λ e i. ap not (events_stay e i))

filter_none :
    (p : IpAddress → Bool) (rows : List IpAddress)
    → length (filter p rows) ≡ 0
    → filter (λ r. not (p r)) rows ≡ rows
unfolding filter
filter_none p [] h = refl
filter_none p (r ∷ rows) h = elim (Bool-cases (p r)) [
  | inl hit ↦ absurd (ground arith)
  | inr miss ↦ rw miss (ap (◌∷◌ r) (filter_none p rows (ground arith)))
]

-- Eligibility looks at nothing but the events and the history.
is_eligible-cong :
    (cutoff : Time) (x y : Db)
    → x.events ≡ y.events
    → x.history ≡ y.history
    → is_eligible cutoff x ≡ is_eligible cutoff y
unfolding is_eligible
is_eligible-cong cutoff x y e h = rw (e, h) refl

-- The state that a purge of addresses leaves.
record PurgedIps (cutoff : Time) (db db' : Db) : Type 0 where
  pub history : db'.history ≡ db.history
  pub events : db'.events ≡ db.events
  pub ips : db'.ips ≡ filter (λ r. not (is_eligible cutoff db r)) db.ips

delete_ips-Purged :
    (cutoff : Time) (db : Db) → PurgedIps cutoff db (delete_ips (is_eligible cutoff db) db)
unfolding delete_ips
delete_ips-Purged cutoff db = record {
  history = delete_ips-history cutoff db;
  events = delete_ips-events cutoff db;
  ips = refl;
}

delete_eligible-Purged : (cutoff : Time) (db : Db) → PurgedIps cutoff db (delete_eligible cutoff db)
delete_eligible-Purged cutoff db = elim (Bool-cases (length (purge_eligible_ips cutoff db) == 0)) [
  | inl empty ↦ rw empty (record {
    history = refl;
    events = refl;
    ips = sym (filter_none (is_eligible cutoff db) db.ips (ground arith));
  })
  | inr some_rows ↦ rw some_rows (delete_ips-Purged cutoff db)
]

cutoff_of-eq :
    (now : Time) (n : ℕ) (cutoff : Time) → cutoff_of now n ≡ ok cutoff → now - days n ≡ cutoff
unfolding cutoff_of
cutoff_of-eq now n cutoff h = ground arith

purge_stale_ips-Purged :
    (retention : Retention) (now : Time) (db db' : Db) (count : ℕ)
    → purge_stale_ips retention now db ≡ ok (db', count)
    → PurgedIps (now - days retention.ip_days) db db'
unfolding purge_stale_ips
purge_stale_ips-Purged retention now db db' count h =
    let (cutoff, e, h') = >>=-eq-ok (cutoff_of now retention.ip_days) _ h in
    let same : delete_eligible cutoff db ≡ db' = ground arith in
    let at : now - days retention.ip_days ≡ cutoff = cutoff_of-eq now retention.ip_days cutoff e in
    subst (PurgedIps (now - days retention.ip_days) db) same (
      subst (λ c. PurgedIps c db (delete_eligible cutoff db)) (sym at)
        (delete_eligible-Purged cutoff db))

-- An event that is young enough to stay.
abbrev pub is_recent : Retention → Time → RequestEvent → Bool
is_recent retention now e = not (ltb e.timestamp (now - days retention.request_days))

-- What a purge of the three tables leaves.
pub record Purged (retention : Retention) (now : Time) (db db' : Db) : Type 0 where
  pub history : db'.history ≡ db.history
  pub events : db'.events ≡ filter (is_recent retention now) db.events
  pub ips : db'.ips ≡ filter (λ r. not (is_eligible (now - days retention.ip_days) db' r)) db.ips

purge_old_request_events-eq :
    (retention : Retention) (now : Time) (db db' : Db) (count : ℕ)
    → purge_old_request_events retention now db ≡ ok (db', count)
    → record db { events = filter (is_recent retention now) db.events } ≡ db'
unfolding purge_old_request_events
purge_old_request_events-eq retention now db db' count h =
    let (cutoff, e, h') = >>=-eq-ok (cutoff_of now retention.request_days) _ h in
    let at = cutoff_of-eq now retention.request_days cutoff e in
    let same : record db {
      events = filter (λ (x : RequestEvent). not (ltb x.timestamp cutoff)) db.events;
    }
        ≡ db' =
      ground arith in
    subst
      (λ c.
        record db { events = filter (λ (x : RequestEvent). not (ltb x.timestamp c)) db.events }
        ≡ db')
      (sym at) same

-- What the purge of lookups leaves as it is.
record SameRows (x y : Db) : Type 0 where
  pub history : y.history ≡ x.history
  pub events : y.events ≡ x.events
  pub ips : y.ips ≡ x.ips

purge_old_whois_records-SameRows :
    (retention : Retention) (now : Time) (db db' : Db) (count : ℕ)
    → purge_old_whois_records retention now db ≡ ok (db', count)
    → SameRows db db'
unfolding purge_old_whois_records
purge_old_whois_records-SameRows retention now db db' count h =
    let (cutoff, e, h') = >>=-eq-ok (cutoff_of now retention.whois_days) _ h in
    let same : record db {
      whois_records = filter (λ (x : WhoisRecord). not (ltb x.queried_at cutoff)) db.whois_records;
    }
        ≡ db' =
      ground arith in
    subst (SameRows db) same (record { history = refl; events = refl; ips = refl })

-- A purge never deletes history, deletes exactly the events that are too old, and deletes exactly the
-- addresses that were last seen too long ago, are not Iranian, and have neither history nor an event
-- that is left.
pub purge_old_data-Purged :
    (retention : Retention) (now : Time) (db db' : Db) (result : PurgeResult)
    → purge_old_data retention now db ≡ ok (db', result)
    → Purged retention now db db'
unfolding purge_old_data
purge_old_data-Purged retention now db db' result h =
    let ((db1, events), h1, k1) = >>=-eq-ok (purge_old_request_events retention now db) _ h in
    let ((db2, records), h2, k2) = >>=-eq-ok (purge_old_whois_records retention now db1) _ k1 in
    let ((db3, ips), h3, k3) = >>=-eq-ok (purge_stale_ips retention now db2) _ k2 in
    let first = purge_old_request_events-eq retention now db db1 events h1 in
    let second = purge_old_whois_records-SameRows retention now db1 db2 records h2 in
    let third = purge_stale_ips-Purged retention now db2 db3 ips h3 in
    let last : db3 ≡ db' = ground arith in
    subst (Purged retention now db) last (record {
      history = third.history ∙ second.history ∙ ap (λ (x : Db). x.history) (sym first);
      events = third.events ∙ second.events ∙ ap (λ (x : Db). x.events) (sym first);
      ips =
          third.ips
          ∙ ap (λ p. filter (λ r. not (p r)) db2.ips)
              (sym (
                is_eligible-cong (now - days retention.ip_days) db3 db2 third.events third.history))
          ∙ ap (λ rows. filter (λ r. not (is_eligible (now - days retention.ip_days) db3 r)) rows)
              (second.ips ∙ ap (λ (x : Db). x.ips) (sym first));
    })
