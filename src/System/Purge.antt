-- ===== src/System/Purge.antt =====
-- The keys, the flags and the history behind a purge.
use ip_scout.Prelude.{
  ℕ, ◌≡◌, refl, sym, ap, ◌∙◌, Bool, not, some, List, ◌==◌, subst, find?, filter, arith, Elem,
  Elem-filter, Bool-cases, inl, inr, length, ltb, find?-holds,
}
use ip_scout.Errors.{ok, >>=-eq-ok}
use ip_scout.Models.{Time, IpAddress, RequestEvent, WhoisRecord, Db}
use ip_scout.Models.Tables.{get_ip}
use ip_scout.Models.Tables.Laws.{DistinctIds, DistinctIds-filter, find-Elem, Elem-find}
use ip_scout.Ips.Sightings.Consistent.{Consistent}
use ip_scout.Ips.Retention.{
  Retention, PurgeResult, purge_old_data, purge_old_request_events, purge_old_whois_records,
  purge_stale_ips, delete_ips, delete_eligible, cutoff_of, purge_eligible_ips,
}
use ip_scout.Ips.Retention.Laws.{purge_old_data-Purged}
use ip_scout.Iran.Classify.Laws.{Agrees}

delete_eligible-next_ip :
    (cutoff : Time) (db : Db) → (delete_eligible cutoff db).next_ip ≡ db.next_ip
unfolding delete_ips
delete_eligible-next_ip cutoff db = elim (Bool-cases (length (purge_eligible_ips cutoff db) == 0)) [
  | inl empty ↦ rw empty refl
  | inr some_rows ↦ rw some_rows refl
]

-- A purge gives no new keys.
purge_old_data-next_ip :
    (retention : Retention) (now : Time) (db db' : Db) (result : PurgeResult)
    → purge_old_data retention now db ≡ ok (db', result)
    → db'.next_ip ≡ db.next_ip
unfolding purge_old_data purge_old_request_events purge_old_whois_records purge_stale_ips
purge_old_data-next_ip retention now db db' result h =
    let ((db1, events), h1, k1) = >>=-eq-ok (purge_old_request_events retention now db) _ h in
    let ((db2, records), h2, k2) = >>=-eq-ok (purge_old_whois_records retention now db1) _ k1 in
    let ((db3, ips), h3, k3) = >>=-eq-ok (purge_stale_ips retention now db2) _ k2 in
    let (c1, _, e1) = >>=-eq-ok (cutoff_of now retention.request_days) _ h1 in
    let (c2, _, e2) = >>=-eq-ok (cutoff_of now retention.whois_days) _ h2 in
    let (c3, _, e3) = >>=-eq-ok (cutoff_of now retention.ip_days) _ h3 in
    let first : record db {
      events = filter (λ (e : RequestEvent). not (ltb e.timestamp c1)) db.events;
    }
        ≡ db1 =
      ground arith in
    let second : record db1 {
      whois_records = filter (λ (x : WhoisRecord). not (ltb x.queried_at c2)) db1.whois_records;
    }
        ≡ db2 =
      ground arith in
    let third : delete_eligible c3 db2 ≡ db3 = ground arith in
    let last : db3 ≡ db' = ground arith in
    let key = λ (x : Db). x.next_ip in
    sym (ap key last)
    ∙ sym (ap key third)
    ∙ delete_eligible-next_ip c3 db2
    ∙ sym (ap key second)
    ∙ sym (ap key first)

-- A row that is found among some of the rows is found among all of them.
find-filter :
    (p : IpAddress → Bool) (rows : List IpAddress) (k : ℕ) (r : IpAddress)
    → DistinctIds rows
    → find? (λ (x : IpAddress). x.id == k) (filter p rows) ≡ some r
    → find? (λ (x : IpAddress). x.id == k) rows ≡ some r
find-filter p rows k r d found =
    let (i, _) = Elem-filter p rows r (Elem-find k (filter p rows) r found) in
    let here : r.id ≡ k =
      ground (arith, find?-holds (λ (x : IpAddress). x.id == k) (filter p rows) r found) in
    subst (λ n. find? (λ (x : IpAddress). x.id == n) rows ≡ some r) here (find-Elem rows r d i)

pub purge_old_data-Consistent :
    (retention : Retention) (now : Time) (db db' : Db) (result : PurgeResult)
    → Consistent db
    → purge_old_data retention now db ≡ ok (db', result)
    → Consistent db'
unfolding get_ip
purge_old_data-Consistent retention now db db' result c h =
    let purged = purge_old_data-Purged retention now db db' result h in
    let same = purge_old_data-next_ip retention now db db' result h in
    record {
      distinct = subst DistinctIds (sym purged.ips) (DistinctIds-filter _ db.ips c.distinct);
      below = λ r i.
          let lt = c.below r (Elem-filter _ db.ips r (subst (Elem r) purged.ips i)).0 in
          omega (arith, same, lt);
      history_below = λ x i.
          let lt = c.history_below x (subst (Elem x) purged.history i) in omega (arith, same, lt);
      agree = λ k r found.
          subst (λ t. Agrees t r) (sym purged.history)
            (c.agree k r (
              find-filter _ db.ips k r c.distinct (
                subst (λ rows. find? (λ (x : IpAddress). x.id == k) rows ≡ some r) purged.ips
                  found)));
    }
