-- ===== src/Iran/Validation/Runs.antt =====
-- A validation run and the history of the addresses that it classifies again.
use ip_scout.Prelude.{
  ℕ, ◌≡◌, ◌≢◌, refl, sym, ◌∙◌, Bool, true, false, ◌&&◌, some, List, [], ◌∷◌, ◌==◌, Text, subst,
  find?, filter, any, arith, Elem, Elem-filter, Bool-cases, inl, inr, if◌then◌else◌,
}
use ip_scout.Errors.{ok, >>=-eq-ok, ok-injective, Outcome-cases}
use ip_scout.Models.{Time, IpAddress, Db}
use ip_scout.Models.Tables.{get_ip, update_ip}
use ip_scout.Models.Tables.Laws.{DistinctIds, DistinctIds-filter, find-Elem, find-update_ne}
use ip_scout.Iran.Match.{Contains, find_matching_cidr}
use ip_scout.Iran.Classify.{verdict, classified, apply_verdict, classify}
use ip_scout.Iran.Classify.Laws.{Agrees, AllAgree, classify-AllAgree}
use ip_scout.Iran.Providers.{CidrEntry, Provider, source_of, fetch, prefix_length_of}
use ip_scout.Iran.Validation.{
  natural, with_network, insert_network, refreshed, upsert, has_key, Upserted, upsert_all,
  disable_removed, reevaluate, sync, flagged, ValidationSummary, run_entries, run,
}
use ip_scout.Iran.Validation.Laws.{after_entry, upsert_all-step}

-- The rows are those of the table.
abbrev pub AllCurrent : List IpAddress → Db → Type 0
AllCurrent ips db = (r : IpAddress) → Elem r ips → get_ip r.id db ≡ some r

module _ (contains : Contains) (now : Time) where
  classify-other :
      (ip : IpAddress) (db db' : Db) (ip' : IpAddress) (j : ℕ)
      → classify contains now ip db ≡ ok (db', ip')
      → j ≢ ip.id
      → get_ip j db' ≡ get_ip j db
  unfolding classify apply_verdict get_ip update_ip
  classify-other ip db db' ip' j h ne =
      let (match, m, h') = >>=-eq-ok (find_matching_cidr contains ip.address db) _ h in
      let v = verdict match ip.whois_country in
      subst (λ (t : Db × IpAddress). get_ip j t.0 ≡ get_ip j db)
        (ok-injective (apply_verdict now v ip db) (db', ip') h')
        (find-update_ne ip.id (classified now v) (λ x. refl) j db.ips ne)

  reevaluate-AllAgree :
      (ips : List IpAddress) (db db' : Db)
      → DistinctIds ips
      → AllCurrent ips db
      → AllAgree db
      → reevaluate contains now ips db ≡ ok db'
      → AllAgree db'
  unfolding reevaluate
  reevaluate-AllAgree [] db db' d current agree h = subst AllAgree (ok-injective db db' h) agree
  reevaluate-AllAgree (ip ∷ ips) db db' (ne, d) current agree h =
      elim (Outcome-cases (classify contains now ip db)) [
        | inl (x, f) ↦ absurd (ground arith)
        | inr ((db1, ip'), f) ↦
            let (agree1, _) =
              classify-AllAgree contains now ip db db1 ip' (current ip (inl refl)) agree f in
            reevaluate-AllAgree ips db1 db' d
              (λ r i. classify-other ip db db1 ip' r.id f (ne r i) ∙ current r (inr i)) agree1
              (ground arith)
      ]

-- The addresses and their history are the same in the two states.
pub record SameIps (x y : Db) : Type 0 where
  pub ips : y.ips ≡ x.ips
  pub history : y.history ≡ x.history
  pub next_ip : y.next_ip ≡ x.next_ip

module _ (now : Time) (source : Text) where
  insert-SameIps :
      (e : CidrEntry) (cidr : Text) (db db' : Db)
      → insert_network now source e cidr db ≡ ok db'
      → SameIps db db'
  unfolding insert_network
  insert-SameIps e cidr db db' h =
      let (z, _, h') = >>=-eq-ok (prefix_length_of e.cidr) _ h in
      let (prefix, _, h'') = >>=-eq-ok (natural z) _ h' in
      subst (SameIps db) (ok-injective (with_network now source e cidr prefix db) db' h'')
        (record { ips = refl; history = refl; next_ip = refl })

  upsert-SameIps :
      (e : CidrEntry) (cidr : Text) (db db' : Db) (b : Bool)
      → upsert now source e cidr db ≡ ok (db', b)
      → SameIps db db'
  unfolding upsert
  upsert-SameIps e cidr db db' b h =
      elim (Bool-cases (any (has_key e.country_code cidr) db.networks)) [
        | inl there ↦
            let same : refreshed now source e cidr db ≡ db' = ground arith in
            subst (SameIps db) same (record { ips = refl; history = refl; next_ip = refl })
        | inr new ↦ elim (Outcome-cases (insert_network now source e cidr db)) [
          | inl (x, f) ↦ absurd (ground arith)
          | inr (d, f) ↦
              let same : d ≡ db' = ground arith in
              subst (SameIps db) same (insert-SameIps e cidr db d f)
        ]
      ]

  upsert_all-SameIps :
      (entries : List CidrEntry) (u u' : Upserted)
      → upsert_all now source entries u ≡ ok u'
      → SameIps u.db u'.db
  unfolding upsert_all
  upsert_all-SameIps [] u u' h =
      subst (λ (v : Upserted). SameIps u.db v.db) (ok-injective u u' h)
        (record { ips = refl; history = refl; next_ip = refl })
  upsert_all-SameIps (e ∷ entries) u u' h =
      let (cidr, db, b, _, g, rest) = upsert_all-step now source e entries u u' h in
      let first = upsert-SameIps e cidr u.db db b g in
      let more = upsert_all-SameIps entries (after_entry now source cidr db b u) u' rest in
      record {
        ips = more.ips ∙ first.ips;
        history = more.history ∙ first.history;
        next_ip = more.next_ip ∙ first.next_ip;
      }

  pub sync-SameIps :
      (entries : List CidrEntry) (db : Db) (u : Upserted) (disabled : ℕ)
      → sync now source entries db ≡ ok (u, disabled)
      → SameIps db u.db
  unfolding sync disable_removed
  sync-SameIps entries db u disabled h =
      let start : Upserted = record { db = db; created = 0; fetched_cidrs = [] } in
      let (v, f, h') = >>=-eq-ok (upsert_all now source entries start) _ h in
      let kept = upsert_all-SameIps entries start v f in
      let same : disable_removed now source v.fetched_cidrs v.db ≡ u.db = ground arith in
      subst (SameIps db) same
        (record { ips = kept.ips; history = kept.history; next_ip = kept.next_ip })

pub AllAgree-SameIps : (x y : Db) → SameIps x y → AllAgree x → AllAgree y
unfolding get_ip
AllAgree-SameIps x y same agree pk r found =
    subst (λ h. Agrees h r) (sym same.history)
      (agree pk r
        (subst (λ rows. find? (λ (z : IpAddress). z.id == pk) rows ≡ some r) same.ips found))

-- The rows that a run classifies again.
abbrev pub reevaluated : Bool → Db → List IpAddress
reevaluated nothing_new db = if nothing_new then [] else filter flagged db.ips

reevaluated-Current :
    (b : Bool) (db : Db)
    → DistinctIds db.ips
    → DistinctIds (reevaluated b db) × AllCurrent (reevaluated b db) db
unfolding get_ip
reevaluated-Current true db d = (tt, λ r i. absurd i)
reevaluated-Current false db d = (
  DistinctIds-filter flagged db.ips d,
  λ r i. find-Elem db.ips r d (Elem-filter flagged db.ips r i).0,
)

-- If primary keys are unique and the open periods of each address agree with its flag, they agree
-- after a validation run that returns, whichever networks it adds, refreshes or disables and whichever
-- addresses it classifies again.
pub run-AllAgree :
    (contains : Contains) (now : Time) (provider : Provider) (body : Text) (db db' : Db)
    (summary : ValidationSummary)
    → DistinctIds db.ips
    → AllAgree db
    → run contains now provider body db ≡ ok (db', summary)
    → AllAgree db'
unfolding run run_entries
run-AllAgree contains now provider body db db' summary d agree h =
    let ((u, disabled), f, h') =
      >>=-eq-ok (sync now (source_of provider) (fetch provider body db) db) _ h in
    let quiet = (u.created == 0) && (disabled == 0) in
    let (done, g, h'') = >>=-eq-ok (reevaluate contains now (reevaluated quiet u.db) u.db) _ h' in
    let kept = sync-SameIps now (source_of provider) (fetch provider body db) db u disabled f in
    let (distinct, current) = reevaluated-Current quiet u.db (subst DistinctIds (sym kept.ips) d) in
    let same : done ≡ db' = ground arith in
    subst AllAgree same (
      reevaluate-AllAgree contains now (reevaluated quiet u.db) u.db done distinct current
        (AllAgree-SameIps db u.db kept agree) g)
