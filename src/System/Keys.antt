-- ===== src/System/Keys.antt =====
-- The primary keys behind a classification and a validation run.
use ip_scout.Prelude.{
  ℕ, ◌<◌, ◌≡◌, refl, sym, ap, ◌∙◌, Bool, true, false, ◌&&◌, List, [], ◌∷◌, ◌++◌, ◌==◌, Text, subst,
  arith, Elem, Elem-filter, Bool-cases, inl, inr, if◌then◌else◌,
}
use ip_scout.Errors.{ok, ok-injective, >>=-eq-ok, Outcome-cases}
use ip_scout.Models.{Time, IpAddress, IpCountryHistory, Db}
use ip_scout.Models.Tables.{update_ip}
use ip_scout.Models.Tables.Laws.{DistinctIds}
use ip_scout.Ips.Sightings.Consistent.{Consistent, Elem-update_where, DistinctIds-update_where}
use ip_scout.Iran.Match.{Contains, find_matching_cidr}
use ip_scout.Iran.Classify.{
  Verdict, verdict, changed, close_periods, new_period, history_after, classified, apply_verdict,
  classify,
}
use ip_scout.Iran.Classify.Laws.{AllAgree}
use ip_scout.Iran.Providers.{Provider, source_of, fetch}
use ip_scout.Iran.Validation.{ValidationSummary, reevaluate, sync, run_entries, run}
use ip_scout.Iran.Validation.Runs.{SameIps, sync-SameIps, reevaluated}

-- The keys of a consistent state.
pub record Keyed (db : Db) : Type 0 where
  pub distinct : DistinctIds db.ips
  pub below : (r : IpAddress) → Elem r db.ips → r.id < db.next_ip
  pub history_below : (h : IpCountryHistory) → Elem h db.history → h.ip_id < db.next_ip

pub keys_of : (db : Db) → Consistent db → Keyed db
keys_of db c = record { distinct = c.distinct; below = c.below; history_below = c.history_below }

pub with_agree : (db : Db) → Keyed db → AllAgree db → Consistent db
with_agree db k a = record {
  distinct = k.distinct;
  below = k.below;
  history_below = k.history_below;
  agree = a;
}

pub Keyed-SameIps : (x y : Db) → SameIps x y → Keyed x → Keyed y
Keyed-SameIps x y same k = record {
  distinct = subst DistinctIds (sym same.ips) k.distinct;
  below =
      λ r i. let lt = k.below r (subst (Elem r) same.ips i) in let e = same.next_ip in omega arith;
  history_below = λ h i.
      let lt = k.history_below h (subst (Elem h) same.history i) in
      let e = same.next_ip in omega arith;
}

-- A classification writes periods of its address only.
close_below :
    (pk bound : ℕ) (now : Time) (history : List IpCountryHistory)
    → ((h : IpCountryHistory) → Elem h history → h.ip_id < bound)
    → (h : IpCountryHistory) → Elem h (close_periods pk now history)
    → h.ip_id < bound
unfolding close_periods
close_below pk bound now [] below h i = absurd i
close_below pk bound now (x ∷ history) below h (inr i) =
    close_below pk bound now history (λ y j. below y (inr j)) h i
close_below pk bound now (x ∷ history) below h (inl e) =
    let lt = below x (inl refl) in
    let e' : h.ip_id ≡ x.ip_id = ap (λ (y : IpCountryHistory). y.ip_id) e ∙ ground arith in
    omega arith

append_below :
    (bound : ℕ) (xs ys : List IpCountryHistory)
    → ((h : IpCountryHistory) → Elem h xs → h.ip_id < bound)
    → ((h : IpCountryHistory) → Elem h ys → h.ip_id < bound)
    → (h : IpCountryHistory) → Elem h (xs ++ ys)
    → h.ip_id < bound
append_below bound [] ys k l h i = l h i
append_below bound (x ∷ xs) ys k l h (inl e) = k h (inl e)
append_below bound (x ∷ xs) ys k l h (inr i) = append_below bound xs ys (λ y j. k y (inr j)) l h i

module _ (now : Time) (v : Verdict) (ip : IpAddress) where
  period_below :
      (b : Bool) (bound : ℕ)
      → ip.id < bound
      → (h : IpCountryHistory) → Elem h (if b then new_period ip.id now v ∷ [] else [])
      → h.ip_id < bound
  period_below false bound lt h i = absurd i
  period_below true bound lt h (inr never) = absurd never
  period_below true bound lt h (inl e) =
      let e' : h.ip_id ≡ ip.id = ap (λ (y : IpCountryHistory). y.ip_id) e in omega arith

  history_after-below :
      (bound : ℕ) (history : List IpCountryHistory)
      → ip.id < bound
      → ((h : IpCountryHistory) → Elem h history → h.ip_id < bound)
      → (h : IpCountryHistory) → Elem h (history_after now v ip history)
      → h.ip_id < bound
  unfolding history_after
  history_after-below bound history lt below = elim (Bool-cases (changed v ip)) [
    | inr same ↦ rw same below
    | inl change ↦ rw change (
        append_below bound (close_periods ip.id now history) _
          (close_below ip.id bound now history below) (period_below v.is_iran bound lt))
  ]

  apply_verdict-Keyed :
      (db : Db)
      → ip.id < db.next_ip
      → Keyed db
      → Keyed (apply_verdict now v ip db).0 × ((apply_verdict now v ip db).0.next_ip ≡ db.next_ip)
  unfolding apply_verdict update_ip
  apply_verdict-Keyed db lt k = (
    record {
      distinct =
          DistinctIds-update_where (λ (r : IpAddress). r.id == ip.id) (classified now v) (λ r. refl)
            db.ips k.distinct;
      below = λ x i.
          let (s, j, e) =
            Elem-update_where (λ (r : IpAddress). r.id == ip.id) (classified now v) (λ r. refl)
              db.ips x i in
          let b = k.below s j in omega arith;
      history_below = history_after-below db.next_ip db.history lt k.history_below;
    },
    refl,
  )

module _ (contains : Contains) (now : Time) where
  pub classify-Keyed :
      (ip ip' : IpAddress) (db db' : Db)
      → ip.id < db.next_ip
      → Keyed db
      → classify contains now ip db ≡ ok (db', ip')
      → Keyed db' × (db'.next_ip ≡ db.next_ip)
  unfolding classify
  classify-Keyed ip ip' db db' lt k h =
      let (match, m, h') = >>=-eq-ok (find_matching_cidr contains ip.address db) _ h in
      let v = verdict match ip.whois_country in
      subst (λ (t : Db × IpAddress). Keyed t.0 × (t.0.next_ip ≡ db.next_ip))
        (ok-injective (apply_verdict now v ip db) (db', ip') h')
        (apply_verdict-Keyed now v ip db lt k)

  reevaluate-Keyed :
      (ips : List IpAddress) (db db' : Db)
      → ((r : IpAddress) → Elem r ips → r.id < db.next_ip)
      → Keyed db
      → reevaluate contains now ips db ≡ ok db'
      → Keyed db'
  unfolding reevaluate
  reevaluate-Keyed [] db db' below k h = subst Keyed (ok-injective db db' h) k
  reevaluate-Keyed (ip ∷ ips) db db' below k h =
      elim (Outcome-cases (classify contains now ip db)) [
        | inl (x, f) ↦ absurd (ground arith)
        | inr ((db1, ip'), f) ↦
            let (k1, e) = classify-Keyed ip ip' db db1 (below ip (inl refl)) k f in
            reevaluate-Keyed ips db1 db' (λ r i. let lt = below r (inr i) in omega (arith, e, lt))
              k1 (ground arith)
      ]

  reevaluated-below :
      (b : Bool) (db : Db)
      → Keyed db
      → (r : IpAddress) → Elem r (reevaluated b db)
      → r.id < db.next_ip
  reevaluated-below true db k r i = absurd i
  reevaluated-below false db k r i = k.below r (Elem-filter _ db.ips r i).0

  pub run-Keyed :
      (provider : Provider) (body : Text) (db db' : Db) (summary : ValidationSummary)
      → Keyed db
      → run contains now provider body db ≡ ok (db', summary)
      → Keyed db'
  unfolding run run_entries
  run-Keyed provider body db db' summary k h =
      let ((u, disabled), f, h') =
        >>=-eq-ok (sync now (source_of provider) (fetch provider body db) db) _ h in
      let quiet = (u.created == 0) && (disabled == 0) in
      let (done, g, h'') = >>=-eq-ok (reevaluate contains now (reevaluated quiet u.db) u.db) _ h' in
      let kept = sync-SameIps now (source_of provider) (fetch provider body db) db u disabled f in
      let k' = Keyed-SameIps db u.db kept k in
      let same : done ≡ db' = ground arith in
      subst Keyed same
        (reevaluate-Keyed (reevaluated quiet u.db) u.db done (reevaluated-below quiet u.db k') k' g)
