-- ===== src/System/Laws.antt =====
-- Whatever the order of the tasks, the history of an address agrees with its flag.
use ip_scout.Prelude.{
  Bool, Text, ℕ, ◌≡◌, ◌≢◌, refl, ◌&&◌, Option, none, some, List, [], ◌∷◌, ◌==◌, Text, subst, arith,
  Elem, Bool-cases, inl, inr, ltb, take, codes,
}
use ip_scout.Errors.{ok, ok-injective, >>=-eq-ok, Outcome-cases}
use ip_scout.Python.Strip.{is_nil}
use ip_scout.Models.{Time, IpAddress, IpCountryHistory, Db, empty_db, classify_ip}
use ip_scout.Models.Tables.{get_ip, update_ip, delay}
use ip_scout.Models.Tables.Laws.{Elem-find}
use ip_scout.Ips.Sightings.Consistent.{
  Consistent, update_where-Consistent, queue-Consistent, record_sightings_bulk-Consistent,
}
use ip_scout.Iran.Match.{Contains}
use ip_scout.Iran.Classify.Laws.{Agrees, flagged, unflagged, classify-AllAgree}
use ip_scout.Iran.Validation.Runs.{SameIps, AllAgree-SameIps, run-AllAgree}
use ip_scout.Whois.Lookup.{
  Binary, Settings, lookup, max_retries, with_record, gave_up, answered, announce_country, new_asn,
  new_cidr, store_response, run_lookup, or_empty,
}
use ip_scout.Whois.Parser.{parse_generic, extract_known_fields, known}
use ip_scout.Geo.{City, GeoProvider, GeoResult, geo_lookup, located, enrich}
use ip_scout.System
use ip_scout.System.Purge.{purge_old_data-Consistent}
use ip_scout.System.Keys.{keys_of, with_agree, Keyed-SameIps, classify-Keyed, run-Keyed}

Consistent-SameIps : (x y : Db) → SameIps x y → Consistent x → Consistent y
Consistent-SameIps x y same c =
    with_agree y (Keyed-SameIps x y same (keys_of x c)) (AllAgree-SameIps x y same c.agree)

-- An update of one row that leaves its key and its flag.
update_ip-Consistent :
    (pk : ℕ) (f : IpAddress → IpAddress)
    → ((r : IpAddress) → (f r).id ≡ r.id)
    → ((history : List IpCountryHistory) (r : IpAddress) → Agrees history r → Agrees history (f r))
    → (db : Db) → Consistent db
    → Consistent (update_ip pk f db)
unfolding update_ip
update_ip-Consistent pk f keeps_id keeps db c =
    update_where-Consistent (λ (r : IpAddress). r.id == pk) f keeps_id keeps db c

enrich-Consistent :
    (city : City) (provider : GeoProvider) (ip : IpAddress) (db : Db)
    → Consistent db
    → Consistent (enrich city provider ip db)
unfolding enrich
enrich-Consistent city provider ip db c = go (geo_lookup city provider ip.address)
  where
    keeps :
        (g : GeoResult) (history : List IpCountryHistory) (r : IpAddress)
        → Agrees history r
        → Agrees history (located g r)
    keeps g history r (flagged h f o e) = flagged h f o e
    keeps g history r (unflagged f e o) = unflagged f e o

    go :
        (o : Option GeoResult)
        → Consistent (elim o [ none ↦ db | some g ↦ update_ip ip.id (located g) db ])
    go none = c
    go (some g) = update_ip-Consistent ip.id (located g) (λ r. refl) (keeps g) db c

module _ (settings : Settings) (now : Time) (binary : Binary) where
  gave_up-Agrees :
      (e : Text) (history : List IpCountryHistory) (r : IpAddress)
      → Agrees history r
      → Agrees history (gave_up settings now e r)
  gave_up-Agrees e history r (flagged h f o c) = flagged h f o c
  gave_up-Agrees e history r (unflagged f c o) = unflagged f c o

  answered-Agrees :
      (fields : List (Text × Text)) (asn : Option ℕ) (cidr : Option Text)
      (history : List IpCountryHistory) (r : IpAddress)
      → Agrees history r
      → Agrees history (answered settings now fields asn cidr r)
  answered-Agrees fields asn cidr history r (flagged h f o c) = flagged h f o c
  answered-Agrees fields asn cidr history r (unflagged f c o) = unflagged f c o

  announce-Consistent :
      (fields : List (Text × Text)) (pk : ℕ) (db : Db)
      → Consistent db
      → Consistent (announce_country fields pk db)
  unfolding delay
  announce-Consistent fields pk db c =
      elim (Bool-cases (is_nil (take 2 (or_empty (known (codes "country") fields))))) [
        | inl unknown ↦ rw unknown c
        | inr country ↦ rw country (queue-Consistent (classify_ip pk ∷ []) db c)
      ]

  store_response-Consistent :
      (ip : IpAddress) (raw : Text) (db db' : Db)
      → Consistent db
      → store_response settings now binary ip raw db ≡ ok db'
      → Consistent db'
  unfolding store_response
  store_response-Consistent ip raw db db' c h =
      let fields = extract_known_fields (parse_generic raw) in
      let (asn, _, h') = >>=-eq-ok (new_asn fields ip) _ h in
      let (cidr, _, h'') = >>=-eq-ok (new_cidr fields ip) _ h' in
      let kept =
        Consistent-SameIps db (with_record binary now ip raw db)
          (record { ips = refl; history = refl; next_ip = refl }) c in
      subst Consistent (ok-injective _ db' h'') (
        announce-Consistent fields ip.id _ (
          update_ip-Consistent ip.id (answered settings now fields asn cidr) (λ r. refl)
            (answered-Agrees fields asn cidr) (with_record binary now ip raw db) kept))

  run_lookup-Consistent :
      (retries : ℕ) (ip : IpAddress) (db db' : Db)
      → Consistent db
      → run_lookup settings now binary retries ip db ≡ ok (some db')
      → Consistent db'
  unfolding run_lookup
  run_lookup-Consistent retries ip db db' c h =
      let result = lookup binary ip.address in
      elim (Bool-cases result.success) [
        | inl success ↦
            elim (Outcome-cases (store_response settings now binary ip result.raw_response db)) [
              | inl (x, f) ↦ absurd (ground arith)
              | inr (d, f) ↦
                  let same : d ≡ db' = ground arith in
                  subst Consistent same (store_response-Consistent ip result.raw_response db d c f)
            ]
        | inr failure ↦ elim (Bool-cases (result.retryable && ltb retries max_retries)) [
          | inl again ↦ absurd (ground arith)
          | inr over ↦
              let given = update_ip ip.id (gave_up settings now result.error) db in
              let same : given ≡ db' = ground arith in
              subst Consistent same (
                update_ip-Consistent ip.id (gave_up settings now result.error) (λ r. refl)
                  (gave_up-Agrees result.error) db c)
        ]
      ]

Elem-find_ip : (db : Db) (ip : IpAddress) → get_ip ip.id db ≡ some ip → Elem ip db.ips
unfolding get_ip
Elem-find_ip db ip h = Elem-find ip.id db.ips ip h

none_found :
    (keeps : Text → Bool) (pk : ℕ) (r : IpAddress)
    → get_ip pk (record empty_db { keeps = keeps }) ≢ some r
unfolding get_ip
none_found keeps pk r h = cc

empty_Consistent : (keeps : Text → Bool) → Consistent (record empty_db { keeps = keeps })
empty_Consistent keeps = record {
  distinct = tt;
  below = λ r i. absurd i;
  history_below = λ h i. absurd i;
  agree = λ pk r h. absurd (none_found keeps pk r h);
}

module _ (contains : Contains) where
  -- No change makes a consistent state inconsistent.
  Change-Consistent : (db db' : Db) → System.Change contains db db' → Consistent db → Consistent db'
  Change-Consistent db db' (System.recorded sightings _ _ rows h) c =
      record_sightings_bulk-Consistent sightings db db' rows c h
  Change-Consistent db db' (System.reclassified now ip ip' _ _ current h) c =
      let (k, _) =
        classify-Keyed contains now ip ip' db db' (c.below ip (Elem-find_ip db ip current))
          (keys_of db c) h in
      with_agree db' k (classify-AllAgree contains now ip db db' ip' current c.agree h).0
  Change-Consistent db db' (System.validated now provider body _ _ summary h) c =
      with_agree db' (run-Keyed contains now provider body db db' summary (keys_of db c) h)
        (run-AllAgree contains now provider body db db' summary c.distinct c.agree h)
  Change-Consistent db db' (System.looked_up settings now binary retries ip _ _ h) c =
      run_lookup-Consistent settings now binary retries ip db db' c h
  Change-Consistent db db' (System.enriched city provider ip _) c =
      enrich-Consistent city provider ip db c
  Change-Consistent db db' (System.purged retention now _ _ result h) c =
      purge_old_data-Consistent retention now db db' result c h
  Change-Consistent db db' (System.elsewhere _ _ same) c = Consistent-SameIps db db' same c

  -- In every state that the changes lead to from an empty database, primary keys are unique and below
  -- the next one, no period is of an address to come, and an address has an open period exactly if it
  -- is flagged, only one, and with the network of the flag.
  pub Reachable-Consistent : (db : Db) → System.Reachable contains db → Consistent db
  Reachable-Consistent db (System.start keeps) = empty_Consistent keeps
  Reachable-Consistent db (System.next before _ r change) =
      Change-Consistent before db change (Reachable-Consistent before r)
