-- ===== src/Whois/Lookup/Laws.antt =====
-- When a lookup is due again, and when it is tried again.
use ip_scout.Prelude.{
  ℕ, ◌+◌, ◌*◌, ◌^◌, ◌<◌, ◌≡◌, refl, sym, ap, ◌∙◌, Bool, true, false, not, ◌&&◌, Option, none, some,
  List, ◌∷◌, Text, ltb, take, codes, if◌then◌else◌, arith, Bool-cases, inl, inr, subst,
}
use ip_scout.Errors.{ok, Outcome-cases, >>=-eq-ok, ok-injective}
use ip_scout.Python.Strip.{is_nil}
use ip_scout.Models.{Time, IpAddress, whois, classify_ip, Db}
use ip_scout.Models.Tables.{get_ip, update_ip, delay}
use ip_scout.Models.Tables.Laws.{get_ip-update_ip, get_ip-delay}
use ip_scout.Common.Locks.{Cache, World, delete, held}
use ip_scout.Common.Locks.Laws.{held-delete, add-free}
use ip_scout.Ips.Identity.{needs_whois_check}
use ip_scout.Whois.Parser.{parse_generic, extract_known_fields, known}
use ip_scout.Whois.Lookup.{
  Binary, Settings, days, seconds, lookup, max_retries, gave_up, answered, announce_country,
  with_record, or_empty, new_asn, new_cidr, store_response, run_lookup, lookup_end, locked_lookup,
  done, retry, perform_whois_lookup,
}

module _ (settings : Settings) (now : Time) (binary : Binary) where
  -- The row was checked now, and is due again behind the window of the settings.
  record Checked (pk : ℕ) (db : Db) : Type 0 where
    pub row : IpAddress
    pub stored : get_ip pk db ≡ some row
    pub checked_at : row.whois_checked_at ≡ some now
    pub next_check_at : row.whois_next_check_at ≡ some (now + days settings.whois_cache_days)

  answered-Checked :
      (fields : List (Text × Text)) (asn : Option ℕ) (cidr : Option Text) (ip : IpAddress) (db : Db)
      → get_ip ip.id db ≡ some ip
      → Checked ip.id (
          announce_country fields ip.id
            (update_ip ip.id (answered settings now fields asn cidr) db))
  answered-Checked fields asn cidr ip db current = record {
    row = answered settings now fields asn cidr ip;
    stored =
        go (update_ip ip.id (answered settings now fields asn cidr) db)
          (is_nil (take 2 (or_empty (known (codes "country") fields))))
          (get_ip-update_ip ip.id (answered settings now fields asn cidr) (λ r. refl) db ip
            current);
    checked_at = refl;
    next_check_at = refl;
  }
    where
      go :
          {r : Option IpAddress} (d : Db) (b : Bool)
          → get_ip ip.id d ≡ r
          → get_ip ip.id (if b then d else delay (classify_ip ip.id) d) ≡ r
      go d true e = e
      go d false e = get_ip-delay ip.id (classify_ip ip.id) d ∙ e

  store_response-Checked :
      (ip : IpAddress) (raw : Text) (db db' : Db)
      → get_ip ip.id db ≡ some ip
      → store_response settings now binary ip raw db ≡ ok db'
      → Checked ip.id db'
  unfolding store_response get_ip
  store_response-Checked ip raw db db' current h =
      let fields = extract_known_fields (parse_generic raw) in
      let (asn, _, h') = >>=-eq-ok (new_asn fields ip) _ h in
      let (cidr, _, h'') = >>=-eq-ok (new_cidr fields ip) _ h' in
      subst (Checked ip.id) (ok-injective _ db' h'')
        (answered-Checked fields asn cidr ip (with_record binary now ip raw db) current)

  gave_up-Checked :
      (e : Text) (ip : IpAddress) (db : Db)
      → get_ip ip.id db ≡ some ip
      → Checked ip.id (update_ip ip.id (gave_up settings now e) db)
  gave_up-Checked e ip db current = record {
    row = gave_up settings now e ip;
    stored = get_ip-update_ip ip.id (gave_up settings now e) (λ r. refl) db ip current;
    checked_at = refl;
    next_check_at = refl;
  }

  run_lookup-Checked :
      (retries : ℕ) (ip : IpAddress) (db db' : Db)
      → get_ip ip.id db ≡ some ip
      → run_lookup settings now binary retries ip db ≡ ok (some db')
      → Checked ip.id db'
  unfolding run_lookup
  run_lookup-Checked retries ip db db' current h =
      let result = lookup binary ip.address in
      elim (Bool-cases result.success) [
        | inl success ↦
            elim (Outcome-cases (store_response settings now binary ip result.raw_response db)) [
              | inl (e, raised) ↦ absurd (ground arith)
              | inr (d, stored) ↦
                  let same : d ≡ db' = ground arith in
                  subst (Checked ip.id) same
                    (store_response-Checked ip result.raw_response db d current stored)
            ]
        | inr failure ↦ elim (Bool-cases (result.retryable && ltb retries max_retries)) [
          | inl again ↦ absurd (ground arith)
          | inr last ↦
              let same : update_ip ip.id (gave_up settings now result.error) db ≡ db' =
                ground arith in
              subst (Checked ip.id) same (gave_up-Checked result.error ip db current)
        ]
      ]

  run_lookup-retry :
      (retries : ℕ) (ip : IpAddress) (db : Db)
      → run_lookup settings now binary retries ip db ≡ ok none
      → retries < max_retries
  unfolding run_lookup
  run_lookup-retry retries ip db h =
      let result = lookup binary ip.address in
      elim (Bool-cases result.success) [
        | inl success ↦
            elim (Outcome-cases (store_response settings now binary ip result.raw_response db)) [
              | inl (e, raised) ↦ absurd (ground arith)
              | inr (d, stored) ↦ absurd (ground arith)
            ]
        | inr failure ↦ elim (Bool-cases (result.retryable && ltb retries max_retries)) [
          | inl again ↦ ground arith
          | inr last ↦ absurd (ground arith)
        ]
      ]

  -- The lock is free, so the lookup is made, and the lock is free again.
  locked_lookup-free :
      (retries : ℕ) (ip : IpAddress) (w : World)
      → held now (whois ip.address) w.cache ≡ false
      → (free : Cache) × (locked_lookup settings now binary retries ip w
          ≡ lookup_end retries
              (record { db = w.db; cache = free })
              (run_lookup settings now binary retries ip w.db))
        × (held now (whois ip.address) free ≡ false)
  unfolding locked_lookup
  locked_lookup-free retries ip w free =
      let key = whois ip.address in
      let locked : Cache =
        record { key = key; expires_at = now + seconds (settings.whois_timeout + 30) }
        ∷ delete key w.cache in
      (
        delete key locked,
        rw (add-free now key (seconds (settings.whois_timeout + 30)) w.cache free, locked_lookup)
            refl,
        held-delete now key locked,
      )

  not_due :
      (ip : IpAddress)
      → 0 < settings.whois_cache_days
      → ip.whois_next_check_at ≡ some (now + days settings.whois_cache_days)
      → needs_whois_check now ip ≡ false
  unfolding needs_whois_check
  not_due ip positive next = rw next (ground arith)

  -- A lookup of an address that no other task looks up, if it ends without asking for a retry, leaves
  -- the address fresh: its row is not due any more, whether it was fresh before, the lookup succeeded, or
  -- it was given up. The cache window is positive.
  pub perform_whois_lookup-done :
      (retries : ℕ) (ip : IpAddress) (w w' : World)
      → 0 < settings.whois_cache_days
      → get_ip ip.id w.db ≡ some ip
      → held now (whois ip.address) w.cache ≡ false
      → perform_whois_lookup settings now binary ip.id false retries w ≡ ok (done w')
      → (row : IpAddress) × (get_ip ip.id w'.db ≡ some row) × (needs_whois_check now row ≡ false)
  unfolding perform_whois_lookup
  perform_whois_lookup-done retries ip w w' positive current free h =
      elim (Bool-cases (needs_whois_check now ip)) [
        | inr fresh ↦
            let same : w ≡ w' = ground arith in
            (ip, ap (λ (x : World). get_ip ip.id x.db) (sym same) ∙ current, fresh)
        | inl due ↦
            let (c, e, _) = locked_lookup-free retries ip w free in
            elim (Outcome-cases (run_lookup settings now binary retries ip w.db)) [
              | inl (x, raised) ↦ absurd (ground arith)
              | inr (none, again) ↦ absurd (ground arith)
              | inr (some db, ended) ↦
                  let same : db ≡ w'.db = ground arith in
                  let checked = run_lookup-Checked retries ip w.db db current ended in
                  (
                    checked.row,
                    ap (get_ip ip.id) (sym same) ∙ checked.stored,
                    not_due checked.row positive checked.next_check_at,
                  )
            ]
      ]

  -- A lookup asks for a retry only in its first three attempts, with a delay that doubles; it then has
  -- changed nothing in the database, and the lock is free for the next attempt.
  pub perform_whois_lookup-retry :
      (retries delay : ℕ) (force : Bool) (ip : IpAddress) (w w' : World)
      → get_ip ip.id w.db ≡ some ip
      → held now (whois ip.address) w.cache ≡ false
      → perform_whois_lookup settings now binary ip.id force retries w ≡ ok (retry delay w')
      → (retries < 3)
        × (delay ≡ 30 * 2 ^ retries)
        × (w'.db ≡ w.db)
        × (held now (whois ip.address) w'.cache ≡ false)
  unfolding perform_whois_lookup
  perform_whois_lookup-retry retries delay force ip w w' current free h =
      let (c, e, unlocked) = locked_lookup-free retries ip w free in
      elim (Bool-cases (not force && not (needs_whois_check now ip))) [
        | inl fresh ↦ absurd (ground arith)
        | inr due ↦ elim (Outcome-cases (run_lookup settings now binary retries ip w.db)) [
          | inl (x, raised) ↦ absurd (ground arith)
          | inr (some db, ended) ↦ absurd (ground arith)
          | inr (none, again) ↦
              (run_lookup-retry retries ip w.db again, ground arith, ground arith, ground arith)
        ]
      ]
