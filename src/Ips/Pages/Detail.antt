-- ===== src/Ips/Pages/Detail.antt =====
-- The page of an address.
use ip_scout.Prelude.{
  ℕ, ◌≤◌, ◌≡◌, ◌↔◌, refl, sym, ◌∙◌, Bool, true, ◌&&◌, ◌||◌, Option, none, some, List, [], ◌∷◌, Text,
  ◌==◌, ltb, filter, length, text_eq, if◌then◌else◌, arith, Elem, Elem-filter, filter-Elem,
  Option-cases, inl, inr, subst,
}
use ip_scout.Errors.{ok, ◌>>=◌, >>=-eq-ok}
use ip_scout.Python.Strip.{is_nil}
use ip_scout.Query.{order_by}
use ip_scout.Query.Ordered.{IsOrdered, order_by-IsOrdered, Elem-order_by, order_by-Elem}
use ip_scout.Models.{Time, IpAddress, RequestEvent, Db}
use ip_scout.Models.Tables.{get_ip}
use ip_scout.Ips.Pages.{
  key_test, selected_events, newest_first, stats_of, events_of_ip, IpDetail, page_of, ip_detail,
}

-- The times of all events lie between the two that the page shows.
abbrev pub Bounded : Time → Option Time → Option Time → Type 0
Bounded t (some a) (some b) = (a ≤ t) × (t ≤ b)
Bounded t _ _ = ⊥

widened :
    (t u : Time) (a b : Option Time)
    → Bounded t a b
    → Bounded t
        (elim a [ none ↦ some u | some x ↦ some (if ltb x u then x else u) ])
        (elim b [ none ↦ some u | some y ↦ some (if ltb u y then y else u) ])
widened t u none b h = absurd h
widened t u (some a) none h = absurd h
widened t u (some a) (some b) (low, high) = (ground arith, ground arith)

bounds_itself :
    (u : Time) (a b : Option Time)
    → Bounded u
        (elim a [ none ↦ some u | some x ↦ some (if ltb x u then x else u) ])
        (elim b [ none ↦ some u | some y ↦ some (if ltb u y then y else u) ])
bounds_itself u none none = (omega arith, omega arith)
bounds_itself u none (some b) = (omega arith, ground arith)
bounds_itself u (some a) none = (ground arith, omega arith)
bounds_itself u (some a) (some b) = (ground arith, ground arith)

stats_of_bounds :
    (events : List RequestEvent) (e : RequestEvent)
    → Elem e events
    → Bounded e.timestamp (stats_of events).first (stats_of events).last
unfolding stats_of
stats_of_bounds [] e i = absurd i
stats_of_bounds (x ∷ events) e (inl same) =
    subst
      (λ (y : RequestEvent).
        Bounded y.timestamp (stats_of (x ∷ events)).first (stats_of (x ∷ events)).last)
      (sym same) (bounds_itself x.timestamp (stats_of events).first (stats_of events).last)
stats_of_bounds (x ∷ events) e (inr i) =
    widened e.timestamp x.timestamp (stats_of events).first (stats_of events).last
      (stats_of_bounds events e i)

stats_of-count : (events : List RequestEvent) → (stats_of events).count ≡ length events
unfolding stats_of
stats_of-count [] = refl
stats_of-count (e ∷ events) = refl

-- What the page of an address shows of its events.
pub record Details (pk : ℕ) (server host : Text) (db : Db) (page : IpDetail) : Type 0 where
  pub row : get_ip pk db ≡ some page.ip
  pub newest : IsOrdered newest_first page.events
  pub shown :
      (e : RequestEvent)
      → Elem e page.events ↔ (
          Elem e db.events
          × (e.ip_id ≡ pk)
          × ((test : ℕ → Bool) × (key_test server ≡ ok test) × (test e.server_id ≡ true))
          × ((is_nil host || text_eq e.host host) ≡ true))
  pub count : page.stats.count ≡ length (events_of_ip pk db)
  pub times :
      (e : RequestEvent)
      → Elem e db.events
      → e.ip_id ≡ pk
      → Bounded e.timestamp page.stats.first page.stats.last

selected_events-Elem :
    (server host : Text) (all selected : List RequestEvent) (e : RequestEvent)
    → selected_events server host all ≡ ok selected
    → Elem e selected ↔ (
        Elem e all
        × ((test : ℕ → Bool) × (key_test server ≡ ok test) × (test e.server_id ≡ true))
        × ((is_nil host || text_eq e.host host) ≡ true))
unfolding selected_events
selected_events-Elem server host all selected e h =
    let (test, t, h') = >>=-eq-ok (key_test server) _ h in
    let p = λ (x : RequestEvent). test x.server_id && (is_nil host || text_eq x.host host) in
    let same : filter p all ≡ selected = ground arith in
    (
      λ i.
          let (j, b) = Elem-filter p all e (subst (Elem e) (sym same) i) in
          (j, (test, t, ground arith), ground arith),
      λ q.
          let (j, (test', t', b), c) = q in
          subst (Elem e) same (filter-Elem p all e j (agreeing test test' t t' b c)),
    )
  where
    agreeing :
        (test test' : ℕ → Bool)
        → key_test server ≡ ok test
        → key_test server ≡ ok test'
        → test' e.server_id ≡ true
        → (is_nil host || text_eq e.host host) ≡ true
        → (test e.server_id && (is_nil host || text_eq e.host host)) ≡ true
    agreeing test test' t t' b c =
        let same : ok test ≡ ok test' = sym t ∙ t' in
        let value : test ≡ test' = cc in rw value (ground arith)

newest_first-IsOrdered :
    (events : List RequestEvent) → IsOrdered newest_first (order_by newest_first events)
newest_first-IsOrdered =
    order_by-IsOrdered newest_first (λ a b h. ground arith) (λ a b c h g. ground arith)

-- An event is one of the address's if it is one of the table's with its key.
events_of_ip-Elem :
    (pk : ℕ) (db : Db) (e : RequestEvent)
    → Elem e (events_of_ip pk db) ↔ (Elem e db.events × (e.ip_id ≡ pk))
unfolding events_of_ip
events_of_ip-Elem pk db e = (
  λ i.
      let (j, b) = Elem-filter (λ (x : RequestEvent). x.ip_id == pk) db.events e i in
      (j, ground arith),
  λ p.
      filter-Elem (λ (x : RequestEvent). x.ip_id == pk) db.events e p.0
        (let h = p.1 in ground arith),
)

page_of-Details :
    (name_before : Text → Text → Bool) (pk : ℕ) (server host : Text) (db : Db) (ip : IpAddress)
    (events : List RequestEvent)
    → get_ip pk db ≡ some ip
    → selected_events server host (events_of_ip pk db) ≡ ok events
    → Details pk server host db (page_of name_before pk ip events db)
unfolding page_of
page_of-Details name_before pk server host db ip events row selected = record {
  row = row;
  newest = newest_first-IsOrdered events;
  shown = λ e.
      let sel = selected_events-Elem server host (events_of_ip pk db) events e selected in
      let own = events_of_ip-Elem pk db e in
      (
        λ i.
            let (j, q, z) = sel.0 (Elem-order_by newest_first events e i) in
            let (k, same) = own.0 j in (k, same, q, z),
        λ q. order_by-Elem newest_first events e (sel.1 (own.1 (q.0, q.1), q.2, q.3)),
      );
  count = stats_of-count (events_of_ip pk db);
  times =
      λ e i same. stats_of_bounds (events_of_ip pk db) e ((events_of_ip-Elem pk db e).1 (i, same));
}

-- The page of an address: it is of the row with the key; its events are, newest first, exactly those of the
-- address that the server and the host of the query select; and its count and its first and last time are
-- of all the events of the address, whatever the query selects.
pub ip_detail-Details :
    (name_before : Text → Text → Bool) (pk : ℕ) (server host : Text) (db : Db) (page : IpDetail)
    → ip_detail name_before pk server host db ≡ ok (some page)
    → Details pk server host db page
unfolding ip_detail
ip_detail-Details name_before pk server host db page h = elim (Option-cases (get_ip pk db)) [
  | inl missing ↦ absurd (ground arith)
  | inr (ip, row) ↦
      let h' : (selected_events server host (events_of_ip pk db) >>= λ events.
      ok (some (page_of name_before pk ip events db)))
          ≡ ok (some page) =
        rw (row, ip_detail) at h in
      let (events, selected, shown) =
        >>=-eq-ok (selected_events server host (events_of_ip pk db)) _ h' in
      let same : page_of name_before pk ip events db ≡ page = ground arith in
      subst (Details pk server host db) same
        (page_of-Details name_before pk server host db ip events row selected)
]
