-- ===== src/Incidents/Laws.antt =====
-- What the pages on the events show.
use ip_scout.Prelude.{
  sym, ◌∙◌, ℕ, ◌≤◌, ◌<◌, ◌≡◌, ◌↔◌, refl, ap, Bool, true, false, not, ◌&&◌, ◌||◌, Option, none, some,
  List, [], ◌∷◌, Text, ◌==◌, ltb, codes, any, filter, map, text_eq, length, length-map, length-take,
  if◌then◌else◌, arith, Elem, Elem-filter, filter-Elem, Bool-cases, inl, inr,
}
use ip_scout.Query.{nat_eq, order_by}
use ip_scout.Query.Distinct.{length-distinct-le, distinct-pos}
use ip_scout.Query.Counted.{Counts, distinct-Counts}
use ip_scout.Query.Ordered.{
  IsOrdered, order_by-IsOrdered, Elem-order_by, order_by-Elem, Elem-take, Elem-take_or,
  IsOrdered-take, IsStrict, IsStrict-if, IsStrict-flip, IsStrict-ltb,
}
use ip_scout.Models.{Float, IpAddress, RequestEvent, Db}
use ip_scout.Api.{get, is_of_iranian}
use ip_scout.Incidents.{
  event_count, is_allowed_sort, sort_of, ips_with_503, asn_before, ascending, sort_before, ip_table,
  Overview, more_events, unique_ips_of_events, overview,
}

unique_ips-le : (events : List RequestEvent) → unique_ips_of_events events ≤ length events
unfolding unique_ips_of_events
unique_ips-le events = omega (
  arith,
  length-distinct-le (map (λ (e : RequestEvent). e.ip_id) events),
  length-map (λ (e : RequestEvent). e.ip_id) events,
)

unique_ips-pos : (events : List RequestEvent) → 0 < length events → 0 < unique_ips_of_events events
unfolding unique_ips_of_events
unique_ips-pos [] h = absurd (omega arith)
unique_ips-pos (e ∷ events) h = distinct-pos e.ip_id (map (λ (x : RequestEvent). x.ip_id) events)

unique_ips-Counts :
    (events : List RequestEvent)
    → Counts (λ k. (e : RequestEvent) × Elem e events × (e.ip_id ≡ k)) (unique_ips_of_events events)
unfolding unique_ips_of_events
unique_ips-Counts events = distinct-Counts (λ (e : RequestEvent). e.ip_id) events

flagged_row :
    (k : ℕ) (rows : List IpAddress)
    → any (λ (r : IpAddress). (r.id == k) && r.is_iran) rows ≡ true
    → (r : IpAddress) × Elem r rows × (r.id ≡ k) × (r.is_iran ≡ true)
unfolding any
flagged_row k [] h = absurd (ground arith)
flagged_row k (x ∷ rows) h = elim (Bool-cases ((x.id == k) && x.is_iran)) [
  | inl here ↦ (x, inl refl, ground arith, ground arith)
  | inr other ↦ let (r, i, same, flag) = flagged_row k rows (ground arith) in (r, inr i, same, flag)
]

row_flagged :
    (k : ℕ) (rows : List IpAddress) (r : IpAddress)
    → Elem r rows
    → r.id ≡ k
    → r.is_iran ≡ true
    → any (λ (r : IpAddress). (r.id == k) && r.is_iran) rows ≡ true
unfolding any
row_flagged k [] r i same flag = absurd i
row_flagged k (x ∷ rows) r (inl here) same flag =
    let a = ap (λ (y : IpAddress). y.id) here in
    let b = ap (λ (y : IpAddress). y.is_iran) here in ground arith
row_flagged k (x ∷ rows) r (inr there) same flag =
    let rest = row_flagged k rows r there same flag in ground arith

unique_iranian-Counts :
    (db : Db)
    → Counts
        (λ k.
          (e : RequestEvent) × Elem e db.events
          × (e.ip_id ≡ k)
          × (r : IpAddress) × Elem r db.ips
          × (r.id ≡ k)
          × (r.is_iran ≡ true))
        (unique_ips_of_events (filter (is_of_iranian db) db.events))
unfolding is_of_iranian
unique_iranian-Counts db =
    let c = unique_ips-Counts (filter (is_of_iranian db) db.events) in
    record {
      keys = c.keys;
      size = c.size;
      once = c.once;
      all = λ k. (
        λ i.
            let (e, j, same) = (c.all k).0 i in
            let (j', flag) = Elem-filter (is_of_iranian db) db.events e j in
            let (r, x, id, iran) = flagged_row e.ip_id db.ips flag in
            (e, j', same, r, x, id ∙ same, iran),
        λ p.
            let (e, j, same, r, x, id, iran) = p in
            let flag = row_flagged e.ip_id db.ips r x (id ∙ sym same) iran in
            (c.all k).1 (e, filter-Elem (is_of_iranian db) db.events e j flag, same),
      );
    }

-- What the overview says of the database.
pub record IsOverview (percentage : ℕ → ℕ → Float) (db : Db) (page : Overview) : Type 0 where
  pub total : page.total_503 ≡ length db.events
  pub unique : Counts (λ k. (e : RequestEvent) × Elem e db.events × (e.ip_id ≡ k)) page.unique_ips
  pub iranian :
      Counts
        (λ k.
          (e : RequestEvent) × Elem e db.events
          × (e.ip_id ≡ k)
          × (r : IpAddress) × Elem r db.ips
          × (r.id ≡ k)
          × (r.is_iran ≡ true))
        page.iranian_ips
  pub pct :
      (page.iranian_pct ≡ (
        if page.total_503 == 0 then none else some (percentage page.iranian_ips page.unique_ips)))
  pub short : length page.top_ips ≤ 10
  pub falling : IsOrdered (more_events db) page.top_ips
  pub top : (r : IpAddress) → Elem r page.top_ips → Elem r db.ips × (0 < event_count db r)
  pub left_out :
      (r : IpAddress)
      → Elem r db.ips
      → ¬ (Elem r page.top_ips)
      → (x : IpAddress) → Elem x page.top_ips
      → event_count db r ≤ event_count db x

-- The overview counts all events; the addresses that have an event, each of them once; and, once each, those
-- of them that a flagged row has. It has a percentage exactly where there is an event. Its table has at most ten addresses of the
-- database with events, in falling order of their numbers, and none that is left out has more.
pub overview-IsOverview :
    (percentage : ℕ → ℕ → Float) (db : Db) → IsOverview percentage db (overview percentage db)
unfolding overview
overview-IsOverview percentage db =
    let seen = λ (r : IpAddress). ltb 0 (event_count db r) in
    let rows = filter seen db.ips in
    let sorted = order_by (more_events db) rows in
    let ordered =
      order_by-IsOrdered (more_events db) (λ a b h. ground arith) (λ a b c h k. ground arith)
        rows in
    record {
      total = refl;
      unique = unique_ips-Counts db.events;
      iranian = unique_iranian-Counts db;
      pct = ground (arith, unique_ips-pos db.events, unique_ips-le db.events);
      short = omega (arith, length-take 10 sorted);
      falling = IsOrdered-take (more_events db) 10 sorted ordered;
      top = λ r i.
          let j = Elem-order_by (more_events db) rows r (Elem-take 10 sorted r i) in
          let (k, b) = Elem-filter seen db.ips r j in (k, ground arith);
      left_out = λ r i out x j. elim (Bool-cases (ltb 0 (event_count db r))) [
        | inr no_event ↦ ground arith
        | inl some_event ↦
            let k =
              order_by-Elem (more_events db) rows r (filter-Elem seen db.ips r i some_event) in
            elim (Elem-take_or (more_events db) 10 sorted r ordered k) [
              | inl kept ↦ absurd (out kept)
              | inr behind ↦ let b = behind x j in ground arith
            ]
      ];
    }

IsStrict-asn : IsStrict (λ (a b : IpAddress). asn_before a.asn b.asn)
IsStrict-asn = (λ a b. asym a.asn b.asn, λ a b c. trans a.asn b.asn c.asn)
  where
    asym : (x y : Option ℕ) → asn_before x y ≡ true → asn_before y x ≡ false
    asym none none h = refl
    asym none (some n) h = absurd (ground arith)
    asym (some m) none h = refl
    asym (some m) (some n) h = ground arith

    trans :
        (x y z : Option ℕ)
        → asn_before x y ≡ false
        → asn_before y z ≡ false
        → asn_before x z ≡ false
    trans none y z h k = refl
    trans (some m) none z h k = absurd (ground arith)
    trans (some m) (some n) none h k = absurd (ground arith)
    trans (some m) (some n) (some o) h k = ground arith

module _ (address_before : Text → Text → Bool) (strict : IsStrict address_before) (db : Db) where
  ascending-IsStrict : (column : Text) → IsStrict (ascending address_before db column)
  unfolding ascending
  ascending-IsStrict column =
      IsStrict-if (text_eq column (codes "address")) _ _
        (λ a b. strict.0 a.address b.address, λ a b c. strict.1 a.address b.address c.address)
        (IsStrict-if (text_eq column (codes "event_count")) _ _ (IsStrict-ltb (event_count db)) (
          IsStrict-if (text_eq column (codes "last_seen_at")) _ _
            (IsStrict-ltb (λ (r : IpAddress). r.last_seen_at))
            (IsStrict-if (text_eq column (codes "first_seen_at")) _ _
              (IsStrict-ltb (λ (r : IpAddress). r.first_seen_at)) IsStrict-asn)))

  sort_before-IsStrict : (sort : Text) → IsStrict (sort_before address_before db sort)
  unfolding sort_before
  sort_before-IsStrict [] = ascending-IsStrict []
  sort_before-IsStrict (c ∷ column) =
      IsStrict-if (c == b'-') _ _ (IsStrict-flip _ (ascending-IsStrict column))
        (ascending-IsStrict (c ∷ column))

default_sort-allowed : is_allowed_sort (codes "-event_count") ≡ true
unfolding is_allowed_sort any text_eq
default_sort-allowed = refl

sort_of-allowed : (sort : Option Text) → is_allowed_sort (sort_of sort) ≡ true
unfolding sort_of
sort_of-allowed none = default_sort-allowed
sort_of-allowed (some sort) = elim (Bool-cases (is_allowed_sort sort)) [
  | inl known ↦ rw known known
  | inr other ↦ rw other default_sort-allowed
]

-- The rows of the table of addresses with events.
pub record IsTable (address_before : Text → Text → Bool) (is_iran sort : Option Text) (db : Db)
    (rows : List IpAddress) : Type 0 where
  pub allowed : is_allowed_sort (sort_of sort) ≡ true
  pub ordered : IsOrdered (sort_before address_before db (sort_of sort)) rows
  pub shown :
      (r : IpAddress)
      → Elem r rows ↔ (
          Elem r db.ips
          × (0 < event_count db r)
          × ((not (text_eq (get is_iran) (codes "true")) || r.is_iran) ≡ true))

ips_with_503-Elem :
    (is_iran : Option Text) (db : Db) (r : IpAddress)
    → Elem r (ips_with_503 is_iran db) ↔ (
        Elem r db.ips
        × (0 < event_count db r)
        × ((not (text_eq (get is_iran) (codes "true")) || r.is_iran) ≡ true))
unfolding ips_with_503
ips_with_503-Elem is_iran db r =
    let seen = λ (x : IpAddress). ltb 0 (event_count db x) in
    let flagged = λ (x : IpAddress). x.is_iran in
    elim (Bool-cases (text_eq (get is_iran) (codes "true"))) [
      | inl asked ↦ rw asked (
        λ i.
            let (j, b) = Elem-filter flagged (filter seen db.ips) r i in
            let (k, c) = Elem-filter seen db.ips r j in (k, ground arith, b),
        λ p.
            filter-Elem flagged (filter seen db.ips) r
              (filter-Elem seen db.ips r p.0 (let q = p.1 in ground arith)) p.2,
      )
      | inr all ↦ rw all (
        λ i. let (k, c) = Elem-filter seen db.ips r i in (k, ground arith, refl),
        λ p. filter-Elem seen db.ips r p.0 (let q = p.1 in ground arith),
      )
    ]

-- The table of addresses with events, where the database orders its addresses strictly: it is sorted by
-- one of the ten orders of the list, whatever the request asks for, and its rows are exactly the addresses
-- with an event, and, where Iranian ones were asked for, with a flag.
pub ip_table-IsTable :
    (address_before : Text → Text → Bool) (is_iran sort : Option Text) (db : Db)
    → IsStrict address_before
    → IsTable address_before is_iran sort db (ip_table address_before db is_iran sort)
unfolding ip_table
ip_table-IsTable address_before is_iran sort db strict =
    let before = sort_before address_before db (sort_of sort) in
    let (asym, neg_trans) = sort_before-IsStrict address_before strict db (sort_of sort) in
    record {
      allowed = sort_of-allowed sort;
      ordered = order_by-IsOrdered before asym neg_trans (ips_with_503 is_iran db);
      shown = λ r.
          let same = ips_with_503-Elem is_iran db r in
          (
            λ i. same.0 (Elem-order_by before (ips_with_503 is_iran db) r i),
            λ p. order_by-Elem before (ips_with_503 is_iran db) r (same.1 p),
          );
    }
