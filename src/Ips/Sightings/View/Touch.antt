-- ===== src/Ips/Sightings/View/Touch.antt =====
-- The view behind the updates of last_seen_at.
use ip_scout.Prelude.{
  ℕ, ◌≡◌, ◌≢◌, refl, sym, ap, ◌∙◌, Bool, true, false, ◌&&◌, none, some, List, [], ◌∷◌, ◌==◌, Text,
  ltb, find?, find?-holds, filter, any, text_eq, text_eq_iff, text_eq_refl, is_some, if◌then◌else◌,
  arith, Elem, Bool-cases, Option-cases, inl, inr, subst,
}
use ip_scout.Errors.{ok}
use ip_scout.Models.{Time, IpAddress, Db}
use ip_scout.Models.Tables.Laws.{DistinctIds, find-Elem}
use ip_scout.Ips.Sightings.{Sighting, has_address, row_at, existing_rows, touch, touch_all}
use ip_scout.Ips.Sightings.Laws.{bump, map_option, row_at-touch, touch_db}
use ip_scout.Ips.Sightings.Consistent.{DistinctIds-update_where}
use ip_scout.Ips.Sightings.View.{later, seen_of, view}
use ip_scout.Ips.Sightings.View.Latest.{lookup, DistinctKeys, later_none}

-- The rows that the loop of updates reads for an address are those of the table.
abbrev pub Reads : List IpAddress → List IpAddress → List Sighting → Type 0
Reads existing rows latest =
    (a : Text) → is_some (lookup a latest) ≡ true → row_at a existing ≡ row_at a rows

row_at-filter :
    (p : IpAddress → Bool) (a : Text) (rows : List IpAddress)
    → ((r : IpAddress) → r.address ≡ a → p r ≡ true)
    → row_at a (filter p rows) ≡ row_at a rows
unfolding row_at filter
row_at-filter p a [] h = refl
row_at-filter p a (r ∷ rows) h =
    ground (arith, text_eq_iff r.address a, h r, row_at-filter p a rows h)

lookup-any :
    (a : Text) (latest : List Sighting)
    → is_some (lookup a latest) ≡ true
    → any (λ (s : Sighting). text_eq a s.0) latest ≡ true
unfolding lookup any
lookup-any a [] h = cc
lookup-any a ((b, t) ∷ latest) h =
    ground (arith, text_eq_iff b a, text_eq_iff a b, lookup-any a latest)

pub existing_rows-Reads :
    (latest : List Sighting) (rows : List IpAddress) → Reads (existing_rows latest rows) rows latest
unfolding existing_rows
existing_rows-Reads latest rows a h =
    row_at-filter (λ (r : IpAddress). any (λ (s : Sighting). text_eq r.address s.0) latest) a rows
      (λ r e. ap (λ b. any (λ (s : Sighting). text_eq b s.0) latest) e ∙ lookup-any a latest h)

pub row_at-address :
    (a : Text) (rows : List IpAddress) (r : IpAddress) → row_at a rows ≡ some r → r.address ≡ a
unfolding row_at
row_at-address a rows r h = (text_eq_iff r.address a).0 (find?-holds (has_address a) rows r h)

pub row_at-Elem :
    (a : Text) (rows : List IpAddress) (r : IpAddress) → row_at a rows ≡ some r → Elem r rows
unfolding row_at
row_at-Elem a [] r h = cc
row_at-Elem a (x ∷ rows) r h = elim (Bool-cases (text_eq x.address a)) [
  | inl here ↦ inl (ground arith)
  | inr there ↦ inr (row_at-Elem a rows r (ground arith))
]

-- Rows of one key are one row.
row_of_id :
    (rows : List IpAddress) (r s : IpAddress)
    → DistinctIds rows
    → Elem r rows
    → Elem s rows
    → r.id ≡ s.id
    → r ≡ s
row_of_id rows r s d i j e =
    let found : find? (λ (x : IpAddress). x.id == s.id) rows ≡ some r =
      subst (λ k. find? (λ (x : IpAddress). x.id == k) rows ≡ some r) e (find-Elem rows r d i) in
    cc (found, find-Elem rows s d j)

module _ (b : Text) (t : Time) (r : IpAddress) where
  view-touch :
      (a : Text) (rows : List IpAddress)
      → DistinctIds rows
      → row_at b rows ≡ some r
      → ltb r.last_seen_at t ≡ true
      → view (touch r.id t rows) a ≡ (if text_eq b a then some t else view rows a)
  view-touch a rows d found late =
      ap seen_of (row_at-touch a r.id t rows) ∙ elim (Bool-cases (text_eq b a)) [
        | inl same ↦
            let e : b ≡ a = (text_eq_iff b a).0 same in
            let here : row_at a rows ≡ some r = subst (λ c. row_at c rows ≡ some r) e found in
            rw (same, here) (ground arith)
        | inr other ↦ rw other (elim (Option-cases (row_at a rows)) [
          | inl missing ↦ rw missing refl
          | inr (s, there) ↦ rw there (
              untouched s (λ e.
                let same =
                  row_of_id rows r s d (row_at-Elem b rows r found) (row_at-Elem a rows s there)
                    (sym e) in
                let address : b ≡ a =
                  sym (row_at-address b rows r found)
                  ∙ ap (λ (x : IpAddress). x.address) same
                  ∙ row_at-address a rows s there in
                ground (arith, text_eq_iff b a)))
        ])
      ]
    where
      untouched : (s : IpAddress) → s.id ≢ r.id → seen_of (some (bump r.id t s)) ≡ seen_of (some s)
      untouched s ne = ground arith

touch-DistinctIds :
    (pk : ℕ) (t : Time) (rows : List IpAddress) → DistinctIds rows → DistinctIds (touch pk t rows)
unfolding touch
touch-DistinctIds pk t rows d =
    DistinctIds-update_where (λ (r : IpAddress). r.id == pk && ltb r.last_seen_at t)
      (λ r. record r { last_seen_at = t }) (λ r. refl) rows d

module _ (a b : Text) (t : Time) (latest : List Sighting) (rows : List IpAddress) (r : IpAddress)
    (new : lookup b latest ≡ none) (found : row_at b rows ≡ some r) where
  -- An update of `b` and the later ones, at the address `a`.
  later_touched :
      ltb r.last_seen_at t ≡ true
      → later (if text_eq b a then some t else view rows a) (lookup a latest)
        ≡ later (view rows a) (lookup a ((b, t) ∷ latest))
  unfolding lookup
  later_touched late = elim (Bool-cases (text_eq b a)) [
    | inr other ↦ rw other refl
    | inl same ↦
        let e : b ≡ a = (text_eq_iff b a).0 same in
        let here : row_at a rows ≡ some r = subst (λ c. row_at c rows ≡ some r) e found in
        let none_left : lookup a latest ≡ none = subst (λ c. lookup c latest ≡ none) e new in
        rw (same, here, none_left) (ground arith)
  ]

  later_kept :
      ltb r.last_seen_at t ≡ false
      → later (view rows a) (lookup a latest) ≡ later (view rows a) (lookup a ((b, t) ∷ latest))
  unfolding lookup
  later_kept late = elim (Bool-cases (text_eq b a)) [
    | inr other ↦ rw other refl
    | inl same ↦
        let e : b ≡ a = (text_eq_iff b a).0 same in
        let here : row_at a rows ≡ some r = subst (λ c. row_at c rows ≡ some r) e found in
        let none_left : lookup a latest ≡ none = subst (λ c. lookup c latest ≡ none) e new in
        rw (same, here, none_left) (ground arith)
  ]

Reads-tail :
    (existing rows : List IpAddress) (b : Text) (t : Time) (latest : List Sighting)
    → Reads existing rows ((b, t) ∷ latest)
    → Reads existing rows latest
unfolding lookup
Reads-tail existing rows b t latest reads a h = reads a (ground arith)

Reads-touch :
    (existing rows : List IpAddress) (pk : ℕ) (t : Time) (latest : List Sighting)
    → Reads existing rows latest
    → Reads (touch pk t existing) (touch pk t rows) latest
Reads-touch existing rows pk t latest reads a h =
    row_at-touch a pk t existing
    ∙ ap (map_option (bump pk t)) (reads a h)
    ∙ sym (row_at-touch a pk t rows)

lookup_head :
    (b : Text) (t : Time) (latest : List Sighting) → is_some (lookup b ((b, t) ∷ latest)) ≡ true
unfolding lookup
lookup_head b t latest = rw (text_eq_refl b) refl

pub view-touch_all :
    (a : Text) (existing : List IpAddress) (latest : List Sighting) (db db' : Db)
    (rows : List IpAddress)
    → DistinctIds db.ips
    → DistinctKeys latest
    → Reads existing db.ips latest
    → touch_all existing latest db ≡ ok (db', rows)
    → view db'.ips a ≡ later (view db.ips a) (lookup a latest)
unfolding touch_all lookup
view-touch_all a existing [] db db' rows d keys reads h =
    let e : db ≡ db' = ground arith in
    subst (λ (x : Db). view x.ips a ≡ later (view db.ips a) none) e
      (sym (later_none (view db.ips a)))
view-touch_all a existing ((b, t) ∷ latest) db db' rows d (new, keys) reads h =
    elim (Option-cases (row_at b existing)) [
      | inl missing ↦ absurd (ground arith)
      | inr (r, found) ↦
          let here : row_at b db.ips ≡ some r = sym (reads b (lookup_head b t latest)) ∙ found in
          let rest = Reads-tail existing db.ips b t latest reads in
          elim (Bool-cases (ltb r.last_seen_at t)) [
            | inl late ↦
                view-touch_all a (touch r.id t existing) latest (touch_db r.id t db) db' rows
                  (touch-DistinctIds r.id t db.ips d) keys
                  (Reads-touch existing db.ips r.id t latest rest) (ground arith)
                ∙ ap (λ o. later o (lookup a latest)) (view-touch b t r a db.ips d here late)
                ∙ later_touched a b t latest db.ips r new here late
            | inr kept ↦
                view-touch_all a existing latest db db' rows d keys rest (ground arith)
                ∙ later_kept a b t latest db.ips r new here kept
          ]
    ]
