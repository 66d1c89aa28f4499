-- ===== src/Ips/Sightings/Consistent.antt =====
-- Recording sightings and the keys, the flags and the history of the addresses.
use ip_scout.Prelude.{
  Bool, if◌then◌else◌, update_where, ℕ, ◌<◌, ◌⊎◌, ◌≡◌, ◌≢◌, refl, sym, ap, ◌∙◌, ◌&&◌, none, some,
  List, [], ◌∷◌, ◌++◌, ◌==◌, ltb, Text, subst, find?, filter, arith, Elem, Bool-cases, Option-cases,
  inl, inr,
}
use ip_scout.Errors.{ok}
use ip_scout.Models.{Time, IpAddress, IpCountryHistory, Message, Db}
use ip_scout.Models.Tables.{get_ip}
use ip_scout.Models.Tables.Laws.{DistinctIds}
use ip_scout.Iran.Classify.Laws.{Agrees, flagged, unflagged, AllAgree, open_periods}
use ip_scout.Ips.Sightings.{Sighting, exists_at, new_row, insert_row, touch, record_sightings_bulk}
use ip_scout.Ips.Sightings.Laws.{map_option, touch_db, record_sightings_bulk_induction}

-- Primary keys are unique and below the next one, no period is of an address to come, and the open
-- periods agree with the flags.
pub record Consistent (db : Db) : Type 0 where
  pub distinct : DistinctIds db.ips
  pub below : (r : IpAddress) → Elem r db.ips → r.id < db.next_ip
  pub history_below : (h : IpCountryHistory) → Elem h db.history → h.ip_id < db.next_ip
  pub agree : AllAgree db

Elem-append : (xs : List IpAddress) (y x : IpAddress) → Elem x (xs ++ y ∷ []) → Elem x xs ⊎ (x ≡ y)
Elem-append [] y x (inl e) = inr e
Elem-append [] y x (inr never) = absurd never
Elem-append (z ∷ xs) y x (inl e) = inl (inl e)
Elem-append (z ∷ xs) y x (inr i) = elim (Elem-append xs y x i) [
  | inl j ↦ inl (inr j)
  | inr e ↦ inr e
]

DistinctIds-append :
    (rows : List IpAddress) (y : IpAddress)
    → DistinctIds rows
    → ((x : IpAddress) → Elem x rows → x.id < y.id)
    → DistinctIds (rows ++ y ∷ [])
DistinctIds-append [] y d below = (λ x i. absurd i, tt)
DistinctIds-append (r ∷ rows) y (ne, d) below = (
  λ x i. elim (Elem-append rows y x i) [
    | inl j ↦ ne x j
    | inr e ↦ λ same.
        let lt = below r (inl refl) in
        let e' : x.id ≡ y.id = ap (λ (z : IpAddress). z.id) e in omega arith
  ],
  DistinctIds-append rows y d (λ x i. below x (inr i)),
)

pub none_ne : (r : IpAddress) → none ≢ some r
none_ne r h = cc

-- What an update does to one row.
abbrev updated : (IpAddress → Bool) → (IpAddress → IpAddress) → IpAddress → IpAddress
updated p f r = if p r then f r else r

abbrev pub with_ips : List IpAddress → Db → Db
with_ips rows db = record db { ips = rows }

module _ (p : IpAddress → Bool) (f : IpAddress → IpAddress)
    (keeps_id : (r : IpAddress) → (f r).id ≡ r.id) where
  updated-id : (r : IpAddress) → (updated p f r).id ≡ r.id
  updated-id r = ground (arith, keeps_id r)

  pub Elem-update_where :
      (rows : List IpAddress) (x : IpAddress)
      → Elem x (update_where p f rows)
      → (r : IpAddress) × Elem r rows × (x.id ≡ r.id)
  unfolding update_where
  Elem-update_where [] x i = absurd i
  Elem-update_where (r ∷ rows) x (inl e) =
      (r, inl refl, ap (λ (z : IpAddress). z.id) e ∙ updated-id r)
  Elem-update_where (r ∷ rows) x (inr i) =
      let (s, j, e) = Elem-update_where rows x i in (s, inr j, e)

  pub DistinctIds-update_where :
      (rows : List IpAddress) → DistinctIds rows → DistinctIds (update_where p f rows)
  unfolding update_where
  DistinctIds-update_where [] d = d
  DistinctIds-update_where (r ∷ rows) (ne, d) = (
    λ x i same. let (s, j, e) = Elem-update_where rows x i in ne s j (sym e ∙ same ∙ updated-id r),
    DistinctIds-update_where rows d,
  )

  find-update_where :
      (k : ℕ) (rows : List IpAddress)
      → find? (λ (x : IpAddress). x.id == k) (update_where p f rows)
        ≡ map_option (updated p f) (find? (λ (x : IpAddress). x.id == k) rows)
  unfolding find? update_where
  find-update_where k [] = refl
  find-update_where k (r ∷ rows) = elim (Bool-cases (r.id == k)) [
    | inl here ↦ rw (ap (λ n. n == k) (updated-id r), here)
    | inr there ↦ rw (ap (λ n. n == k) (updated-id r), there) (find-update_where k rows)
  ]

  -- An update that touches neither keys nor flags keeps the state consistent.
  pub update_where-Consistent :
      ((history : List IpCountryHistory) (r : IpAddress) → Agrees history r → Agrees history (f r))
      → (db : Db) → Consistent db
      → Consistent (with_ips (update_where p f db.ips) db)
  unfolding get_ip
  update_where-Consistent keeps db c = record {
    distinct = DistinctIds-update_where db.ips c.distinct;
    below =
        λ x i. let (s, j, e) = Elem-update_where db.ips x i in let lt = c.below s j in omega arith;
    history_below = c.history_below;
    agree = λ k r found. elim (Option-cases (get_ip k db)) [
      | inl gone ↦ absurd (
          none_ne r
            (ap (map_option (updated p f)) (sym gone) ∙ sym (find-update_where k db.ips) ∙ found))
      | inr (s, there) ↦
          let moved =
            ap (map_option (updated p f)) (sym there) ∙ sym (find-update_where k db.ips) ∙ found in
          let same : updated p f s ≡ r = cc in
          subst (Agrees db.history) same (updated-Agrees db.history s (c.agree k s there))
    ];
  }
    where
      updated-Agrees :
          (history : List IpCountryHistory) (r : IpAddress)
          → Agrees history r
          → Agrees history (updated p f r)
      updated-Agrees history r a = elim (Bool-cases (p r)) [
        | inr miss ↦ rw miss a
        | inl hit ↦ rw hit (keeps history r a)
      ]

pub touch-Consistent : (pk : ℕ) (t : Time) (db : Db) → Consistent db → Consistent (touch_db pk t db)
unfolding touch
touch-Consistent pk t db c =
    update_where-Consistent (λ (r : IpAddress). r.id == pk && ltb r.last_seen_at t)
      (λ r. record r { last_seen_at = t }) (λ r. refl) later db c
  where
    later :
        (history : List IpCountryHistory) (r : IpAddress)
        → Agrees history r
        → Agrees history (record r { last_seen_at = t })
    later history r (flagged h f o e) = flagged h f o e
    later history r (unflagged f e o) = unflagged f e o

-- An address to come has no period.
open_none :
    (k : ℕ) (history : List IpCountryHistory)
    → ((h : IpCountryHistory) → Elem h history → h.ip_id < k)
    → open_periods k history ≡ []
unfolding filter
open_none k [] below = refl
open_none k (h ∷ history) below =
    let lt = below h (inl refl) in ground (arith, open_none k history (λ x i. below x (inr i)))

find-append :
    (k : ℕ) (rows : List IpAddress) (y r : IpAddress)
    → find? (λ (x : IpAddress). x.id == k) (rows ++ y ∷ []) ≡ some r
    → (find? (λ (x : IpAddress). x.id == k) rows ≡ some r) ⊎ (y ≡ r)
unfolding find?
find-append k [] y r h = inr (ground arith)
find-append k (x ∷ rows) y r h = elim (Bool-cases (x.id == k)) [
  | inl here ↦ inl (ground arith)
  | inr there ↦ elim (find-append k rows y r (ground arith)) [
    | inl old ↦ inl (ground arith)
    | inr new ↦ inr new
  ]
]

pub insert_row-Consistent :
    (a : Text) (v : ℕ) (t : Time) (db : Db) → Consistent db → Consistent (insert_row a v t db)
unfolding insert_row get_ip
insert_row-Consistent a v t db c = elim (Bool-cases (exists_at a db.ips)) [
  | inl there ↦ rw there c
  | inr new ↦ rw new (
      let row = new_row db.next_ip a v t in
      record {
        distinct = DistinctIds-append db.ips row c.distinct c.below;
        below = λ x i. elim (Elem-append db.ips row x i) [
          | inl j ↦ let lt = c.below x j in omega arith
          | inr e ↦ let e' : x.id ≡ db.next_ip = ap (λ (z : IpAddress). z.id) e in omega arith
        ];
        history_below = λ h i. let lt = c.history_below h i in omega arith;
        agree = λ k r found. elim (find-append k db.ips row r found) [
          | inl old ↦ c.agree k r old
          | inr same ↦
              subst (Agrees db.history) same
                (unflagged refl refl (open_none db.next_ip db.history c.history_below))
        ];
      })
]

pub queue-Consistent :
    (ms : List Message) (db : Db)
    → Consistent db
    → Consistent (record db { queue = db.queue ++ ms })
unfolding get_ip
queue-Consistent ms db c = record {
  distinct = c.distinct;
  below = c.below;
  history_below = c.history_below;
  agree = c.agree;
}

-- If primary keys are unique and below the next one, no period is of an address to come, and the open
-- periods agree with the flags, all this holds after a recording that returns.
pub record_sightings_bulk-Consistent :
    (sightings : List Sighting) (db db' : Db) (rows : List IpAddress)
    → Consistent db
    → record_sightings_bulk sightings db ≡ ok (db', rows)
    → Consistent db'
record_sightings_bulk-Consistent sightings db db' rows c h =
    record_sightings_bulk_induction (λ x y. Consistent x → Consistent y) (λ x k. k)
      (λ x y z f g k. g (f k)) insert_row-Consistent touch-Consistent queue-Consistent sightings db
      db' rows h c
