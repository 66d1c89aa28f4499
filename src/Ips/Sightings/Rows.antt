-- ===== src/Ips/Sightings/Rows.antt =====
-- The rows after `record_sightings_bulk`: one for each address, never an earlier last_seen_at, and
-- nothing else of the database changed.
use ip_scout.Prelude.{
  ℕ, ◌≡◌, refl, ap, ◌∙◌, false, ◌||◌, List, [], ◌∷◌, ◌++◌, Text, arith, text_eq, text_eq_iff,
  Bool-cases, inl, inr,
}
use ip_scout.Errors.{ok}
use ip_scout.Models.{Time, IpAddress, Db}
use ip_scout.Ips.Sightings.{Sighting, exists_at, new_row, insert_row, touch, record_sightings_bulk}
use ip_scout.Ips.Sightings.Laws.{
  Keeps, Keeps-refl, Keeps-trans, insert_row-Keeps, touch-Keeps, bump-address,
  record_sightings_bulk_induction,
}

-- No address stands in two rows.
abbrev pub Unique : List IpAddress → Type 0
Unique [] = Unit
Unique (r ∷ rows) = (exists_at r.address rows ≡ false) × Unique rows

exists_at-append :
    (a : Text) (xs ys : List IpAddress)
    → exists_at a (xs ++ ys) ≡ (exists_at a xs || exists_at a ys)
unfolding exists_at
exists_at-append a [] ys = refl
exists_at-append a (x ∷ xs) ys = ground (arith, exists_at-append a xs ys)

text_eq_comm : (s t : Text) → text_eq s t ≡ text_eq t s
text_eq_comm s t = ground (arith, text_eq_iff s t, text_eq_iff t s)

Unique-snoc :
    (rows : List IpAddress) (r : IpAddress)
    → exists_at r.address rows ≡ false
    → Unique rows
    → Unique (rows ++ r ∷ [])
unfolding exists_at
Unique-snoc [] r h u = (refl, tt)
Unique-snoc (x ∷ rows) r h u = (
  exists_at-append x.address rows (r ∷ []) ∙ ground (arith, text_eq_comm x.address r.address, u.0),
  Unique-snoc rows r (ground arith) u.1,
)

exists_at-touch :
    (a : Text) (pk : ℕ) (t : Time) (rows : List IpAddress)
    → exists_at a (touch pk t rows) ≡ exists_at a rows
unfolding exists_at touch
exists_at-touch a pk t [] = refl
exists_at-touch a pk t (r ∷ rows) =
    rw (ap (λ s. text_eq s a) (bump-address pk t r), exists_at-touch a pk t rows)

touch-Unique : (pk : ℕ) (t : Time) (rows : List IpAddress) → Unique rows → Unique (touch pk t rows)
unfolding touch
touch-Unique pk t [] u = tt
touch-Unique pk t (r ∷ rows) u = (
  exists_at-touch _ pk t rows ∙ ap (λ s. exists_at s rows) (bump-address pk t r) ∙ u.0,
  touch-Unique pk t rows u.1,
)

insert_row-Unique :
    (a : Text) (v : ℕ) (t : Time) (db : Db) → Unique db.ips → Unique (insert_row a v t db).ips
unfolding insert_row
insert_row-Unique a v t db u = elim (Bool-cases (exists_at a db.ips)) [
  | inl there ↦ rw there u
  | inr new ↦ rw new (Unique-snoc db.ips (new_row db.next_ip a v t) new u)
]

-- The tables that sightings have nothing to do with.
pub record SameOthers (x y : Db) : Type 0 where
  pub servers : y.servers ≡ x.servers
  pub log_sources : y.log_sources ≡ x.log_sources
  pub events : y.events ≡ x.events
  pub networks : y.networks ≡ x.networks
  pub history : y.history ≡ x.history
  pub whois_records : y.whois_records ≡ x.whois_records
  pub audit_log : y.audit_log ≡ x.audit_log

insert_row-SameOthers :
    (a : Text) (v : ℕ) (t : Time) (db : Db) → SameOthers db (insert_row a v t db)
unfolding insert_row
insert_row-SameOthers a v t db = ground arith

SameOthers-trans : (x y z : Db) → SameOthers x y → SameOthers y z → SameOthers x z
SameOthers-trans x y z h k = ground arith

module _ (sightings : List Sighting) (db db' : Db) (rows : List IpAddress)
    (done : record_sightings_bulk sightings db ≡ ok (db', rows)) where
  record_sightings_bulk-Keeps : Keeps db.ips db'.ips
  record_sightings_bulk-Keeps =
      record_sightings_bulk_induction (λ x y. Keeps x.ips y.ips) (λ x. Keeps-refl x.ips)
        (λ x y z. Keeps-trans x.ips y.ips z.ips) insert_row-Keeps (λ pk t x. touch-Keeps pk t x.ips)
        (λ ms x. Keeps-refl x.ips) sightings db db' rows done

  record_sightings_bulk-Unique : Unique db.ips → Unique db'.ips
  record_sightings_bulk-Unique =
      record_sightings_bulk_induction (λ x y. Unique x.ips → Unique y.ips) (λ x u. u)
        (λ x y z f g u. g (f u)) insert_row-Unique (λ pk t x. touch-Unique pk t x.ips) (λ ms x u. u)
        sightings db db' rows done

  -- No other table changes.
  pub record_sightings_bulk-SameOthers : SameOthers db db'
  record_sightings_bulk-SameOthers =
      record_sightings_bulk_induction SameOthers (λ x. ground arith) SameOthers-trans
        insert_row-SameOthers (λ pk t x. ground arith) (λ ms x. ground arith) sightings db db' rows
        done

  -- If no address had two rows before a recording that returns, none has two afterwards; every row that was
  -- there is there, under the same address, and differs at most by a later last_seen_at; and no table but
  -- the addresses changes.
  pub record_sightings_bulk-Extends :
      Unique db.ips → Unique db'.ips × Keeps db.ips db'.ips × SameOthers db db'
  record_sightings_bulk-Extends u = (
    record_sightings_bulk-Unique u,
    record_sightings_bulk-Keeps,
    record_sightings_bulk-SameOthers,
  )
