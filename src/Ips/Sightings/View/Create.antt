-- ===== src/Ips/Sightings/View/Create.antt =====
-- The view behind the creation of the rows that are missing.
use ip_scout.Prelude.{
  ℕ, ◌≡◌, refl, sym, ◌∙◌, true, Option, none, some, List, [], ◌∷◌, ◌++◌, Text, text_eq, text_eq_iff,
  is_some, if◌then◌else◌, arith, Bool-cases, inl, inr, subst,
}
use ip_scout.Errors.{ok, ok-injective, Outcome-cases}
use ip_scout.Models.{Time, IpAddress, Db}
use ip_scout.Ips.Identity.{version_of}
use ip_scout.Ips.Sightings.{Sighting, row_at, exists_at, new_row, insert_row, create_missing}
use ip_scout.Ips.Sightings.View.{view}
use ip_scout.Ips.Sightings.View.Latest.{lookup}

abbrev pub or_else : Option Time → Option Time → Option Time
or_else none o = o
or_else (some t) o = some t

pub exists_at-row_at :
    (a : Text) (rows : List IpAddress) → exists_at a rows ≡ is_some (row_at a rows)
unfolding exists_at row_at
exists_at-row_at a [] = refl
exists_at-row_at a (r ∷ rows) = ground (arith, exists_at-row_at a rows)

view-append :
    (a : Text) (rows : List IpAddress) (r : IpAddress)
    → view (rows ++ r ∷ []) a ≡ or_else (view rows a) (view (r ∷ []) a)
unfolding row_at
view-append a [] r = refl
view-append a (x ∷ rows) r = ground (arith, view-append a rows r)

view-insert_row :
    (a b : Text) (v : ℕ) (t : Time) (db : Db)
    → view (insert_row b v t db).ips a
      ≡ or_else (view db.ips a) (if text_eq b a then some t else none)
unfolding insert_row row_at
view-insert_row a b v t db = elim (Bool-cases (exists_at b db.ips)) [
  | inl there ↦ rw there (known (sym (exists_at-row_at b db.ips) ∙ there))
  | inr new ↦ rw new (view-append a db.ips (new_row db.next_ip b v t) ∙ ground arith)
]
  where
    known :
        is_some (row_at b db.ips) ≡ true
        → view db.ips a ≡ or_else (view db.ips a) (if text_eq b a then some t else none)
    known h = ground (arith, text_eq_iff b a)

pub view-create_missing :
    (a : Text) (existing : List IpAddress) (latest : List Sighting) (db db' : Db)
    → create_missing existing latest db ≡ ok db'
    → view db'.ips a
      ≡ or_else (view db.ips a) (if exists_at a existing then none else lookup a latest)
unfolding create_missing lookup
view-create_missing a existing [] db db' h =
    let e : db ≡ db' = ok-injective db db' h in
    subst
      (λ (d : Db).
        view d.ips a ≡ or_else (view db.ips a) (if exists_at a existing then none else none))
      e (ground arith)
view-create_missing a existing ((b, t) ∷ latest) db db' h =
    elim (Bool-cases (exists_at b existing)) [
      | inl there ↦
          let more = view-create_missing a existing latest db db' (ground arith) in
          ground (arith, text_eq_iff b a, more)
      | inr new ↦ elim (Outcome-cases (version_of b)) [
        | inl (e, f) ↦ absurd (ground arith)
        | inr (v, f) ↦
            let more =
              view-create_missing a existing latest (insert_row b v t db) db' (ground arith) in
            let one = view-insert_row a b v t db in ground (arith, text_eq_iff b a, more, one)
      ]
    ]
