-- ===== src/Ips/Sightings/View/Refines.antt =====
-- Recording refines the abstract update: it sets each address to the latest of its old time and the
-- times of its sightings.
use ip_scout.Prelude.{
  ◌≡◌, refl, sym, ap, ◌∙◌, none, List, [], ◌∷◌, Text, is_some, if◌then◌else◌, arith, Option-cases,
  inl, inr, subst,
}
use ip_scout.Errors.{ok, >>=-eq-ok}
use ip_scout.Models.{IpAddress, Db}
use ip_scout.Ips.Sightings.{
  Sighting, row_at, exists_at, existing_rows, latest_from, create_missing, keep_texts, touch_all,
  record_latest, record_sightings_bulk,
}
use ip_scout.Ips.Sightings.Laws.{create_missing_induction}
use ip_scout.Ips.Sightings.Consistent.{
  Consistent, insert_row-Consistent, touch-Consistent, queue-Consistent,
}
use ip_scout.Ips.Sightings.View.{later, view, seen_in}
use ip_scout.Ips.Sightings.View.Latest.{
  lookup, DistinctKeys, later_none, latest_from-lookup, latest_from-DistinctKeys,
}
use ip_scout.Ips.Sightings.View.Create.{or_else, exists_at-row_at, view-create_missing}
use ip_scout.Ips.Sightings.View.Touch.{existing_rows-Reads, view-touch_all}

-- What was created and then updated.
created_then_updated :
    (a : Text) (latest : List Sighting) (rows : List IpAddress)
    → later
        (or_else
          (view rows a)
          (if exists_at a (existing_rows latest rows) then none else lookup a latest))
        (lookup a latest)
      ≡ later (view rows a) (lookup a latest)
created_then_updated a latest rows = elim (Option-cases (lookup a latest)) [
  | inl missing ↦ rw missing (ground (arith, later_none (view rows a)))
  | inr (t, there) ↦
      let same = existing_rows-Reads latest rows a (ap is_some there) in
      let known = exists_at-row_at a (existing_rows latest rows) ∙ ap is_some same in
      elim (Option-cases (row_at a rows)) [
        | inl new ↦ rw (known, new, there) (ground arith)
        | inr (r, old) ↦ rw (known, old, there) refl
      ]
]

record_latest-view :
    (a : Text) (latest : List Sighting) (db db' : Db) (rows : List IpAddress)
    → Consistent db
    → DistinctKeys latest
    → record_latest latest db ≡ ok (db', rows)
    → view db'.ips a ≡ later (view db.ips a) (lookup a latest)
unfolding record_latest
record_latest-view a latest db db' rows c keys h =
    let before = existing_rows latest db.ips in
    let (created, f, kept) = >>=-eq-ok (create_missing before latest db) _ h in
    let (_, _, h') = >>=-eq-ok (keep_texts db.keeps latest) _ kept in
    let ((touched, rows'), g, h'') =
      >>=-eq-ok (touch_all (existing_rows latest created.ips) latest created) _ h' in
    let consistent =
      create_missing_induction (λ x y. Consistent x → Consistent y) (λ x k. k)
        (λ x y z k l m. l (k m)) insert_row-Consistent touch-Consistent queue-Consistent before
        latest db created f c in
    let same : touched.ips ≡ db'.ips = ground arith in
    ap (λ ips. view ips a) (sym same)
    ∙ view-touch_all a (existing_rows latest created.ips) latest created touched rows'
        consistent.distinct keys (existing_rows-Reads latest created.ips) g
    ∙ ap (λ o. later o (lookup a latest)) (view-create_missing a before latest db created f)
    ∙ created_then_updated a latest db.ips

-- From a consistent state, a recording that returns sets the time at which each address was seen last
-- to the latest of the time that the table had and the times of its sightings, in whatever spelling
-- they name it; an address that was not sighted keeps its time, or stays without a row.
pub record_sightings_bulk_refines :
    (sightings : List Sighting) (db db' : Db) (rows : List IpAddress) (a : Text)
    → Consistent db
    → record_sightings_bulk sightings db ≡ ok (db', rows)
    → view db'.ips a ≡ later (view db.ips a) (seen_in a sightings)
unfolding record_sightings_bulk lookup seen_in
record_sightings_bulk_refines [] db db' rows a c h =
    let e : db ≡ db' = ground arith in
    subst (λ (x : Db). view x.ips a ≡ later (view db.ips a) none) e
      (sym (later_none (view db.ips a)))
record_sightings_bulk_refines (s ∷ sightings) db db' rows a c h =
    let (latest, f, h') = >>=-eq-ok (latest_from [] (s ∷ sightings)) _ h in
    record_latest-view a latest db db' rows c
      (latest_from-DistinctKeys [] (s ∷ sightings) latest tt f) h'
    ∙ ap (later (view db.ips a)) (latest_from-lookup a [] (s ∷ sightings) latest f)
