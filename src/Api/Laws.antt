-- ===== src/Api/Laws.antt =====
-- What the query for events answers.
use ip_scout.Prelude.{
  ◌≡◌, sym, ◌↔◌, true, not, ◌&&◌, ◌||◌, Option, List, Text, codes, text_eq, filter, arith, Elem,
  Elem-filter, filter-Elem, Bool-cases, inl, inr, subst,
}
use ip_scout.Errors.{ok, >>=-eq-ok}
use ip_scout.Models.{Time, RequestEvent, Db}
use ip_scout.Api.{get, since_of, not_before, is_of_iranian, request_events}

-- An answer holds exactly the events that are not before the start that was asked for, and, where
-- Iranian ones were asked for, belong to a flagged address.
pub request_events-Elem :
    (now : Time) (days is_iran : Option Text) (db : Db) (events : List RequestEvent)
    (e : RequestEvent)
    → request_events now days is_iran db ≡ ok events
    → (since : Option Time) × (since_of now days ≡ ok since)
      × (Elem e events ↔ (
          Elem e db.events
          × ((not_before since e
                && (not (text_eq (get is_iran) (codes "true")) || is_of_iranian db e))
              ≡ true)))
unfolding request_events
request_events-Elem now days is_iran db events e h =
    let (since, s, h') = >>=-eq-ok (since_of now days) _ h in
    let recent = filter (not_before since) db.events in
    (
      since,
      s,
      elim (Bool-cases (text_eq (get is_iran) (codes "true"))) [
        | inl asked ↦
            let same : filter (is_of_iranian db) recent ≡ events = ground arith in
            (
              λ i.
                  let (j, b) =
                    Elem-filter (is_of_iranian db) recent e (subst (Elem e) (sym same) i) in
                  let (k, c) = Elem-filter (not_before since) db.events e j in (k, ground arith),
              λ p. subst (Elem e) same (
                  filter-Elem (is_of_iranian db) recent e
                    (filter-Elem (not_before since) db.events e p.0 (ground (arith, p.1)))
                    (ground (arith, p.1))),
            )
        | inr all ↦
            let same : recent ≡ events = ground arith in
            (
              λ i.
                  let (k, c) =
                    Elem-filter (not_before since) db.events e (subst (Elem e) (sym same) i) in
                  (k, ground arith),
              λ p.
                  subst (Elem e) same
                    (filter-Elem (not_before since) db.events e p.0 (ground (arith, p.1))),
            )
      ],
    )
