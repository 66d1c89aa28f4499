-- ===== src/Ips/Sightings/View/Latest.antt =====
-- What the dict of latest sightings holds.
use ip_scout.Prelude.{
  ◌≡◌, refl, sym, ap, ◌∙◌, Option, none, some, List, [], ◌∷◌, Text, text_eq, text_eq_iff,
  if◌then◌else◌, arith, Bool-cases, inl, inr,
}
use ip_scout.Errors.{ok, ok-injective, Outcome-cases}
use ip_scout.Models.{Time}
use ip_scout.Ips.Identity.{normalize_ip}
use ip_scout.Ips.Sightings.{Sighting, put_latest, latest_from}
use ip_scout.Ips.Sightings.View.{later, seen_in}

unfoldable pub lookup : Text → List Sighting → Option Time
lookup a [] = none
lookup a ((b, t) ∷ latest) = let rest = lookup a latest in if text_eq b a then some t else rest

-- No address has two entries.
abbrev pub DistinctKeys : List Sighting → Type 0
DistinctKeys [] = Unit
DistinctKeys ((a, _) ∷ latest) = (lookup a latest ≡ none) × DistinctKeys latest

pub later_none : (o : Option Time) → later o none ≡ o
later_none none = refl
later_none (some t) = refl

pub later_assoc : (a b c : Option Time) → later (later a b) c ≡ later a (later b c)
later_assoc none b c = refl
later_assoc (some t) none c = refl
later_assoc (some t) (some u) none = refl
later_assoc (some t) (some u) (some v) = ground arith

lookup-put_latest :
    (b a : Text) (t : Time) (latest : List Sighting)
    → lookup b (put_latest a t latest)
      ≡ (if text_eq a b then later (lookup b latest) (some t) else lookup b latest)
unfolding lookup put_latest
lookup-put_latest b a t [] = ground arith
lookup-put_latest b a t ((c, u) ∷ latest) =
    ground
      (arith, text_eq_iff a b, text_eq_iff a c, text_eq_iff c b, lookup-put_latest b a t latest)

DistinctKeys-put_latest :
    (a : Text) (t : Time) (latest : List Sighting)
    → DistinctKeys latest
    → DistinctKeys (put_latest a t latest)
unfolding put_latest lookup
DistinctKeys-put_latest a t [] d = (refl, tt)
DistinctKeys-put_latest a t ((b, u) ∷ latest) (new, d) = elim (Bool-cases (text_eq a b)) [
  | inl same ↦ rw same (new, d)
  | inr other ↦
      rw other (lookup-put_latest b a t latest ∙ rw other new, DistinctKeys-put_latest a t latest d)
]

pub seen_in-cons :
    (a raw b : Text) (t : Time) (sightings : List Sighting)
    → normalize_ip raw ≡ ok b
    → seen_in a ((raw, t) ∷ sightings)
      ≡ (if text_eq b a then later (some t) (seen_in a sightings) else seen_in a sightings)
unfolding seen_in
seen_in-cons a raw b t sightings f = rw (f, seen_in) refl

-- The dict of a loop over sightings holds, for each address, the latest of its times.
pub latest_from-lookup :
    (a : Text) (latest sightings latest' : List Sighting)
    → latest_from latest sightings ≡ ok latest'
    → lookup a latest' ≡ later (lookup a latest) (seen_in a sightings)
unfolding latest_from seen_in
latest_from-lookup a latest [] latest' h =
    ap (lookup a) (sym (ok-injective latest latest' h)) ∙ sym (later_none (lookup a latest))
latest_from-lookup a latest ((raw, t) ∷ sightings) latest' h =
    elim (Outcome-cases (normalize_ip raw)) [
      | inl (e, f) ↦ absurd (ground arith)
      | inr (b, f) ↦
          let more =
            latest_from-lookup a (put_latest b t latest) sightings latest' (ground arith) in
          elim (Bool-cases (text_eq b a)) [
            | inl same ↦
                more
                ∙ ap (λ o. later o (seen_in a sightings))
                    (lookup-put_latest a b t latest ∙ rw same refl)
                ∙ later_assoc (lookup a latest) (some t) (seen_in a sightings)
                ∙ ap (later (lookup a latest))
                    (sym (seen_in-cons a raw b t sightings f ∙ rw same refl))
            | inr other ↦
                more
                ∙ ap (λ o. later o (seen_in a sightings))
                    (lookup-put_latest a b t latest ∙ rw other refl)
                ∙ ap (later (lookup a latest))
                    (sym (seen_in-cons a raw b t sightings f ∙ rw other refl))
          ]
    ]

pub latest_from-DistinctKeys :
    (latest sightings latest' : List Sighting)
    → DistinctKeys latest
    → latest_from latest sightings ≡ ok latest'
    → DistinctKeys latest'
unfolding latest_from
latest_from-DistinctKeys latest [] latest' d h = rw (ok-injective latest latest' h) at d
latest_from-DistinctKeys latest ((raw, t) ∷ sightings) latest' d h =
    elim (Outcome-cases (normalize_ip raw)) [
      | inl (e, f) ↦ absurd (ground arith)
      | inr (b, f) ↦
          latest_from-DistinctKeys (put_latest b t latest) sightings latest'
            (DistinctKeys-put_latest b t latest d) (ground arith)
    ]
