-- ===== src/Ips/Sightings/Refused.antt =====
-- apps/ips/services.py: a recording ends with a ValueError, or with a row for each sighting.
use ip_scout.Prelude.{
  Bool, true, false, Bool-cases, ◌≡◌, refl, sym, ap, ◌∙◌, true, none, is_some, List, [], ◌∷◌, Text,
  arith, All, Elem, Option-cases, ◌⊎◌, inl, inr, subst,
}
use ip_scout.Errors.{Outcome, ok, raise, value_error, key_error, ok-injective}
use ip_scout.Python.Strip.{strip}
use ip_scout.Python.Ipaddress.Network.{ip_address}
use ip_scout.Models.{Time, IpAddress, Db}
use ip_scout.Ips.Identity.{normalize_ip}
use ip_scout.Ips.Identity.Total.{normalize_ip_total}
use ip_scout.Ips.Sightings.{Sighting, put_latest, latest_from, record_sightings_bulk}
use ip_scout.Ips.Sightings.Total.{
  Readable, has_row, record_sightings_bulk_total, record_sightings_bulk_altered,
}

-- How a recording ends.
pub data Recording (sightings : List Sighting) (keeps : Text → Bool)
    : Outcome (Db × List IpAddress) → Type 0 where
  refused :
      (raw : Text) (t : Time)
      → Elem (raw, t) sightings
      → ip_address (strip raw) ≡ none
      → Recording sightings keeps (raise value_error)
  altered :
      (raw : Text) (t : Time) (a : Text)
      → Elem (raw, t) sightings
      → normalize_ip raw ≡ ok a
      → keeps a ≡ false
      → Recording sightings keeps (raise key_error)
  recorded :
      (db : Db) (rows : List IpAddress)
      → All
          (λ s. (a : Text) × (normalize_ip s.0 ≡ ok a) × (has_row a rows ≡ true) × (keeps a ≡ true))
          sightings
      → Recording sightings keeps (ok (db, rows))

-- Every sighting holds an address, or one of them does not.
split_sightings :
    (sightings : List Sighting)
    → All (λ s. Readable s.0) sightings
      ⊎ ((raw : Text) × (t : Time) × Elem (raw, t) sightings × (ip_address (strip raw) ≡ none))
split_sightings [] = inl tt
split_sightings ((raw, t) ∷ sightings) = elim (Option-cases (ip_address (strip raw))) [
  | inl wrong ↦ inr (raw, t, inl refl, wrong)
  | inr (x, found) ↦ elim (split_sightings sightings) [
    | inl all ↦
        let (a, e, v, f) = normalize_ip_total raw (ap is_some found) in inl ((a, e, (v, f)), all)
    | inr (other, u, i, wrong) ↦ inr (other, u, inr i, wrong)
  ]
]

pub normalize_ip_refused :
    (raw : Text) → ip_address (strip raw) ≡ none → normalize_ip raw ≡ raise value_error
unfolding normalize_ip
normalize_ip_refused raw wrong = rw (wrong, normalize_ip) refl

latest_from_refused :
    (latest sightings : List Sighting) (raw : Text) (t : Time)
    → Elem (raw, t) sightings
    → ip_address (strip raw) ≡ none
    → latest_from latest sightings ≡ raise value_error
unfolding latest_from
latest_from_refused latest [] raw t i wrong = absurd i
latest_from_refused latest ((first, u) ∷ sightings) raw t i wrong =
    elim (Option-cases (ip_address (strip first))) [
      | inl bad ↦ rw (normalize_ip_refused first bad, latest_from) refl
      | inr (x, found) ↦
          let (a, e, _, _) = normalize_ip_total first (ap is_some found) in
          elim i [
            | inl same ↦
                let there : is_some (ip_address (strip raw)) ≡ true =
                  ap (λ (s : Sighting). is_some (ip_address (strip s.0))) same ∙ ap is_some found in
                absurd (ground arith)
            | inr later ↦
                rw (e, latest_from)
                  (latest_from_refused (put_latest a u latest) sightings raw t later wrong)
          ]
    ]

-- The column keeps the normal form of each address, or does not keep one.
kept_or_altered :
    (keeps : Text → Bool) (sightings : List Sighting)
    → All (λ s. Readable s.0) sightings
    → ((raw : Text) (t : Time) (a : Text)
        → Elem (raw, t) sightings
        → normalize_ip raw ≡ ok a
        → keeps a ≡ true)
      ⊎ ((raw : Text) × (t : Time) × (a : Text) × Elem (raw, t) sightings
          × (normalize_ip raw ≡ ok a)
          × (keeps a ≡ false))
kept_or_altered keeps [] all = inl (λ raw t a i n. absurd i)
kept_or_altered keeps ((first, u) ∷ sightings) ((b, m, _), all) = elim (Bool-cases (keeps b)) [
  | inr lost ↦ inr (first, u, b, inl refl, m, lost)
  | inl kept ↦ elim (kept_or_altered keeps sightings all) [
    | inr (raw, t, a, i, n, lost) ↦ inr (raw, t, a, inr i, n, lost)
    | inl rest ↦ inl (λ raw t a i n. elim i [
      | inr later ↦ rest raw t a later n
      | inl same ↦
          let e : ok a ≡ ok b = sym n ∙ ap (λ (y : Sighting). normalize_ip y.0) same ∙ m in
          ap keeps (ok-injective a b e) ∙ kept
    ])
  ]
]

with_kept :
    (keeps : Text → Bool) (rows : List IpAddress) (xs : List Sighting)
    → ((raw : Text) (t : Time) (a : Text)
        → Elem (raw, t) xs
        → normalize_ip raw ≡ ok a
        → keeps a ≡ true)
    → All (λ x. (a : Text) × (normalize_ip x.0 ≡ ok a) × (has_row a rows ≡ true)) xs
    → All
        (λ x. (a : Text) × (normalize_ip x.0 ≡ ok a) × (has_row a rows ≡ true) × (keeps a ≡ true))
        xs
with_kept keeps rows [] kept all = tt
with_kept keeps rows (x ∷ xs) kept ((a, n, h), all) = (
  (a, n, h, kept x.0 x.1 a (inl refl) n),
  with_kept keeps rows xs (λ raw t b i m. kept raw t b (inr i) m) all,
)

pub record_sightings_bulk-Recording :
    (sightings : List Sighting) (db : Db)
    → Recording sightings db.keeps (record_sightings_bulk sightings db)
unfolding record_sightings_bulk
record_sightings_bulk-Recording sightings db = elim (split_sightings sightings) [
  | inl all ↦ elim (kept_or_altered db.keeps sightings all) [
    | inl kept ↦
        let (db', rows, done, each) = record_sightings_bulk_total sightings db all kept in
        subst (Recording sightings db.keeps) (sym done)
          (recorded db' rows (with_kept db.keeps rows sightings kept each))
    | inr (raw, t, a, i, n, lost) ↦
        subst (Recording sightings db.keeps)
          (sym (record_sightings_bulk_altered sightings db raw t a all i n lost))
          (altered raw t a i n lost)
  ]
  | inr (raw, t, i, wrong) ↦
      subst (Recording sightings db.keeps) (sym (raises sightings raw t i wrong))
        (refused raw t i wrong)
]
  where
    raises :
        (xs : List Sighting) (raw : Text) (t : Time)
        → Elem (raw, t) xs
        → ip_address (strip raw) ≡ none
        → record_sightings_bulk xs db ≡ raise value_error
    raises [] raw t i wrong = absurd i
    raises (s ∷ xs) raw t i wrong =
        rw (latest_from_refused [] (s ∷ xs) raw t i wrong, record_sightings_bulk) refl
