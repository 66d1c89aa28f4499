-- ===== src/Iran/Validation/Laws.antt =====
-- What a validation run leaves in the table of networks.
use ip_scout.Prelude.{
  ℕ, suc, ◌≡◌, sym, Bool, true, ◌&&◌, List, [], ◌∷◌, ◌++◌, Text, any, text_eq, text_eq_refl, subst,
  update_where, if◌then◌else◌, arith, Elem, Bool-cases, inl, inr,
}
use ip_scout.Errors.{ok, >>=-eq-ok, Outcome-cases, ok-injective}
use ip_scout.Models.{Time, CountryNetwork, Db}
use ip_scout.Iran.Providers.{prefix_length_of, CidrEntry}
use ip_scout.Iran.Validation.{
  has_key, refresh, natural, with_network, insert_network, refreshed, upsert, prepared, Upserted,
  upsert_all,
}

-- An enabled row of the source with this key.
abbrev pub is_active : Text → Text → Text → CountryNetwork → Bool
is_active source country cidr n = has_key country cidr n && text_eq n.source source && n.enabled

-- The table has such a row.
abbrev pub Active : Text → Text → Text → List CountryNetwork → Type 0
Active source country cidr networks = any (is_active source country cidr) networks ≡ true

-- The cidr was among those that were fetched.
abbrev pub Fetched : Text → List Text → Type 0
Fetched cidr fetched = any (text_eq cidr) fetched ≡ true

module _ (q : CountryNetwork → Bool) where
  any-append_left : (xs ys : List CountryNetwork) → any q xs ≡ true → any q (xs ++ ys) ≡ true
  unfolding any
  any-append_left [] ys h = cc
  any-append_left (x ∷ xs) ys h = ground (arith, any-append_left xs ys)

  any-append_right : (xs ys : List CountryNetwork) → any q ys ≡ true → any q (xs ++ ys) ≡ true
  unfolding any
  any-append_right [] ys h = h
  any-append_right (x ∷ xs) ys h = ground (arith, any-append_right xs ys h)

  module _ (p : CountryNetwork → Bool) (f : CountryNetwork → CountryNetwork) where
    pub any-update_where :
        ((n : CountryNetwork) → q n ≡ true → p n ≡ true → q (f n) ≡ true)
        → (xs : List CountryNetwork) → any q xs ≡ true
        → any q (update_where p f xs) ≡ true
    unfolding any update_where
    any-update_where keeps [] h = h
    any-update_where keeps (x ∷ xs) h = ground (arith, keeps x, any-update_where keeps xs)

    any-update_where_made :
        ((n : CountryNetwork) → p n ≡ true → q (f n) ≡ true)
        → (xs : List CountryNetwork) → any p xs ≡ true
        → any q (update_where p f xs) ≡ true
    unfolding any update_where
    any-update_where_made makes [] h = h
    any-update_where_made makes (x ∷ xs) h = ground (arith, makes x, any-update_where_made makes xs)

active_made :
    (now : Time) (source network country cidr : Text) (n : CountryNetwork)
    → has_key country cidr n ≡ true
    → is_active source country cidr (refresh now source network n) ≡ true
active_made now source network country cidr n h = ground (arith, text_eq_refl source)

active_kept :
    (now : Time) (source network country cidr country' cidr' : Text) (n : CountryNetwork)
    → is_active source country cidr n ≡ true
    → has_key country' cidr' n ≡ true
    → is_active source country cidr (refresh now source network n) ≡ true
active_kept now source network country cidr country' cidr' n h k =
    active_made now source network country cidr n (ground arith)

-- An operation that returned `db'` has an enabled row of the key, and keeps all others.
abbrev Gives : Text → Text → Text → Db → Db → Type 0
Gives source country cidr db db' =
    Active source country cidr db'.networks
    × ((k c : Text) → Active source k c db.networks → Active source k c db'.networks)

module _ (now : Time) (source : Text) (e : CidrEntry) (cidr : Text) where
  with_network-Active :
      (prefix : ℕ) (db : Db)
      → Gives source e.country_code cidr db (with_network now source e cidr prefix db)
  unfolding any
  with_network-Active prefix db = (
    any-append_right (is_active source e.country_code cidr) db.networks _
        (ground (arith, text_eq_refl source, text_eq_refl e.country_code, text_eq_refl cidr)),
    λ k c h. any-append_left (is_active source k c) db.networks _ h,
  )

  insert-Active :
      (db db' : Db)
      → insert_network now source e cidr db ≡ ok db'
      → Gives source e.country_code cidr db db'
  unfolding insert_network
  insert-Active db db' h =
      let (z, _, h') = >>=-eq-ok (prefix_length_of e.cidr) _ h in
      let (prefix, _, h'') = >>=-eq-ok (natural z) _ h' in
      subst (Gives source e.country_code cidr db)
        (ok-injective (with_network now source e cidr prefix db) db' h'')
        (with_network-Active prefix db)

  refreshed-Active :
      (db : Db)
      → any (has_key e.country_code cidr) db.networks ≡ true
      → Gives source e.country_code cidr db (refreshed now source e cidr db)
  refreshed-Active db there = (
    any-update_where_made (is_active source e.country_code cidr) (has_key e.country_code cidr)
        (refresh now source e.network) (active_made now source e.network e.country_code cidr)
        db.networks there,
    λ k c h.
        any-update_where (is_active source k c) (has_key e.country_code cidr)
          (refresh now source e.network) (active_kept now source e.network k c e.country_code cidr)
          db.networks h,
  )

  upsert-Active :
      (db db' : Db) (b : Bool)
      → upsert now source e cidr db ≡ ok (db', b)
      → Gives source e.country_code cidr db db'
  unfolding upsert
  upsert-Active db db' b h = elim (Bool-cases (any (has_key e.country_code cidr) db.networks)) [
    | inl there ↦
        let same : refreshed now source e cidr db ≡ db' = ground arith in
        subst (Gives source e.country_code cidr db) same (refreshed-Active db there)
    | inr new ↦ elim (Outcome-cases (insert_network now source e cidr db)) [
      | inl (x, f) ↦ absurd (ground arith)
      | inr (d, f) ↦
          let same : d ≡ db' = ground arith in
          subst (Gives source e.country_code cidr db) same (insert-Active db d f)
    ]
  ]

-- What a loop over entries keeps: enabled rows and fetched networks.
record Continues (source : Text) (u u' : Upserted) : Type 0 where
  pub active : (k c : Text) → Active source k c u.db.networks → Active source k c u'.db.networks
  pub fetched : (c : Text) → Fetched c u.fetched_cidrs → Fetched c u'.fetched_cidrs

module _ (now : Time) (source : Text) where
  -- The state behind one entry, from the results of its two steps.
  abbrev pub after_entry : Text → Db → Bool → Upserted → Upserted
  after_entry cidr db was_created u = record {
    db = db;
    created = if was_created then suc u.created else u.created;
    fetched_cidrs = cidr ∷ u.fetched_cidrs;
  }

  pub upsert_all-step :
      (e : CidrEntry) (entries : List CidrEntry) (u u' : Upserted)
      → upsert_all now source (e ∷ entries) u ≡ ok u'
      → (cidr : Text) × (db : Db) × (b : Bool) × (prepared e.cidr ≡ ok cidr)
        × (upsert now source e cidr u.db ≡ ok (db, b))
        × (upsert_all now source entries (after_entry cidr db b u) ≡ ok u')
  unfolding upsert_all
  upsert_all-step e entries u u' h = elim (Outcome-cases (prepared e.cidr)) [
    | inl (x, f) ↦ absurd (ground arith)
    | inr (cidr, f) ↦ elim (Outcome-cases (upsert now source e cidr u.db)) [
      | inl (x, g) ↦ absurd (ground arith)
      | inr ((db, b), g) ↦ (cidr, db, b, f, g, ground arith)
    ]
  ]

  upsert_all-Continues :
      (entries : List CidrEntry) (u u' : Upserted)
      → upsert_all now source entries u ≡ ok u'
      → Continues source u u'
  unfolding upsert_all any
  upsert_all-Continues [] u u' h =
      subst (Continues source u) (ok-injective u u' h)
        (record { active = λ k c a. a; fetched = λ c f. f })
  upsert_all-Continues (e ∷ entries) u u' h =
      let (cidr, db, b, _, g, rest) = upsert_all-step e entries u u' h in
      let more = upsert_all-Continues entries (after_entry cidr db b u) u' rest in
      let (_, keeps) = upsert-Active now source e cidr u.db db b g in
      record {
        active = λ k c a. more.active k c (keeps k c a);
        fetched = λ c f. more.fetched c (ground arith);
      }

  pub upsert_all-Active :
      (entries : List CidrEntry) (u u' : Upserted) (e : CidrEntry)
      → upsert_all now source entries u ≡ ok u'
      → Elem e entries
      → (cidr : Text) × (prepared e.cidr ≡ ok cidr)
        × Active source e.country_code cidr u'.db.networks
        × Fetched cidr u'.fetched_cidrs
  unfolding any
  upsert_all-Active [] u u' e h i = absurd i
  upsert_all-Active (x ∷ entries) u u' e h (inr i) =
      let (cidr, db, b, _, _, rest) = upsert_all-step x entries u u' h in
      upsert_all-Active entries (after_entry cidr db b u) u' e rest i
  upsert_all-Active (x ∷ entries) u u' e h (inl same) =
      let (cidr, db, b, f, g, rest) = upsert_all-step x entries u u' h in
      let more = upsert_all-Continues entries (after_entry cidr db b u) u' rest in
      let (made, _) = upsert-Active now source x cidr u.db db b g in
      subst
        (λ (y : CidrEntry).
          (c : Text) × (prepared y.cidr ≡ ok c)
          × Active source y.country_code c u'.db.networks
          × Fetched c u'.fetched_cidrs)
        (sym same)
        (
          cidr,
          f,
          more.active x.country_code cidr made,
          more.fetched cidr (ground (arith, text_eq_refl cidr)),
        )
