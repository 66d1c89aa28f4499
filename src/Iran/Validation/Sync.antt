-- ===== src/Iran/Validation/Sync.antt =====
-- What a validation run leaves in the table: for Iran and for its source, the enabled networks are
-- those that were fetched.
use ip_scout.Prelude.{
  ℕ, ◌≡◌, ◌⊎◌, refl, sym, ap, ◌∙◌, Bool, true, ◌&&◌, List, [], ◌∷◌, Text, any, text_eq, text_eq_iff,
  subst, update_where, arith, Elem, Bool-cases, inl, inr,
}
use ip_scout.Errors.{ok, >>=-eq-ok, ok-injective}
use ip_scout.Models.{Time, CountryNetwork, Db}
use ip_scout.Iran.{iran_country_code}
use ip_scout.Iran.Providers.{CidrEntry}
use ip_scout.Iran.Validation.{
  prepared, Upserted, upsert_all, is_removed, disable, disable_removed, sync,
}
use ip_scout.Iran.Validation.Laws.{
  is_active, Active, Fetched, any-update_where, after_entry, upsert_all-step, upsert_all-Active,
}

-- An entry has this network, as the column stores it.
abbrev pub Named : Text → List CidrEntry → Type 0
Named cidr entries = (e : CidrEntry) × Elem e entries × (prepared e.cidr ≡ ok cidr)

upsert_all-Named :
    (now : Time) (source : Text) (entries : List CidrEntry) (u u' : Upserted) (c : Text)
    → upsert_all now source entries u ≡ ok u'
    → Fetched c u'.fetched_cidrs
    → Fetched c u.fetched_cidrs ⊎ Named c entries
unfolding upsert_all any
upsert_all-Named now source [] u u' c h f =
    inl (subst (λ (v : Upserted). Fetched c v.fetched_cidrs) (sym (ok-injective u u' h)) f)
upsert_all-Named now source (e ∷ entries) u u' c h f =
    let (cidr, db, b, p, _, rest) = upsert_all-step now source e entries u u' h in
    elim (upsert_all-Named now source entries (after_entry now source cidr db b u) u' c rest f) [
      | inr (x, i, q) ↦ inr (x, inr i, q)
      | inl earlier ↦ elim (Bool-cases (text_eq c cidr)) [
        | inr other ↦ inl (ground arith)
        | inl same ↦
            let eq : cidr ≡ c = ground (arith, text_eq_iff c cidr) in
            inr (e, inl refl, p ∙ ap ok eq)
      ]
    ]

-- Enabled, of Iran, and of the source.
abbrev pub is_current : Text → CountryNetwork → Bool
is_current source n =
    text_eq n.country_code iran_country_code && text_eq n.source source && n.enabled

module _ (now : Time) (source : Text) (fetched : List Text) where
  Active-disable_removed :
      (k c : Text) (db : Db)
      → Fetched c fetched
      → Active source k c db.networks
      → Active source k c (disable_removed now source fetched db).networks
  unfolding disable_removed is_removed
  Active-disable_removed k c db f =
      any-update_where (is_active source k c) (is_removed source fetched) (disable now)
        (λ n a r.
          let e : n.cidr ≡ c = ground (arith, text_eq_iff n.cidr c) in
          let g : Fetched n.cidr fetched = ap (λ t. any (text_eq t) fetched) e ∙ f in
          absurd (ground arith))
        db.networks

  current-Fetched :
      (ns : List CountryNetwork) (n : CountryNetwork)
      → Elem n (update_where (is_removed source fetched) (disable now) ns)
      → is_current source n ≡ true
      → Fetched n.cidr fetched
  unfolding is_removed update_where
  current-Fetched [] n i h = absurd i
  current-Fetched (x ∷ ns) n (inr i) h = current-Fetched ns n i h
  current-Fetched (x ∷ ns) n (inl e) h = elim (Bool-cases (is_removed source fetched x)) [
    | inl removed ↦ absurd (ground arith)
    | inr kept ↦
        let same : n ≡ x = e ∙ rw kept refl in
        subst (λ (y : CountryNetwork). Fetched y.cidr fetched) (sym same) (ground arith)
  ]

-- Every entry has an enabled row of the source, and every enabled row of Iran and of the source is
-- that of an entry.
abbrev pub Synced : Text → List CidrEntry → Db → Type 0
Synced source entries db =
    ((e : CidrEntry)
      → Elem e entries
      → (cidr : Text) × (prepared e.cidr ≡ ok cidr) × Active source e.country_code cidr db.networks)
    × ((n : CountryNetwork)
        → Elem n db.networks
        → is_current source n ≡ true
        → Named n.cidr entries)

nothing : Db → Upserted
nothing db = record { db = db; created = 0; fetched_cidrs = [] }

disable_removed-Synced :
    (now : Time) (source : Text) (entries : List CidrEntry) (db : Db) (v : Upserted)
    → upsert_all now source entries (nothing db) ≡ ok v
    → Synced source entries (disable_removed now source v.fetched_cidrs v.db)
unfolding any disable_removed nothing
disable_removed-Synced now source entries db v h = (
  λ e i.
      let (cidr, p, a, f) = upsert_all-Active now source entries (nothing db) v e h i in
      (cidr, p, Active-disable_removed now source v.fetched_cidrs e.country_code cidr v.db f a),
  λ n i c.
      elim (upsert_all-Named now source entries (nothing db) v n.cidr h
        (current-Fetched now source v.fetched_cidrs v.db.networks n i c)) [
          | inl never ↦ absurd (ground arith)
          | inr named ↦ named
        ],
)

-- If the networks are synchronised, every entry has an enabled row of the source, and every enabled
-- row of Iran and of the source is that of an entry.
pub sync-Synced :
    (now : Time) (source : Text) (entries : List CidrEntry) (db : Db) (u : Upserted) (disabled : ℕ)
    → sync now source entries db ≡ ok (u, disabled)
    → Synced source entries u.db
unfolding sync nothing
sync-Synced now source entries db u disabled h =
    let (v, f, h') = >>=-eq-ok (upsert_all now source entries (nothing db)) _ h in
    let same : disable_removed now source v.fetched_cidrs v.db ≡ u.db = ground arith in
    subst (Synced source entries) same (disable_removed-Synced now source entries db v f)
