-- ===== src/Iran/Export/Laws.antt =====
-- Which addresses an export holds.
use ip_scout.Prelude.{
  ◌≡◌, refl, ◌↔◌, ◌∙◌, sym, ap, Bool, true, false, not, ◌&&◌, ◌||◌, none, some, List, [], ◌∷◌, Text,
  filter, if◌then◌else◌, arith, Elem, Elem-filter, filter-Elem, Bool-cases, Option-cases, inl, inr,
  subst,
}
use ip_scout.Errors.{ok}
use ip_scout.Python.Strip.{is_nil}
use ip_scout.Models.{Time, IpAddress, Db}
use ip_scout.Iran.Export.Spec.{IsInside, IsExported, event_iff, status_iff}
use ip_scout.Iran.Export.{
  Within, ExportFilters, wants_event, has_selected, matches_status, build_queryset,
}

-- What the filters ask of an address; a text that is no network asks nothing that can be met.
abbrev inside_of : Within → Text → Text → Bool
inside_of within cidr address =
    if is_nil cidr then true else elim (within cidr) [ none ↦ false | some inside ↦ inside address ]

abbrev is_exported : Within → Time → ExportFilters → Db → IpAddress → Bool
is_exported within now filters db r =
    ((not (wants_event filters) || has_selected now filters db r)
      && matches_status db filters.iran_status r)
    && inside_of within filters.cidr r.address

module _ (within : Within) (now : Time) (filters : ExportFilters) (db : Db) (rows : List IpAddress)
    (done : build_queryset within now filters db ≡ ok rows) (r : IpAddress) where
  abbrev base : IpAddress → Bool
  base x =
      (not (wants_event filters) || has_selected now filters db x)
      && matches_status db filters.iran_status x

  base_iff :
      (inside : IpAddress → Bool) (out : List IpAddress)
      → filter inside (filter base db.ips) ≡ out
      → Elem r out ↔ (Elem r db.ips × ((base r && inside r) ≡ true))
  base_iff inside out same = (
    λ i.
        let (j, b) = Elem-filter inside (filter base db.ips) r (subst (Elem r) (sym same) i) in
        let (k, c) = Elem-filter base db.ips r j in (k, ground arith),
    λ h. subst (Elem r) same (
        filter-Elem inside (filter base db.ips) r
          (filter-Elem base db.ips r h.0 (ground (arith, h.1))) (ground (arith, h.1))),
  )

  filter-true : (xs : List IpAddress) → filter (λ x. true) xs ≡ xs
  unfolding filter
  filter-true [] = refl
  filter-true (x ∷ xs) = ap (◌∷◌ x) (filter-true xs)

  is_exported-Elem : Elem r rows ↔ (Elem r db.ips × (is_exported within now filters db r ≡ true))
  unfolding build_queryset
  is_exported-Elem = elim (Bool-cases (is_nil filters.cidr)) [
    | inl all ↦
        let same : filter base db.ips ≡ rows = ground arith in
        let e : inside_of within filters.cidr r.address ≡ true = ground arith in
        rw e (base_iff (λ x. true) rows (filter-true (filter base db.ips) ∙ same))
    | inr some_cidr ↦ elim (Option-cases (within filters.cidr)) [
      | inl wrong ↦ absurd (ground arith)
      | inr (inside, found) ↦
          let same : filter (λ (x : IpAddress). inside x.address) (filter base db.ips) ≡ rows =
            ground arith in
          let e : inside_of within filters.cidr r.address ≡ inside r.address = ground arith in
          rw e (base_iff (λ x. inside x.address) rows same)
    ]
  ]

  inside_of-IsInside :
      inside_of within filters.cidr r.address ≡ true → IsInside within filters.cidr r.address
  inside_of-IsInside h = elim (Bool-cases (is_nil filters.cidr)) [
    | inl empty ↦ inl (nil_text filters.cidr empty)
    | inr there ↦ elim (Option-cases (within filters.cidr)) [
      | inl wrong ↦ absurd (ground arith)
      | inr (inside, found) ↦ inr (inside, found, ground arith)
    ]
  ]
    where
      nil_text : (t : Text) → is_nil t ≡ true → t ≡ []
      nil_text [] h = refl
      nil_text (c ∷ t) h = absurd (ground arith)

  IsInside-inside_of :
      IsInside within filters.cidr r.address → inside_of within filters.cidr r.address ≡ true
  IsInside-inside_of (inl empty) =
      let a : is_nil filters.cidr ≡ true = ap is_nil empty in ground arith
  IsInside-inside_of (inr (inside, found, here)) = elim (Bool-cases (is_nil filters.cidr)) [
    | inl empty ↦ ground arith
    | inr there ↦ rw there (rw found here)
  ]

  -- An export holds exactly the addresses of the table that meet its filters: those with an event of the
  -- server and in the period that are asked for, if the filters ask for an event; of the status that is
  -- asked for, which is to be Iranian, or to have been and no longer to be; and inside the network.
  pub build_queryset-Elem : Elem r rows ↔ (Elem r db.ips × IsExported within now filters db r)
  build_queryset-Elem = (
    λ i.
        let (j, h) = is_exported-Elem.0 i in
        (
          j,
          record {
            event = (event_iff now filters db r).0 (ground arith);
            status = (status_iff now filters db r).0 (ground arith);
            cidr = inside_of-IsInside (ground arith);
          },
        ),
    λ p.
        let q = p.1 in
        let a = (event_iff now filters db r).1 q.event in
        let b = (status_iff now filters db r).1 q.status in
        let c = IsInside-inside_of q.cidr in is_exported-Elem.1 (p.0, ground arith),
  )
