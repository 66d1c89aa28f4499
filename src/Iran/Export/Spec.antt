-- ===== src/Iran/Export/Spec.antt =====
-- apps/iran/export.py: what the filters ask of an address, in the words of the page.
use ip_scout.Prelude.{
  ℕ, ◌-◌, ◌≤◌, ◌≡◌, ◌≢◌, ◌⊎◌, refl, ap, sym, ◌∙◌, Bool, true, false, not, ◌&&◌, ◌||◌, Option, none,
  some, [], Text, ◌==◌, codes, text_eq, text_eq_iff, is_some, arith, Elem, any-Elem, any_found, ◌↔◌,
  Bool-cases, Option-cases, inl, inr,
}
use ip_scout.Models.{Time, IpAddress, RequestEvent, IpCountryHistory, Db}
use ip_scout.Iran.{iran_country_code}
use ip_scout.Iran.Export.{
  Within, ExportFilters, period_length, period_since, same_server, not_before, truthy, is_selected,
  has_selected, wants_event, was_iranian, matches_status,
}

-- How long a period is, in microseconds.
abbrev pub Lasts : Text → ℕ → Type 0
Lasts period d =
    ((period ≡ codes "24h") × (d ≡ 86400000000))
    ⊎ (((period ≡ codes "7d") × (d ≡ 604800000000))
        ⊎ ((period ≡ codes "30d") × (d ≡ 2592000000000)))

-- The time is in the period, which any time is if the period is none of the three.
abbrev pub IsSince : Time → Text → Time → Type 0
IsSince now period t = ((d : ℕ) × Lasts period d × (now - d ≤ t)) ⊎ ((d : ℕ) → ¬ (Lasts period d))

-- A server that is asked for; 0 asks for none.
abbrev pub OfServer : Option ℕ → ℕ → Type 0
OfServer server id = ((server ≡ none) ⊎ (server ≡ some 0)) ⊎ (server ≡ some id)

-- The filters ask for no event.
pub record AsksNoEvent (filters : ExportFilters) : Type 0 where
  pub any_status : filters.status_503_only ≡ false
  pub any_server : (filters.server_id ≡ none) ⊎ (filters.server_id ≡ some 0)
  pub any_time : filters.period ≡ codes "all"

-- An event of the address, of the server and in the period that are asked for.
pub record HasEvent (now : Time) (filters : ExportFilters) (db : Db) (r : IpAddress) : Type 0 where
  pub event : RequestEvent
  pub there : Elem event db.events
  pub of_address : event.ip_id ≡ r.id
  pub of_server : OfServer filters.server_id event.server_id
  pub in_time : IsSince now filters.period event.timestamp

-- A period of the address as an Iranian one, which is over.
pub record WasIranian (db : Db) (r : IpAddress) : Type 0 where
  pub period : IpCountryHistory
  pub there : Elem period db.history
  pub of_address : period.ip_id ≡ r.id
  pub country : period.country_code ≡ codes "IR"
  pub until : Time
  pub over : period.valid_until ≡ some until

-- "current" asks for addresses that are Iranian, "previous" for those that were and are not, and any other
-- text for all.
abbrev pub HasStatus : Text → Db → IpAddress → Type 0
HasStatus status db r =
    ((status ≡ codes "current") × (r.is_iran ≡ true))
    ⊎ (((status ≡ codes "previous") × (r.is_iran ≡ false) × WasIranian db r)
        ⊎ ((status ≢ codes "current") × (status ≢ codes "previous")))

-- The address is in the network that is asked for, if one is.
abbrev pub IsInside : Within → Text → Text → Type 0
IsInside within cidr address =
    (cidr ≡ []) ⊎ ((inside : Text → Bool) × (within cidr ≡ some inside) × (inside address ≡ true))

pub record IsExported (within : Within) (now : Time) (filters : ExportFilters) (db : Db)
    (r : IpAddress) : Type 0 where
  pub event : AsksNoEvent filters ⊎ HasEvent now filters db r
  pub status : HasStatus filters.iran_status db r
  pub cidr : IsInside within filters.cidr r.address

Lasts-length : (period : Text) (d : ℕ) → Lasts period d → period_length period ≡ some d
unfolding period_length text_eq
Lasts-length period d (inl (p, e)) = ap period_length p ∙ ap some (sym e)
Lasts-length period d (inr (inl (p, e))) = ap period_length p ∙ ap some (sym e)
Lasts-length period d (inr (inr (p, e))) = ap period_length p ∙ ap some (sym e)

length-Lasts : (period : Text) (d : ℕ) → period_length period ≡ some d → Lasts period d
unfolding period_length
length-Lasts period d h = elim (Bool-cases (text_eq period (codes "24h"))) [
  | inl day ↦ inl ((text_eq_iff period (codes "24h")).0 day, ground arith)
  | inr a ↦ elim (Bool-cases (text_eq period (codes "7d"))) [
    | inl week ↦ inr (inl ((text_eq_iff period (codes "7d")).0 week, ground arith))
    | inr b ↦ elim (Bool-cases (text_eq period (codes "30d"))) [
      | inl month ↦ inr (inr ((text_eq_iff period (codes "30d")).0 month, ground arith))
      | inr c ↦ absurd (ground arith)
    ]
  ]
]

not_before-IsSince :
    (now : Time) (period : Text) (t : Time)
    → not_before (period_since now period) t ≡ true
    → IsSince now period t
unfolding period_since
not_before-IsSince now period t h = elim (Option-cases (period_length period)) [
  | inl missing ↦ inr (λ d l. let e = Lasts-length period d l in absurd (ground arith))
  | inr (d, found) ↦ inl (d, length-Lasts period d found, ground arith)
]

IsSince-not_before :
    (now : Time) (period : Text) (t : Time)
    → IsSince now period t
    → not_before (period_since now period) t ≡ true
unfolding period_since
IsSince-not_before now period t (inl (d, l, after)) =
    let e = Lasts-length period d l in ground arith
IsSince-not_before now period t (inr unnamed) = elim (Option-cases (period_length period)) [
  | inl missing ↦ ground arith
  | inr (d, found) ↦ absurd (unnamed d (length-Lasts period d found))
]

same_server-OfServer :
    (server : Option ℕ) (id : ℕ) → same_server server id ≡ true → OfServer server id
same_server-OfServer none id h = inl (inl refl)
same_server-OfServer (some k) id h = elim (Bool-cases (k == 0)) [
  | inl zero_key ↦ let e : k ≡ 0 = ground arith in inl (inr (ap some e))
  | inr other ↦ let e : k ≡ id = ground arith in inr (ap some e)
]

OfServer-same_server :
    (server : Option ℕ) (id : ℕ) → OfServer server id → same_server server id ≡ true
OfServer-same_server none id o = refl
OfServer-same_server (some k) id (inl (inl e)) = absurd (ground arith)
OfServer-same_server (some k) id (inl (inr e)) = let f : k ≡ 0 = ground arith in ground arith
OfServer-same_server (some k) id (inr e) = let f : k ≡ id = ground arith in ground arith

module _ (now : Time) (filters : ExportFilters) (db : Db) (r : IpAddress) where
  has_selected-HasEvent : has_selected now filters db r ≡ true → HasEvent now filters db r
  unfolding has_selected is_selected
  has_selected-HasEvent h =
      let (e, i, k) =
        any_found (λ (e : RequestEvent). is_selected now filters e && (e.ip_id == r.id)) db.events
          h in
      record {
        event = e;
        there = i;
        of_address = ground arith;
        of_server = same_server-OfServer filters.server_id e.server_id (ground arith);
        in_time = not_before-IsSince now filters.period e.timestamp (ground arith);
      }

  HasEvent-has_selected : HasEvent now filters db r → has_selected now filters db r ≡ true
  unfolding has_selected is_selected
  HasEvent-has_selected h =
      let e = h.event in
      let a = OfServer-same_server filters.server_id e.server_id h.of_server in
      let b = IsSince-not_before now filters.period e.timestamp h.in_time in
      let c = h.of_address in
      any-Elem (λ (x : RequestEvent). is_selected now filters x && (x.ip_id == r.id)) db.events e
        h.there (ground arith)

  AsksNoEvent-wants_event : AsksNoEvent filters → wants_event filters ≡ false
  unfolding wants_event text_eq
  AsksNoEvent-wants_event n =
      let p = n.any_status in
      let s = truthy_none filters.server_id n.any_server in
      let t : text_eq filters.period (codes "all") ≡ true =
        (text_eq_iff filters.period (codes "all")).1 n.any_time in
      ground arith
    where
      truthy_none : (o : Option ℕ) → (o ≡ none) ⊎ (o ≡ some 0) → truthy o ≡ false
      truthy_none none h = refl
      truthy_none (some k) (inl h) = absurd (ground arith)
      truthy_none (some k) (inr h) = let e : k ≡ 0 = ground arith in ground arith

  wants_event-AsksNoEvent : wants_event filters ≡ false → AsksNoEvent filters
  unfolding wants_event
  wants_event-AsksNoEvent h = record {
    any_status = ground arith;
    any_server = none_truthy filters.server_id (ground arith);
    any_time = (text_eq_iff filters.period (codes "all")).0 (ground arith);
  }
    where
      none_truthy : (o : Option ℕ) → truthy o ≡ false → (o ≡ none) ⊎ (o ≡ some 0)
      none_truthy none h = inl refl
      none_truthy (some k) h = let e : k ≡ 0 = ground arith in inr (ap some e)

  was_iranian-WasIranian : was_iranian db r ≡ true → WasIranian db r
  unfolding was_iranian
  was_iranian-WasIranian h =
      let (p, i, k) =
        any_found
          (λ (x : IpCountryHistory).
            text_eq x.country_code iran_country_code && is_some x.valid_until && (x.ip_id == r.id))
          db.history h in
      elim (Option-cases p.valid_until) [
        | inl open_end ↦ absurd (ground arith)
        | inr (t, closed) ↦ record {
          period = p;
          there = i;
          of_address = ground arith;
          country = (text_eq_iff p.country_code iran_country_code).0 (ground arith);
          until = t;
          over = closed;
        }
      ]

  WasIranian-was_iranian : WasIranian db r → was_iranian db r ≡ true
  unfolding was_iranian
  WasIranian-was_iranian w =
      let a = (text_eq_iff w.period.country_code iran_country_code).1 w.country in
      let b = w.over in
      let c = w.of_address in
      any-Elem
        (λ (x : IpCountryHistory).
          text_eq x.country_code iran_country_code && is_some x.valid_until && (x.ip_id == r.id))
        db.history w.period w.there (ground arith)

  matches_status-HasStatus :
      (status : Text) → matches_status db status r ≡ true → HasStatus status db r
  unfolding matches_status
  matches_status-HasStatus status h = elim (Bool-cases (text_eq status (codes "current"))) [
    | inl current ↦ inl ((text_eq_iff status (codes "current")).0 current, ground arith)
    | inr a ↦ elim (Bool-cases (text_eq status (codes "previous"))) [
      | inl previous ↦ inr (
          inl (
            (text_eq_iff status (codes "previous")).0 previous,
            ground arith,
            was_iranian-WasIranian (ground arith),
          ))
      | inr b ↦ inr (
          inr (
            λ e. let c = (text_eq_iff status (codes "current")).1 e in absurd (ground arith),
            λ e. let c = (text_eq_iff status (codes "previous")).1 e in absurd (ground arith),
          ))
    ]
  ]

  not_current : (s : Text) → s ≡ codes "previous" → text_eq s (codes "current") ≡ false
  unfolding text_eq
  not_current s e = ap (λ x. text_eq x (codes "current")) e

  HasStatus-matches_status :
      (status : Text) → HasStatus status db r → matches_status db status r ≡ true
  unfolding matches_status
  HasStatus-matches_status status (inl (e, flag)) =
      let a = (text_eq_iff status (codes "current")).1 e in ground arith
  HasStatus-matches_status status (inr (inl (e, flag, w))) =
      let a = not_current status e in
      let b = (text_eq_iff status (codes "previous")).1 e in
      let c = WasIranian-was_iranian w in ground arith
  HasStatus-matches_status status (inr (inr (a, b))) =
      let c = apart (codes "current") a in let d = apart (codes "previous") b in ground arith
    where
      apart : (t : Text) → status ≢ t → text_eq status t ≡ false
      apart t ne = elim (Bool-cases (text_eq status t)) [
        | inl same ↦ absurd (ne ((text_eq_iff status t).0 same))
        | inr other ↦ other
      ]

  pub event_iff :
      ((not (wants_event filters) || has_selected now filters db r) ≡ true)
      ↔ (AsksNoEvent filters ⊎ HasEvent now filters db r)
  event_iff = (
    λ h. elim (Bool-cases (wants_event filters)) [
      | inl wanted ↦ inr (has_selected-HasEvent (ground arith))
      | inr unwanted ↦ inl (wants_event-AsksNoEvent unwanted)
    ],
    λ s. elim s [
      | inl nothing ↦ let a = AsksNoEvent-wants_event nothing in ground arith
      | inr event ↦ let a = HasEvent-has_selected event in ground arith
    ],
  )

  pub status_iff :
      (matches_status db filters.iran_status r ≡ true) ↔ HasStatus filters.iran_status db r
  status_iff =
      (matches_status-HasStatus filters.iran_status, HasStatus-matches_status filters.iran_status)
