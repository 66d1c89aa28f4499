-- ===== src/Iran/Classify/Laws.antt =====
-- The history of an address agrees with its flag: it has an open period exactly while the address is
-- flagged, and that period names the network of the flag.
use ip_scout.Prelude.{
  ℕ, ◌≡◌, ◌≢◌, refl, sym, ◌∙◌, Bool, true, false, not, ◌&&◌, Option, none, some, List, [], ◌∷◌,
  ◌++◌, Text, filter, text_eq_iff, ◌==◌, if◌then◌else◌, arith, Bool-cases, inl, inr, subst,
  append-nil,
}
use ip_scout.Errors.{ok-injective, ok, >>=-eq-ok}
use ip_scout.Models.{Time, IpAddress, IpCountryHistory, CountryNetwork, Db}
use ip_scout.Models.Tables.{get_ip, update_ip}
use ip_scout.Models.Tables.Laws.{get_ip-id, find-update_self, find-update_ne}
use ip_scout.Iran.Match.{Contains, find_matching_cidr}
use ip_scout.Iran.Classify.{
  Verdict, verdict, changed, is_open, close_periods, new_period, same_bool, same_cidr,
  history_after, classified, apply_verdict, classify,
}

abbrev pub open_periods : ℕ → List IpCountryHistory → List IpCountryHistory
open_periods ip_id history = filter (is_open ip_id) history

-- The open periods of an address, from its flag and its network.
pub data Agrees (history : List IpCountryHistory) (r : IpAddress) : Type 0 where
  flagged :
      (h : IpCountryHistory)
      → r.is_iran ≡ true
      → open_periods r.id history ≡ h ∷ []
      → h.cidr ≡ r.iran_match_cidr
      → Agrees history r
  unflagged :
      r.is_iran ≡ false
      → r.iran_match_cidr ≡ none
      → open_periods r.id history ≡ []
      → Agrees history r

filter-append :
    (p : IpCountryHistory → Bool) (xs ys : List IpCountryHistory)
    → filter p (xs ++ ys) ≡ filter p xs ++ filter p ys
unfolding filter
filter-append p [] ys = refl
filter-append p (x ∷ xs) ys = ground (arith, filter-append p xs ys)

open-close_self :
    (pk : ℕ) (now : Time) (history : List IpCountryHistory)
    → open_periods pk (close_periods pk now history) ≡ []
unfolding filter close_periods
open-close_self pk now [] = refl
open-close_self pk now (h ∷ history) = ground (arith, open-close_self pk now history)

open-close_ne :
    (pk j : ℕ) (now : Time) (history : List IpCountryHistory)
    → j ≢ pk
    → open_periods j (close_periods pk now history) ≡ open_periods j history
unfolding filter close_periods
open-close_ne pk j now [] ne = refl
open-close_ne pk j now (h ∷ history) ne = ground (arith, open-close_ne pk j now history)

-- A verdict that is not Iranian names no network.
verdict-cidr :
    (match : Option CountryNetwork) (country : Text)
    → (verdict match country).is_iran ≡ false
    → (verdict match country).cidr ≡ none
unfolding verdict
verdict-cidr match country h = ground arith

module _ (now : Time) (v : Verdict) (ip : IpAddress) (history : List IpCountryHistory) where
  changed-false : changed v ip ≡ false → (v.is_iran ≡ ip.is_iran) × (v.cidr ≡ ip.iran_match_cidr)
  unfolding changed
  changed-false h = go v.is_iran ip.is_iran v.cidr ip.iran_match_cidr h
    where
      go :
          (a b : Bool) (c d : Option Text)
          → not (same_bool a b && same_cidr c d) ≡ false
          → (a ≡ b) × (c ≡ d)
      go true true none none e = (refl, refl)
      go false false none none e = (refl, refl)
      go true true (some s) (some t) e = (refl, ground (arith, text_eq_iff s t))
      go false false (some s) (some t) e = (refl, ground (arith, text_eq_iff s t))
      go true true none (some t) e = cc
      go true true (some s) none e = cc
      go false false none (some t) e = cc
      go false false (some s) none e = cc
      go true false c d e = cc
      go false true c d e = cc

  open_after_self :
      changed v ip ≡ true
      → open_periods ip.id (history_after now v ip history)
        ≡ (if v.is_iran then new_period ip.id now v ∷ [] else [])
  unfolding history_after filter
  open_after_self h = rw h (
      filter-append (is_open ip.id) (close_periods ip.id now history) _
      ∙ rw (open-close_self ip.id now history) (ground arith))

  open_after_ne :
      (j : ℕ) → j ≢ ip.id → open_periods j (history_after now v ip history) ≡ open_periods j history
  unfolding history_after filter
  open_after_ne j ne = elim (Bool-cases (changed v ip)) [
    | inr same ↦ rw same
    | inl change ↦ rw change (
        filter-append (is_open j) (close_periods ip.id now history) _
        ∙ rw (open-close_ne ip.id j now history ne) (tail_closed v.is_iran))
  ]
    where
      tail_closed :
          (b : Bool)
          → open_periods j history
              ++ filter (is_open j) (if b then new_period ip.id now v ∷ [] else [])
            ≡ open_periods j history
      tail_closed true = ground (arith, append-nil (open_periods j history))
      tail_closed false = append-nil (open_periods j history)

  Agrees-changed :
      (v.is_iran ≡ false → v.cidr ≡ none)
      → changed v ip ≡ true
      → Agrees (history_after now v ip history) (classified now v ip)
  Agrees-changed shape h = elim (Bool-cases v.is_iran) [
    | inl iranian ↦ flagged (new_period ip.id now v) iranian (open_after_self h ∙ rw iranian) refl
    | inr other ↦ unflagged other (shape other) (open_after_self h ∙ rw other)
  ]

  Agrees-unchanged :
      changed v ip ≡ false
      → Agrees history ip
      → Agrees (history_after now v ip history) (classified now v ip)
  unfolding history_after
  Agrees-unchanged h (flagged p f o c) =
      let (e, e') = changed-false h in flagged p (e ∙ f) (rw h o) (c ∙ sym e')
  Agrees-unchanged h (unflagged f c o) =
      let (e, e') = changed-false h in unflagged (e ∙ f) (e' ∙ c) (rw h o)

  Agrees-self :
      (v.is_iran ≡ false → v.cidr ≡ none)
      → Agrees history ip
      → Agrees (history_after now v ip history) (classified now v ip)
  Agrees-self shape agrees = elim (Bool-cases (changed v ip)) [
    | inl change ↦ Agrees-changed shape change
    | inr same ↦ Agrees-unchanged same agrees
  ]

  Agrees-other :
      (r : IpAddress) → r.id ≢ ip.id → Agrees history r → Agrees (history_after now v ip history) r
  Agrees-other r ne (flagged h f o c) = flagged h f (open_after_ne r.id ne ∙ o) c
  Agrees-other r ne (unflagged f c o) = unflagged f c (open_after_ne r.id ne ∙ o)

some_eq : (r r' : IpAddress) → some r ≡ some r' → r ≡ r'
some_eq r r' h = cc

-- Every row agrees with the history.
abbrev pub AllAgree : Db → Type 0
AllAgree db = (pk : ℕ) (r : IpAddress) → get_ip pk db ≡ some r → Agrees db.history r

apply_verdict-AllAgree :
    (now : Time) (v : Verdict) (ip : IpAddress) (db : Db)
    → (v.is_iran ≡ false → v.cidr ≡ none)
    → get_ip ip.id db ≡ some ip
    → AllAgree db
    → AllAgree (apply_verdict now v ip db).0
      × (get_ip ip.id (apply_verdict now v ip db).0 ≡ some (apply_verdict now v ip db).1)
unfolding apply_verdict get_ip update_ip
apply_verdict-AllAgree now v ip db shape current agree =
    let at = find-update_self ip.id (classified now v) (λ r. refl) db.ips ip current in
    (
      λ pk r found. elim (Bool-cases (pk == ip.id)) [
        | inl here ↦
            let e : pk ≡ ip.id = ground arith in
            let found' : get_ip ip.id (apply_verdict now v ip db).0 ≡ some r =
              subst (λ k. get_ip k (apply_verdict now v ip db).0 ≡ some r) e found in
            let same : classified now v ip ≡ r =
              some_eq (classified now v ip) r (sym at ∙ found') in
            subst (Agrees (history_after now v ip db.history)) same
              (Agrees-self now v ip db.history shape (agree ip.id ip current))
        | inr other ↦
            let ne : pk ≢ ip.id = ground arith in
            let found' : get_ip pk db ≡ some r =
              sym (find-update_ne ip.id (classified now v) (λ x. refl) pk db.ips ne) ∙ found in
            Agrees-other now v ip db.history r (λ e. ne (sym (get_ip-id pk db r found') ∙ e))
              (agree pk r found')
      ],
      at,
    )

-- Classifying the current row of an address keeps every row in agreement with the history: the row
-- has an open period exactly if it is flagged, only one, and with the network of the flag. The
-- result is the row as it is stored.
pub classify-AllAgree :
    (contains : Contains) (now : Time) (ip : IpAddress) (db db' : Db) (ip' : IpAddress)
    → get_ip ip.id db ≡ some ip
    → AllAgree db
    → classify contains now ip db ≡ ok (db', ip')
    → AllAgree db' × (get_ip ip.id db' ≡ some ip')
unfolding classify
classify-AllAgree contains now ip db db' ip' current agree h =
    let (match, m, h') = >>=-eq-ok (find_matching_cidr contains ip.address db) _ h in
    let v = verdict match ip.whois_country in
    let (a, g) =
      apply_verdict-AllAgree now v ip db (verdict-cidr match ip.whois_country) current agree in
    subst (λ (t : Db × IpAddress). AllAgree t.0 × (get_ip ip.id t.0 ≡ some t.1))
      (ok-injective (apply_verdict now v ip db) (db', ip') h') (a, g)
