-- ===== src/Ips/Identity/Total.antt =====
-- apps/ips/services.py and models.py: every address that is read has a normal form, which is read again.
use ip_scout.Prelude.{
  ℕ, ◌≡◌, refl, sym, ap, ◌∙◌, true, some, is_some, Text, arith, Option-cases, inl, inr,
}
use ip_scout.Errors.{ok}
use ip_scout.Python.Strip.{strip}
use ip_scout.Python.Ipaddress.{Address, v4, v6}
use ip_scout.Python.Ipaddress.V4
use ip_scout.Python.Ipaddress.V4.Laws.{parse-print}
use ip_scout.Python.Ipaddress.V6
use ip_scout.Python.Ipaddress.V6.Scoped.{parse-print_total}
use ip_scout.Python.Ipaddress.Network.{ip_address, print_address, version}
use ip_scout.Ips.Identity.{normalize_ip, version_of}
use ip_scout.Ips.Identity.Laws.{parse-lt, ip_address_v4}

ip_address_v6 : (t : Text) → is_some (V6.parse t) ≡ true → is_some (ip_address t) ≡ true
unfolding ip_address
ip_address_v6 t h = elim (Option-cases (V4.parse t)) [
  | inr (n, found) ↦ rw (found, is_some) refl
  | inl other ↦ elim (Option-cases (V6.parse t)) [
    | inl missing ↦ absurd (ground arith)
    | inr (n, found) ↦ ground arith
  ]
]

-- A text that is printed from an address is the text of an address.
ip_address-print_address :
    (s : Text) (a : Address) → ip_address s ≡ some a → is_some (ip_address (print_address a)) ≡ true
unfolding ip_address print_address
ip_address-print_address s a h = elim (Option-cases (V4.parse s)) [
  | inr (n, found) ↦
      let e : v4 n ≡ a = ground arith in
      ap (λ x. is_some (ip_address (print_address x))) (sym e)
      ∙ ap is_some (ip_address_v4 (V4.print n) n (parse-print n (parse-lt s n found)))
  | inl other ↦ elim (Option-cases (V6.parse s)) [
    | inl missing ↦ absurd (ground arith)
    | inr ((n, scope), found) ↦
        let e : v6 n scope ≡ a = ground arith in
        ap (λ x. is_some (ip_address (print_address x))) (sym e)
        ∙ ip_address_v6 (V6.print n scope) (parse-print_total s n scope found)
  ]
]

-- A text that holds an address has a normal form, and the normal form has a version.
pub normalize_ip_total :
    (raw : Text)
    → is_some (ip_address (strip raw)) ≡ true
    → (a : Text) × (normalize_ip raw ≡ ok a) × (v : ℕ) × (version_of a ≡ ok v)
unfolding normalize_ip version_of
normalize_ip_total raw h = elim (Option-cases (ip_address (strip raw))) [
  | inl missing ↦ absurd (ground arith)
  | inr (x, found) ↦
      let again = ip_address-print_address (strip raw) x found in
      elim (Option-cases (ip_address (print_address x))) [
        | inl missing ↦ absurd (ground arith)
        | inr (y, back) ↦
            (print_address x, rw (found, normalize_ip) refl, version y, rw (back, version_of) refl)
      ]
]
