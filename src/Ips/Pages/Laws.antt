-- ===== src/Ips/Pages/Laws.antt =====
-- When the list of addresses fails.
use ip_scout.Prelude.{
  any, ◌==◌, ◌≡◌, ◌↔◌, ◌⊎◌, Bool, true, false, none, Text, arith, Bool-cases, Option-cases, inl,
  inr,
}
use ip_scout.Errors.{Error, raise, value_error, data_error, Outcome-cases}
use ip_scout.Python.Strip.{is_nil, strip}
use ip_scout.Python.Number.{isdigit, int}
use ip_scout.Models.{Db}
use ip_scout.Iran.Export.{Within}
use ip_scout.Ips.Pages.{get, ListParams, cidr_test, asn_test, ip_list}

-- Digits that are no number, such as a superscript two.
abbrev pub NotANumber : Text → Type 0
NotANumber asn = (isdigit asn ≡ true) × (int asn ≡ none)

-- A text that the database takes for no network.
abbrev pub NotANetwork : Within → Text → Type 0
NotANetwork within cidr = (is_nil cidr ≡ false) × (within cidr ≡ none)

asn_test-raise :
    (asn : Text) (e : Error) → asn_test asn ≡ raise e → (e ≡ value_error) × NotANumber asn
unfolding asn_test
asn_test-raise asn e h = elim (Bool-cases (isdigit asn)) [
  | inr other ↦ absurd (ground arith)
  | inl digits ↦ elim (Option-cases (int asn)) [
    | inl bad ↦ (ground arith, (digits, bad))
    | inr (z, good) ↦ absurd (ground arith)
  ]
]

raise-asn_test : (asn : Text) → NotANumber asn → asn_test asn ≡ raise value_error
unfolding asn_test
raise-asn_test asn (digits, bad) = ground arith

cidr_test-raise :
    (within : Within) (cidr : Text) (e : Error)
    → cidr_test within cidr ≡ raise e
    → (e ≡ value_error) × NotANetwork within cidr
unfolding cidr_test
cidr_test-raise within cidr e h = elim (Bool-cases (is_nil cidr)) [
  | inl empty ↦ absurd (ground arith)
  | inr there ↦ elim (Option-cases (within cidr)) [
    | inl bad ↦ (ground arith, (there, bad))
    | inr (p, good) ↦ absurd (ground arith)
  ]
]

raise-cidr_test :
    (within : Within) (cidr : Text)
    → NotANetwork within cidr
    → cidr_test within cidr ≡ raise value_error
unfolding cidr_test
raise-cidr_test within cidr (there, bad) = ground arith

-- A text with a NUL in it.
abbrev pub HasNul : Text → Type 0
HasNul query = any (λ c. c == 0) query ≡ true

-- The list of addresses fails for three kinds of parameters and for no other: an asn of digits that are no
-- number, which the page takes for one; a cidr that is no network, which the database refuses; and a query
-- with a NUL in it, which the driver refuses.
pub ip_list-raise :
    (icontains iexact : Text → Text → Bool) (within : Within) (params : ListParams) (db : Db)
    → ((e : Error) × (ip_list icontains iexact within params db ≡ raise e)) ↔ (
        NotANumber (strip (get params.asn))
        ⊎ (NotANetwork within (strip (get params.cidr)) ⊎ HasNul (strip (get params.q))))
unfolding ip_list
ip_list-raise icontains iexact within params db =
    elim (Outcome-cases (asn_test (strip (get params.asn)))) [
      | inl (e, f) ↦
          let (same, bad) = asn_test-raise (strip (get params.asn)) e f in
          (λ p. inl bad, λ q. (e, ground arith))
      | inr (t, f) ↦ elim (Outcome-cases (cidr_test within (strip (get params.cidr)))) [
        | inl (e, g) ↦
            let (same, bad) = cidr_test-raise within (strip (get params.cidr)) e g in
            (λ p. inr (inl bad), λ q. (e, ground arith))
        | inr (u, g) ↦ elim (Bool-cases (any (λ c. c == 0) (strip (get params.q)))) [
          | inl nul ↦ (λ p. inr (inr nul), λ q. (data_error, ground arith))
          | inr clean ↦ (
            λ p. let h = p.1 in absurd (ground arith),
            λ q. elim q [
              | inl number ↦
                  let k = raise-asn_test (strip (get params.asn)) number in absurd (ground arith)
              | inr other ↦ elim other [
                | inl network ↦
                    let k = raise-cidr_test within (strip (get params.cidr)) network in
                    absurd (ground arith)
                | inr nul ↦ absurd (ground arith)
              ]
            ],
          )
        ]
      ]
    ]
