-- ===== src/Iran/Match/Laws.antt =====
-- The network that is found is in the table, covers the address, and is as specific as any that does.
use ip_scout.Prelude.{
  Option, subst, ◌≤◌, ◌≡◌, ap, ◌∙◌, true, false, none, some, List, [], ◌∷◌, Text, filter, ltb,
  arith, Elem, Elem-filter, filter-Elem, Bool-cases, Option-cases, inl, inr,
}
use ip_scout.Errors.{ok, >>=-eq-ok}
use ip_scout.Common.Fields.{get_prep_value}
use ip_scout.Models.{CountryNetwork, Db}
use ip_scout.Iran.Match.{Contains, covers, longest, find_matching_cidr}

longest-none : (ns : List CountryNetwork) (n : CountryNetwork) → longest ns ≡ none → ¬ Elem n ns
unfolding longest
longest-none [] n h i = i
longest-none (m ∷ ns) n h i = ground arith

longest-Elem : (ns : List CountryNetwork) (n : CountryNetwork) → longest ns ≡ some n → Elem n ns
unfolding longest
longest-Elem [] n h = cc
longest-Elem (m ∷ ns) n h = elim (Option-cases (longest ns)) [
  | inl empty ↦ inl (ground arith)
  | inr (k, found) ↦ elim (Bool-cases (ltb m.prefix_length k.prefix_length)) [
    | inl less ↦ inr (longest-Elem ns n (ground arith))
    | inr not_less ↦ inl (ground arith)
  ]
]

longest-max :
    (ns : List CountryNetwork) (n m : CountryNetwork)
    → longest ns ≡ some n
    → Elem m ns
    → m.prefix_length ≤ n.prefix_length
unfolding longest
longest-max [] n m h i = absurd i
longest-max (k ∷ ns) n m h (inl e) = elim (Option-cases (longest ns)) [
  | inl empty ↦ ground arith
  | inr (l, found) ↦ ground arith
]
longest-max (k ∷ ns) n m h (inr i) = elim (Option-cases (longest ns)) [
  | inl empty ↦ absurd (longest-none ns m empty i)
  | inr (l, found) ↦ ground (arith, longest-max ns l m found i)
]

module _ (contains : Contains) (address : Text) (db : Db) where
  find_matching_cidr-longest :
      (n : CountryNetwork)
      → find_matching_cidr contains address db ≡ ok (some n)
      → (network : Text) × (get_prep_value (some address) ≡ ok (some network))
        × Elem n db.networks
        × (covers contains network n ≡ true)
        × ((m : CountryNetwork)
            → Elem m db.networks
            → covers contains network m ≡ true
            → m.prefix_length ≤ n.prefix_length)
  unfolding find_matching_cidr
  find_matching_cidr-longest n h =
      let (o, e, h') = >>=-eq-ok (get_prep_value (some address)) _ h in
      elim (Option-cases o) [
        | inl no_network ↦ absurd (ground arith)
        | inr (network, p) ↦
            let found : longest (filter (covers contains network) db.networks) ≡ some n =
              ground arith in
            let (i, q) =
              Elem-filter (covers contains network) db.networks n
                (longest-Elem (filter (covers contains network) db.networks) n found) in
            (
              network,
              e ∙ ap ok p,
              i,
              q,
              λ m j c.
                  longest-max (filter (covers contains network) db.networks) n m found
                    (filter-Elem (covers contains network) db.networks m j c),
            )
      ]

  find_matching_cidr-none :
      (network : Text)
      → get_prep_value (some address) ≡ ok (some network)
      → find_matching_cidr contains address db ≡ ok none
      → (m : CountryNetwork) → Elem m db.networks
      → covers contains network m ≡ false
  unfolding find_matching_cidr
  find_matching_cidr-none network e h m i = elim (Bool-cases (covers contains network m)) [
    | inr no_cover ↦ no_cover
    | inl cover ↦ absurd (
        longest-none (filter (covers contains network) db.networks) m (ground arith)
          (filter-Elem (covers contains network) db.networks m i cover))
  ]

-- What a search for the network of an address may find: a row that covers the address and has the longest
-- prefix of all that do, or none, where no row covers it.
abbrev pub IsMatch : Contains → Text → Db → Option CountryNetwork → Type 0
IsMatch contains network db (some n) =
    Elem n db.networks
    × (covers contains network n ≡ true)
    × ((m : CountryNetwork)
        → Elem m db.networks
        → covers contains network m ≡ true
        → m.prefix_length ≤ n.prefix_length)
IsMatch contains network db none =
    (m : CountryNetwork) → Elem m db.networks → covers contains network m ≡ false

-- The network that is found for an address that can be read is a row of the table, enabled, Iranian, and
-- contains the address, and no other such row has a longer prefix; if none is found, no such row contains
-- the address.
pub find_matching_cidr-IsMatch :
    (contains : Contains) (address : Text) (db : Db) (network : Text)
    (found : Option CountryNetwork)
    → get_prep_value (some address) ≡ ok (some network)
    → find_matching_cidr contains address db ≡ ok found
    → IsMatch contains network db found
find_matching_cidr-IsMatch contains address db network none readable h =
    find_matching_cidr-none contains address db network readable h
find_matching_cidr-IsMatch contains address db network (some n) readable h =
    let (network', e, row, cover, max) = find_matching_cidr-longest contains address db n h in
    let same : network' ≡ network = ground arith in
    subst (λ t. IsMatch contains t db (some n)) same (row, cover, max)
