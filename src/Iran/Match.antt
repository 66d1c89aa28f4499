-- ===== src/Iran/Match.antt =====
-- apps/iran/services.py: `find_matching_cidr`.
pub mod Laws
use ip_scout.Prelude.{
  ℕ, Bool, true, false, ◌&&◌, Option, none, some, List, [], ◌∷◌, Text, filter, text_eq, ltb,
  if◌then◌else◌,
}
use ip_scout.Errors.{Outcome, ok, raise, ◌>>=◌}
use ip_scout.Common.Fields.{get_prep_value}
use ip_scout.Models.{CountryNetwork, Db}
use ip_scout.Iran.{iran_country_code}

-- PostgreSQL's `cidr >>= inet`.
abbrev pub Contains : Type 0
Contains = Text → Text → Bool

-- What the filter of the query asks of a row.
unfoldable pub covers : Contains → Text → CountryNetwork → Bool
unfolding text_eq
covers contains network n =
    text_eq n.country_code iran_country_code && n.enabled && contains n.cidr network

-- order_by("-prefix_length").first(), the first row among equals
unfoldable pub longest : List CountryNetwork → Option CountryNetwork
longest [] = none
longest (n ∷ ns) = elim (longest ns) [
  | none ↦ some n
  | some m ↦ if ltb n.prefix_length m.prefix_length then some m else some n
]

abbrev match_network : Contains → List CountryNetwork → Option Text → Option CountryNetwork
match_network contains networks none = none
match_network contains networks (some network) = longest (filter (covers contains network) networks)

unfoldable pub find_matching_cidr : Contains → Text → Db → Outcome (Option CountryNetwork)
unfolding get_prep_value longest covers filter
find_matching_cidr contains address db = do
  network ← get_prep_value (some address)
  ok (match_network contains db.networks network)
