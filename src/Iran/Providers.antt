-- ===== src/Iran/Providers.antt =====
-- apps/iran/providers.py: the two sources of networks, and models.py's `prefix_length_of`.
pub mod Laws
use ip_scout.Prelude.{
  ℕ, suc, ◌+◌, ◌-◌, ◌≡◌, refl, Bool, true, false, not, ◌&&◌, ◌||◌, Option, none, some, List, [],
  ◌∷◌, ◌++◌, Text, ◌==◌, ltb, leb, filter, map, text_eq, codes, if◌then◌else◌,
}
use ip_scout.Prelude.Int.{ℤ, pos, negsuc}
use ip_scout.Errors.{Error, Outcome, ok, raise, value_error, index_error, improperly_configured}
use ip_scout.Python.Strip.{is_nil, strip}
use ip_scout.Python.Split.{split, pop, splitlines, starts_with}
use ip_scout.Python.Number.{int}
use ip_scout.Python.Ipaddress.V4
use ip_scout.Python.Ipaddress.V6
use ip_scout.Python.Ipaddress.Network.{Network, network_of, summarize, print_network}
use ip_scout.Models.{CountryNetwork, Db}
use ip_scout.Iran.{iran_country_code}

pub record CidrEntry : Type 0 where
  pub cidr : Text
  pub country_code : Text
  pub network : Text

-- CIDREntry(cidr=…) with its defaults
abbrev pub entry_of : Network → CidrEntry
entry_of n = record { cidr = print_network n; country_code = iran_country_code; network = [] }

-- The blocks of an ipv4 record, whose value is a number of addresses; `none` is a ValueError or an
-- AddressValueError, which a last address outside of IPv4 is too.
unfoldable pub ipv4_blocks : Text → Text → Option (List Network)
ipv4_blocks start value = elim (int value) [
  | some (pos (suc more)) ↦ elim (V4.parse start) [
    | none ↦ none
    | some first ↦ if ltb (first + more) 4294967296 then summarize 32 first (first + more) else none
  ]
  | _ ↦ none
]

-- The network of an ipv6 record, whose value is a prefix length. The scope of an address is lost.
unfoldable pub ipv6_block : Text → Text → Option (List Network)
ipv6_block start value = elim (int value) [
  | some (pos prefix) ↦ elim (V6.parse start) [
    | none ↦ none
    | some (n, _) ↦ if leb prefix 128 then some (network_of 128 n prefix ∷ []) else none
  ]
  | _ ↦ none
]

abbrev or_nothing : Option (List Network) → List Network
or_nothing none = []
or_nothing (some ns) = ns

-- The networks of a record by its first seven fields; a record that is skipped has none.
unfoldable pub record_blocks : List Text → List Network
unfolding ipv4_blocks ipv6_block text_eq
record_blocks (registry ∷ cc ∷ rtype ∷ start ∷ value ∷ date ∷ status ∷ _) =
    let ipv4 = text_eq rtype (codes "ipv4") in
    let ipv6 = text_eq rtype (codes "ipv6") in
    if not (text_eq cc iran_country_code)
      || not (ipv4 || ipv6)
      || not (text_eq status (codes "allocated") || text_eq status (codes "assigned"))
    then []
    else if ipv4
    then or_nothing (ipv4_blocks start value)
    else or_nothing (ipv6_block start value)
record_blocks _ = []

unfoldable pub line_blocks : Text → List Network
unfolding record_blocks strip split starts_with
line_blocks raw =
    let line = strip raw in
    if is_nil line || starts_with line (codes "#") then [] else record_blocks (split b'|' line)

lines_blocks : List Text → List Network
unfolding line_blocks
lines_blocks [] = []
lines_blocks (line ∷ lines) = line_blocks line ++ lines_blocks lines

-- RipeNccDelegatedStatsProvider.parse
unfoldable pub parse : Text → List CidrEntry
unfolding lines_blocks splitlines print_network int V4.parse V6.parse summarize network_of
parse body = map entry_of (lines_blocks (splitlines body))

-- StaticIranCIDRProvider.fetch
abbrev pub manual : Text
manual = codes "manual"

abbrev pub is_manual : CountryNetwork → Bool
is_manual n = text_eq n.country_code iran_country_code && text_eq n.source manual

unfoldable pub fetch_static : Db → List CidrEntry
unfolding text_eq filter
fetch_static db =
    map
      (λ (n : CountryNetwork). record {
        cidr = n.cidr;
        country_code = n.country_code;
        network = n.network;
      })
      (filter is_manual db.networks)

pub data Provider : Type 0 where
  static ripencc : Provider

-- Provider.SOURCE
abbrev pub source_of : Provider → Text
source_of static = manual
source_of ripencc = codes "ripencc"

-- get_provider(name) with the configured IRAN_CIDR_SOURCE
unfoldable pub get_provider : Option Text → Text → Outcome Provider
unfolding text_eq
get_provider name configured =
    let key : Text = elim name [
      | none ↦ configured
      | some n ↦ if is_nil n then configured else n
    ] in
    if text_eq key (codes "static")
    then ok static
    else if text_eq key (codes "ripencc")
    then ok ripencc
    else raise (improperly_configured (codes "Unknown IRAN_CIDR_SOURCE"))

-- provider.fetch(), with the body that the URL answered
unfoldable pub fetch : Provider → Text → Db → List CidrEntry
unfolding fetch_static parse
fetch static body db = fetch_static db
fetch ripencc body db = parse body

after_slash : List Text → Outcome ℤ
unfolding pop int
after_slash [] = raise index_error
after_slash (_ ∷ []) = raise index_error
after_slash (x ∷ y ∷ pieces) = elim (int (pop (y ∷ pieces)).1) [
  | none ↦ raise value_error
  | some n ↦ ok n
]

-- models.py: int(str(cidr).rsplit("/", 1)[1])
unfoldable pub prefix_length_of : Text → Outcome ℤ
unfolding after_slash split
prefix_length_of cidr = after_slash (split b'/' cidr)

prefix_length_example : prefix_length_of (codes "1.2.3.0/24") ≡ ok (pos 24)
unfolding prefix_length_of
prefix_length_example = refl

record_example :
    parse (codes "# c\nripencc|IR|ipv4|2.57.3.0|768|20190712|allocated\n")
    ≡ record { cidr = codes "2.57.3.0/24"; country_code = codes "IR"; network = [] }
      ∷ record { cidr = codes "2.57.4.0/23"; country_code = codes "IR"; network = [] }
      ∷ []
unfolding parse
record_example = refl
