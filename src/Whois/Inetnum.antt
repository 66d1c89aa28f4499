-- ===== src/Whois/Inetnum.antt =====
-- apps/whois/tasks.py: `_parse_asn`, `_guess_whois_server` and `_inetnum_to_cidr`.
use ip_scout.Prelude.{
  ℕ, ◌≡◌, refl, Bool, not, ◌&&◌, ◌||◌, Option, none, some, List, [], ◌∷◌, Text, ◌==◌, codes,
  if◌then◌else◌, any, take,
}
use ip_scout.Prelude.Int.{pos}
use ip_scout.Errors.{Outcome, ok, raise, type_error, value_error}
use ip_scout.Python.Strip.{is_nil, strip}
use ip_scout.Python.Number.{digit_value, int}
use ip_scout.Python.Ipaddress.{Address, v4, v6}
use ip_scout.Python.Ipaddress.Network.{Network, ip_address, ip_network, print_network, summarize}
use ip_scout.Whois.Parser.{Fields, values_of}

leading_digits : Text → Text
unfolding digit_value
leading_digits [] = []
leading_digits (c ∷ s) =
    let rest = leading_digits s in elim (digit_value c) [ none ↦ [] | some _ ↦ c ∷ rest ]

-- "AS" without regard to case, where "ſ" is a small "s" too.
is_as : ℕ → ℕ → Bool
is_as a s = ((a == b'A') || (a == b'a')) && ((s == b'S') || (s == b's') || (s == 0x17f))

-- _ASN_RE.search: the digits that follow the first "AS" with some.
find_asn : Text → Option Text
unfolding leading_digits is_as
find_asn [] = none
find_asn (a ∷ []) = none
find_asn (a ∷ s ∷ rest) =
    let later = find_asn (s ∷ rest) in
    let number = leading_digits rest in
    if is_as a s && not (is_nil number) then some number else later

-- _parse_asn; a number of more than 4300 digits is a ValueError.
unfoldable pub parse_asn : Text → Outcome (Option ℕ)
unfolding find_asn int
parse_asn origin = elim (find_asn origin) [
  | none ↦ ok none
  | some number ↦ elim (int number) [ some (pos n) ↦ ok (some n) | _ ↦ raise value_error ]
]

referral : List Text → Fields → Text
unfolding values_of
referral [] generic = []
referral (key ∷ keys) generic =
    let rest = referral keys generic in
    elim (values_of key generic) [ [] ↦ rest | v ∷ _ ↦ take 255 v ]

-- _guess_whois_server
unfoldable pub guess_whois_server : Fields → Text
unfolding referral
guess_whois_server = referral (codes "referralserver" ∷ codes "whois" ∷ codes "refer" ∷ [])

-- s.partition("-") of a text with a "-"
partition : Text → Text × Text
partition [] = ([], [])
partition (c ∷ s) =
    let (front, back) = partition s in if c == b'-' then ([], s) else (c ∷ front, back)

abbrev first_block : Option (List Network) → Outcome (Option Text)
first_block none = ok none
first_block (some []) = ok none
first_block (some (n ∷ _)) = ok (some (print_network n))

-- The blocks of a range from one address to another: two versions are a TypeError, which the
-- function does not catch, and a last address before the first one is a ValueError, which it does.
unfoldable pub range_cidr : Address → Address → Outcome (Option Text)
unfolding summarize print_network
range_cidr (v4 a) (v4 b) = first_block (summarize 32 a b)
range_cidr (v6 a _) (v6 b _) = first_block (summarize 128 a b)
range_cidr (v4 a) (v6 b _) = raise type_error
range_cidr (v6 a _) (v4 b) = raise type_error

-- _inetnum_to_cidr
unfoldable pub inetnum_to_cidr : Text → Outcome (Option Text)
unfolding range_cidr partition strip ip_address ip_network print_network any
inetnum_to_cidr raw =
    let inetnum = strip raw in
    let (start_str, end_str) = partition inetnum in
    if any (λ c. c == b'/') inetnum
    then elim (ip_network inetnum) [ none ↦ ok none | some n ↦ ok (some (print_network n)) ]
    else if any (λ c. c == b'-') inetnum
    then elim (ip_address (strip start_str)) [
      | none ↦ ok none
      | some a ↦ elim (ip_address (strip end_str)) [ none ↦ ok none | some b ↦ range_cidr a b ]
    ]
    else ok none

asn_example : parse_asn (codes "as64500") ≡ ok (some 64500)
unfolding parse_asn
asn_example = refl

range_example : inetnum_to_cidr (codes "2.57.3.0 - 2.57.3.255") ≡ ok (some (codes "2.57.3.0/24"))
unfolding inetnum_to_cidr
range_example = refl

mixed_example : inetnum_to_cidr (codes "2.57.3.0 - ::1") ≡ raise type_error
unfolding inetnum_to_cidr
mixed_example = refl
